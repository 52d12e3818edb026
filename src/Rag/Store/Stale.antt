-- ===== src/Rag/Store/Stale.antt =====
-- What `invalidate_stale_sources` of crates/amcp-rag/src/lib.rs leaves of the index.
use mathlib.Core.Path.{subst}
use agent_memory_control_pla.Prelude.{
  ℕ, ◌+◌, String, ◌≡◌, refl, sym, ◌∙◌, ap, inl, inr, Bool, true, false, not, ◌&&◌, none, List, [],
  ◌∷◌, arith, any, ◌==◌, eq_iff, length, keep, map, All, keep_all, keep-keep, keep_same,
  length-keep-not, Bool-cases,
}
use agent_memory_control_pla.Prelude.Members.{In, All_In, All_map, All-keep_both}
use agent_memory_control_pla.Prelude.Result.{ok}
use agent_memory_control_pla.Prelude.Texts.{contains}
use agent_memory_control_pla.Rag.Types.{IndexedChunk}
use agent_memory_control_pla.Rag.Config.{is_empty}
use agent_memory_control_pla.Rag.Index.{is_of}
use agent_memory_control_pla.Rag.Store.{
  PersistentRagIndex, insert_row, in_order, load_chunks, is_stale, to_set, stale_records,
  delete_records, invalidate_stale_sources,
}

module _ (p : IndexedChunk → Bool) where
  length-insert_row :
      (c : IndexedChunk) (cs : List IndexedChunk)
      → length (keep p (insert_row c cs)) ≡ length (keep p (c ∷ cs))
  unfolding insert_row
  length-insert_row c [] = refl
  length-insert_row c (d ∷ ds) = ground (arith, length-insert_row c ds)

  pub length-in_order :
      (cs : List IndexedChunk) → length (keep p (in_order cs)) ≡ length (keep p cs)
  unfolding in_order
  length-in_order [] = refl
  length-in_order (c ∷ cs) = ground (arith, length-insert_row c (in_order cs), length-in_order cs)

  any_kept : (cs : List IndexedChunk) → any p cs ≡ not (length (keep p cs) == 0)
  any_kept [] = refl
  any_kept (c ∷ cs) = ground (arith, any_kept cs)

abbrev pub listed : List String → IndexedChunk → Bool
listed record_ids chunk = contains record_ids chunk.record_id

contains-to_set : (xs : List String) (x : String) → contains (to_set xs) x ≡ contains xs x
contains-to_set [] x = refl
contains-to_set (y ∷ xs) x =
    ground (arith, contains-to_set xs x, contains-to_set xs y, eq_iff y x, eq_iff y y)

contains-map :
    (record_id : String) (cs : List IndexedChunk)
    → contains (map (λ chunk. chunk.record_id) cs) record_id ≡ any (is_of record_id) cs
contains-map record_id [] = refl
contains-map record_id (c ∷ cs) = ground (arith, contains-map record_id cs)

delete_records-keep :
    (record_ids : List String) (rows : List IndexedChunk) (removed : ℕ)
    → ((delete_records record_ids rows removed).1
        ≡ keep (λ chunk. not (listed record_ids chunk)) rows)
      × ((delete_records record_ids rows removed).0
            + length (keep (λ chunk. not (listed record_ids chunk)) rows)
          ≡ removed + length rows)
unfolding delete_records
delete_records-keep [] rows removed =
    let all =
      keep_all (λ chunk. not (listed [] chunk)) rows (All_map (λ c h. refl) rows (All_In rows)) in
    (sym all, rw all refl)
delete_records-keep (record_id ∷ record_ids) rows removed =
    let others : IndexedChunk → Bool = λ chunk. not (is_of record_id chunk) in
    let (rest, count) =
      delete_records-keep record_ids (keep others rows)
        (removed + length (keep (is_of record_id) rows)) in
    let both : keep (λ chunk. not (listed record_ids chunk)) (keep others rows)
        ≡ keep (λ chunk. not (listed (record_id ∷ record_ids) chunk)) rows =
      keep-keep (λ chunk. not (listed record_ids chunk)) others rows
      ∙ keep_same _ (λ chunk. not (listed (record_id ∷ record_ids) chunk))
          (λ c. ground (arith, eq_iff record_id c.record_id, eq_iff c.record_id record_id)) rows in
    (rest ∙ both, omega (arith, count, ap length both, length-keep-not (is_of record_id) rows))

-- A record none of whose chunks is stale.
abbrev pub is_fresh : List (String × String) → List IndexedChunk → IndexedChunk → Bool
is_fresh sources chunks chunk =
    not (any (λ d. is_stale sources d && is_of chunk.record_id d) chunks)

any-in_order : (p : IndexedChunk → Bool) (cs : List IndexedChunk) → any p (in_order cs) ≡ any p cs
any-in_order p cs = rw (any_kept p (in_order cs), any_kept p cs, length-in_order p cs) refl

any-keep :
    (p q : IndexedChunk → Bool) (cs : List IndexedChunk)
    → any p (keep q cs) ≡ any (λ c. q c && p c) cs
any-keep p q [] = refl
any-keep p q (c ∷ cs) = ground (arith, any-keep p q cs)

listed_stale :
    (sources : List (String × String)) (chunks : List IndexedChunk) (chunk : IndexedChunk)
    → not (listed (stale_records sources (in_order chunks)) chunk) ≡ is_fresh sources chunks chunk
unfolding stale_records
listed_stale sources chunks chunk =
    let stale = keep (is_stale sources) (in_order chunks) in
    ap not (
      contains-to_set (map (λ c. c.record_id) stale) chunk.record_id
      ∙ (contains-map chunk.record_id stale
          ∙ (any-keep (is_of chunk.record_id) (is_stale sources) (in_order chunks)
              ∙ any-in_order (λ d. is_stale sources d && is_of chunk.record_id d) chunks)))

no_records : (record_ids : List String) → is_empty record_ids ≡ true → record_ids ≡ []
no_records [] h = refl
no_records (x ∷ xs) h = cc

-- What the call does, whether or not a record is stale.
deleted :
    (sources : List (String × String)) (index : PersistentRagIndex)
    → ((invalidate_stale_sources none none sources index).0
        ≡ ok (delete_records (stale_records sources (in_order index.chunks)) index.chunks 0).0)
      × ((invalidate_stale_sources none none sources index).1.chunks
          ≡ (delete_records (stale_records sources (in_order index.chunks)) index.chunks 0).1)
unfolding invalidate_stale_sources load_chunks delete_records
deleted sources index =
    elim (Bool-cases (is_empty (stale_records sources (in_order index.chunks)))) [
      | inl h ↦ rw (no_records _ h, delete_records) (refl, refl)
      | inr h ↦ rw h (refl, refl)
    ]

not-true : {b : Bool} → not b ≡ true → b ≡ false
not-true h = ground arith

none_stale :
    (sources : List (String × String)) (chunks : List IndexedChunk) (chunk : IndexedChunk)
    → In chunk chunks
    → any (λ d. is_stale sources d && is_of chunk.record_id d) chunks ≡ false
    → is_stale sources chunk ≡ false
none_stale sources [] chunk h fresh = absurd h
none_stale sources (c ∷ chunks) chunk (inl same) fresh =
    subst (λ d. is_stale sources d ≡ false) same
      (ground (arith, ap (λ d. d.record_id) same, eq_iff c.record_id chunk.record_id))
none_stale sources (c ∷ chunks) chunk (inr h) fresh =
    none_stale sources chunks chunk h (ground arith)

-- Without a fault, exactly the chunks of the records that have no stale chunk are left, so each chunk
-- left has the hash of its current source, and the number removed is what the index has lost.
pub invalidate_stale_sources_lem :
    (sources : List (String × String)) (index : PersistentRagIndex)
    → (n : ℕ) × ((invalidate_stale_sources none none sources index).0 ≡ ok n)
      × (n + length (invalidate_stale_sources none none sources index).1.chunks
          ≡ length index.chunks)
      × ((invalidate_stale_sources none none sources index).1.chunks
          ≡ keep (is_fresh sources index.chunks) index.chunks)
      × All
          (λ chunk. is_stale sources chunk ≡ false)
          (invalidate_stale_sources none none sources index).1.chunks
invalidate_stale_sources_lem sources index =
    let (result, rows) = deleted sources index in
    let (kept, count) =
      delete_records-keep (stale_records sources (in_order index.chunks)) index.chunks 0 in
    let left =
      keep_same _ (is_fresh sources index.chunks) (listed_stale sources index.chunks)
        index.chunks in
    let chunks = rows ∙ (kept ∙ left) in
    (
      (delete_records (stale_records sources (in_order index.chunks)) index.chunks 0).0,
      result,
      omega (arith, count, ap length left, ap length chunks),
      chunks,
      rw chunks (
          All_map (λ c h. none_stale sources index.chunks c h.0 (not-true h.1)) _
            (All-keep_both (λ c. In c index.chunks) (is_fresh sources index.chunks) index.chunks
              (All_In index.chunks))),
    )
