-- ===== src/Rag/Store/Ids.antt =====
-- The chunk ids of an index of crates/amcp-rag/src/lib.rs: `index` never makes the same id twice, so
-- the table of the chunks takes them all.
use agent_memory_control_pla.Prelude.{
  ℕ, suc, String, ◌≡◌, refl, ◌∙◌, inl, inr, Bool, true, false, not, ◌||◌, Option, List, [], ◌∷◌,
  ◌++◌, arith, any, ltb, keep, All, All-append, Bool-cases,
}
use agent_memory_control_pla.Prelude.Members.{All_map, All-keep_both, All_In}
use agent_memory_control_pla.Prelude.Result.{Result-cases}
use agent_memory_control_pla.Rag.Types.{
  RagConfig, RagDocument, EmbeddingProvider, IndexedChunk, LexicalRagManager,
}
use agent_memory_control_pla.Rag.Index.{
  embed_text, chunk_of, is_indexable, is_of, push_slices, slices_of, index_documents, index,
}
use agent_memory_control_pla.Rag.Store.{has_id}

abbrev pub DistinctIds : List IndexedChunk → Type 0
DistinctIds [] = Unit {0}
DistinctIds (c ∷ cs) = (any (has_id c) cs ≡ false) × DistinctIds cs

any-append_one :
    (p : IndexedChunk → Bool) (cs : List IndexedChunk) (d : IndexedChunk)
    → any p (cs ++ d ∷ []) ≡ (any p cs || p d)
any-append_one p [] d = ground arith
any-append_one p (c ∷ cs) d = ground (arith, any-append_one p cs d)

pub DistinctIds-append_one :
    (cs : List IndexedChunk) (d : IndexedChunk)
    → DistinctIds cs
    → All (λ c. has_id c d ≡ false) cs
    → DistinctIds (cs ++ d ∷ [])
DistinctIds-append_one [] d h k = (refl, tt)
DistinctIds-append_one (c ∷ cs) d h k =
    (any-append_one (has_id c) cs d ∙ rw (h.0, k.0) refl, DistinctIds-append_one cs d h.1 k.1)

any_kept_out :
    (p q : IndexedChunk → Bool) (cs : List IndexedChunk)
    → any p cs ≡ false
    → any p (keep q cs) ≡ false
any_kept_out p q [] h = refl
any_kept_out p q (c ∷ cs) h = ground (arith, any_kept_out p q cs)

DistinctIds-keep :
    (q : IndexedChunk → Bool) (cs : List IndexedChunk) → DistinctIds cs → DistinctIds (keep q cs)
DistinctIds-keep q [] h = tt
DistinctIds-keep q (c ∷ cs) h =
    let rest = DistinctIds-keep q cs h.1 in ground (arith, any_kept_out (has_id c) q cs h.0, rest)

-- A chunk of the record stands before the index.
abbrev Below : String → ℕ → IndexedChunk → Type 0
Below record_id index c = (not (is_of record_id c) || ltb c.chunk_index index) ≡ true

module _ (from_utf8_lossy : List ℕ → String) (provider : Option EmbeddingProvider) (now : ℕ) where
  DistinctIds-push_slices :
      (document : RagDocument) (index : ℕ) (slices : List (List ℕ)) (chunks : List IndexedChunk)
      (indexed : ℕ)
      → DistinctIds chunks
      → All (Below document.record_id index) chunks
      → DistinctIds
          (push_slices from_utf8_lossy provider now document index slices chunks indexed).1
  unfolding push_slices chunk_of
  DistinctIds-push_slices document index [] chunks indexed h k = h
  DistinctIds-push_slices document index (bytes ∷ rest) chunks indexed h k =
      elim (Result-cases (embed_text provider (from_utf8_lossy bytes))) [
        | inl (e, failed) ↦ rw (failed, push_slices) h
        | inr (embedding, embedded) ↦
            let new = chunk_of provider now document index (from_utf8_lossy bytes) embedding in
            let distinct =
              DistinctIds-append_one chunks new h
                (All_map (λ c below. ground (arith, below)) chunks k) in
            let below =
              All-append (Below document.record_id (suc index)) chunks (new ∷ [])
                (All_map (λ c b. ground (arith, b)) chunks k) (ground arith, tt) in
            rw (embedded, push_slices)
              (DistinctIds-push_slices document (suc index) rest (chunks ++ new ∷ []) (suc indexed)
                distinct below)
      ]

  DistinctIds-index_documents :
      (config : RagConfig) (documents : List RagDocument) (chunks : List IndexedChunk) (indexed : ℕ)
      → DistinctIds chunks
      → DistinctIds (index_documents from_utf8_lossy provider now config documents chunks indexed).1
  unfolding index_documents
  DistinctIds-index_documents config [] chunks indexed h = h
  DistinctIds-index_documents config (document ∷ documents) chunks indexed h =
      elim (Bool-cases (is_indexable config document)) [
        | inr skipped ↦
            rw (skipped, index_documents)
              (DistinctIds-index_documents config documents chunks indexed h)
        | inl taken ↦
            let others : IndexedChunk → Bool = λ chunk. not (is_of document.record_id chunk) in
            let none_left =
              All_map (λ c k. ground (arith, k.1)) (keep others chunks)
                (All-keep_both (λ c. Unit {0}) others chunks
                  (All_map (λ c k. tt) chunks (All_In chunks))) in
            let pushed =
              DistinctIds-push_slices document 0 (slices_of config document) (keep others chunks)
                indexed (DistinctIds-keep others chunks h) none_left in
            elim (Result-cases
              (push_slices from_utf8_lossy provider now document 0 (slices_of config document)
                (keep others chunks) indexed).0) [
                  | inl (error, failed) ↦ rw (taken, index_documents) (rw failed pushed)
                  | inr (indexed', done) ↦
                      rw (taken, index_documents)
                        (rw done (DistinctIds-index_documents config documents _ indexed' pushed))
                ]
      ]

-- Indexing keeps the ids of the chunks apart, also if an embedding fails halfway.
pub index-DistinctIds :
    (from_utf8_lossy : List ℕ → String) (now : ℕ) (documents : List RagDocument)
    (manager : LexicalRagManager)
    → DistinctIds manager.chunks
    → DistinctIds (index from_utf8_lossy now documents manager).1.chunks
unfolding index
index-DistinctIds from_utf8_lossy now documents manager h =
    let indexed =
      DistinctIds-index_documents from_utf8_lossy manager.embedding_provider now manager.config
        documents manager.chunks 0 h in
    ground (arith, h, indexed)
