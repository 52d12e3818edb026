-- ===== src/Agent/Cache/Search.antt =====
-- The local search and the collection outboxes of crates/amcp-agent/src/main.rs.
use Prim.Native.String
use Prim.Native.String.append
use Prim.Native.Char.{code}
use agent_memory_control_pla.Prelude.{
  ℕ, ◌+◌, ◌≤◌, ◌<◌, String, ◌≡◌, refl, ◌⊎◌, inl, inr, Bool, true, false, not, Option, List, [], ◌∷◌,
  ◌++◌, arith, ltb, leb, ◌=ₜ◌, max, length, keep, All, All-append, length-append, Bool-cases,
}
use agent_memory_control_pla.Prelude.Members.{In}
use agent_memory_control_pla.Prelude.Keyed.{
  length-keep_last-le, Distinct, has_key, Distinct-keep_last, Distinct-append_one, Distinct-keep,
}
use agent_memory_control_pla.Prelude.Result.{ok}
use agent_memory_control_pla.Prelude.Texts.{byte_len, len_utf8}
use agent_memory_control_pla.Domain.Kinds.{Scope}
use agent_memory_control_pla.Domain.Records.{ArtifactRecord, CollectionBatch, LocalSearchHit}
use agent_memory_control_pla.Agent.Store.{Error, Stored}
use agent_memory_control_pla.Agent.Events.{clamp}
use agent_memory_control_pla.Agent.Cache.{
  Files, max_batches, push_batch, prefix_below, max_preview_bytes, bounded_local_preview, terms_of,
  is_hit, hit_of, scan_artifacts, scan_providers, search_collection_cache,
}

-- Where a hit comes from: an artifact of the cached collection of a searched provider, which has the
-- provider's id, the scope's project if it names one, and all the terms of the query.
pub record Found (caches : Files CollectionBatch) (provider_ids : List String)
    (terms : List (List ℕ)) (scope : Option Scope) (hit : LocalSearchHit) : Type 0 where
  pub provider_id : String
  pub batch : CollectionBatch
  pub artifact : ArtifactRecord
  pub searched : In provider_id provider_ids
  pub cached : caches provider_id ≡ Stored.holds batch
  pub collected : In artifact batch.artifacts
  pub matched : is_hit provider_id terms scope artifact ≡ true
  pub same : hit ≡ hit_of artifact

stored_cases :
    (file : Stored CollectionBatch)
    → (file ≡ Stored.absent)
      ⊎ ((batch : CollectionBatch) × (file ≡ Stored.holds batch))
      ⊎ ((e : Error) × (file ≡ Stored.broken e))
stored_cases Stored.absent = inl refl
stored_cases (Stored.holds batch) = inr (inl (batch, refl))
stored_cases (Stored.broken e) = inr (inr (e, refl))

module _ (P : LocalSearchHit → Type 0) (most : ℕ) (test : ArtifactRecord → Bool)
    (positive : 0 < most) where
  -- The results stay within the bound, below it while the loop goes on, and satisfy `P`.
  scan_artifacts-bounds :
      (artifacts : List ArtifactRecord) (results : List LocalSearchHit)
      → ((a : ArtifactRecord) → In a artifacts → test a ≡ true → P (hit_of a))
      → length results < most
      → All P results
      → let scanned = scan_artifacts most test artifacts results in
        (length scanned.0 ≤ most) × (scanned.1 ≡ false → length scanned.0 < most) × All P scanned.0
  unfolding scan_artifacts
  scan_artifacts-bounds [] results sound room all = (omega arith, λ e. room, all)
  scan_artifacts-bounds (a ∷ artifacts) results sound room all = elim (Bool-cases (test a)) [
    | inr misses ↦
        rw misses (scan_artifacts-bounds artifacts results (λ b i t. sound b (inr i) t) room all)
    | inl hits ↦
        let more : List LocalSearchHit = results ++ hit_of a ∷ [] in
        let all' : All P more =
          All-append P results (hit_of a ∷ []) all (sound a (inl refl) hits, tt) in
        let count = length-append results (hit_of a ∷ []) in
        elim (Bool-cases (leb most (length more))) [
          | inl full ↦ rw (hits, full) (omega (arith, count), λ e. cc, all')
          | inr free ↦
              rw (hits, free)
                (scan_artifacts-bounds artifacts more (λ b i t. sound b (inr i) t) (ground arith)
                  all')
        ]
  ]

module _ (caches : Files CollectionBatch) (terms : List (List ℕ)) (scope : Option Scope) (most : ℕ)
    (positive : 0 < most) (all_ids : List String) where
  scan_providers-bounds :
      (provider_ids : List String) (results : List LocalSearchHit) (available : Bool)
      (found : List LocalSearchHit) (flag : Bool)
      → ((id : String) → In id provider_ids → In id all_ids)
      → length results < most
      → All (Found caches all_ids terms scope) results
      → scan_providers caches terms scope most provider_ids results available ≡ ok (found, flag)
      → (length found ≤ most) × All (Found caches all_ids terms scope) found
  unfolding scan_providers
  scan_providers-bounds [] results available found flag sub room all e =
      let same : results ≡ found = cc e in rw (← same) (omega arith, all)
  scan_providers-bounds (id ∷ ids) results available found flag sub room all e =
      elim (stored_cases (caches id)) [
        | inr (inr (x, broken)) ↦ absurd (let e' = rw (broken, scan_providers) at e in ground arith)
        | inl absent ↦
            scan_providers-bounds ids results available found flag (λ j i. sub j (inr i)) room all
              (rw (absent, scan_providers) at e)
        | inr (inl (batch, cached)) ↦
            let scanned = scan_artifacts most (is_hit id terms scope) batch.artifacts results in
            let h =
              scan_artifacts-bounds (Found caches all_ids terms scope) most (is_hit id terms scope)
                positive batch.artifacts results
                (λ a i t. record {
                  provider_id = id;
                  batch = batch;
                  artifact = a;
                  searched = sub id (inl refl);
                  cached = cached;
                  collected = i;
                  matched = t;
                  same = refl;
                })
                room all in
            elim (Bool-cases scanned.1) [
              | inl full ↦
                  let same : scanned.0 ≡ found = cc (rw (cached, scan_providers, full) at e) in
                  rw (← same) (h.0, h.2)
              | inr more ↦
                  scan_providers-bounds ids scanned.0 true found flag (λ j i. sub j (inr i))
                    (h.1 more) h.2 (rw (cached, scan_providers, more) at e)
            ]
      ]

-- A local search that succeeds returns at most the limit, which counts as 1 to 50, and only hits from
-- artifacts of the cached collections of the searched providers that match the scope's project and
-- every term of the query.
pub search_collection_cache-Found :
    (caches : Files CollectionBatch) (provider_ids : List String) (query : String)
    (scope : Option Scope) (limit : ℕ) (found : List LocalSearchHit) (available : Bool)
    → search_collection_cache caches provider_ids query scope limit ≡ ok (found, available)
    → (length found ≤ clamp 1 50 limit)
      × All (Found caches provider_ids (terms_of query) scope) found
unfolding search_collection_cache
search_collection_cache-Found caches provider_ids query scope limit found available e =
    scan_providers-bounds caches (terms_of query) scope (clamp 1 50 limit) (omega arith)
      provider_ids provider_ids [] false found available (λ id i. i) (omega arith) tt e

-- An outbox of collections: one batch of a run, and at most eight batches.
pub record IsCollectionQueue (batches : List CollectionBatch) : Type 0 where
  pub distinct : Distinct (λ (b : CollectionBatch). b.collection_run_id) batches
  pub bounded : length batches ≤ max_batches

keep-not_key :
    (batch : CollectionBatch) (batches : List CollectionBatch)
    → has_key
        (λ (b : CollectionBatch). b.collection_run_id)
        batch.collection_run_id
        (keep (λ queued. not (queued.collection_run_id =ₜ batch.collection_run_id)) batches)
      ≡ false
keep-not_key batch [] = refl
keep-not_key batch (b ∷ batches) = ground (arith, keep-not_key batch batches)

-- A collection that is put into an outbox of at most eight different runs leaves one of at most
-- eight different runs: it replaces the collection of the same run.
pub push_batch-IsCollectionQueue :
    (batch : CollectionBatch) (batches : List CollectionBatch)
    → IsCollectionQueue batches
    → IsCollectionQueue (push_batch batch batches)
unfolding push_batch
push_batch-IsCollectionQueue batch batches h =
    let others =
      keep (λ queued. not (queued.collection_run_id =ₜ batch.collection_run_id)) batches in
    record {
      distinct =
          Distinct-keep_last (λ (b : CollectionBatch). b.collection_run_id) max_batches _
            (Distinct-append_one (λ (b : CollectionBatch). b.collection_run_id) others batch
              (Distinct-keep (λ (b : CollectionBatch). b.collection_run_id) _ batches h.distinct)
              (keep-not_key batch batches));
      bounded = length-keep_last-le max_batches (others ++ batch ∷ []);
    }

len_utf8-le : (c : ℕ) → len_utf8 c ≤ 4
len_utf8-le c = ground arith

byte_len-append : (s t : String) → byte_len (String.◌++◌ s t) ≡ byte_len s + byte_len t
unfolding byte_len
byte_len-append String.[] t = rw append.nil (omega arith)
byte_len-append (String.◌∷◌ c s) t = rw append.cons (omega (arith, byte_len-append s t))

byte_len-prefix_below :
    (bound index : ℕ) (s : String)
    → index + byte_len (prefix_below bound index s) ≤ max index (bound + 3)
unfolding byte_len prefix_below
byte_len-prefix_below bound index String.[] = omega arith
byte_len-prefix_below bound index (String.◌∷◌ c s) =
    let rest = byte_len-prefix_below bound (index + len_utf8 (code c)) s in
    let small = len_utf8-le (code c) in
    elim (Bool-cases (ltb index bound)) [
      | inl below ↦ rw below (let lt : index < bound = ground arith in omega (arith, rest, small))
      | inr above ↦ rw above (omega arith)
    ]

-- A preview of a content of any length has at most 1206 bytes of UTF-8.
pub byte_len-bounded_local_preview-le :
    (content : String) → byte_len (bounded_local_preview content) ≤ 1206
unfolding bounded_local_preview
byte_len-bounded_local_preview-le content =
    let cut = byte_len-prefix_below max_preview_bytes 0 content in
    let joined = byte_len-append (prefix_below max_preview_bytes 0 content) "…" in
    let mark : byte_len "…" ≡ 3 = unfold byte_len in refl in
    elim (Bool-cases (leb (byte_len content) max_preview_bytes)) [
      | inl short ↦
          rw short (let le : byte_len content ≤ max_preview_bytes = ground arith in omega arith)
      | inr long ↦ rw long (omega (arith, cut, joined, mark))
    ]
