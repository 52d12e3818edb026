-- ===== src/Rag/Store/Runs.antt =====
-- The retrieval runs of crates/amcp-rag/src/lib.rs: `record_retrieval`, of which the newest 1000 are
-- kept, and `stats`. Times are numbers: their texts have the same order.
use Prim.Native.Nat.{compare}
use Prim.Native.String
use mathlib.Core.List.{append-nil}
use agent_memory_control_pla.Prelude.{
  ℕ, ◌+◌, ◌≤◌, String, ◌≡◌, refl, Bool, false, not, Option, none, some, List, [], ◌∷◌, ◌++◌, arith,
  any, ◌=ₜ◌, if◌then◌else◌, length, take, drop, keep, map, min, max, keep-append, length-take,
  length-keep-le, eq_iff, sym, ◌∙◌, ap, keep_none, inl, inr, take-append-drop,
}
use agent_memory_control_pla.Prelude.Members.{In, All_In, All_map}
use agent_memory_control_pla.Prelude.Result.{Result, ok, err}
use agent_memory_control_pla.Domain.Kinds.{Scope}
use agent_memory_control_pla.Agent.Store.{Error}
use agent_memory_control_pla.Rag.Types.{LexicalRagManager, rag_policy_version}
use agent_memory_control_pla.Rag.Config.{done_unless}
use agent_memory_control_pla.Rag.Index.{provider_id, provider_model}
use agent_memory_control_pla.Rag.Retrieve.{then_with, is_greater, citation_coverage_basis_points}
use agent_memory_control_pla.Rag.Store.{RetrievalRun, PersistentRagIndex, to_set}

-- `ORDER BY created_at DESC, run_id DESC`
abbrev pub is_older : RetrievalRun → RetrievalRun → Bool
is_older r s =
    is_greater (then_with (compare s.created_at r.created_at) (String.compare s.run_id r.run_id))

unfoldable pub insert_newest : RetrievalRun → List RetrievalRun → List RetrievalRun
insert_newest r [] = r ∷ []
insert_newest r (s ∷ ss) =
    let rest = insert_newest r ss in if is_older r s then s ∷ rest else r ∷ s ∷ ss

unfoldable pub newest_first : List RetrievalRun → List RetrievalRun
unfolding insert_newest
newest_first [] = []
newest_first (r ∷ rs) = insert_newest r (newest_first rs)

abbrev pub has_run : List RetrievalRun → RetrievalRun → Bool
has_run runs r = any (λ s. s.run_id =ₜ r.run_id) runs

-- `DELETE FROM rag_retrieval_runs WHERE run_id IN (…)`
unfoldable pub delete_oldest : List RetrievalRun → List RetrievalRun
unfolding newest_first
delete_oldest runs =
    let oldest = drop 1000 (newest_first runs) in keep (λ r. not (has_run oldest r)) runs

-- The two statements are no transaction: `fault` is the error of the second one.
unfoldable pub insert_run :
    Option Error
    → Option Error
    → RetrievalRun
    → PersistentRagIndex
    → Result Error (Unit {0}) × PersistentRagIndex
unfolding delete_oldest
insert_run fault harden run index =
    if has_run index.runs run
    then (err "UNIQUE constraint failed: rag_retrieval_runs.run_id", index)
    else elim fault [
      | some e ↦ (err e, record index { runs = index.runs ++ run ∷ [] })
      | none ↦
          (done_unless harden tt, record index { runs = delete_oldest (index.runs ++ run ∷ []) })
    ]

-- `LexicalRagManager::record_retrieval` and the one of the index that it calls.
unfoldable pub record_retrieval :
    Option Error
    → Option Error
    → LexicalRagManager
    → String
    → ℕ
    → Scope
    → ℕ
    → ℕ
    → ℕ
    → PersistentRagIndex
    → Result Error (Unit {0}) × PersistentRagIndex
unfolding insert_run
record_retrieval fault harden manager run_id now scope context_item_count citation_count duration_ms
      index =
    insert_run fault harden
      (record {
        run_id = run_id;
        scope = scope;
        embedding_provider = provider_id manager.embedding_provider;
        embedding_model = provider_model manager.embedding_provider;
        result_count = context_item_count;
        citation_count = citation_count;
        duration_ms = min duration_ms 9223372036854775807;
        policy_version = rag_policy_version;
        created_at = now;
      })
      index

pub record RagIndexStats : Type 0 where
  pub chunk_count : ℕ
  pub source_count : ℕ
  pub retrieval_run_count : ℕ
  pub average_retrieval_latency_ms : Option ℕ
  pub retrieval_context_item_count : ℕ
  pub retrieval_citation_count : ℕ
  pub retrieval_citation_coverage_basis_points : ℕ
  pub oldest_indexed_at : Option ℕ
  pub newest_indexed_at : Option ℕ

-- `COALESCE(SUM(…), 0)`, `MIN` and `MAX`.
abbrev pub sum : List ℕ → ℕ
sum [] = 0
sum (n ∷ ns) = n + sum ns

abbrev pub extreme : (ℕ → ℕ → ℕ) → List ℕ → Option ℕ
extreme f [] = none
extreme f (n ∷ ns) = elim (extreme f ns) [ none ↦ some n | some m ↦ some (f n m) ]

-- The first argument is `AVG`, rounded.
unfoldable pub stats : (List ℕ → Option ℕ) → PersistentRagIndex → RagIndexStats
stats average index =
    let context_items = sum (map (λ r. r.result_count) index.runs) in
    let citations = sum (map (λ r. r.citation_count) index.runs) in
    let times = map (λ c. c.indexed_at) index.chunks in
    record {
      chunk_count = length index.chunks;
      source_count = length (to_set (map (λ c. c.record_id) index.chunks));
      retrieval_run_count = length index.runs;
      average_retrieval_latency_ms = average (map (λ r. r.duration_ms) index.runs);
      retrieval_context_item_count = context_items;
      retrieval_citation_count = citations;
      retrieval_citation_coverage_basis_points =
          citation_coverage_basis_points citations context_items;
      oldest_indexed_at = extreme min times;
      newest_indexed_at = extreme max times;
    }

module _ (p : RetrievalRun → Bool) where
  length-insert_newest :
      (r : RetrievalRun) (rs : List RetrievalRun)
      → length (keep p (insert_newest r rs)) ≡ length (keep p (r ∷ rs))
  unfolding insert_newest
  length-insert_newest r [] = refl
  length-insert_newest r (s ∷ ss) = ground (arith, length-insert_newest r ss)

  length-newest_first :
      (rs : List RetrievalRun) → length (keep p (newest_first rs)) ≡ length (keep p rs)
  unfolding newest_first
  length-newest_first [] = refl
  length-newest_first (r ∷ rs) =
      ground (arith, length-insert_newest r (newest_first rs), length-newest_first rs)

In-has_run :
    (r : RetrievalRun) (runs : List RetrievalRun) → In r runs → not (has_run runs r) ≡ false
In-has_run r [] h = absurd h
In-has_run r (s ∷ runs) (inl same) = rw (same, (eq_iff r.run_id r.run_id).1 refl) refl
In-has_run r (s ∷ runs) (inr h) = ground (arith, In-has_run r runs h)

length-delete_oldest : (runs : List RetrievalRun) → length (delete_oldest runs) ≤ 1000
unfolding delete_oldest
length-delete_oldest runs =
    let sorted = newest_first runs in
    let oldest = drop 1000 sorted in
    let kept : RetrievalRun → Bool = λ r. not (has_run oldest r) in
    let gone : keep kept oldest ≡ [] =
      keep_none kept oldest (All_map (λ r. In-has_run r oldest) oldest (All_In oldest)) in
    let split : keep kept sorted ≡ keep kept (take 1000 sorted) =
      ap (keep kept) (sym (take-append-drop 1000 sorted))
      ∙ (keep-append kept (take 1000 sorted) oldest ∙ rw (gone, append-nil) refl) in
    let same_length : length (keep kept (take 1000 sorted)) ≡ length (keep kept runs) =
      sym (ap length split) ∙ length-newest_first kept runs in
    omega (arith, length-keep-le kept (take 1000 sorted), length-take 1000 sorted)

insert_run_bounded :
    (fault harden : Option Error) (run : RetrievalRun) (index : PersistentRagIndex)
    → (insert_run fault harden run index).0 ≡ ok tt
    → length (insert_run fault harden run index).1.runs ≤ 1000
unfolding insert_run
insert_run_bounded (some e) harden run index h = ground arith
insert_run_bounded none harden run index h =
    ground (arith, length-delete_oldest (index.runs ++ run ∷ []))

-- Whenever a retrieval is recorded without an error, at most 1000 runs are left.
pub record_retrieval_bounded :
    (fault harden : Option Error) (manager : LexicalRagManager) (run_id : String) (now : ℕ)
    (scope : Scope) (context_item_count citation_count duration_ms : ℕ) (index : PersistentRagIndex)
    → (record_retrieval fault harden manager run_id now scope context_item_count citation_count
        duration_ms index).0
      ≡ ok tt
    → length
        (record_retrieval fault harden manager run_id now scope context_item_count citation_count
          duration_ms index).1.runs
      ≤ 1000
unfolding record_retrieval
record_retrieval_bounded fault harden manager run_id now scope context_item_count citation_count
      duration_ms index h =
    insert_run_bounded fault harden _ index h
