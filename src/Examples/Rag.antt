-- ===== src/Examples/Rag.antt =====
-- An index of two records, its retrieval and its table.
use Prim.Native.Nat.{compare}
use agent_memory_control_pla.Prelude.{
  ℕ, ◌+◌, ◌≤◌, ◌<◌, ◌*◌, String, ◌≡◌, refl, Bool, true, false, Option, none, some, List, [], ◌∷◌,
  ◌==◌, ◌||◌, if◌then◌else◌, length, leb, keep, map, All, max,
}
use agent_memory_control_pla.Prelude.Result.{ok}
use agent_memory_control_pla.Prelude.Texts.{as_bytes, words_from, has_part}
use agent_memory_control_pla.Domain.Kinds.{SensitivityClass, LifecycleState}
use agent_memory_control_pla.Rag.Types.{
  RagConfig, RagDocument, Embedding, EmbeddingProvider, IndexedChunk, LexicalRagManager,
  RetrievalContext,
}
use agent_memory_control_pla.Rag.Config.{default, scope_allowed, scope_matches, done_unless}
use agent_memory_control_pla.Rag.Index.{
  index, push_slices, chunk_of, is_indexable, is_of, slices, slices_of,
}
use agent_memory_control_pla.Rag.Index.Latest.{latest, index-latest}
use agent_memory_control_pla.Rag.Index.Slices.{concat, slices_of_whole}
use agent_memory_control_pla.Rag.Retrieve.{
  Numerics, Ranked, retrieve, retrieval_context, score, cosine_similarity, sort_ranked,
  insert_ranked, compare_ranked, select, context_of, citation_of,
}
use agent_memory_control_pla.Rag.Retrieve.Cited.{Retrievable, retrieve-Retrievable}
use agent_memory_control_pla.Rag.Retrieve.Order.{IsOrdered, IsComparable, IsRanked, select-IsRanked}
use agent_memory_control_pla.Rag.Store.{
  PersistentRagIndex, persist_to_index, load_from_index, invalidate_stale_sources, is_stale,
  refreshed,
}
use agent_memory_control_pla.Rag.Store.Ids.{DistinctIds, index-DistinctIds}
use agent_memory_control_pla.Rag.Store.Persist.{persist-load}
use agent_memory_control_pla.Rag.Store.Stale.{is_fresh, invalidate_stale_sources_lem}
use agent_memory_control_pla.Rag.Store.Runs.{record_retrieval, insert_run, record_retrieval_bounded}
use agent_memory_control_pla.Examples.Data.{scope}

abbrev from_utf8_lossy : List ℕ → String
from_utf8_lossy bytes = "text"

abbrev embedded : String → Option Embedding
embedded text = some (1 ∷ 2 ∷ [])

abbrev provider : EmbeddingProvider
provider = record {
  descriptor = record { id = "local-hash"; model = "m"; dimensions = 2 };
  embed = λ text. ok (1 ∷ 2 ∷ []);
}

abbrev config : RagConfig
config = record default { enabled = true; allowed_scopes = scope ∷ []; chunk_size = 2 }

abbrev empty_manager : LexicalRagManager
empty_manager = record { config = config; chunks = []; embedding_provider = some provider }

abbrev document : String → String → LifecycleState → RagDocument
document id content lifecycle = record {
  record_id = id;
  scope = scope;
  title = "t";
  content = content;
  source_reference = id;
  source_hash = content;
  sensitivity = SensitivityClass.internal;
  lifecycle = lifecycle;
}

-- The second version of "a" is not active.
abbrev documents : List RagDocument
documents =
    document "a" "abc" LifecycleState.active
    ∷ document "b" "d" LifecycleState.active
    ∷ document "a" "e" LifecycleState.stale
    ∷ []

abbrev manager : LexicalRagManager
manager = (index from_utf8_lossy 7 documents empty_manager).1

indexed_chunks : length manager.chunks ≡ 3
unfolding index is_indexable scope_allowed scope_matches push_slices slices as_bytes chunk_of
indexed_chunks = refl

index-latest_example :
    (n : ℕ) × ((index from_utf8_lossy 7 documents empty_manager).0 ≡ ok n)
    × (keep (is_of "a") (index from_utf8_lossy 7 documents empty_manager).1.chunks
        ≡ latest from_utf8_lossy
            (some provider)
            7
            embedded
            config
            documents
            "a"
            (keep (is_of "a") []))
index-latest_example =
    index-latest from_utf8_lossy 7 embedded documents empty_manager "a" (λ text. refl) refl

slices_of_whole_example :
    (concat (slices_of config (document "a" "abc" LifecycleState.active)) ≡ as_bytes "abc")
    × All
        (λ slice. (0 < length slice) × (length slice ≤ max 2 1))
        (slices_of config (document "a" "abc" LifecycleState.active))
slices_of_whole_example = slices_of_whole config (document "a" "abc" LifecycleState.active)

index-DistinctIds_example : DistinctIds (index from_utf8_lossy 7 documents empty_manager).1.chunks
index-DistinctIds_example = index-DistinctIds from_utf8_lossy 7 documents empty_manager tt

-- The pattern 99 stands for a NaN.
abbrev is_nan : ℕ → Bool
is_nan n = n == 99

abbrev numerics : Numerics
numerics = record {
  to_lowercase = λ codes. codes;
  zero_score = 0;
  times = λ a b. a * b;
  sum = λ ns. length ns;
  is_relevant = λ score. leb 1 score;
  partial_cmp = λ a b. if is_nan a || is_nan b then none else some (compare a b);
}

abbrev ordered : IsOrdered numerics
ordered = record { is_nan = is_nan; rank = λ n. n; ordered = λ a b m n. rw (m, n) refl }

-- A manager with given chunks.
abbrev chunk : String → ℕ → IndexedChunk
chunk id n =
    chunk_of (some provider) 7 (document id "abc" LifecycleState.active) n "some text"
      (some (1 ∷ 2 ∷ []))

abbrev filled : LexicalRagManager
filled = record {
  config = config;
  chunks = chunk "a" 0 ∷ chunk "a" 1 ∷ chunk "b" 0 ∷ [];
  embedding_provider = some provider;
}

no_nan : All (IsComparable numerics ordered (some (1 ∷ 2 ∷ []))) filled.chunks
unfolding chunk_of cosine_similarity
no_nan = (refl, (refl, (refl, tt)))

select-IsRanked_example :
    IsRanked numerics ordered (select numerics filled "text" (some (1 ∷ 2 ∷ [])) scope 2)
select-IsRanked_example =
    select-IsRanked numerics ordered filled "text" (some (1 ∷ 2 ∷ [])) scope 2 no_nan

-- The context of the two passages that come first.
abbrev answer : RetrievalContext
answer =
    retrieval_context numerics filled "text" scope
      (select numerics filled "text" (some (1 ∷ 2 ∷ [])) scope 2)

retrieves : retrieve numerics filled "text" scope 2 ≡ ok answer
unfolding retrieve
retrieves = refl

passages : length answer.context ≡ 2
unfolding select score cosine_similarity sort_ranked insert_ranked compare_ranked scope_matches
    chunk_of context_of words_from has_part
passages = refl

retrieve-Retrievable_example :
    (selected : List Ranked) × (answer.context ≡ map (context_of numerics) selected)
    × (answer.citations ≡ map (citation_of numerics) selected)
    × (length selected ≤ 2)
    × All (λ r. Retrievable numerics filled "text" scope r.chunk) selected
retrieve-Retrievable_example =
    retrieve-Retrievable numerics filled "text" scope 2 answer refl retrieves

abbrev stored : PersistentRagIndex
stored = record { chunks = []; runs = [] }

distinct : DistinctIds filled.chunks
unfolding chunk_of
distinct = (refl, (refl, (refl, tt)))

persist-load_example :
    ((persist_to_index none none filled stored).0 ≡ done_unless none (length filled.chunks))
    × ((loaded : LexicalRagManager) × (load_from_index none config none
            (persist_to_index none none filled stored).1
          ≡ ok loaded)
        × ((p : IndexedChunk → Bool)
            → length (keep p loaded.chunks)
              ≡ length (
                  keep p (
                    map
                      (refreshed none)
                      (keep (λ c. scope_allowed config c.scope) filled.chunks)))))
persist-load_example = persist-load none filled stored config none distinct

abbrev full : PersistentRagIndex
full = record { chunks = filled.chunks; runs = [] }

-- The source of "a" has changed.
abbrev sources : List (String × String)
sources = ("a", "abd") ∷ ("b", "abc") ∷ []

invalidate_stale_sources_lem_example :
    (n : ℕ) × ((invalidate_stale_sources none none sources full).0 ≡ ok n)
    × (n + length (invalidate_stale_sources none none sources full).1.chunks ≡ 3)
    × ((invalidate_stale_sources none none sources full).1.chunks
        ≡ keep (is_fresh sources full.chunks) full.chunks)
    × All
        (λ chunk. is_stale sources chunk ≡ false)
        (invalidate_stale_sources none none sources full).1.chunks
invalidate_stale_sources_lem_example = invalidate_stale_sources_lem sources full

recorded : (record_retrieval none none filled "run-1" 9 scope 2 2 5 full).0 ≡ ok tt
unfolding record_retrieval insert_run
recorded = refl

record_retrieval_bounded_example :
    length (record_retrieval none none filled "run-1" 9 scope 2 2 5 full).1.runs ≤ 1000
record_retrieval_bounded_example =
    record_retrieval_bounded none none filled "run-1" 9 scope 2 2 5 full recorded
