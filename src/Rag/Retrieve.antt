-- ===== src/Rag/Retrieve.antt =====
-- `retrieve` of crates/amcp-rag/src/lib.rs, `evaluate`, and the manager of a disabled index.
pub mod Cited
pub mod Order
use Prim.Native.Nat.{compare, Ordering}
use Prim.Native.String
use mathlib.Core.List
use agent_memory_control_pla.Prelude.{
  ℕ, suc, ◌+◌, ◌*◌, ◌/◌, min, String, Bool, true, false, not, ◌&&◌, ◌||◌, Option, none, some, List,
  [], ◌∷◌, map, ltb, ◌==◌, ◌=ₜ◌, if◌then◌else◌, length, take, keep,
}
use agent_memory_control_pla.Prelude.Result.{Result, ok, err}
use agent_memory_control_pla.Prelude.Texts.{contains, codes, words_from, has_part}
use agent_memory_control_pla.Domain.Kinds.{Scope}
use agent_memory_control_pla.Agent.Store.{Error}
use agent_memory_control_pla.Rag.Types.{
  RagConfig, RagCitation, RetrievalContext, Embedding, EmbeddingProvider, IndexedChunk,
  LexicalRagManager, RagEvaluationCase, RagEvaluationCaseResult, RagEvaluationReport,
  rag_policy_version,
}
use agent_memory_control_pla.Rag.Config.{scope_matches}
use agent_memory_control_pla.Rag.Index.{embed_text, is_active, is_secret_like}

-- Rust's tables of lower case, on code points, and its arithmetic of `f32`: the zero, products, the sum
-- of an iterator, the comparison with 0.05 and `partial_cmp`.
pub record Numerics : Type 0 where
  pub to_lowercase : List ℕ → List ℕ
  pub zero_score : ℕ
  pub times : ℕ → ℕ → ℕ
  pub sum : List ℕ → ℕ
  pub is_relevant : ℕ → Bool
  pub partial_cmp : ℕ → ℕ → Option Ordering

pub record Ranked : Type 0 where
  pub lexical_score : ℕ
  pub semantic_score : ℕ
  pub chunk : IndexedChunk

abbrev pub products : (ℕ → ℕ → ℕ) → List ℕ → List ℕ → List ℕ
products times (x ∷ xs) (y ∷ ys) = times x y ∷ products times xs ys
products times _ _ = []

abbrev pub or_equal : Option Ordering → Ordering
or_equal none = Ordering.eq
or_equal (some o) = o

abbrev pub then_with : Ordering → Ordering → Ordering
then_with Ordering.eq next = next
then_with o next = o

abbrev pub is_greater : Ordering → Bool
is_greater Ordering.gt = true
is_greater _ = false

module _ (numerics : Numerics) where
  unfoldable pub cosine_similarity : List ℕ → List ℕ → ℕ
  cosine_similarity left right =
      if not (length left == length right)
      then numerics.zero_score
      else numerics.sum (products numerics.times left right)

  -- The number of terms of the query that the text has.
  abbrev pub count_terms : List (List ℕ) → List ℕ → ℕ
  count_terms [] text = 0
  count_terms (term ∷ terms) text =
      let rest = count_terms terms text in
      if has_part (numerics.to_lowercase term) text then suc rest else rest

  abbrev pub semantic : Option Embedding → Option Embedding → ℕ
  semantic (some query) (some document) = cosine_similarity query document
  semantic _ _ = numerics.zero_score

  unfoldable pub score : String → Option Embedding → IndexedChunk → Ranked
  score query query_embedding chunk = record {
    lexical_score =
        count_terms (words_from (codes query) []) (numerics.to_lowercase (codes chunk.text));
    semantic_score = semantic query_embedding chunk.embedding;
    chunk = chunk;
  }

  abbrev pub is_eligible : Scope → IndexedChunk → Bool
  is_eligible scope chunk =
      is_active chunk.lifecycle
      && not (is_secret_like chunk.sensitivity)
      && scope_matches scope chunk.scope

  abbrev pub is_match : Ranked → Bool
  is_match r = ltb 0 r.lexical_score || numerics.is_relevant r.semantic_score

  unfoldable pub compare_ranked : Ranked → Ranked → Ordering
  compare_ranked left right =
      then_with (or_equal (numerics.partial_cmp right.semantic_score left.semantic_score)) (
        then_with (compare right.lexical_score left.lexical_score) (
          then_with (String.compare left.chunk.source_reference right.chunk.source_reference)
            (compare left.chunk.chunk_index right.chunk.chunk_index)))

  -- `sort_by`, which is stable: insertion from the end, before the first that is not less.
  unfoldable pub insert_ranked : Ranked → List Ranked → List Ranked
  insert_ranked r [] = r ∷ []
  insert_ranked r (x ∷ xs) =
      let rest = insert_ranked r xs in
      if is_greater (compare_ranked r x) then x ∷ rest else r ∷ x ∷ xs

  unfoldable pub sort_ranked : List Ranked → List Ranked
  unfolding insert_ranked
  sort_ranked [] = []
  sort_ranked (r ∷ rs) = insert_ranked r (sort_ranked rs)

  -- `selected`
  unfoldable pub select : LexicalRagManager → String → Option Embedding → Scope → ℕ → List Ranked
  unfolding sort_ranked
  select manager query query_embedding scope limit = take limit (
      sort_ranked (
        keep is_match
          (map (score query query_embedding) (keep (is_eligible scope) manager.chunks))))

  unfoldable pub context_of : Ranked → String
  context_of r = String.◌++◌ r.chunk.title (String.◌++◌ ": " r.chunk.text)

  unfoldable pub citation_of : Ranked → RagCitation
  citation_of r = record {
    record_id = r.chunk.record_id;
    source_reference = r.chunk.source_reference;
    source_hash = r.chunk.source_hash;
    chunk_index = r.chunk.chunk_index;
    embedding_provider = r.chunk.embedding_provider;
    embedding_model = r.chunk.embedding_model;
  }

  abbrev pub is_missing : Option String → Option EmbeddingProvider → Bool
  is_missing (some configured) none = true
  is_missing _ _ = false

  abbrev pub disabled_warning : String
  disabled_warning = "RAG is disabled; use AMCP lexical search instead."

  abbrev pub warning_of : LexicalRagManager → Option String
  warning_of manager =
      if manager.config.enabled
        && is_missing manager.config.embedding_provider manager.embedding_provider
      then some "Configured embedding provider is unavailable; using lexical ranking."
      else if manager.config.enabled
      then none
      else some disabled_warning

  -- The context of the passages selected.
  abbrev pub retrieval_context : LexicalRagManager → String → Scope → List Ranked → RetrievalContext
  retrieval_context manager query scope selected = record {
    enabled = manager.config.enabled;
    query = query;
    scope = scope;
    context = map context_of selected;
    citations = map citation_of selected;
    policy_version = rag_policy_version;
    warning = warning_of manager;
  }

  unfoldable pub retrieve : LexicalRagManager → String → Scope → ℕ → Result Error RetrievalContext
  unfolding select
  retrieve manager query scope limit = elim (embed_text manager.embedding_provider query) [
    | err e ↦ err e
    | ok query_embedding ↦
        ok
          (retrieval_context manager query scope (select manager query query_embedding scope limit))
  ]

  -- `DisabledRagManager::retrieve`
  unfoldable pub retrieve_disabled : String → Scope → RetrievalContext
  retrieve_disabled query scope = record {
    enabled = false;
    query = query;
    scope = scope;
    context = [];
    citations = [];
    policy_version = rag_policy_version;
    warning = some disabled_warning;
  }

  abbrev pub count_cited : List RagCitation → List String → ℕ
  count_cited citations record_ids =
      length (keep (contains (map (λ citation. citation.record_id) citations)) record_ids)

  abbrev pub case_result : RagEvaluationCase → RetrievalContext → RagEvaluationCaseResult
  case_result case context = record {
    id = case.id;
    context_item_count = length context.context;
    citation_count = length context.citations;
    expected_record_hits = count_cited context.citations case.expected_record_ids;
    forbidden_record_hits = count_cited context.citations case.forbidden_record_ids;
  }

  abbrev pub add_case :
      RagEvaluationCase → RagEvaluationCaseResult → RagEvaluationReport → RagEvaluationReport
  add_case case result report = record {
    cases = List.◌++◌ report.cases (result ∷ []);
    context_item_count = report.context_item_count + result.context_item_count;
    citation_count = report.citation_count + result.citation_count;
    expected_record_count = report.expected_record_count + length case.expected_record_ids;
    expected_record_hits = report.expected_record_hits + result.expected_record_hits;
    forbidden_record_hits = report.forbidden_record_hits + result.forbidden_record_hits;
  }

  unfoldable pub evaluate_from :
      LexicalRagManager
      → ℕ
      → List RagEvaluationCase
      → RagEvaluationReport
      → Result Error RagEvaluationReport
  evaluate_from manager limit [] report = ok report
  evaluate_from manager limit (case ∷ cases) report =
      elim (retrieve manager case.query case.scope limit) [
        | err e ↦ err e
        | ok context ↦
            evaluate_from manager limit cases (add_case case (case_result case context) report)
      ]

  abbrev pub empty_report : RagEvaluationReport
  empty_report = record {
    cases = [];
    context_item_count = 0;
    citation_count = 0;
    expected_record_count = 0;
    expected_record_hits = 0;
    forbidden_record_hits = 0;
  }

  unfoldable pub evaluate :
      LexicalRagManager → List RagEvaluationCase → ℕ → Result Error RagEvaluationReport
  unfolding evaluate_from
  evaluate manager cases limit = evaluate_from manager limit cases empty_report

-- `citation_coverage_basis_points`, with the saturation of a 64-bit `usize`.
unfoldable pub citation_coverage_basis_points : ℕ → ℕ → ℕ
citation_coverage_basis_points citation_count context_item_count =
    if context_item_count == 0
    then 10000
    else min (min (citation_count * 10000) 18446744073709551615 / context_item_count) 10000
