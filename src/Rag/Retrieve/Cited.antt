-- ===== src/Rag/Retrieve/Cited.antt =====
-- What crates/amcp-rag/src/lib.rs retrieves, and the citations that go with it.
use agent_memory_control_pla.Prelude.{
  ℕ, ◌≤◌, String, ◌≡◌, ◌≢◌, ◌⊎◌, ◌<◌, not, is_some_text→eq, refl, sym, inl, inr, ◌∙◌, ap, true,
  false, Option, none, some, List, [], ◌∷◌, arith, length, length-take, map, keep, any, ltb, ◌==◌,
  Bool-cases, All, All-take,
}
use agent_memory_control_pla.Prelude.Members.{In, All_In, All_map, All-keep_both}
use agent_memory_control_pla.Prelude.Texts.{codes, words_from, has_part}
use agent_memory_control_pla.Prelude.Result.{ok, err, Result-cases, ok_injective, ok_not_err}
use agent_memory_control_pla.Domain.Kinds.{Scope, SensitivityClass, LifecycleState}
use agent_memory_control_pla.Rag.Types.{
  Embedding, IndexedChunk, LexicalRagManager, RetrievalContext,
}
use agent_memory_control_pla.Rag.Config.{field_matches, scope_matches}
use agent_memory_control_pla.Rag.Index.{embed_text, is_active, is_secret_like}
use agent_memory_control_pla.Rag.Retrieve.Order.{All-insert_ranked}
use agent_memory_control_pla.Rag.Retrieve.{
  Numerics, Ranked, products, count_terms, semantic, cosine_similarity, sort_ranked, select,
  is_match, score, is_eligible, context_of, citation_of, retrieve, retrieval_context,
}

active_of :
    (lifecycle : LifecycleState) → is_active lifecycle ≡ true → lifecycle ≡ LifecycleState.active
active_of lifecycle h = ground (arith, h)

not_secret_of :
    (sensitivity : SensitivityClass)
    → not (is_secret_like sensitivity) ≡ true
    → sensitivity ≢ SensitivityClass.secret_like
not_secret_of sensitivity h = ground (arith, h)

field_of :
    (requested actual : Option String)
    → field_matches requested actual ≡ true
    → (requested ≡ none) ⊎ (actual ≡ requested)
field_of none actual h = inl refl
field_of (some id) actual h = inr (is_some_text→eq actual id h)

module _ (numerics : Numerics) where
  -- The query meets the chunk: a term of the query, in lower case, is part of the text of the chunk,
  -- or both have embeddings of the same length whose products have a relevant sum.
  abbrev pub HasTerm : String → IndexedChunk → Type 0
  HasTerm query chunk =
      any (λ term. has_part (numerics.to_lowercase term) (numerics.to_lowercase (codes chunk.text)))
        (words_from (codes query) [])
      ≡ true

  abbrev pub IsClose : Option Embedding → Option Embedding → Type 0
  IsClose asked stored =
      (q : Embedding) × (e : Embedding) × (asked ≡ some q)
      × (stored ≡ some e)
      × (length q ≡ length e)
      × (numerics.is_relevant (numerics.sum (products numerics.times q e)) ≡ true)

  -- A chunk of the index that may be shown for the scope and that the query meets: it is active, not
  -- secret-like, of each host, provider and project that the scope names.
  pub record Retrievable (manager : LexicalRagManager) (query : String) (scope : Scope)
      (chunk : IndexedChunk) : Type 0 where
    pub indexed : In chunk manager.chunks
    pub active : chunk.lifecycle ≡ LifecycleState.active
    pub not_secret : chunk.sensitivity ≢ SensitivityClass.secret_like
    pub in_host : (scope.host_id ≡ none) ⊎ (chunk.scope.host_id ≡ scope.host_id)
    pub in_provider : (scope.provider_id ≡ none) ⊎ (chunk.scope.provider_id ≡ scope.provider_id)
    pub in_project : (scope.project_id ≡ none) ⊎ (chunk.scope.project_id ≡ scope.project_id)
    pub asked : Option Embedding
    pub embedded : embed_text manager.embedding_provider query ≡ ok asked
    pub matched : HasTerm query chunk ⊎ IsClose asked chunk.embedding

  count_terms-any :
      (terms : List (List ℕ)) (text : List ℕ)
      → 0 < count_terms numerics terms text
      → any (λ term. has_part (numerics.to_lowercase term) text) terms ≡ true
  count_terms-any [] text h = absurd (omega arith)
  count_terms-any (term ∷ terms) text h = ground (arith, count_terms-any terms text)

  similar :
      (q e : Embedding)
      → numerics.is_relevant numerics.zero_score ≡ false
      → numerics.is_relevant (cosine_similarity numerics q e) ≡ true
      → (length q ≡ length e)
        × (numerics.is_relevant (numerics.sum (products numerics.times q e)) ≡ true)
  unfolding cosine_similarity
  similar q e zero_irrelevant h = elim (Bool-cases (length q == length e)) [
    | inl same ↦ (ground (arith, same), ground (arith, h, same))
    | inr differs ↦ absurd (ground (arith, h, zero_irrelevant, differs))
  ]

  semantic-IsClose :
      (asked stored : Option Embedding)
      → numerics.is_relevant numerics.zero_score ≡ false
      → numerics.is_relevant (semantic numerics asked stored) ≡ true
      → IsClose asked stored
  semantic-IsClose (some q) (some e) zero_irrelevant h =
      let (same, relevant) = similar q e zero_irrelevant h in (q, e, refl, refl, same, relevant)
  semantic-IsClose none stored zero_irrelevant h = absurd (ground (arith, zero_irrelevant, h))
  semantic-IsClose (some q) none zero_irrelevant h = absurd (ground (arith, zero_irrelevant, h))

  is_match-meets :
      (query : String) (asked : Option Embedding) (chunk : IndexedChunk)
      → numerics.is_relevant numerics.zero_score ≡ false
      → is_match numerics (score numerics query asked chunk) ≡ true
      → HasTerm query chunk ⊎ IsClose asked chunk.embedding
  unfolding score
  is_match-meets query asked chunk zero_irrelevant h =
      let terms = words_from (codes query) [] in
      let text = numerics.to_lowercase (codes chunk.text) in
      elim (Bool-cases (ltb 0 (count_terms numerics terms text))) [
        | inl some_term ↦ inl (count_terms-any terms text (ground (arith, some_term)))
        | inr no_term ↦
            inr
              (semantic-IsClose asked chunk.embedding zero_irrelevant (ground (arith, h, no_term)))
      ]

  module _ (zero_irrelevant : numerics.is_relevant numerics.zero_score ≡ false)
      (manager : LexicalRagManager) (query : String) (asked : Option Embedding) (scope : Scope)
      (embedded : embed_text manager.embedding_provider query ≡ ok asked) where
    retrievable :
        (chunk : IndexedChunk)
        → In chunk manager.chunks
        → is_eligible numerics scope chunk ≡ true
        → is_match numerics (score numerics query asked chunk) ≡ true
        → Retrievable manager query scope chunk
    unfolding scope_matches
    retrievable chunk indexed eligible matched = record {
      indexed = indexed;
      active = active_of chunk.lifecycle (ground (arith, eligible));
      not_secret = not_secret_of chunk.sensitivity (ground (arith, eligible));
      in_host = field_of scope.host_id chunk.scope.host_id (ground (arith, eligible));
      in_provider = field_of scope.provider_id chunk.scope.provider_id (ground (arith, eligible));
      in_project = field_of scope.project_id chunk.scope.project_id (ground (arith, eligible));
      asked = asked;
      embedded = embedded;
      matched = is_match-meets query asked chunk zero_irrelevant matched;
    }

  -- A score is the score of its chunk.
  abbrev Scored : String → Option Embedding → Ranked → Type 0
  Scored query asked r = r ≡ score numerics query asked r.chunk

  All-map-score :
      (P : IndexedChunk → Type 0) (query : String) (asked : Option Embedding)
      (chunks : List IndexedChunk)
      → All P chunks
      → All
          (λ (r : Ranked). P r.chunk × Scored query asked r)
          (map (score numerics query asked) chunks)
  unfolding score
  All-map-score P query asked [] h = tt
  All-map-score P query asked (chunk ∷ chunks) h =
      ((h.0, refl), All-map-score P query asked chunks h.1)

  All-sort_ranked :
      (P : Ranked → Type 0) (rs : List Ranked) → All P rs → All P (sort_ranked numerics rs)
  unfolding sort_ranked
  All-sort_ranked P [] h = tt
  All-sort_ranked P (r ∷ rs) h =
      All-insert_ranked numerics P r (sort_ranked numerics rs) h.0 (All-sort_ranked P rs h.1)

  select-Retrievable :
      (manager : LexicalRagManager) (query : String) (asked : Option Embedding) (scope : Scope)
      (limit : ℕ)
      → numerics.is_relevant numerics.zero_score ≡ false
      → embed_text manager.embedding_provider query ≡ ok asked
      → All
          (λ r. Retrievable manager query scope r.chunk)
          (select numerics manager query asked scope limit)
  unfolding select
  select-Retrievable manager query asked scope limit zero_irrelevant embedded =
      let eligible =
        All-keep_both (λ chunk. In chunk manager.chunks) (is_eligible numerics scope) manager.chunks
          (All_In manager.chunks) in
      let scored =
        All-map-score (λ chunk. In chunk manager.chunks × (is_eligible numerics scope chunk ≡ true))
          query asked (keep (is_eligible numerics scope) manager.chunks) eligible in
      let matched = All-keep_both _ (is_match numerics) _ scored in
      All-take _ limit _ (
        All-sort_ranked (λ r. Retrievable manager query scope r.chunk) _
          (All_map
            (λ r h.
              retrievable zero_irrelevant manager query asked scope embedded r.chunk h.0.0.0 h.0.0.1
                (ap (is_match numerics) (sym h.0.1) ∙ h.1))
            _ matched))

  select-length :
      (manager : LexicalRagManager) (query : String) (query_embedding : Option Embedding)
      (scope : Scope) (limit : ℕ)
      → length (select numerics manager query query_embedding scope limit) ≤ limit
  unfolding select
  select-length manager query query_embedding scope limit = ground (
    arith,
    length-take limit (
        sort_ranked numerics (
          keep (is_match numerics) (
            map (score numerics query query_embedding)
              (keep (is_eligible numerics scope) manager.chunks)))),
  )

  -- A retrieval that succeeds gives one citation for each passage, in the same order and at most the
  -- limit, each from a chunk of the index that is active, not secret-like and in the scope, and that has
  -- a term of the query in its text or an embedding close to the query's, provided that a similarity
  -- of zero is not relevant.
  pub retrieve-Retrievable :
      (manager : LexicalRagManager) (query : String) (scope : Scope) (limit : ℕ)
      (found : RetrievalContext)
      → numerics.is_relevant numerics.zero_score ≡ false
      → retrieve numerics manager query scope limit ≡ ok found
      → (selected : List Ranked) × (found.context ≡ map (context_of numerics) selected)
        × (found.citations ≡ map (citation_of numerics) selected)
        × (length selected ≤ limit)
        × All (λ r. Retrievable manager query scope r.chunk) selected
  unfolding retrieve
  retrieve-Retrievable manager query scope limit found zero_irrelevant h =
      elim (Result-cases (embed_text manager.embedding_provider query)) [
        | inl (error, e) ↦
            let failed : retrieve numerics manager query scope limit ≡ err error =
              rw (e, retrieve) refl in
            absurd (ok_not_err (sym h ∙ failed))
        | inr (query_embedding, e) ↦
            let selected = select numerics manager query query_embedding scope limit in
            let answered : retrieve numerics manager query scope limit
                ≡ ok (retrieval_context numerics manager query scope selected) =
              rw (e, retrieve) refl in
            let same = ok_injective (sym h ∙ answered) in
            (
              selected,
              ap (λ c. c.context) same,
              ap (λ c. c.citations) same,
              select-length manager query query_embedding scope limit,
              select-Retrievable manager query query_embedding scope limit zero_irrelevant e,
            )
      ]
