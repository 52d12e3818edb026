-- ===== src/Rag/Retrieve/Order.antt =====
-- The order in which crates/amcp-rag/src/lib.rs retrieves.
use Prim.Native.Nat.{compare}
use agent_memory_control_pla.Prelude.{
  ℕ, zero, suc, ◌≤◌, ◌<◌, String, ◌≡◌, ◌⊎◌, inl, inr, true, false, Option, some, List, [], ◌∷◌,
  arith, take, All, All-take, All-keep, Bool, Bool-cases, map, keep,
}
use agent_memory_control_pla.Prelude.Members.{All_map}
use agent_memory_control_pla.Domain.Kinds.{Scope}
use agent_memory_control_pla.Rag.Types.{Embedding, IndexedChunk, LexicalRagManager}
use agent_memory_control_pla.Rag.Retrieve.{
  Numerics, Ranked, is_greater, compare_ranked, insert_ranked, sort_ranked, select, is_match, score,
  semantic, is_eligible,
}

-- Two scores that are no NaN compare as numbers do.
pub record IsOrdered (numerics : Numerics) : Type 0 where
  pub is_nan : ℕ → Bool
  pub rank : ℕ → ℕ
  pub ordered :
      (a b : ℕ)
      → is_nan a ≡ false
      → is_nan b ≡ false
      → numerics.partial_cmp a b ≡ some (compare (rank a) (rank b))

module _ (numerics : Numerics) where
  pub All-insert_ranked :
      (P : Ranked → Type 0) (r : Ranked) (rs : List Ranked)
      → P r
      → All P rs
      → All P (insert_ranked numerics r rs)
  unfolding insert_ranked
  All-insert_ranked P r [] h k = (h, tt)
  All-insert_ranked P r (x ∷ xs) h k =
      let rest = All-insert_ranked P r xs h k.1 in ground (arith, rest)

module _ (numerics : Numerics) (o : IsOrdered numerics) where
  -- A higher semantic score stands first, and among equal ones a lexical score that is not lower.
  abbrev pub Before : Ranked → Ranked → Type 0
  Before x y =
      (o.rank y.semantic_score < o.rank x.semantic_score)
      ⊎ ((o.rank y.semantic_score ≡ o.rank x.semantic_score) × (y.lexical_score ≤ x.lexical_score))

  abbrev pub IsRanked : List Ranked → Type 0
  IsRanked [] = Unit {0}
  IsRanked (x ∷ xs) = All (Before x) xs × IsRanked xs

  Before-trans : (x y z : Ranked) → Before x y → Before y z → Before x z
  Before-trans x y z h k = ground arith

  abbrev IsNumber : Ranked → Type 0
  IsNumber r = o.is_nan r.semantic_score ≡ false

  not_greater :
      (x y : Ranked)
      → IsNumber x
      → IsNumber y
      → is_greater (compare_ranked numerics x y) ≡ false
      → Before x y
  unfolding compare_ranked
  not_greater x y m n h = ground (arith, o.ordered y.semantic_score x.semantic_score n m)

  greater :
      (x y : Ranked)
      → IsNumber x
      → IsNumber y
      → is_greater (compare_ranked numerics x y) ≡ true
      → Before y x
  unfolding compare_ranked
  greater x y m n h = ground (arith, o.ordered y.semantic_score x.semantic_score n m)

  IsRanked-insert_ranked :
      (r : Ranked) (rs : List Ranked)
      → IsNumber r
      → All IsNumber rs
      → IsRanked rs
      → IsRanked (insert_ranked numerics r rs)
  unfolding insert_ranked
  IsRanked-insert_ranked r [] m n h = (tt, tt)
  IsRanked-insert_ranked r (x ∷ xs) m n h =
      elim (Bool-cases (is_greater (compare_ranked numerics r x))) [
        | inl after ↦
            rw (after, insert_ranked)
              (
                All-insert_ranked numerics (Before x) r xs (greater r x m n.0 after) h.0,
                IsRanked-insert_ranked r xs m n.1 h.1,
              )
        | inr first ↦
            let before = not_greater r x m n.0 first in
            rw (first, insert_ranked)
              ((before, All_map (λ y k. Before-trans r x y before k) xs h.0), h)
      ]

  All-sort_ranked : (rs : List Ranked) → All IsNumber rs → All IsNumber (sort_ranked numerics rs)
  unfolding sort_ranked
  All-sort_ranked [] n = tt
  All-sort_ranked (r ∷ rs) n =
      All-insert_ranked numerics IsNumber r (sort_ranked numerics rs) n.0 (All-sort_ranked rs n.1)

  IsRanked-sort_ranked : (rs : List Ranked) → All IsNumber rs → IsRanked (sort_ranked numerics rs)
  unfolding sort_ranked
  IsRanked-sort_ranked [] n = tt
  IsRanked-sort_ranked (r ∷ rs) n =
      IsRanked-insert_ranked r (sort_ranked numerics rs) n.0 (All-sort_ranked rs n.1)
        (IsRanked-sort_ranked rs n.1)

  IsRanked-take : (n : ℕ) (rs : List Ranked) → IsRanked rs → IsRanked (take n rs)
  IsRanked-take zero rs h = tt
  IsRanked-take (suc n) [] h = tt
  IsRanked-take (suc n) (r ∷ rs) h = (All-take (Before r) n rs h.0, IsRanked-take n rs h.1)

  -- The similarity of the query to a chunk is no NaN.
  abbrev pub IsComparable : Option Embedding → IndexedChunk → Type 0
  IsComparable query_embedding chunk =
      o.is_nan (semantic numerics query_embedding chunk.embedding) ≡ false

  All-map-score :
      (query : String) (query_embedding : Option Embedding) (chunks : List IndexedChunk)
      → All (IsComparable query_embedding) chunks
      → All IsNumber (map (score numerics query query_embedding) chunks)
  unfolding score
  All-map-score query query_embedding [] n = tt
  All-map-score query query_embedding (chunk ∷ chunks) n =
      (n.0, All-map-score query query_embedding chunks n.1)

  -- If the semantic score of no chunk of the index is a NaN, and scores that are no NaN compare as
  -- numbers do, what is retrieved stands in the order of its scores: a passage comes before another one
  -- if it is semantically closer, or as close and with at least as many terms.
  pub select-IsRanked :
      (manager : LexicalRagManager) (query : String) (query_embedding : Option Embedding)
      (scope : Scope) (limit : ℕ)
      → All (IsComparable query_embedding) manager.chunks
      → IsRanked (select numerics manager query query_embedding scope limit)
  unfolding select
  select-IsRanked manager query query_embedding scope limit numbers = IsRanked-take limit _ (
      IsRanked-sort_ranked
        (keep (is_match numerics) (
          map (score numerics query query_embedding)
            (keep (is_eligible numerics scope) manager.chunks)))
        (All-keep IsNumber (is_match numerics) _ (
          All-map-score query query_embedding _ (
            All-keep (IsComparable query_embedding) (is_eligible numerics scope) manager.chunks
              numbers))))
