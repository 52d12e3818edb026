-- ===== src/Rag/Index/Slices.antt =====
-- The slices that a document of crates/amcp-rag/src/lib.rs is cut into.
use agent_memory_control_pla.Prelude.{
  ℕ, zero, suc, ◌≤◌, ◌<◌, ◌≡◌, refl, ap, ◌∙◌, max, List, [], ◌∷◌, ◌++◌, arith, length, take, drop,
  All, length-take, length-drop, take-append-drop,
}
use agent_memory_control_pla.Prelude.Texts.{as_bytes}
use agent_memory_control_pla.Rag.Types.{RagConfig, RagDocument}
use agent_memory_control_pla.Rag.Index.{slices, slices_of}

abbrev pub concat : {A : Type 0} → List (List A) → List A
concat [] = []
concat (xs ∷ xss) = xs ++ concat xss

pub concat-slices :
    {A : Type 0} (fuel size : ℕ) (xs : List A)
    → 0 < size
    → length xs ≤ fuel
    → concat (slices fuel size xs) ≡ xs
unfolding slices
concat-slices zero size [] positive enough = refl
concat-slices zero size (x ∷ xs) positive enough = absurd (omega arith)
concat-slices (suc fuel) size [] positive enough = refl
concat-slices (suc fuel) size (x ∷ xs) positive enough =
    ap (◌++◌ (take size (x ∷ xs))) (
      concat-slices fuel size (drop size (x ∷ xs)) positive
        (omega (arith, length-drop size (x ∷ xs))))
    ∙ take-append-drop size (x ∷ xs)

pub slices_bounded :
    {A : Type 0} (fuel size : ℕ) (xs : List A)
    → 0 < size
    → All (λ slice. (0 < length slice) × (length slice ≤ size)) (slices fuel size xs)
unfolding slices
slices_bounded zero size xs positive = tt
slices_bounded (suc fuel) size [] positive = tt
slices_bounded (suc fuel) size (x ∷ xs) positive = (
  (omega (arith, length-take size (x ∷ xs)), omega (arith, length-take size (x ∷ xs))),
  slices_bounded fuel size (drop size (x ∷ xs)) positive,
)

-- The slices of a document's content, put together, are all its bytes in order, each slice has at
-- least one byte and at most the configured number, which counts as 1 if it is 0.
pub slices_of_whole :
    (config : RagConfig) (document : RagDocument)
    → (concat (slices_of config document) ≡ as_bytes document.content)
      × All
          (λ slice. (0 < length slice) × (length slice ≤ max config.chunk_size 1))
          (slices_of config document)
slices_of_whole config document =
    let bytes = as_bytes document.content in
    let positive : 0 < max config.chunk_size 1 = omega arith in
    (
      concat-slices (length bytes) (max config.chunk_size 1) bytes positive (omega arith),
      slices_bounded (length bytes) (max config.chunk_size 1) bytes positive,
    )
