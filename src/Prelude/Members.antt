-- ===== src/Prelude/Members.antt =====
-- Membership in a list, and predicates of all its members.
use mathlib.Core.Path.{◌≡◌, refl}
use mathlib.Core.Logic.{◌⊎◌, inl, inr}
use mathlib.Core.List.{List, [], ◌∷◌}
use mathlib.Core.Bool.{Bool, true}
use native.Mathlib.Omega.{arith}
use agent_memory_control_pla.Prelude.Lists.{All, keep}

module _ {A : Type 0} where
  abbrev pub In : A → List A → Type 0
  In x [] = ⊥
  In x (y ∷ ys) = (y ≡ x) ⊎ In x ys

  pub All_map {κ μ} :
      {P : A → Type κ} {Q : A → Type μ}
      → ((x : A) → P x → Q x)
      → (xs : List A) → All P xs
      → All Q xs
  All_map f [] h = tt
  All_map f (x ∷ xs) h = (f x h.0, All_map f xs h.1)

  pub All_In : (xs : List A) → All (λ x. In x xs) xs
  All_In [] = tt
  All_In (x ∷ xs) = (inl refl, All_map (λ y h. inr h) xs (All_In xs))

  -- The elements that a test keeps pass it.
  pub All-keep_both {κ} :
      (P : A → Type κ) (p : A → Bool) (xs : List A)
      → All P xs
      → All (λ x. P x × (p x ≡ true)) (keep p xs)
  All-keep_both P p [] h = tt
  All-keep_both P p (x ∷ xs) h = let rest = All-keep_both P p xs h.1 in ground (arith, rest)
