-- ===== src/Prelude/Keyed.antt =====
-- Lists of values with a text key: search by key, and lists in which no key occurs twice.
use agent_memory_control_pla.Prelude.Lists.{keep, drop, take, length, length-drop}
use agent_memory_control_pla.Prelude.Tests.{◌=ₜ◌, eq_iff, if◌then◌else◌, ltb, Bool-cases}
use Prim.Native.Nat.{ℕ, zero, suc, ◌-◌, ◌≤◌}
use Prim.Native.String.{String}
use mathlib.Core.Path.{◌≡◌, refl}
use mathlib.Core.Logic.{inl, inr}
use mathlib.Core.Bool.{Bool, true, false, ◌||◌}
use mathlib.Core.Option.{Option, none, some}
use mathlib.Core.List.{List, [], ◌∷◌, ◌++◌}
use native.Mathlib.Omega.{arith}

module _ {ℓ} {A : Type ℓ} where
  -- `if list.len() > n { list.drain(..list.len() - n) }`
  abbrev pub keep_last : ℕ → List A → List A
  keep_last n xs = if ltb n (length xs) then drop (length xs - n) xs else xs

  pub length-keep_last-le : (n : ℕ) (xs : List A) → length (keep_last n xs) ≤ n
  length-keep_last-le n xs = ground (arith, length-drop (length xs - n) xs)

  pub keep_last_short : (n : ℕ) (xs : List A) → length xs ≤ n → keep_last n xs ≡ xs
  keep_last_short n xs h = ground arith

module _ {ℓ} {A : Type ℓ} (key : A → String) where
  -- `list.iter().any(|x| x.key == k)`
  abbrev pub has_key : String → List A → Bool
  has_key k [] = false
  has_key k (x ∷ xs) = key x =ₜ k || has_key k xs

  -- `list.iter().position(|x| x.key == k)`
  abbrev pub position : String → List A → Option ℕ
  position k [] = none
  position k (x ∷ xs) =
      let rest : Option ℕ = elim (position k xs) [ none ↦ none | some i ↦ some (suc i) ] in
      if key x =ₜ k then some 0 else rest

  -- No two elements have the same key.
  abbrev pub Distinct : List A → Type 0
  Distinct [] = Unit {0}
  Distinct (x ∷ xs) = (has_key (key x) xs ≡ false) × Distinct xs

  pub has_key-append :
      (k : String) (xs ys : List A) → has_key k (xs ++ ys) ≡ (has_key k xs || has_key k ys)
  has_key-append k [] ys = refl
  has_key-append k (x ∷ xs) ys = ground (arith, has_key-append k xs ys)

  pub has_key-drop :
      (k : String) (n : ℕ) (xs : List A) → has_key k xs ≡ false → has_key k (drop n xs) ≡ false
  has_key-drop k zero xs h = h
  has_key-drop k (suc n) [] h = refl
  has_key-drop k (suc n) (x ∷ xs) h = has_key-drop k n xs (ground arith)

  pub has_key-take :
      (k : String) (n : ℕ) (xs : List A) → has_key k xs ≡ false → has_key k (take n xs) ≡ false
  has_key-take k zero xs h = refl
  has_key-take k (suc n) [] h = refl
  has_key-take k (suc n) (x ∷ xs) h = ground (arith, has_key-take k n xs)

  pub has_key-keep :
      (k : String) (p : A → Bool) (xs : List A)
      → has_key k xs ≡ false
      → has_key k (keep p xs) ≡ false
  has_key-keep k p [] h = refl
  has_key-keep k p (x ∷ xs) h = ground (arith, has_key-keep k p xs)

  pub Distinct-drop : (n : ℕ) (xs : List A) → Distinct xs → Distinct (drop n xs)
  Distinct-drop zero xs d = d
  Distinct-drop (suc n) [] d = d
  Distinct-drop (suc n) (x ∷ xs) d = Distinct-drop n xs d.1

  pub Distinct-take : (n : ℕ) (xs : List A) → Distinct xs → Distinct (take n xs)
  Distinct-take zero xs d = tt
  Distinct-take (suc n) [] d = tt
  Distinct-take (suc n) (x ∷ xs) d = (has_key-take (key x) n xs d.0, Distinct-take n xs d.1)

  pub Distinct-keep : (p : A → Bool) (xs : List A) → Distinct xs → Distinct (keep p xs)
  Distinct-keep p [] d = tt
  Distinct-keep p (x ∷ xs) d =
      let rest = Distinct-keep p xs d.1 in ground (arith, has_key-keep (key x) p xs, rest)

  pub Distinct-keep_last : (n : ℕ) (xs : List A) → Distinct xs → Distinct (keep_last n xs)
  Distinct-keep_last n xs d = elim (Bool-cases (ltb n (length xs))) [
    | inl over ↦ rw over (Distinct-drop (length xs - n) xs d)
    | inr fits ↦ rw fits d
  ]

  pub Distinct-append_one :
      (xs : List A) (x : A) → Distinct xs → has_key (key x) xs ≡ false → Distinct (xs ++ x ∷ [])
  Distinct-append_one [] x d h = (refl, tt)
  Distinct-append_one (y ∷ xs) x d h =
      let rest = Distinct-append_one xs x d.1 in
      ground (
        arith,
        rest,
        has_key-append (key y) xs (x ∷ []),
        eq_iff (key x) (key y),
        eq_iff (key y) (key x),
      )

  -- Where the keys are distinct, the position of an element's key is the element's place.
  pub position-append :
      (xs : List A) (x : A) (ys : List A)
      → Distinct (xs ++ x ∷ ys)
      → position (key x) (xs ++ x ∷ ys) ≡ some (length xs)
  position-append [] x ys d = ground (arith, eq_iff (key x) (key x))
  position-append (y ∷ xs) x ys d = ground (
    arith,
    position-append xs x ys d.1,
    has_key-append (key y) xs (x ∷ ys),
    eq_iff (key y) (key x),
    eq_iff (key x) (key y),
  )

  pub Distinct-append :
      (xs ys : List A)
      → Distinct xs
      → Distinct ys
      → ((k : String) → has_key k xs ≡ true → has_key k ys ≡ false)
      → Distinct (xs ++ ys)
  Distinct-append [] ys dx dy apart = dy
  Distinct-append (x ∷ xs) ys dx dy apart = (
    ground (arith, has_key-append (key x) xs ys, apart (key x), eq_iff (key x) (key x), dx.0),
    Distinct-append xs ys dx.1 dy (λ k h. apart k (ground arith)),
  )
