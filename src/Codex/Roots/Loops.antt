-- ===== src/Codex/Roots/Loops.antt =====
-- The loops of `discovery_roots` of crates/amcp-codex/src/lib.rs: what is in the list of the roots once
-- the doubles are dropped and the rest is sorted.
use agent_memory_control_pla.Prelude.{
  ◌≡◌, refl, ◌∙◌, ap, ◌⊎◌, inl, inr, Bool, true, List, [], ◌∷◌, ◌++◌, arith, any, ltb, length,
  Bool-cases, if◌then◌else◌,
}
use agent_memory_control_pla.Prelude.Members.{In}
use agent_memory_control_pla.Codex.Files.{FilePath, Os, same_path, same_path→eq}
use agent_memory_control_pla.Codex.Paths.{canonical_or_self, unique_roots, insert_root, sort_roots}

In-last : {A : Type 0} (x : A) (xs : List A) → In x (xs ++ x ∷ [])
In-last x [] = inl refl
In-last x (y ∷ xs) = inr (In-last x xs)

In-front : {A : Type 0} (x y : A) (xs : List A) → In x xs → In x (xs ++ y ∷ [])
In-front x y [] h = elim h [ ]
In-front x y (z ∷ xs) (inl here) = inl here
In-front x y (z ∷ xs) (inr there) = inr (In-front x y xs there)

In-append_last : {A : Type 0} (x y : A) (xs : List A) → In x (xs ++ y ∷ []) → In x xs ⊎ (y ≡ x)
In-append_last x y [] (inl here) = inr here
In-append_last x y [] (inr there) = elim there [ ]
In-append_last x y (z ∷ xs) (inl here) = inl (inl here)
In-append_last x y (z ∷ xs) (inr there) = elim (In-append_last x y xs there) [
  | inl h ↦ inl (inr h)
  | inr h ↦ inr h
]

any-same_path : (p : FilePath) (ps : List FilePath) → any (λ q. same_path q p) ps ≡ true → In p ps
any-same_path p [] h = absurd (ground arith)
any-same_path p (q ∷ ps) h = elim (Bool-cases (same_path q p)) [
  | inl same ↦ inl (same_path→eq q p same)
  | inr other ↦ inr (any-same_path p ps (ground (arith, h, other)))
]

-- Sorting keeps the roots.
insert_root-In :
    (r root : FilePath) (roots : List FilePath)
    → In r (insert_root root roots)
    → (root ≡ r) ⊎ In r roots
unfolding insert_root
insert_root-In r root [] h = h
insert_root-In r root (q ∷ roots) h = elim (Bool-cases (ltb (length root) (length q))) [
  | inr first ↦ at first h
  | inl later ↦ elim (at later h) [
    | inl here ↦ inr (inl here)
    | inr there ↦ elim (insert_root-In r root roots there) [
      | inl here ↦ inl here
      | inr there ↦ inr (inr there)
    ]
  ]
]
  where
    at :
        {b : Bool}
        → ltb (length root) (length q) ≡ b
        → In r (insert_root root (q ∷ roots))
        → In r (if b then q ∷ insert_root root roots else root ∷ q ∷ roots)
    at e k = rw (← e) k

In-insert_root :
    (r root : FilePath) (roots : List FilePath)
    → (root ≡ r) ⊎ In r roots
    → In r (insert_root root roots)
unfolding insert_root
In-insert_root r root [] h = h
In-insert_root r root (q ∷ roots) h = elim (Bool-cases (ltb (length root) (length q))) [
  | inr first ↦ rw first h
  | inl later ↦ rw later (elim h [
    | inl here ↦ inr (In-insert_root r root roots (inl here))
    | inr (inl here) ↦ inl here
    | inr (inr there) ↦ inr (In-insert_root r root roots (inr there))
  ])
]

pub sort_roots-In : (r : FilePath) (roots : List FilePath) → In r (sort_roots roots) → In r roots
unfolding sort_roots
sort_roots-In r [] h = h
sort_roots-In r (root ∷ roots) h = elim (insert_root-In r root (sort_roots roots) h) [
  | inl here ↦ inl here
  | inr there ↦ inr (sort_roots-In r roots there)
]

pub In-sort_roots : (r : FilePath) (roots : List FilePath) → In r roots → In r (sort_roots roots)
unfolding sort_roots
In-sort_roots r [] h = h
In-sort_roots r (root ∷ roots) (inl here) = In-insert_root r root (sort_roots roots) (inl here)
In-sort_roots r (root ∷ roots) (inr there) =
    In-insert_root r root (sort_roots roots) (inr (In-sort_roots r roots there))

module _ (os : Os) where
  -- A directory whose canonical path, or itself if it has none, is the root.
  abbrev pub Canonical : FilePath → List FilePath → Type 0
  Canonical r roots = (base : FilePath) × In base roots × (canonical_or_self os base ≡ r)

  later :
      (r root : FilePath) (roots : List FilePath) → Canonical r roots → Canonical r (root ∷ roots)
  later r root roots (base, there, same) = (base, inr there, same)

  pub unique_roots-Canonical :
      (r : FilePath) (unique roots : List FilePath)
      → In r (unique_roots os unique roots)
      → In r unique ⊎ Canonical r roots
  unfolding unique_roots
  unique_roots-Canonical r unique [] h = inl h
  unique_roots-Canonical r unique (root ∷ roots) h =
      let canonical = canonical_or_self os root in
      elim (Bool-cases (any (λ existing. same_path existing canonical) unique)) [
        | inl met ↦
            elim (unique_roots-Canonical r unique roots (
              rw
                (← ap (λ b. unique_roots os (if b then unique else unique ++ canonical ∷ []) roots)
                  met)
                h)) [ inl old ↦ inl old | inr new ↦ inr (later r root roots new) ]
        | inr fresh ↦
            elim (unique_roots-Canonical r (unique ++ canonical ∷ []) roots (
              rw
                (← ap (λ b. unique_roots os (if b then unique else unique ++ canonical ∷ []) roots)
                  fresh)
                h)) [
                  | inr new ↦ inr (later r root roots new)
                  | inl old ↦ elim (In-append_last r canonical unique old) [
                    | inl older ↦ inl older
                    | inr here ↦ inr (root, inl refl, here)
                  ]
                ]
      ]

  unique_roots-keeps :
      (r : FilePath) (unique roots : List FilePath)
      → In r unique
      → In r (unique_roots os unique roots)
  unfolding unique_roots
  unique_roots-keeps r unique [] h = h
  unique_roots-keeps r unique (root ∷ roots) h =
      let canonical = canonical_or_self os root in
      elim (Bool-cases (any (λ existing. same_path existing canonical) unique)) [
        | inl met ↦ rw met (unique_roots-keeps r unique roots h)
        | inr fresh ↦
            rw fresh (
              unique_roots-keeps r (unique ++ canonical ∷ []) roots (In-front r canonical unique h))
      ]

  pub Canonical-unique_roots :
      (r : FilePath) (unique roots : List FilePath)
      → Canonical r roots
      → In r (unique_roots os unique roots)
  unfolding unique_roots
  Canonical-unique_roots r unique [] (base, there, same) = elim there [ ]
  Canonical-unique_roots r unique (root ∷ roots) (base, inl here, same) =
      let canonical = canonical_or_self os root in
      let is_r : canonical ≡ r = ap (canonical_or_self os) here ∙ same in
      elim (Bool-cases (any (λ existing. same_path existing canonical) unique)) [
        | inl met ↦
            rw met
              (unique_roots-keeps r unique roots (rw (← is_r) (any-same_path canonical unique met)))
        | inr fresh ↦ rw fresh (
            unique_roots-keeps r (unique ++ canonical ∷ []) roots
              (rw (← is_r) (In-last canonical unique)))
      ]
  Canonical-unique_roots r unique (root ∷ roots) (base, inr there, same) =
      Canonical-unique_roots r
        (if any (λ existing. same_path existing (canonical_or_self os root)) unique
          then unique
          else unique ++ canonical_or_self os root ∷ [])
        roots (base, there, same)
