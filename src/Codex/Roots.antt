-- ===== src/Codex/Roots.antt =====
-- The roots that crates/amcp-codex/src/lib.rs has canonical paths of: which directories the loops of
-- `discovery_roots` and `authorized_path` come to.
mod Loops
use agent_memory_control_pla.Prelude.{
  ◌≡◌, refl, ◌∙◌, ap, ◌⊎◌, inl, inr, Bool, true, some, List, [], ◌∷◌, ◌++◌, arith, eq_iff, any, map,
  keep, ltb, length, Bool-cases, Option-cases, if◌then◌else◌,
}
use agent_memory_control_pla.Prelude.Members.{In}
use agent_memory_control_pla.Codex.Files.{
  FilePath, Os, components, same_path, same_path→eq, starts_with,
}
use agent_memory_control_pla.Codex.Roots.Loops.{
  unique_roots-Canonical, Canonical-unique_roots, sort_roots-In, In-sort_roots,
}
use agent_memory_control_pla.Codex.Paths.{
  CodexAdapter, canonical_or_self, unique_roots, insert_root, sort_roots, discovery_roots,
  canonical_roots,
}

starts_with-split :
    (path root : FilePath)
    → starts_with path root ≡ true
    → (rest : FilePath) × (path ≡ root ++ rest)
unfolding starts_with
starts_with-split path [] h = (path, refl)
starts_with-split [] (b ∷ q) h = absurd (ground arith)
starts_with-split (a ∷ p) (b ∷ q) h =
    let (rest, split) = starts_with-split p q (ground (arith, h)) in
    let same : a ≡ b = ground (arith, h, eq_iff a b) in (rest, rw same (ap (◌∷◌ b) split))

starts_with-append : (root rest : FilePath) → starts_with (root ++ rest) root ≡ true
unfolding starts_with
starts_with-append [] rest = refl
starts_with-append (a ∷ root) rest = ground (arith, eq_iff a a, starts_with-append root rest)

module _ (adapter : CodexAdapter) where
  -- The directories that the adapter is configured with: the home, the roots to scan, and the projects
  -- that are directories.
  abbrev pub configured : List FilePath
  configured =
      adapter.codex_home
      ∷ (adapter.scan_roots
          ++ keep adapter.os.is_dir (map (λ entry. components entry.0) adapter.projects))

  -- A path below the canonical path of such a directory.
  pub record IsInside (path : FilePath) : Type 0 where
    pub base : FilePath
    pub is_configured : In base configured
    pub root : FilePath
    pub is_root : adapter.os.canonicalize (canonical_or_self adapter.os base) ≡ some root
    pub rest : FilePath
    pub below : path ≡ root ++ rest

  -- The test of `authorized_path`, on the roots that it tries.
  abbrev InCanonical : FilePath → List FilePath → Type 0
  InCanonical path roots =
      (r : FilePath) × (root : FilePath) × In r roots
      × (adapter.os.canonicalize r ≡ some root)
      × (starts_with path root ≡ true)

  canonical_roots-In :
      (path : FilePath) (roots : List FilePath)
      → any (starts_with path) (canonical_roots adapter.os roots) ≡ true
      → InCanonical path roots
  canonical_roots-In path [] h = absurd (ground arith)
  canonical_roots-In path (r ∷ roots) h = elim (Option-cases (adapter.os.canonicalize r)) [
    | inl unknown ↦
        let (r', root, there, e, k) = canonical_roots-In path roots (ground (arith, h, unknown)) in
        (r', root, inr there, e, k)
    | inr (root, e) ↦ elim (Bool-cases (starts_with path root)) [
      | inl here ↦ (r, root, inl refl, e, here)
      | inr other ↦
          let (r', root', there, e', k) =
            canonical_roots-In path roots (ground (arith, h, e, other)) in
          (r', root', inr there, e', k)
    ]
  ]

  In-canonical_roots :
      (path r root : FilePath) (roots : List FilePath)
      → In r roots
      → adapter.os.canonicalize r ≡ some root
      → starts_with path root ≡ true
      → any (starts_with path) (canonical_roots adapter.os roots) ≡ true
  In-canonical_roots path r root [] there e k = elim there [ ]
  In-canonical_roots path r root (q ∷ roots) (inl here) e k =
      let known : adapter.os.canonicalize q ≡ some root = rw here e in ground (arith, known, k)
  In-canonical_roots path r root (q ∷ roots) (inr there) e k =
      let rest = In-canonical_roots path r root roots there e k in
      elim (Option-cases (adapter.os.canonicalize q)) [
        | inl unknown ↦ ground (arith, unknown, rest)
        | inr (root', known) ↦ ground (arith, known, rest)
      ]

  pub discovery_roots-IsInside :
      (path : FilePath)
      → any (starts_with path) (canonical_roots adapter.os (discovery_roots adapter)) ≡ true
      → IsInside path
  unfolding discovery_roots
  discovery_roots-IsInside path h =
      let (r, root, there, e, k) =
        canonical_roots-In path (sort_roots (unique_roots adapter.os [] configured)) h in
      let unsorted = sort_roots-In r (unique_roots adapter.os [] configured) there in
      let (rest, below) = starts_with-split path root k in
      elim (unique_roots-Canonical adapter.os r [] configured unsorted) [
        | inl nothing ↦ elim nothing [ ]
        | inr (base, is_configured, same) ↦ record {
          base = base;
          is_configured = is_configured;
          root = root;
          is_root = rw same e;
          rest = rest;
          below = below;
        }
      ]

  pub IsInside-discovery_roots :
      (path : FilePath)
      → IsInside path
      → any (starts_with path) (canonical_roots adapter.os (discovery_roots adapter)) ≡ true
  unfolding discovery_roots
  IsInside-discovery_roots path i =
      let r = canonical_or_self adapter.os i.base in
      let there =
        Canonical-unique_roots adapter.os r [] configured (i.base, i.is_configured, refl) in
      In-canonical_roots path r i.root (sort_roots (unique_roots adapter.os [] configured))
        (In-sort_roots r (unique_roots adapter.os [] configured) there) i.is_root
        (rw i.below (starts_with-append i.root i.rest))
