-- ===== src/Codex/Allowlist.antt =====
-- Which paths `authorized_path` of crates/amcp-codex/src/lib.rs lets a change name.
use Prim.Native.String
use Prim.Native.String.append
use mathlib.Core.Path.{subst}
use agent_memory_control_pla.Prelude.{
  String, ◌≡◌, refl, sym, ◌∙◌, ap, ◌⊎◌, ◌↔◌, inl, inr, true, false, some, [], ◌∷◌, ◌++◌, ◌=ₜ◌, ◌&&◌,
  arith, eq_iff, any, Bool-cases, Option-cases,
}
use agent_memory_control_pla.Prelude.Result.{ok}
use agent_memory_control_pla.Codex.Files.{
  FilePath, is_absolute, components, parent, file_name, starts_with, ends_with, same_path,
  same_path→eq, same_path_refl,
}
use agent_memory_control_pla.Codex.Paths.{
  CodexAdapter, canonical_or_self, canonical_roots, discovery_roots, is_excluded, is_supported,
  authorized_path,
}
use agent_memory_control_pla.Codex.Roots.{
  IsInside, discovery_roots-IsInside, IsInside-discovery_roots,
}

-- A document by its name, its directory and the home: guidance, a configuration, or a profile of the
-- home.
abbrev pub IsDocument : String → FilePath → FilePath → Type 0
IsDocument name dir home =
    (name ≡ "AGENTS.md")
    ⊎ ((name ≡ "AGENTS.override.md")
        ⊎ ((name ≡ "config.toml")
            ⊎ ((front : String) × (name ≡ String.◌++◌ front ".config.toml") × (dir ≡ home))))

-- A path that a change may name: a document in an existing directory, inside one of the configured
-- directories, that is no symbolic link to something that is there.
pub record IsWritable (adapter : CodexAdapter) (source_reference : String) (path : FilePath)
    : Type 0 where
  pub directory : FilePath
  pub dir : FilePath
  pub name : String
  pub is_there : path ≡ dir ++ name ∷ []
  pub absolute : is_absolute source_reference ≡ true
  pub above : parent (components source_reference) ≡ some directory
  pub canonical : adapter.os.canonicalize directory ≡ some dir
  pub named : file_name (components source_reference) ≡ some name
  pub inside : IsInside adapter path
  pub document : IsDocument name dir (canonical_or_self adapter.os adapter.codex_home)
  pub no_link :
      (adapter.os.exists (components source_reference) ≡ false)
      ⊎ (adapter.os.is_symlink (components source_reference) ≡ false)

ends_with-split :
    (text suffix : String)
    → ends_with text suffix ≡ true
    → (front : String) × (text ≡ String.◌++◌ front suffix)
unfolding ends_with
ends_with-split String.[] suffix h = (String.[], sym (append.nil suffix ∙ (eq_iff suffix "").0 h))
ends_with-split (String.◌∷◌ c s) suffix h = elim (Bool-cases (String.◌∷◌ c s =ₜ suffix)) [
  | inl whole ↦
      (String.[], sym (append.nil suffix ∙ sym ((eq_iff (String.◌∷◌ c s) suffix).0 whole)))
  | inr part ↦
      let (front, split) = ends_with-split s suffix (ground (arith, h, part)) in
      (String.◌∷◌ c front, ap (String.◌∷◌ c) split ∙ sym (append.cons c front suffix))
]

ends_with_self : (suffix : String) → ends_with suffix suffix ≡ true
unfolding ends_with
ends_with_self String.[] = refl
ends_with_self (String.◌∷◌ c s) = ground (arith, eq_iff (String.◌∷◌ c s) (String.◌∷◌ c s))

ends_with-append : (front suffix : String) → ends_with (String.◌++◌ front suffix) suffix ≡ true
unfolding ends_with
ends_with-append String.[] suffix = rw (append.nil suffix) (ends_with_self suffix)
ends_with-append (String.◌∷◌ c front) suffix =
    let rest = ends_with-append front suffix in
    rw (append.cons c front suffix) (ground (arith, rest))

is_supported-IsDocument :
    (name : String) (dir home : FilePath)
    → is_supported name dir home ≡ true
    → IsDocument name dir home
unfolding is_supported
is_supported-IsDocument name dir home h = elim (Bool-cases (name =ₜ "AGENTS.md")) [
  | inl guidance ↦ inl ((eq_iff name "AGENTS.md").0 guidance)
  | inr n ↦ elim (Bool-cases (name =ₜ "AGENTS.override.md")) [
    | inl override ↦ inr (inl ((eq_iff name "AGENTS.override.md").0 override))
    | inr n' ↦ elim (Bool-cases (name =ₜ "config.toml")) [
      | inl config ↦ inr (inr (inl ((eq_iff name "config.toml").0 config)))
      | inr n'' ↦
          let (front, split) =
            ends_with-split name ".config.toml" (ground (arith, h, n, n', n'')) in
          inr (inr (inr (front, split, same_path→eq dir home (ground (arith, h, n, n', n'')))))
    ]
  ]
]

IsDocument-is_supported :
    (name : String) (dir home : FilePath)
    → IsDocument name dir home
    → is_supported name dir home ≡ true
unfolding is_supported
IsDocument-is_supported name dir home (inl e) = rw e refl
IsDocument-is_supported name dir home (inr (inl e)) = rw e refl
IsDocument-is_supported name dir home (inr (inr (inl e))) = rw e refl
IsDocument-is_supported name dir home (inr (inr (inr (front, e, same)))) =
    let suffix = ends_with-append front ".config.toml" in
    let there = same_path_refl home in rw (e, same) (ground (arith, suffix, there))

-- No document is one of the files that are excluded.
is_supported-is_excluded :
    (name : String) (dir home : FilePath)
    → is_supported name dir home ≡ true
    → is_excluded name ≡ false
unfolding is_supported is_excluded ends_with same_path
is_supported-is_excluded name dir home h = elim (Bool-cases (name =ₜ "auth.json")) [
  | inl e ↦
      let bad : is_supported "auth.json" dir home ≡ true =
        subst (λ n. is_supported n dir home ≡ true) ((eq_iff name "auth.json").0 e) h in
      absurd (ground (arith, bad))
  | inr n ↦ elim (Bool-cases (name =ₜ "history.jsonl")) [
    | inl e ↦
        let bad : is_supported "history.jsonl" dir home ≡ true =
          subst (λ n. is_supported n dir home ≡ true) ((eq_iff name "history.jsonl").0 e) h in
        absurd (ground (arith, bad))
    | inr n' ↦ elim (Bool-cases (name =ₜ "session_index.jsonl")) [
      | inl e ↦
          let bad : is_supported "session_index.jsonl" dir home ≡ true =
            subst (λ n. is_supported n dir home ≡ true) ((eq_iff name "session_index.jsonl").0 e)
              h in
          absurd (ground (arith, bad))
      | inr n'' ↦ ground (arith, n, n', n'')
    ]
  ]
]

authorized_path-IsWritable :
    (adapter : CodexAdapter) (source_reference : String) (path : FilePath)
    → authorized_path adapter source_reference ≡ ok path
    → IsWritable adapter source_reference path
unfolding authorized_path
authorized_path-IsWritable adapter source_reference path h =
    let home = canonical_or_self adapter.os adapter.codex_home in
    elim (Option-cases (parent (components source_reference))) [
      | inl root ↦ absurd (ground arith)
      | inr (directory, above) ↦ elim (Option-cases (adapter.os.canonicalize directory)) [
        | inl unknown ↦ absurd (ground arith)
        | inr (dir, canonical) ↦ elim (Option-cases (file_name (components source_reference))) [
          | inl nameless ↦ absurd (ground arith)
          | inr (name, named) ↦ record {
            directory = directory;
            dir = dir;
            name = name;
            is_there = ground arith;
            absolute = ground arith;
            above = above;
            canonical = canonical;
            named = named;
            inside = discovery_roots-IsInside adapter path (ground arith);
            document = is_supported-IsDocument name dir home (ground arith);
            no_link = ground arith;
          }
        ]
      ]
    ]

IsWritable-authorized_path :
    (adapter : CodexAdapter) (source_reference : String) (path : FilePath)
    → IsWritable adapter source_reference path
    → authorized_path adapter source_reference ≡ ok path
unfolding authorized_path
IsWritable-authorized_path adapter source_reference path w =
    let home = canonical_or_self adapter.os adapter.codex_home in
    let in_root = IsInside-discovery_roots adapter path w.inside in
    let supported = IsDocument-is_supported w.name w.dir home w.document in
    let allowed = is_supported-is_excluded w.name w.dir home supported in
    let requested = components source_reference in
    let linked : (adapter.os.exists requested && adapter.os.is_symlink requested) ≡ false =
      ground (arith, w.no_link) in
    let root_of : any (starts_with (w.dir ++ w.name ∷ []))
          (canonical_roots adapter.os (discovery_roots adapter))
        ≡ true =
      rw (← w.is_there) in_root in
    rw (w.absolute, w.above)
      (rw w.canonical
        (rw w.named (rw (root_of, allowed) (rw supported (rw linked (ap ok (sym w.is_there)))))))

-- A change may name a path if, and only if, it is given by an absolute path to a document in an
-- existing directory, the document is guidance, a `config.toml`, or a file of the home whose name ends
-- in `.config.toml`, its path is below the canonical path of the home, of a root to scan or of the
-- directory of a project, and it is no symbolic link to something that is there.
pub authorized_path_iff :
    (adapter : CodexAdapter) (source_reference : String) (path : FilePath)
    → (authorized_path adapter source_reference ≡ ok path)
      ↔ IsWritable adapter source_reference path
authorized_path_iff adapter source_reference path = (
  authorized_path-IsWritable adapter source_reference path,
  IsWritable-authorized_path adapter source_reference path,
)
