-- ===== src/Codex/Paths.antt =====
-- `discovery_roots`, `authorized_path`, `project_trust_level` and `ensure_project_is_writable` of
-- crates/amcp-codex/src/lib.rs. An error's text is given without the paths that the source puts in.
use Prim.Native.Char.{code}
use agent_memory_control_pla.Prelude.{
  ◌==◌, String, Bool, true, false, not, ◌&&◌, ◌||◌, Option, none, some, List, [], ◌∷◌, ◌++◌, map,
  ltb, ◌=ₜ◌, if◌then◌else◌, length, any, keep,
}
use agent_memory_control_pla.Prelude.Result.{Result, ok, err, ◌>>=◌, ◌>>◌, refuse_if}
use agent_memory_control_pla.Prelude.Texts.{ascii_lower}
use agent_memory_control_pla.Domain.Foreign.{Foreign}
use agent_memory_control_pla.Agent.Store.{Error}
use agent_memory_control_pla.Codex.Files.{
  FilePath, Bytes, Os, same_path, is_absolute, components, parent, file_name, starts_with,
  ends_with,
}

-- What the adapter takes from other crates: the two replacements of `redact_text` (regex), whether a
-- text is TOML (toml) and the entries of the table `projects` with their trust levels. The decoding
-- of bytes that may be no UTF-8 is only used for the diff of a proposal.
pub record Libraries : Type 0 where
  pub foreign : Foreign
  pub redact_key_values : String → String
  pub redact_bearer : String → String
  pub parses_as_toml : String → Bool
  pub from_utf8_lossy : Bytes → String

-- `CodexAdapter`. The file `projects.toml` of `codex_home`, which no authorized path names, is given
-- by its table: paths as texts and their trust levels, and nothing if it cannot be read.
pub record CodexAdapter : Type 0 where
  pub codex_home : FilePath
  pub scan_roots : List FilePath
  pub projects : List (String × Option String)
  pub os : Os
  pub libraries : Libraries

abbrev pub canonical_or_self : Os → FilePath → FilePath
canonical_or_self os path = elim (os.canonicalize path) [ none ↦ path | some q ↦ q ]

-- The loop that drops roots that were met before.
unfoldable pub unique_roots : Os → List FilePath → List FilePath → List FilePath
unique_roots os unique [] = unique
unique_roots os unique (root ∷ roots) =
    let canonical = canonical_or_self os root in
    unique_roots os
      (if any (λ existing. same_path existing canonical) unique
        then unique
        else unique ++ canonical ∷ [])
      roots

-- `sort_by_key(Reverse(components))`, a stable sort: the deepest roots first.
unfoldable pub insert_root : FilePath → List FilePath → List FilePath
insert_root root [] = root ∷ []
insert_root root (r ∷ roots) =
    if ltb (length root) (length r) then r ∷ insert_root root roots else root ∷ r ∷ roots

unfoldable pub sort_roots : List FilePath → List FilePath
unfolding insert_root
sort_roots [] = []
sort_roots (root ∷ roots) = insert_root root (sort_roots roots)

unfoldable pub discovery_roots : CodexAdapter → List FilePath
unfolding unique_roots sort_roots
discovery_roots adapter = sort_roots (
    unique_roots adapter.os [] (
      adapter.codex_home
      ∷ (adapter.scan_roots
          ++ keep adapter.os.is_dir (map (λ entry. components entry.0) adapter.projects))))

abbrev pub or_refuse : {A : Type 0} → Option A → Error → Result Error A
or_refuse none e = err e
or_refuse (some a) e = ok a

abbrev pub canonical_roots : Os → List FilePath → List FilePath
canonical_roots os [] = []
canonical_roots os (root ∷ roots) = elim (os.canonicalize root) [
  | none ↦ canonical_roots os roots
  | some q ↦ q ∷ canonical_roots os roots
]

unfoldable pub is_excluded : String → Bool
is_excluded name = name =ₜ "auth.json" || name =ₜ "history.jsonl" || name =ₜ "session_index.jsonl"

-- A document that the adapter may write, by its name, its canonical directory and the home.
unfoldable pub is_supported : String → FilePath → FilePath → Bool
is_supported name dir home =
    (name =ₜ "AGENTS.md" || name =ₜ "AGENTS.override.md")
    || name =ₜ "config.toml"
    || (ends_with name ".config.toml" && same_path dir home)

unfoldable pub authorized_path : CodexAdapter → String → Result Error FilePath
authorized_path adapter source_reference =
    let requested = components source_reference in
    let home = canonical_or_self adapter.os adapter.codex_home in
    do
      refuse_if (not (is_absolute source_reference)) "change target must be an absolute path"
      directory ← or_refuse (parent requested) "change target has no parent"
      canonical_parent ← or_refuse (adapter.os.canonicalize directory) "canonicalize failed"
      name ← or_refuse (file_name requested) "change target has no filename"
      let canonical = canonical_parent ++ name ∷ []
      refuse_if
          (not (any (starts_with canonical) (canonical_roots adapter.os (discovery_roots adapter))))
          "change target is outside configured provider roots"
      refuse_if (is_excluded name) "change target is not writable by Codex policy"
      refuse_if (not (is_supported name canonical_parent home))
          "change target is not a supported Codex text document"
      refuse_if (adapter.os.exists requested && adapter.os.is_symlink requested)
          "symlink targets are not writable"
      ok canonical

abbrev pub find_root : FilePath → List FilePath → Option FilePath
find_root path [] = none
find_root path (root ∷ roots) = if starts_with path root then some root else find_root path roots

unfoldable pub trust_in : Os → FilePath → List (String × Option String) → Option String
trust_in os root [] = none
trust_in os root ((path, trust) ∷ entries) =
    let rest = trust_in os root entries in
    if same_path (canonical_or_self os (components path)) root
    then elim trust [ none ↦ rest | some level ↦ some level ]
    else rest

-- `project_trust_level`, of a root that is canonical where it has a canonical path.
unfoldable pub project_trust_level : CodexAdapter → FilePath → Option String
unfolding trust_in
project_trust_level adapter root = trust_in adapter.os root adapter.projects

unfoldable pub eq_ignore_ascii_case : String → String → Bool
eq_ignore_ascii_case String.[] String.[] = true
eq_ignore_ascii_case (String.◌∷◌ c s) (String.◌∷◌ d t) =
    ascii_lower (code c) == ascii_lower (code d) && eq_ignore_ascii_case s t
eq_ignore_ascii_case _ _ = false

abbrev pub is_trusted : Option String → Bool
is_trusted none = false
is_trusted (some level) = eq_ignore_ascii_case level "trusted"

unfoldable pub ensure_project_is_writable : CodexAdapter → FilePath → Result Error (Unit {0})
ensure_project_is_writable adapter path =
    let home = canonical_or_self adapter.os adapter.codex_home in
    let roots = keep (λ root. not (same_path root home)) (discovery_roots adapter) in
    if starts_with path home then ok tt else elim (find_root path roots) [
      | none ↦ err "change target is outside a trusted project root"
      | some root ↦
          refuse_if (not (is_trusted (project_trust_level adapter root)))
            "project is not trusted for mutation"
    ]
