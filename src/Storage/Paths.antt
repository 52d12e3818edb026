-- ===== src/Storage/Paths.antt =====
-- The paths of runtime events in crates/amcp-storage/src/lib.rs: `is_absolute_source_root`,
-- `is_safe_relative_source_path` and `join_source_reference`. `Path::is_absolute` is the one of Unix, a
-- slash in front.
use Prim.Native.Char.{code}
use Prim.Native.String
use agent_memory_control_pla.Prelude.{
  ℕ, String, Bool, false, not, ◌&&◌, ◌||◌, List, [], ◌∷◌, any, ◌==◌, ◌=ₜ◌, if◌then◌else◌,
}
use agent_memory_control_pla.Prelude.Texts.{as_bytes}

-- '/' and '\\'
abbrev pub is_slash : ℕ → Bool
is_slash c = c == 47 || c == 92

abbrev pub has_code : ℕ → String → Bool
has_code n String.[] = false
has_code n (String.◌∷◌ c s) = code c == n || has_code n s

abbrev pub starts_with_slash : String → Bool
starts_with_slash String.[] = false
starts_with_slash (String.◌∷◌ c s) = is_slash (code c)

-- A drive letter: `bytes[1] == b':'` and a slash.
abbrev pub is_drive_root : List ℕ → Bool
is_drive_root (a ∷ b ∷ c ∷ rest) = b == 58 && is_slash c
is_drive_root _ = false

abbrev pub has_drive : List ℕ → Bool
has_drive (a ∷ b ∷ rest) = b == 58
has_drive _ = false

unfoldable pub is_absolute_source_root : String → Bool
is_absolute_source_root value = starts_with_slash value || is_drive_root (as_bytes value)

-- `replace('\\', "/")` and `split('/')` in one: the components between slashes of both kinds.
unfoldable pub split_source : String → List String
split_source String.[] = "" ∷ []
split_source (String.◌∷◌ c s) =
    let rest = split_source s in
    if is_slash (code c)
    then "" ∷ rest
    else elim rest [ [] ↦ String.◌∷◌ c "" ∷ [] | part ∷ parts ↦ String.◌∷◌ c part ∷ parts ]

unfoldable pub is_safe_relative_source_path : String → Bool
unfolding split_source is_absolute_source_root
is_safe_relative_source_path value = not (
    value =ₜ ""
    || is_absolute_source_root value
    || any (λ part. part =ₜ "." || part =ₜ "..") (split_source value)
    || has_drive (as_bytes value))

abbrev pub trim_start : String → String
trim_start String.[] = ""
trim_start (String.◌∷◌ c s) =
    let rest = trim_start s in if is_slash (code c) then rest else String.◌∷◌ c s

abbrev pub trim_end : String → String
trim_end String.[] = ""
trim_end (String.◌∷◌ c s) =
    let rest = trim_end s in if is_slash (code c) && rest =ₜ "" then "" else String.◌∷◌ c rest

unfoldable pub join_source_reference : String → String → String
join_source_reference root relative =
    String.◌++◌ (trim_end root)
      (String.◌++◌ (if has_code 92 root then "\\" else "/") (trim_start relative))
