-- ===== src/Codex/Files.antt =====
-- The file system as crates/amcp-codex/src/lib.rs uses it. A path is the list of the components of an
-- absolute path; the contents of regular files are the state, and all else is given.
use Prim.Native.String
use Prim.Native.Char.{code}
use agent_memory_control_pla.Prelude.{
  ℕ, zero, suc, ◌/◌, ◌%◌, ltb, String, Bool, true, false, not, ◌&&◌, ◌||◌, Option, none, some, List,
  [], ◌∷◌, ◌++◌, ◌==◌, ◌=ₜ◌, if◌then◌else◌, keep, ◌≡◌, refl, eq_iff, arith,
}
use agent_memory_control_pla.Prelude.Result.{Result, ok, err}
use agent_memory_control_pla.Agent.Store.{Error}

abbrev pub FilePath : Type 0
FilePath = List String

abbrev pub Bytes : Type 0
Bytes = List ℕ

unfoldable pub same_path : FilePath → FilePath → Bool
same_path [] [] = true
same_path (a ∷ p) (b ∷ q) = a =ₜ b && same_path p q
same_path _ _ = false

pub same_path_refl : (p : FilePath) → same_path p p ≡ true
unfolding same_path
same_path_refl [] = refl
same_path_refl (a ∷ p) = ground (arith, eq_iff a a, same_path_refl p)

pub same_path→eq : (p q : FilePath) → same_path p q ≡ true → p ≡ q
unfolding same_path
same_path→eq [] [] h = refl
same_path→eq [] (b ∷ q) h = cc
same_path→eq (a ∷ p) [] h = cc
same_path→eq (a ∷ p) (b ∷ q) h = ground (arith, eq_iff a b, same_path→eq p q)

-- What can fail, with the path that it concerns: reading a file, creating a directory with those
-- above it, copying to a file, opening a new file, writing to a file, bringing it to the disk,
-- renaming a file to the path, reading it back, removing it.
pub data Call : Type 0 where
  reading creating_dir copying opening writing syncing renaming reading_back removing :
      FilePath → Call

-- The errors of calls that fail, what such a call has left of the file it was to fill (nothing: no
-- file is made), the random part of the name of a temporary file, by the index of its operation, and
-- what stays as it is while the adapter works: canonical paths, symbolic links and directories.
-- `exists` follows links.
pub record Os : Type 0 where
  pub fault : Call → Option Error
  pub left : Call → Option Bytes
  pub write_uuid : ℕ → String
  pub canonicalize : FilePath → Option FilePath
  pub exists : FilePath → Bool
  pub is_symlink : FilePath → Bool
  pub is_dir : FilePath → Bool

abbrev pub Contents : Type 0
Contents = FilePath → Option Bytes

unfoldable pub write : FilePath → Option Bytes → Contents → Contents
write p bytes files q = if same_path p q then bytes else files q

-- What a failed call leaves of a file.
unfoldable pub leave : FilePath → Option Bytes → Contents → Contents
leave p none files = files
leave p (some bytes) files = write p (some bytes) files

abbrev pub attempt : {A : Type 0} → Option Error → A → Result Error A
attempt none value = ok value
attempt (some e) value = err e

-- The parts of a text between the slashes.
abbrev push_front : String → List String → List String
push_front c [] = c ∷ []
push_front c (part ∷ parts) = String.◌++◌ c part ∷ parts

unfoldable pub split_slashes : String → List String
split_slashes String.[] = "" ∷ []
split_slashes (String.◌∷◌ c s) =
    let rest = split_slashes s in
    if code c == 47 then "" ∷ rest else push_front (String.◌∷◌ c String.[]) rest

abbrev pub is_component : String → Bool
is_component part = not (part =ₜ "" || part =ₜ ".")

unfoldable pub is_absolute : String → Bool
is_absolute String.[] = false
is_absolute (String.◌∷◌ c s) = code c == 47

-- `PathBuf::from`, for an absolute path.
unfoldable pub components : String → FilePath
unfolding split_slashes
components text = keep is_component (split_slashes text)

-- `path.join(text)`
unfoldable pub join : FilePath → String → FilePath
unfolding components is_absolute
join dir text = if is_absolute text then components text else dir ++ components text

-- `path.parent()` and `path.file_name()`.
unfoldable pub parent : FilePath → Option FilePath
parent [] = none
parent (a ∷ []) = some []
parent (a ∷ b ∷ p) = elim (parent (b ∷ p)) [ none ↦ none | some q ↦ some (a ∷ q) ]

unfoldable pub file_name : FilePath → Option String
file_name [] = none
file_name (a ∷ []) = if a =ₜ ".." then none else some a
file_name (a ∷ b ∷ p) = file_name (b ∷ p)

-- `path.with_file_name(name)`
unfoldable pub with_file_name : FilePath → String → FilePath
with_file_name path name = elim (file_name path) [
  | none ↦ join path name
  | some _ ↦ elim (parent path) [ none ↦ join [] name | some dir ↦ join dir name ]
]

unfoldable pub starts_with : FilePath → FilePath → Bool
starts_with path [] = true
starts_with [] (b ∷ q) = false
starts_with (a ∷ p) (b ∷ q) = a =ₜ b && starts_with p q

-- `text.ends_with(suffix)`
unfoldable pub ends_with : String → String → Bool
ends_with String.[] suffix = suffix =ₜ ""
ends_with (String.◌∷◌ c s) suffix = String.◌∷◌ c s =ₜ suffix || ends_with s suffix

-- `to_string_lossy`, of a path that is Unicode.
unfoldable pub path_text : FilePath → String
path_text [] = ""
path_text (part ∷ path) = String.◌++◌ "/" (String.◌++◌ part (path_text path))

pub write-same :
    (p : FilePath) (bytes : Option Bytes) (files : Contents) → write p bytes files p ≡ bytes
unfolding write
write-same p bytes files = ground (arith, same_path_refl p)

pub write-other :
    (p q : FilePath) (bytes : Option Bytes) (files : Contents)
    → same_path p q ≡ false
    → write p bytes files q ≡ files q
unfolding write
write-other p q bytes files h = rw h refl

-- `{}` of a number.
abbrev digit : ℕ → String
digit n =
    if n == 0
    then "0"
    else if n == 1
    then "1"
    else if n == 2
    then "2"
    else if n == 3
    then "3"
    else if n == 4
    then "4"
    else if n == 5
    then "5"
    else if n == 6
    then "6"
    else if n == 7
    then "7"
    else if n == 8
    then "8"
    else "9"

-- The first argument is at least the number of digits.
abbrev digits : ℕ → ℕ → String
digits zero n = ""
digits (suc fuel) n =
    let front = digits fuel (n / 10) in
    if ltb n 10 then digit n else String.◌++◌ front (digit (n % 10))

unfoldable pub show_number : ℕ → String
show_number n = digits (suc n) n
