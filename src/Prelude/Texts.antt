-- ===== src/Prelude/Texts.antt =====
-- What the source uses of Rust's texts: `trim().is_empty()` and lists of texts used as sets.
use Prim.Native.Char.{code}
use Prim.Native.Nat.{ℕ, ◌+◌, ◌/◌, ◌%◌}
use Prim.Native.String.{String}
use mathlib.Core.Bool.{Bool, true, false, ◌&&◌, ◌||◌}
use mathlib.Core.List.{List, [], ◌∷◌, ◌++◌, reverse}
use agent_memory_control_pla.Prelude.Lists.{any}
use agent_memory_control_pla.Prelude.Tests.{leb, ltb, if◌then◌else◌, ◌==◌, ◌=ₜ◌}

-- `char::is_whitespace`: the Unicode property White_Space, by code point.
abbrev pub is_whitespace : ℕ → Bool
is_whitespace c =
    (leb 9 c && leb c 13)
    || c == 32
    || c == 133
    || c == 160
    || c == 5760
    || (leb 8192 c && leb c 8202)
    || c == 8232
    || c == 8233
    || c == 8239
    || c == 8287
    || c == 12288

-- `text.trim().is_empty()`
unfoldable pub is_blank : String → Bool
is_blank String.[] = true
is_blank (String.◌∷◌ c s) = is_whitespace (code c) && is_blank s

-- `set.contains(text)`, for a set of texts kept as a list.
abbrev pub contains : List String → String → Bool
contains set text = any (λ s. s =ₜ text) set

-- The code points of a text.
abbrev pub codes : String → List ℕ
codes String.[] = []
codes (String.◌∷◌ c s) = code c ∷ codes s

-- `char::len_utf8`
abbrev pub len_utf8 : ℕ → ℕ
len_utf8 c = if ltb c 128 then 1 else if ltb c 2048 then 2 else if ltb c 65536 then 3 else 4

-- `text.len()`
unfoldable pub byte_len : String → ℕ
byte_len String.[] = 0
byte_len (String.◌∷◌ c s) = len_utf8 (code c) + byte_len s

encode : ℕ → List ℕ
encode c =
    if ltb c 128
    then c ∷ []
    else if ltb c 2048
    then (192 + c / 64) ∷ (128 + c % 64) ∷ []
    else if ltb c 65536
    then (224 + c / 4096) ∷ (128 + c / 64 % 64) ∷ (128 + c % 64) ∷ []
    else (240 + c / 262144) ∷ (128 + c / 4096 % 64) ∷ (128 + c / 64 % 64) ∷ (128 + c % 64) ∷ []

-- `text.as_bytes()`
unfoldable pub as_bytes : String → List ℕ
unfolding encode
as_bytes String.[] = []
as_bytes (String.◌∷◌ c s) = encode (code c) ++ as_bytes s

-- `to_ascii_lowercase`, on code points.
abbrev pub ascii_lower : ℕ → ℕ
ascii_lower c = if leb 65 c && leb c 90 then c + 32 else c

abbrev pub end_word : List ℕ → List (List ℕ) → List (List ℕ)
end_word [] rest = rest
end_word (w ∷ word) rest = reverse (w ∷ word) ∷ rest

-- `split_whitespace`, on code points: the second argument is the word that is being read, backwards.
unfoldable pub words_from : List ℕ → List ℕ → List (List ℕ)
words_from [] [] = []
words_from [] (w ∷ word) = reverse (w ∷ word) ∷ []
words_from (c ∷ cs) word =
    let rest = words_from cs (if is_whitespace c then [] else c ∷ word) in
    if is_whitespace c then end_word word rest else rest

-- `text.contains(part)`, on code points.
unfoldable pub is_prefix : List ℕ → List ℕ → Bool
is_prefix [] text = true
is_prefix (p ∷ part) [] = false
is_prefix (p ∷ part) (c ∷ text) = p == c && is_prefix part text

unfoldable pub has_part : List ℕ → List ℕ → Bool
unfolding is_prefix
has_part part [] = is_prefix part []
has_part part (c ∷ text) = is_prefix part (c ∷ text) || has_part part text
