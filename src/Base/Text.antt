-- ===== src/Base/Text.antt =====
-- Go's strings as bytes: the UTF-8 encoding of a text, and the standard library's functions on
-- texts that the program calls.
use Prim.Native.Nat.{ℕ, zero, suc, ◌+◌, ◌-◌, ◌/◌, ◌%◌}
use Prim.Native.Char.{Char, code}
use Prim.Native.String.{String, ◌++◌ as text_append}
use mathlib.Core.Option.{Option, none, some}
use mathlib.Core.Bool.{Bool, true, ◌||◌, ◌&&◌}
use mathlib.Core.List.{List, [], ◌∷◌, ◌++◌}
use llm_proxy.Base.Tests.{ltb, leb, ◌==◌, number_eq, if◌then◌else◌}

abbrev pub utf8_char : ℕ → List ℕ
utf8_char n =
    if ltb n 0x80
    then n ∷ []
    else if ltb n 0x800
    then (0xc0 + n / 64) ∷ (0x80 + n % 64) ∷ []
    else if ltb n 0x10000
    then (0xe0 + n / 4096) ∷ (0x80 + n / 64 % 64) ∷ (0x80 + n % 64) ∷ []
    else (0xf0 + n / 262144) ∷ (0x80 + n / 4096 % 64) ∷ (0x80 + n / 64 % 64) ∷ (0x80 + n % 64) ∷ []

-- []byte(s)
unfoldable pub bytes : String → List ℕ
bytes String.[] = []
bytes (String.◌∷◌ c s) = utf8_char (code c) ++ bytes s

-- unicode.IsSpace
unfoldable pub is_space : ℕ → Bool
is_space c =
    (leb 9 c && leb c 13)
    || c == 0x20
    || c == 0x85
    || c == 0xa0
    || c == 0x1680
    || (leb 0x2000 c && leb c 0x200a)
    || c == 0x2028
    || c == 0x2029
    || c == 0x202f
    || c == 0x205f
    || c == 0x3000

unfoldable pub trim_left : String → String
unfolding is_space
trim_left String.[] = String.[]
trim_left (String.◌∷◌ c s) = if is_space (code c) then trim_left s else String.◌∷◌ c s

-- Whether a text is all white space, so that strings.TrimSpace leaves nothing of it.
unfoldable pub is_blank : String → Bool
unfolding is_space
is_blank String.[] = true
is_blank (String.◌∷◌ c s) = is_space (code c) && is_blank s

-- The text without the white space at its end.
unfoldable pub trim_right : String → String
unfolding is_blank
trim_right String.[] = String.[]
trim_right (String.◌∷◌ c s) =
    if is_blank (String.◌∷◌ c s) then String.[] else String.◌∷◌ c (trim_right s)

-- strings.TrimSpace
unfoldable pub trim_space : String → String
unfolding trim_left trim_right
trim_space s = trim_right (trim_left s)

-- The number of characters of a text.
unfoldable pub chars : String → ℕ
chars String.[] = 0
chars (String.◌∷◌ _ s) = suc (chars s)

-- What follows `prefix`, where the text starts with it.
unfoldable pub strip_prefix : String → String → Option String
strip_prefix String.[] s = some s
strip_prefix (String.◌∷◌ p ps) String.[] = none
strip_prefix (String.◌∷◌ p ps) (String.◌∷◌ c s) =
    let rest = strip_prefix ps s in if code p == code c then rest else none

-- A separator found at the start of a text, or else later.
unfoldable pub first : Option String → Option (String × String) → Option (String × String)
first (some rest) later = some (String.[], rest)
first none later = later

abbrev pub longer : Char → Option (String × String) → Option (String × String)
longer c none = none
longer c (some (before, after)) = some (String.◌∷◌ c before, after)

-- strings.Index: what stands before the first `sep`, and what stands after it
unfoldable pub split_at : String → String → Option (String × String)
unfolding strip_prefix first
split_at sep String.[] = first (strip_prefix sep String.[]) none
split_at sep (String.◌∷◌ c s) =
    first (strip_prefix sep (String.◌∷◌ c s)) (longer c (split_at sep s))

-- strings.ReplaceAll, for a text to replace that is not empty; `skip` counts the characters of a
-- found one that are still to be left out.
unfoldable pub replace_from : String → String → ℕ → String → String
unfolding strip_prefix chars
replace_from old new skip String.[] = String.[]
replace_from old new (suc skip) (String.◌∷◌ c s) = replace_from old new skip s
replace_from old new zero (String.◌∷◌ c s) = elim (strip_prefix old (String.◌∷◌ c s)) [
  | some _ ↦ text_append new (replace_from old new (chars old - 1) s)
  | none ↦ String.◌∷◌ c (replace_from old new zero s)
]

unfoldable pub replace_all : String → String → String → String
unfolding replace_from
replace_all s old new = replace_from old new 0 s
