-- ===== src/Prelude/Texts.antt =====
-- Texts. A text is a native `String`, a list of code points; `units` gives its UTF-16 code units,
-- which is what JavaScript counts and indexes.
use Prim.Native.Nat.{ℕ, ◌+◌, ◌-◌, ◌/◌, ◌%◌}
use Prim.Native.Char.{Char, code}
use Prim.Native.String.{String}
use mathlib.Core.Bool.{Bool, true, false, ◌&&◌, ◌||◌}
use mathlib.Core.List.{List, [], ◌∷◌, ◌++◌, map}
use zkredit.Prelude.Tests.{ltb, leb, ◌==◌, if◌then◌else◌}

-- Template texts: `${a}${b}`.
infixr 65 ◌<>◌
abbrev pub ◌<>◌ : String → String → String
a <> b = Prim.Native.String.◌++◌ a b

-- The code units of one code point: itself, or a surrogate pair above U+FFFF.
abbrev pub char_units : ℕ → List ℕ
char_units c =
    if ltb c 0x10000
    then c ∷ []
    else (0xd800 + (c - 0x10000) / 1024) ∷ (0xdc00 + (c - 0x10000) % 1024) ∷ []

abbrev pub units : String → List ℕ
units String.[] = []
units (String.◌∷◌ c s) = char_units (code c) ++ units s

-- `toLowerCase` on the ASCII range, as a case-insensitive match needs it.
abbrev pub to_lower : ℕ → ℕ
to_lower c = if leb b'A' c && leb c b'Z' then c + 32 else c

abbrev pub is_prefix : List ℕ → List ℕ → Bool
is_prefix [] ys = true
is_prefix (x ∷ xs) [] = false
is_prefix (x ∷ xs) (y ∷ ys) = x == y && is_prefix xs ys

abbrev pub is_infix : List ℕ → List ℕ → Bool
is_infix xs [] = is_prefix xs []
is_infix xs (y ∷ ys) = is_prefix xs (y ∷ ys) || is_infix xs ys

-- `s.startsWith(t)`
abbrev pub starts_with : String → String → Bool
starts_with s t = is_prefix (units t) (units s)

-- `s.toLowerCase().includes(t)` for an ASCII `t`, and a case-insensitive test of `s` against `/t/i`.
abbrev pub includes_ci : String → String → Bool
includes_ci s t = is_infix (map to_lower (units t)) (map to_lower (units s))

-- JavaScript's white space and line terminators, which `trim` and `parseInt` skip.
abbrev pub is_space : ℕ → Bool
is_space c =
    leb 9 c && leb c 13
    || c == 32
    || c == 0xa0
    || c == 0x1680
    || leb 0x2000 c && leb c 0x200a
    || leb 0x2028 c && leb c 0x2029
    || c == 0x202f
    || c == 0x205f
    || c == 0x3000
    || c == 0xfeff

unfoldable pub trim_start : String → String
trim_start String.[] = ""
trim_start (String.◌∷◌ c s) =
    let rest = trim_start s in if is_space (code c) then rest else String.◌∷◌ c s

abbrev is_empty : String → Bool
is_empty String.[] = true
is_empty (String.◌∷◌ c s) = false

unfoldable pub trim_end : String → String
trim_end String.[] = ""
trim_end (String.◌∷◌ c s) =
    let rest = trim_end s in if is_space (code c) && is_empty rest then "" else String.◌∷◌ c rest

-- `s.trim()`
unfoldable pub trim : String → String
unfolding trim_start trim_end
trim s = trim_start (trim_end s)

abbrev lower_char : String → String → Char → Char
lower_char (String.◌∷◌ u us) (String.◌∷◌ l ls) c =
    let rest = lower_char us ls c in if code u == code c then l else rest
lower_char _ _ c = c

-- `s.toLowerCase()` of an ASCII text
unfoldable pub lower_case : String → String
lower_case String.[] = ""
lower_case (String.◌∷◌ c s) =
    String.◌∷◌ (lower_char "ABCDEFGHIJKLMNOPQRSTUVWXYZ" "abcdefghijklmnopqrstuvwxyz" c)
      (lower_case s)
