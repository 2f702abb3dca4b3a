-- ===== src/BigInt.antt =====
-- The conversion `BigInt(text)` that frontend/src/lib uses on decimal texts.
pub mod Laws
use Prim.Native.Char.{code}
use zkredit.Prelude.{
  ◌<>◌, ℕ, zero, suc, ◌+◌, ◌-◌, ◌*◌, ◌≡◌, ◌≢◌, refl, String, Bool, true, false, ◌&&◌, ◌||◌, Option,
  none, some, arith, ltb, ◌==◌, if◌then◌else◌, str_eq, trim, trim_start, trim_end, is_space,
  read_digits, show, is_digit,
}
use zkredit.Prelude.Int.{ℤ, pos, negsuc}
use zkredit.Bytes.{hex_value}
use zkredit.Effects.Errors.{error, base_error, no_kind}
use zkredit.Effects.Sync.{Result, ok, thrown}

-- The digits of a literal with a prefix, in base `radix`.
unfoldable pub read_in : ℕ → ℕ → String → Option ℕ
read_in radix n String.[] = some n
read_in radix n (String.◌∷◌ c s) = elim (hex_value (code c)) [
  | none ↦ none
  | some d ↦ if ltb d radix then read_in radix (n * radix + d) s else none
]

abbrev pub as_pos : Option ℕ → Option ℤ
as_pos none = none
as_pos (some n) = some (pos n)

abbrev pub as_neg : Option ℕ → Option ℤ
as_neg none = none
as_neg (some zero) = some (pos 0)
as_neg (some (suc n)) = some (negsuc n)

-- A numeral has a digit at least.
abbrev pub numeral : String → Option ℕ
numeral s = if str_eq s "" then none else read_digits 0 s

abbrev pub radix_of : ℕ → ℕ
radix_of c =
    if c == b'x' || c == b'X'
    then 16
    else if c == b'o' || c == b'O'
    then 8
    else if c == b'b' || c == b'B'
    then 2
    else 0

-- A literal behind `0`: with a prefix, or a decimal one.
behind_zero : String → Option ℤ
behind_zero String.[] = some (pos 0)
behind_zero (String.◌∷◌ c s) =
    if radix_of (code c) == 0
    then as_pos (read_digits 0 (String.◌∷◌ c s))
    else if str_eq s ""
    then none
    else as_pos (read_in (radix_of (code c)) 0 s)

-- A text without spaces around it. A sign stands in front of decimal digits only.
unfoldable pub literal : String → Option ℤ
unfolding behind_zero
literal String.[] = some (pos 0)
literal (String.◌∷◌ c s) =
    if code c == b'+'
    then as_pos (numeral s)
    else if code c == b'-'
    then as_neg (numeral s)
    else if code c == b'0'
    then behind_zero s
    else as_pos (read_digits 0 (String.◌∷◌ c s))

-- What is no literal throws a SyntaxError (the message is V8's).
abbrev pub converted : String → Option ℤ → Result ℤ
converted text (some n) = ok n
converted text none =
    thrown (error base_error no_kind ("Cannot convert " <> text <> " to a BigInt"))

-- `BigInt(text)`
unfoldable pub big_int : String → Result ℤ
big_int text = converted text (literal (trim text))
