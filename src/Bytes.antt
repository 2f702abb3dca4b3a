-- ===== src/Bytes.antt =====
-- frontend/src/lib/contracts/bytes.ts: hexadecimal texts and bytes. A `Uint8Array` is a list of
-- numbers, below 256 where that matters.
pub mod RoundTrip
pub mod Decoding
use zkredit.Prelude.{
  ℕ, zero, suc, ◌+◌, ◌-◌, ◌*◌, ◌/◌, ◌%◌, ◌<◌, Char, String, Bool, ◌||◌, ◌&&◌, Option, none, some,
  List, [], ◌∷◌, ltb, leb, ◌==◌, if◌then◌else◌, length, drop, units, starts_with, is_space,
}

abbrev pub IsByte : ℕ → Type 0
IsByte b = b < 256

-- A digit of `toString(16)`.
unfoldable pub hex_char : ℕ → Char
hex_char d =
    if d == 0
    then "0"
    else if d == 1
    then "1"
    else if d == 2
    then "2"
    else if d == 3
    then "3"
    else if d == 4
    then "4"
    else if d == 5
    then "5"
    else if d == 6
    then "6"
    else if d == 7
    then "7"
    else if d == 8
    then "8"
    else if d == 9
    then "9"
    else if d == 10
    then "a"
    else if d == 11
    then "b"
    else if d == 12
    then "c"
    else if d == 13
    then "d"
    else if d == 14
    then "e"
    else "f"

-- `b.toString(16)` of a byte, in front of `rest`: one digit below 16, two from there.
unfoldable pub to_string_16 : ℕ → String → String
to_string_16 b rest =
    if ltb b 16
    then String.◌∷◌ (hex_char b) rest
    else String.◌∷◌ (hex_char (b / 16)) (String.◌∷◌ (hex_char (b % 16)) rest)

-- `padStart(2, '0')` adds a zero to one digit.
unfoldable pub padded : ℕ → String → String
padded b rest = if ltb b 16 then String.◌∷◌ "0" (to_string_16 b rest) else to_string_16 b rest

unfoldable pub to_hex : List ℕ → String
unfolding padded to_string_16 hex_char
to_hex [] = ""
to_hex (b ∷ bytes) = padded b (to_hex bytes)

-- The value of a hexadecimal digit, of either case.
unfoldable pub hex_value : ℕ → Option ℕ
hex_value c =
    if leb b'0' c && leb c b'9'
    then some (c - b'0')
    else if leb b'a' c && leb c b'f'
    then some (c - b'a' + 10)
    else if leb b'A' c && leb c b'F'
    then some (c - b'A' + 10)
    else none

-- `NaN` is stored in a `Uint8Array` as 0.
abbrev pub or_nan : Option ℕ → ℕ
or_nan none = 0
or_nan (some n) = n

-- What `parseInt(text, 16)` of the two units `a b` leaves in a `Uint8Array`: the longest run of
-- digits after spaces and a sign counts. A negative value wraps, and no digit at all (also behind
-- a prefix "0x") is `NaN`.
unfoldable pub parse_pair : ℕ → ℕ → ℕ
parse_pair a b = elim (hex_value a) [
  | some high ↦ elim (hex_value b) [ some low ↦ high * 16 + low | none ↦ high ]
  | none ↦
      if is_space a || a == b'+'
      then or_nan (hex_value b)
      else if a == b'-'
      then (256 - or_nan (hex_value b)) % 256
      else 0
]

-- The loop over `out`, two units a round; it stops before an odd unit.
unfoldable pub parse_pairs : List ℕ → List ℕ
parse_pairs (a ∷ b ∷ more) = parse_pair a b ∷ parse_pairs more
parse_pairs _ = []

-- `clean`: the text without its prefix.
unfoldable pub without_prefix : String → List ℕ
without_prefix hex = if starts_with hex "0x" then drop 2 (units hex) else units hex

-- `none` is the error "hex string must have an even number of characters".
unfoldable pub decode : List ℕ → Option (List ℕ)
decode clean = if length clean % 2 == 0 then some (parse_pairs clean) else none

unfoldable pub from_hex : String → Option (List ℕ)
unfolding decode
from_hex hex = decode (without_prefix hex)
