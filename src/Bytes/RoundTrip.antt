-- ===== src/Bytes/RoundTrip.antt =====
-- Encoding and decoding of bytes.ts: round trips, lengths and what is accepted.
use zkredit.Prelude.{
  ℕ, ◌*◌, ◌/◌, ◌%◌, ◌<◌, ◌≡◌, refl, code, Bool, true, false, ◌&&◌, Option, none, some, List, [],
  ◌∷◌, arith, ltb, ◌==◌, length, All, units, all_below, all_below_sound, starts_with, char_units,
  Bool-cases, inl, inr,
}
use zkredit.Bytes.{
  IsByte, hex_char, to_string_16, padded, to_hex, hex_value, parse_pair, parse_pairs,
  without_prefix, from_hex,
}

-- What the two digits of a byte are, as code units.
abbrev pub digit_unit : ℕ → ℕ
digit_unit d = code (hex_char d)

abbrev value_is : Option ℕ → ℕ → Bool
value_is none d = false
value_is (some v) d = v == d

value_is-eq : (o : Option ℕ) (d : ℕ) → value_is o d ≡ true → o ≡ some d
value_is-eq o d h = ground arith

digits_table :
    all_below 16 (λ d. value_is (hex_value (digit_unit d)) d && (ltb (digit_unit d) 103)) ≡ true
unfolding all_below hex_char hex_value
digits_table = refl

module _ (d : ℕ) (h : d < 16) where
  pub digit_facts : (hex_value (digit_unit d) ≡ some d) × (digit_unit d < 103)
  digit_facts = ground (
    arith,
    value_is-eq (hex_value (digit_unit d)) d,
    all_below_sound 16 (λ d. value_is (hex_value (digit_unit d)) d && (ltb (digit_unit d) 103)) d
        digits_table h,
  )

-- An ASCII character is one code unit.
char_units_ascii : (c : ℕ) → c < 128 → char_units c ≡ c ∷ []
char_units_ascii c h = ground arith

digit_units : (d : ℕ) → d < 16 → char_units (digit_unit d) ≡ digit_unit d ∷ []
digit_units d h = char_units_ascii (digit_unit d) (omega (arith, digit_facts d h))

pub units-to_hex :
    (b : ℕ) (bytes : List ℕ)
    → IsByte b
    → units (to_hex (b ∷ bytes)) ≡ digit_unit (b / 16) ∷ digit_unit (b % 16) ∷ units (to_hex bytes)
unfolding to_hex padded to_string_16
units-to_hex b bytes h = elim (Bool-cases (ltb b 16)) [
  | inl small ↦
      let is_zero : b / 16 ≡ 0 = ground arith in
      let is_b : b % 16 ≡ b = ground arith in
      rw (small, is_zero, is_b, digit_units b (ground arith)) (unfold hex_char in refl)
  | inr large ↦ rw (large, digit_units (b / 16) (omega arith), digit_units (b % 16) (omega arith))
]

pub parse_pair-digits :
    (b : ℕ) → IsByte b → parse_pair (digit_unit (b / 16)) (digit_unit (b % 16)) ≡ b
unfolding parse_pair
parse_pair-digits b h =
    rw ((digit_facts (b / 16) (omega arith)).0, (digit_facts (b % 16) (omega arith)).0, parse_pair)
      (omega arith)

-- Decoding the digits that `to_hex` wrote.
parse_pairs-to_hex :
    (bytes : List ℕ) → All IsByte bytes → parse_pairs (units (to_hex bytes)) ≡ bytes
unfolding parse_pairs
parse_pairs-to_hex [] h = unfold to_hex in refl
parse_pairs-to_hex (b ∷ bytes) h =
    rw (units-to_hex b bytes h.0, parse_pair-digits b h.0, parse_pairs-to_hex bytes h.1)

pub length-units-to_hex :
    (bytes : List ℕ) → All IsByte bytes → length (units (to_hex bytes)) ≡ 2 * length bytes
length-units-to_hex [] h = unfold to_hex in refl
length-units-to_hex (b ∷ bytes) h =
    rw (units-to_hex b bytes h.0) (omega (arith, length-units-to_hex bytes h.1))

-- No prefix is mistaken for one: the second digit is never `x`.
starts_with-to_hex : (bytes : List ℕ) → All IsByte bytes → starts_with (to_hex bytes) "0x" ≡ false
starts_with-to_hex [] h = unfold to_hex in refl
starts_with-to_hex (b ∷ bytes) h =
    rw (units-to_hex b bytes h.0) (ground (arith, digit_facts (b % 16) (omega arith)))

without_prefix-to_hex :
    (bytes : List ℕ) → All IsByte bytes → without_prefix (to_hex bytes) ≡ units (to_hex bytes)
unfolding without_prefix
without_prefix-to_hex bytes h = rw (starts_with-to_hex bytes h)

-- Decoding the hexadecimal text of a list of bytes gives the bytes back.
pub from_hex-to_hex : (bytes : List ℕ) → All IsByte bytes → from_hex (to_hex bytes) ≡ some bytes
unfolding from_hex
from_hex-to_hex bytes h =
    rw (without_prefix-to_hex bytes h, length-units-to_hex bytes h, parse_pairs-to_hex bytes h)
      (ground arith)
