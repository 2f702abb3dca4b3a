-- ===== src/Bytes/Decoding.antt =====
-- What `from_hex` of bytes.ts accepts, and what it makes of a text that is no output of `to_hex`.
use zkredit.Prelude.{
  ℕ, ◌+◌, ◌*◌, ◌%◌, ◌<◌, ◌≡◌, ◌≢◌, ◌↔◌, ◌/◌, refl, String, Bool, true, false, Option, none, some,
  List, [], ◌∷◌, map, arith, ◌==◌, ==_iff, length, All, units, all_below, all_below_sound,
  Bool-cases, Option-cases, inl, inr, to_lower, is_space,
}
use zkredit.Bytes.{
  decode, IsByte, hex_char, to_hex, hex_value, or_nan, parse_pair, parse_pairs, without_prefix,
  from_hex,
}
use zkredit.Bytes.RoundTrip.{digit_unit, units-to_hex}

-- Every digit stays below 16, so every pair is a byte.
hex_value-lt : (c v : ℕ) → hex_value c ≡ some v → v < 16
unfolding hex_value
hex_value-lt c v h = ground arith

or_nan-lt : (c : ℕ) → or_nan (hex_value c) < 16
unfolding hex_value
or_nan-lt c = ground arith

parse_pair-IsByte : (a b : ℕ) → IsByte (parse_pair a b)
unfolding parse_pair
parse_pair-IsByte a b = elim (Option-cases (hex_value a)) [
  | inl no_high ↦ rw (no_high, parse_pair) (ground (arith, or_nan-lt b))
  | inr (high, e) ↦ elim (Option-cases (hex_value b)) [
    | inl no_low ↦ rw (e, no_low, parse_pair) (omega (arith, hex_value-lt a high e))
    | inr (low, e') ↦
        rw (e, e', parse_pair) (omega (arith, hex_value-lt a high e, hex_value-lt b low e'))
  ]
]

parse_pairs-IsByte : (us : List ℕ) → All IsByte (parse_pairs us)
unfolding parse_pairs
parse_pairs-IsByte [] = tt
parse_pairs-IsByte (a ∷ []) = tt
parse_pairs-IsByte (a ∷ b ∷ us) = (parse_pair-IsByte a b, parse_pairs-IsByte us)

length-parse_pairs : (us : List ℕ) → length us % 2 ≡ 0 → 2 * length (parse_pairs us) ≡ length us
unfolding parse_pairs
length-parse_pairs [] h = refl
length-parse_pairs (a ∷ []) h = absurd (omega arith)
length-parse_pairs (a ∷ b ∷ us) h = omega (arith, length-parse_pairs us (omega arith))

decode-shape :
    (clean bytes : List ℕ)
    → decode clean ≡ some bytes
    → (2 * length bytes ≡ length clean) × All IsByte bytes
unfolding decode
decode-shape clean bytes h = elim (Bool-cases (length clean % 2 == 0)) [
  | inl even ↦
      let e : parse_pairs clean ≡ bytes = ground arith in
      rw (← e)
        (length-parse_pairs clean ((==_iff (length clean % 2) 0).0 even), parse_pairs-IsByte clean)
  | inr odd ↦ ground arith
]

-- What a text is decoded to consists of bytes, half as many as the text has units behind its
-- prefix.
pub from_hex-shape :
    (hex : String) (bytes : List ℕ)
    → from_hex hex ≡ some bytes
    → (2 * length bytes ≡ length (without_prefix hex)) × All IsByte bytes
unfolding from_hex
from_hex-shape hex bytes h = decode-shape (without_prefix hex) bytes h

-- Decoding fails exactly on the texts that have an odd number of units behind their prefix.
from_hex-none_iff : (hex : String) → (from_hex hex ≡ none) ↔ (length (without_prefix hex) % 2 ≡ 1)
unfolding from_hex
from_hex-none_iff hex = ground arith

-- A unit that `parseInt` can make nothing of.
abbrev pub IsJunk : ℕ → Type 0
IsJunk c = (hex_value c ≡ none) × (is_space c ≡ false) × (c ≢ b'+') × (c ≢ b'-')

abbrev pub zeros : List ℕ → List ℕ
zeros (a ∷ b ∷ us) = 0 ∷ zeros us
zeros _ = []

parse_pairs-junk : (us : List ℕ) → All IsJunk us → parse_pairs us ≡ zeros us
unfolding parse_pairs parse_pair
parse_pairs-junk [] h = refl
parse_pairs-junk (a ∷ []) h = refl
parse_pairs-junk (a ∷ b ∷ us) (ha, (hb, h)) =
    let zero_pair : parse_pair a b ≡ 0 = rw (ha.0, ha.1, parse_pair) (ground arith) in
    rw (zero_pair, parse_pairs-junk us h)

-- A text with an even number of units behind its prefix, none of them a hexadecimal digit, a space
-- or a sign, is decoded to zeros.
pub from_hex-junk :
    (hex : String)
    → length (without_prefix hex) % 2 ≡ 0
    → All IsJunk (without_prefix hex)
    → from_hex hex ≡ some (zeros (without_prefix hex))
unfolding from_hex
from_hex-junk hex even junk = rw (even, parse_pairs-junk (without_prefix hex) junk)

-- Canonical form: the digits of a decoded text, encoded again, are the same digits in lower case.
abbrev pub IsHexUnit : ℕ → Type 0
IsHexUnit c = (v : ℕ) × (hex_value c ≡ some v)

abbrev lowers : Option ℕ → ℕ → Bool
lowers none c = true
lowers (some v) c = digit_unit v == to_lower c

lower_table : all_below 103 (λ c. lowers (hex_value c) c) ≡ true
unfolding all_below hex_value hex_char
lower_table = refl

hex_value-bound : (c v : ℕ) → hex_value c ≡ some v → c < 103
unfolding hex_value
hex_value-bound c v h = ground arith

lowers-eq : (o : Option ℕ) (c v : ℕ) → lowers o c ≡ true → o ≡ some v → digit_unit v ≡ to_lower c
lowers-eq none c v h e = cc
lowers-eq (some w) c v h e = ground arith

digit_unit-to_lower : (c v : ℕ) → hex_value c ≡ some v → digit_unit v ≡ to_lower c
digit_unit-to_lower c v e =
    lowers-eq (hex_value c) c v
      (all_below_sound 103 (λ c. lowers (hex_value c) c) c lower_table (hex_value-bound c v e)) e

parse_pair-digits :
    (a b v w : ℕ) → hex_value a ≡ some v → hex_value b ≡ some w → parse_pair a b ≡ v * 16 + w
unfolding parse_pair
parse_pair-digits a b v w ea eb = rw (ea, eb, parse_pair)

units-parse_pair :
    (a b v w : ℕ) (bytes : List ℕ)
    → hex_value a ≡ some v
    → hex_value b ≡ some w
    → units (to_hex (parse_pair a b ∷ bytes)) ≡ to_lower a ∷ to_lower b ∷ units (to_hex bytes)
units-parse_pair a b v w bytes ea eb =
    let hw : w < 16 = hex_value-lt b w eb in
    let high : (v * 16 + w) / 16 ≡ v = omega arith in
    let low : (v * 16 + w) % 16 ≡ w = omega arith in
    rw (
      units-to_hex (parse_pair a b) bytes (parse_pair-IsByte a b),
      parse_pair-digits a b v w ea eb,
      high,
      low,
      digit_unit-to_lower a v ea,
      digit_unit-to_lower b w eb,
    )

units-to_hex-parse_pairs :
    (us : List ℕ)
    → length us % 2 ≡ 0
    → All IsHexUnit us
    → units (to_hex (parse_pairs us)) ≡ map to_lower us
unfolding parse_pairs
units-to_hex-parse_pairs [] even h = unfold to_hex in refl
units-to_hex-parse_pairs (a ∷ []) even h = absurd (omega arith)
units-to_hex-parse_pairs (a ∷ b ∷ us) even ((v, ea), ((w, eb), h)) =
    rw
      (units-parse_pair a b v w (parse_pairs us) ea eb, units-to_hex-parse_pairs us (omega arith) h)

-- Encoding what a text of hexadecimal digits was decoded to gives the digits in lower case,
-- without the prefix.
pub to_hex-from_hex :
    (hex : String) (bytes : List ℕ)
    → All IsHexUnit (without_prefix hex)
    → from_hex hex ≡ some bytes
    → units (to_hex bytes) ≡ map to_lower (without_prefix hex)
unfolding from_hex decode
to_hex-from_hex hex bytes h e = elim (Bool-cases (length (without_prefix hex) % 2 == 0)) [
  | inl even ↦
      let same : parse_pairs (without_prefix hex) ≡ bytes = ground arith in
      rw (← same) (
        units-to_hex-parse_pairs (without_prefix hex)
          ((==_iff (length (without_prefix hex) % 2) 0).0 even) h)
  | inr odd ↦ ground arith
]
