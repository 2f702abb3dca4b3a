-- ===== src/BigInt/Laws.antt =====
-- `BigInt(String(n))` is `n`.
use Prim.Native.Char.{code}
use zkredit.Prelude.{
  ℕ, zero, suc, ◌/◌, ◌%◌, ◌≡◌, refl, String, true, false, arith, ltb, trim, trim_start, trim_end,
  is_space, read_digits, show, is_digit, dec_char, dec_char-facts, show_loop, Bool-cases, inl, inr,
  read_digits-show,
}
use zkredit.Prelude.Int.{pos}
use zkredit.Effects.Sync.{ok}
use zkredit.BigInt.{behind_zero, literal, big_int, as_pos, radix_of}

abbrev IsNumeral : String → Type 0
IsNumeral String.[] = Unit {0}
IsNumeral (String.◌∷◌ c s) = (is_digit (code c) ≡ true) × IsNumeral s

-- A digit is no space, no sign, and no letter of a prefix.
digit_no_space : (c : ℕ) → is_digit c ≡ true → is_space c ≡ false
digit_no_space c h = ground arith

no_radix : (c : ℕ) → is_digit c ≡ true → radix_of c ≡ 0
no_radix c h = ground arith

trim_end-numeral : (s : String) → IsNumeral s → trim_end s ≡ s
unfolding trim_end
trim_end-numeral String.[] h = refl
trim_end-numeral (String.◌∷◌ c s) h = rw (digit_no_space (code c) h.0, trim_end-numeral s h.1)

trim-numeral : (s : String) → IsNumeral s → trim s ≡ s
unfolding trim trim_start
trim-numeral String.[] h = refl
trim-numeral (String.◌∷◌ c s) h =
    rw (trim_end-numeral (String.◌∷◌ c s) h, digit_no_space (code c) h.0)

behind_zero-numeral : (s : String) → IsNumeral s → behind_zero s ≡ as_pos (read_digits 0 s)
unfolding behind_zero read_digits
behind_zero-numeral String.[] h = refl
behind_zero-numeral (String.◌∷◌ c s) h =
    let no_prefix : radix_of (code c) ≡ 0 = no_radix (code c) h.0 in rw (no_prefix, h.0)

literal-numeral : (s : String) → IsNumeral s → literal s ≡ as_pos (read_digits 0 s)
unfolding literal read_digits
literal-numeral String.[] h = refl
literal-numeral (String.◌∷◌ c s) h = ground (arith, behind_zero-numeral s h.1)

show_loop-IsNumeral : (fuel n : ℕ) (acc : String) → IsNumeral acc → IsNumeral (show_loop fuel n acc)
unfolding show_loop
show_loop-IsNumeral zero n acc h = h
show_loop-IsNumeral (suc fuel) n acc h =
    let longer : IsNumeral (String.◌∷◌ (dec_char (n % 10)) acc) =
      ((dec_char-facts (n % 10) (omega arith)).0, h) in
    elim (Bool-cases (ltb n 10)) [
      | inl small ↦ rw small longer
      | inr large ↦
          rw large (show_loop-IsNumeral fuel (n / 10) (String.◌∷◌ (dec_char (n % 10)) acc) longer)
    ]

-- A printed number is read back.
pub big_int-show : (n : ℕ) → big_int (show n) ≡ ok (pos n)
unfolding big_int
big_int-show n =
    let digits : IsNumeral (show n) = unfold show in show_loop-IsNumeral (suc n) n "" tt in
    rw (trim-numeral (show n) digits, literal-numeral (show n) digits, read_digits-show n)
