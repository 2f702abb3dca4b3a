-- ===== src/Prelude/Decimal.antt =====
-- Decimal numerals: how a number is printed, and how `BigInt` reads a run of digits.
use Prim.Native.Nat.{ℕ, zero, suc, ◌+◌, ◌-◌, ◌*◌, ◌/◌, ◌%◌, ◌<◌}
use Prim.Native.Char.{Char, code}
use Prim.Native.String.{String}
use mathlib.Core.Path.{◌≡◌, refl}
use mathlib.Core.Bool.{Bool, true, ◌&&◌}
use mathlib.Core.Option.{Option, none, some}
use native.Mathlib.Omega.{arith}
use zkredit.Prelude.Tests.{leb, ltb, ◌==◌, if◌then◌else◌, all_below, all_below_sound, Bool-cases}
use mathlib.Core.Logic.{inl, inr}

-- The digit characters, by their last digit.
unfoldable pub dec_char : ℕ → Char
dec_char d =
    if d == 0
    then "0"
    else if d == 1
    then "1"
    else if d == 2
    then "2"
    else if d == 3
    then "3"
    else if d == 4
    then "4"
    else if d == 5
    then "5"
    else if d == 6
    then "6"
    else if d == 7
    then "7"
    else if d == 8
    then "8"
    else "9"

unfoldable pub show_loop : ℕ → ℕ → String → String
show_loop zero n acc = acc
show_loop (suc fuel) n acc =
    let longer = String.◌∷◌ (dec_char (n % 10)) acc in
    let rest = show_loop fuel (n / 10) longer in if ltb n 10 then longer else rest

-- `String(n)`. The fuel is enough, since a division by ten shrinks what is left.
unfoldable pub show : ℕ → String
unfolding show_loop dec_char
show n = show_loop (suc n) n ""

abbrev pub is_digit : ℕ → Bool
is_digit c = leb b'0' c && leb c b'9'

-- The digits of `s` behind a number that has been read as `n`.
unfoldable pub read_digits : ℕ → String → Option ℕ
read_digits n String.[] = some n
read_digits n (String.◌∷◌ c s) =
    if is_digit (code c) then read_digits (n * 10 + (code c - b'0')) s else none

digit_table :
    all_below 10 (λ d. is_digit (code (dec_char d)) && (code (dec_char d) - 48 == d)) ≡ true
unfolding all_below dec_char
digit_table = refl

module _ (d : ℕ) (h : d < 10) where
  pub dec_char-facts : (is_digit (code (dec_char d)) ≡ true) × (code (dec_char d) - 48 ≡ d)
  dec_char-facts = ground (
    arith,
    all_below_sound 10 (λ d. is_digit (code (dec_char d)) && (code (dec_char d) - 48 == d)) d
        digit_table h,
  )

read_digits-cons :
    (v d : ℕ) (s : String)
    → d < 10
    → read_digits v (String.◌∷◌ (dec_char d) s) ≡ read_digits (v * 10 + d) s
unfolding read_digits
read_digits-cons v d s h = rw ((dec_char-facts d h).0, (dec_char-facts d h).1)

read_digits-show_loop :
    (fuel n : ℕ) (acc : String)
    → n < fuel
    → read_digits 0 (show_loop fuel n acc) ≡ read_digits n acc
unfolding show_loop
read_digits-show_loop zero n acc h = absurd (omega arith)
read_digits-show_loop (suc fuel) n acc h = elim (Bool-cases (ltb n 10)) [
  | inl small ↦
      let e : n % 10 ≡ n = ground arith in
      rw (small, e, read_digits-cons 0 n acc (ground arith)) (ground arith)
  | inr large ↦
      let e : n / 10 * 10 + n % 10 ≡ n = omega arith in
      rw (
        large,
        read_digits-show_loop fuel (n / 10) (String.◌∷◌ (dec_char (n % 10)) acc) (ground arith),
        read_digits-cons (n / 10) (n % 10) acc (omega arith),
        e,
      )
]

-- Reading what was printed gives the number back.
pub read_digits-show : (n : ℕ) → read_digits 0 (show n) ≡ some n
unfolding show read_digits
read_digits-show n = read_digits-show_loop (suc n) n "" (omega arith)
