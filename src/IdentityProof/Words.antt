-- ===== src/IdentityProof/Words.antt =====
-- `toBE32` is the big-endian encoding in 32 bytes, and fails exactly on what does not fit.
use zkredit.Prelude.{
  ◌<>◌, ℕ, zero, suc, ◌+◌, ◌*◌, ◌/◌, ◌%◌, ◌^◌, ◌≤◌, ◌<◌, ◌≡◌, ◌≢◌, refl, String, List, [], ◌∷◌,
  ◌++◌, length, length-append, show, arith, All, All-append, false,
}
use native.Mathlib.Nat.{pow-suc}
use mathlib.Core.List.{foldl, foldl-append, append_assoc, append-nil}
use zkredit.Prelude.Int.{ℤ, pos, negsuc, low_byte, shift_8, is_zero}
use zkredit.Bytes.{IsByte}
use zkredit.BigInt.{big_int}
use zkredit.BigInt.Laws.{big_int-show}
use zkredit.Effects.Sync.{ok, thrown, >>=-eq-ok}
use zkredit.IdentityProof.{be_loop, checked, to_be_32, from_be, push_byte, new_error}

-- The last `k` bytes of `n`, and what is left of it.
be_bytes : ℕ → ℕ → List ℕ
be_bytes zero n = []
be_bytes (suc k) n = be_bytes k (n / 256) ++ n % 256 ∷ []

shifted : ℕ → ℕ → ℕ
shifted zero n = n
shifted (suc k) n = shifted k (n / 256)

be_loop-pos :
    (k n : ℕ) (out : List ℕ) → be_loop k (pos n) out ≡ (be_bytes k n ++ out, pos (shifted k n))
unfolding be_loop be_bytes shifted
be_loop-pos zero n out = refl
be_loop-pos (suc k) n out = rw (be_loop-pos k (n / 256) (n % 256 ∷ out), append_assoc)

length-be_bytes : (k n : ℕ) → length (be_bytes k n) ≡ k
unfolding be_bytes
length-be_bytes zero n = refl
length-be_bytes (suc k) n =
    omega (arith, length-append (be_bytes k (n / 256)) (n % 256 ∷ []), length-be_bytes k (n / 256))

be_bytes-IsByte : (k n : ℕ) → All IsByte (be_bytes k n)
unfolding be_bytes
be_bytes-IsByte zero n = tt
be_bytes-IsByte (suc k) n =
    All-append IsByte (be_bytes k (n / 256)) (n % 256 ∷ []) (be_bytes-IsByte k (n / 256))
      (omega arith, tt)

pub from_be-append : (xs : List ℕ) (b : ℕ) → from_be (xs ++ b ∷ []) ≡ from_be xs * 256 + b
unfolding from_be
from_be-append xs b = rw foldl-append

-- The bytes and the rest together make up the number.
be_bytes-value : (k n : ℕ) → from_be (be_bytes k n) + 256 ^ k * shifted k n ≡ n
unfolding be_bytes shifted
be_bytes-value zero n = unfold from_be in omega arith
be_bytes-value (suc k) n =
    rw (from_be-append (be_bytes k (n / 256)) (n % 256), pow-suc)
      (omega (arith, be_bytes-value k (n / 256)))

-- Bytes read from `acc` on stay below the next power of 256.
fold-lt :
    (acc : ℕ) (xs : List ℕ) → All IsByte xs → foldl push_byte acc xs < (acc + 1) * 256 ^ length xs
fold-lt acc [] h = omega arith
fold-lt acc (b ∷ xs) (hb, h) =
    let step : (b + 1) * 256 ^ length xs ≤ 256 * 256 ^ length xs = grind arith in
    rw pow-suc (omega (arith, fold-lt (acc * 256 + b) xs h))

pub from_be-lt : (xs : List ℕ) → All IsByte xs → from_be xs < 256 ^ length xs
unfolding from_be
from_be-lt xs h = omega (arith, fold-lt 0 xs h)

-- What is left is zero exactly below 2^256.
module _ (n : ℕ) where
  word-value : from_be (be_bytes 32 n) + 2 ^ 256 * shifted 32 n ≡ n
  word-value = be_bytes-value 32 n

  word-lt : from_be (be_bytes 32 n) < 2 ^ 256
  word-lt =
      let bound : from_be (be_bytes 32 n) < 256 ^ length (be_bytes 32 n) =
        from_be-lt (be_bytes 32 n) (be_bytes-IsByte 32 n) in
      rw (length-be_bytes 32 n) at bound

  shifted-zero : n < 2 ^ 256 → shifted 32 n ≡ 0
  shifted-zero h = omega (arith, word-value)

  shifted-pos : 2 ^ 256 ≤ n → shifted 32 n ≢ 0
  shifted-pos h e = omega (arith, word-value, word-lt)

-- The specification of `toBE32`: the unique 32 bytes whose big-endian value is `n`.
pub record IsWord (n : ℕ) (bytes : List ℕ) : Type 0 where
  pub size : length bytes ≡ 32
  pub bytes_only : All IsByte bytes
  pub value : from_be bytes ≡ n

-- A printed number below 2^256 is converted to the 32 bytes whose big-endian value it is.
pub to_be_32-show :
    (n : ℕ) → n < 2 ^ 256 → (bytes : List ℕ) × (to_be_32 (show n) ≡ ok bytes) × IsWord n bytes
unfolding to_be_32
to_be_32-show n h = (
  be_bytes 32 n,
  rw (big_int-show n, be_loop-pos 32 n [], append-nil, shifted-zero n h),
  record {
    size = length-be_bytes 32 n;
    bytes_only = be_bytes-IsByte 32 n;
    value = omega (arith, word-value n, shifted-zero n h);
  },
)

-- The conversion of a printed number of 2^256 or more throws the error that names it.
pub to_be_32-too_large :
    (n : ℕ)
    → 2 ^ 256 ≤ n
    → to_be_32 (show n) ≡ thrown (new_error ("field element exceeds 32 bytes: " <> show n))
unfolding to_be_32
to_be_32-too_large n h =
    rw (big_int-show n, be_loop-pos 32 n [], append-nil) (ground (arith, shifted-pos n h))

low_byte-IsByte : (n : ℤ) → IsByte (low_byte n)
low_byte-IsByte (pos n) = omega arith
low_byte-IsByte (negsuc n) = omega arith

be_loop-shape :
    (k : ℕ) (n : ℤ) (out : List ℕ)
    → All IsByte out
    → (length (be_loop k n out).0 ≡ k + length out) × All IsByte (be_loop k n out).0
unfolding be_loop
be_loop-shape zero n out h = (omega arith, h)
be_loop-shape (suc k) n out h =
    let (size, bytes) = be_loop-shape k (shift_8 n) (low_byte n ∷ out) (low_byte-IsByte n, h) in
    (omega arith, bytes)

checked-eq-ok :
    (dec : String) (r : List ℕ × ℤ) (bytes : List ℕ) → checked dec r ≡ ok bytes → r.0 ≡ bytes
checked-eq-ok dec (out, rest) bytes h = ground arith

-- Whatever converts, printed by this client or not, gives 32 bytes.
pub to_be_32-shape :
    (dec : String) (bytes : List ℕ)
    → to_be_32 dec ≡ ok bytes
    → (length bytes ≡ 32) × All IsByte bytes
unfolding to_be_32
to_be_32-shape dec bytes h =
    let (n, _, e) = >>=-eq-ok (big_int dec) (λ n. checked dec (be_loop 32 n [])) h in
    let same = checked-eq-ok dec (be_loop 32 n []) bytes e in rw (← same) (be_loop-shape 32 n [] tt)

-- A negative number never converts.
be_loop-negsuc : (k n : ℕ) (out : List ℕ) → is_zero (be_loop k (negsuc n) out).1 ≡ false
unfolding be_loop
be_loop-negsuc zero n out = refl
be_loop-negsuc (suc k) n out = be_loop-negsuc k (n / 256) (low_byte (negsuc n) ∷ out)

-- Words are determined by their numbers.
pub IsWord-from_be : {n : ℕ} {bytes : List ℕ} → IsWord n bytes → n < 2 ^ 256
IsWord-from_be {n} {bytes} w =
    let bound : from_be bytes < 256 ^ length bytes = from_be-lt bytes w.bytes_only in
    let bound' : from_be bytes < 256 ^ 32 = rw w.size at bound in omega (arith, w.value)
