-- ===== src/IdentityProof.antt =====
-- frontend/src/lib/zk/identity-proof.ts: serialising a Groth16 proof for the WalletIdentity
-- contract. Field elements are decimal texts, as snarkjs gives and takes them.
pub mod Words
pub mod Blob
pub mod Commitment
pub mod Totality
pub mod Proving
use zkredit.Prelude.{
  ◌<>◌, ℕ, zero, suc, ◌+◌, ◌*◌, ◌/◌, ◌%◌, String, Option, none, some, List, [], ◌∷◌, ◌++◌,
  get_elem?, length, show, if◌then◌else◌,
}
use mathlib.Core.List.{foldl}
use zkredit.Prelude.Int.{ℤ, pos, low_byte, shift_8, is_zero}
use zkredit.Bytes.{to_hex}
use zkredit.BigInt.{big_int}
use zkredit.Effects.Errors.{Exception, error, base_error, no_kind}
use zkredit.Effects.Sync.{Result, ok, thrown, ◌>>=◌}

-- `new Error(message)`
abbrev pub new_error : String → Exception
new_error message = error base_error no_kind message

-- The loop of `toBE32`: `out` is filled from its end, and what is left of `n` comes back.
unfoldable pub be_loop : ℕ → ℤ → List ℕ → List ℕ × ℤ
be_loop zero n out = (out, n)
be_loop (suc i) n out = be_loop i (shift_8 n) (low_byte n ∷ out)

abbrev pub checked : String → List ℕ × ℤ → Result (List ℕ)
checked dec (out, rest) =
    if is_zero rest then ok out else thrown (new_error ("field element exceeds 32 bytes: " <> dec))

unfoldable pub to_be_32 : String → Result (List ℕ)
to_be_32 dec = do n ← big_int dec; checked dec (be_loop 32 n [])

-- `concat(...parts)`
unfoldable pub concat : List (List ℕ) → List ℕ
concat [] = []
concat (part ∷ parts) = part ++ concat parts

-- `arr?.[i]`, for an array that may be missing.
abbrev element : {A : Type 0} → Option (List A) → ℕ → Option A
element none i = none
element (some arr) i = get_elem? arr i

abbrev present : Option String → Result String
present none = thrown (new_error "malformed proof point")
present (some v) = ok v

unfoldable pub at : Option (List String) → ℕ → Result String
at arr i = present (element arr i)

-- G1 = [x, y, z]; the blob holds x, then y.
unfoldable pub g1 : List String → Result (List ℕ)
g1 p = do
  xd ← at (some p) 0
  x ← to_be_32 xd
  yd ← at (some p) 1
  y ← to_be_32 yd
  ok (concat (x ∷ y ∷ []))

-- G2 = [[x.c0, x.c1], [y.c0, y.c1], ...]; each coordinate is packed as c1, then c0.
unfoldable pub g2 : List (List String) → Result (List ℕ)
g2 p = do
  x1d ← at (get_elem? p 0) 1
  x1 ← to_be_32 x1d
  x0d ← at (get_elem? p 0) 0
  x0 ← to_be_32 x0d
  y1d ← at (get_elem? p 1) 1
  y1 ← to_be_32 y1d
  y0d ← at (get_elem? p 1) 0
  y0 ← to_be_32 y0d
  ok (concat (x1 ∷ x0 ∷ y1 ∷ y0 ∷ []))

-- The loop `n = (n << 8n) | BigInt(b)` over bytes.
abbrev pub push_byte : ℕ → ℕ → ℕ
push_byte n b = n * 256 + b

unfoldable pub from_be : List ℕ → ℕ
from_be bytes = foldl push_byte 0 bytes

-- `randomFieldElement` of the 31 random bytes.
unfoldable pub random_field_element : List ℕ → String
random_field_element bytes = show (from_be bytes)

-- The order of the BN254 scalar field.
abbrev pub bn254_r : ℕ
bn254_r = 21888242871839275222246405745257275088548364400416034343698204186575808495617

-- `addrToFieldElement` of the SHA-256 digest of the address.
unfoldable pub addr_to_field_element : List ℕ → String
addr_to_field_element digest = show (from_be digest % bn254_r)

-- What `groth16.fullProve` of snarkjs returns.
pub record FullProof : Type 0 where
  pub pi_a : List String
  pub pi_b : List (List String)
  pub pi_c : List String
  pub public_signals : List String

pub record IdentityProof : Type 0 where
  pub secret_dec : String
  pub commitment_hex : String
  pub proof_bytes : List ℕ

unfoldable pub signal_words : List String → Result (List ℕ)
signal_words [] = ok []
signal_words (s ∷ signals) = do word ← to_be_32 s; words ← signal_words signals; ok (word ++ words)

-- `new Uint8Array([(nPub >> 8) & 0xff, nPub & 0xff])`
abbrev pub count_bytes : ℕ → List ℕ
count_bytes n = n / 256 % 256 ∷ n % 256 ∷ []

-- The parts of `proofBytes`, in the order in which they are evaluated and joined.
unfoldable pub proof_blob : FullProof → Result (List ℕ)
proof_blob p = do
  a ← g1 p.pi_a
  b ← g2 p.pi_b
  c ← g1 p.pi_c
  signals ← signal_words p.public_signals
  ok (concat (a ∷ b ∷ c ∷ count_bytes (length p.public_signals) ∷ signals ∷ []))

abbrev pub first_signal : List String → Result String
first_signal [] = thrown (new_error "proof produced no public signal")
first_signal (s ∷ signals) = ok s

-- `proveIdentity` behind the call of `fullProve` for `secret`.
unfoldable pub assemble : String → FullProof → Result IdentityProof
assemble secret p = do
  commitment ← first_signal p.public_signals
  blob ← proof_blob p
  word ← to_be_32 commitment
  ok (record { secret_dec = secret; commitment_hex = to_hex word; proof_bytes = blob })
