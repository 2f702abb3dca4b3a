-- ===== src/Contracts/Membership.antt =====
-- The commitment of an identity proof as an argument of WalletIdentity.
use zkredit.Prelude.{
  ℕ, ◌≡◌, refl, String, List, take, drop, length, arith, All, ==_iff, ◌==◌, Bool-cases, inl, inr,
  Option-cases,
}
use zkredit.Bytes.{IsByte, from_hex, without_prefix}
use zkredit.Bytes.Decoding.{from_hex-shape}
use zkredit.Effects.Sync.{ok}
use zkredit.Effects.Browser.{ScVal, bytes}
use zkredit.IdentityProof.{FullProof, IdentityProof, assemble}
use zkredit.IdentityProof.Commitment.{assemble-commitment, assemble-commitment_size}
use zkredit.Contracts.{commitment_sc_val}

-- The commitment text of an assembled identity proof is accepted as an argument of WalletIdentity,
-- and the argument is the first public signal in the proof's blob.
pub commitment_sc_val-assemble :
    (secret : String) (p : FullProof) (r : IdentityProof)
    → assemble secret p ≡ ok r
    → commitment_sc_val r.commitment_hex ≡ ok (bytes (take 32 (drop 258 r.proof_bytes)))
unfolding commitment_sc_val
commitment_sc_val-assemble secret p r h =
    rw (assemble-commitment secret p r h, assemble-commitment_size secret p r h) refl

-- A commitment that is accepted becomes 32 bytes, and its text has 64 units behind the prefix.
commitment_sc_val-size :
    (commitment : String) (v : ScVal)
    → commitment_sc_val commitment ≡ ok v
    → (bs : List ℕ) × (v ≡ bytes bs)
      × (length bs ≡ 32)
      × All IsByte bs
      × (length (without_prefix commitment) ≡ 64)
unfolding commitment_sc_val
commitment_sc_val-size commitment v h = elim (Option-cases (from_hex commitment)) [
  | inl odd ↦ ground arith
  | inr (bs, e) ↦ elim (Bool-cases (length bs == 32)) [
    | inl right ↦
        let (half, bytes_only) = from_hex-shape commitment bs e in
        let size : length bs ≡ 32 = (==_iff (length bs) 32).0 right in
        (bs, ground arith, size, bytes_only, omega arith)
    | inr wrong ↦ cc (rw wrong at (rw e at h))
  ]
]
