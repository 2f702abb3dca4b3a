-- ===== src/Tests/Encoding.antt =====
-- Bytes, words and proofs: the theorems at concrete inputs.
use zkredit.Prelude.{
  ℕ, ◌+◌, ◌*◌, ◌^◌, ◌<◌, ◌≡◌, refl, some, List, [], ◌∷◌, All, take, drop, show, arith,
}
use zkredit.Bytes.{from_hex}
use zkredit.Effects.Sync.{ok}
use zkredit.Effects.Browser.{bytes}
use zkredit.IdentityProof.{FullProof, IdentityProof, assemble, signal_words, count_bytes}
use zkredit.IdentityProof.Blob.{IsBlock}
use zkredit.IdentityProof.Totality.{assemble-total, IsElement, IsG1, IsG2}
use zkredit.IdentityProof.Commitment.{assemble-layout, assemble-commitment}
use zkredit.Contracts.{commitment_sc_val}
use zkredit.Contracts.Membership.{commitment_sc_val-assemble}

abbrev pub small_proof : FullProof
small_proof = record {
  pi_a = show 1 ∷ show 2 ∷ [];
  pi_b = (show 3 ∷ show 4 ∷ []) ∷ (show 5 ∷ show 6 ∷ []) ∷ [];
  pi_c = show 7 ∷ show 8 ∷ [];
  public_signals = show 9 ∷ show 10 ∷ [];
}

abbrev element : (n : ℕ) → n < 2 ^ 256 → IsElement (show n)
element n h = (n, refl, h)

abbrev small_a : IsG1 small_proof.pi_a
small_a = (show 1, show 2, [], refl, element 1 (omega arith), element 2 (omega arith))

abbrev small_b : IsG2 small_proof.pi_b
small_b = (
  show 3 ∷ show 4 ∷ [],
  show 5 ∷ show 6 ∷ [],
  [],
  refl,
  (show 3, show 4, [], refl, element 3 (omega arith), element 4 (omega arith)),
  (show 5, show 6, [], refl, element 5 (omega arith), element 6 (omega arith)),
)

abbrev small_c : IsG1 small_proof.pi_c
small_c = (show 7, show 8, [], refl, element 7 (omega arith), element 8 (omega arith))

abbrev small_signals : All IsElement (show 9 ∷ show 10 ∷ [])
small_signals = (element 9 (omega arith), (element 10 (omega arith), tt))

assemble-total_example : (r : IdentityProof) × (assemble "5" small_proof ≡ ok r)
assemble-total_example =
    assemble-total "5" small_proof (show 9) (show 10 ∷ []) small_a small_b small_c refl
      small_signals

pub small_assembled : (r : IdentityProof) × (assemble "5" small_proof ≡ ok r)
small_assembled =
    assemble-total "5" small_proof (show 9) (show 10 ∷ []) small_a small_b small_c refl
      small_signals

abbrev pub small : IdentityProof
small = small_assembled.0

assemble-layout_example :
    IsBlock (258 + 32 * 2) small.proof_bytes
    × (take 2 (drop 256 small.proof_bytes) ≡ count_bytes 2)
    × (signal_words small_proof.public_signals ≡ ok (drop 258 small.proof_bytes))
    × (small.secret_dec ≡ "5")
assemble-layout_example = assemble-layout "5" small_proof small small_assembled.1

assemble-commitment_example :
    from_hex small.commitment_hex ≡ some (take 32 (drop 258 small.proof_bytes))
assemble-commitment_example = assemble-commitment "5" small_proof small small_assembled.1

commitment_sc_val-assemble_example :
    commitment_sc_val small.commitment_hex ≡ ok (bytes (take 32 (drop 258 small.proof_bytes)))
commitment_sc_val-assemble_example =
    commitment_sc_val-assemble "5" small_proof small small_assembled.1

abbrev decoded : List ℕ
decoded = 171 ∷ []
