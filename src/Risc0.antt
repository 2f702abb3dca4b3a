-- ===== src/Risc0.antt =====
-- contracts/shared/src/risc0.rs: the receipts of the RISC Zero guest that scores a wallet, and the
-- journal that they prove. SHA-256 and the arithmetic of the curve are the host's.
pub mod Typed
pub mod Vk
pub mod Receipts
pub mod Claims
pub mod Journals
use mathlib.Core.List.{reverse}
use zkredit.Prelude.{
  ℕ, ◌+◌, ◌*◌, ◌/◌, ◌%◌, ◌^◌, Bool, false, Option, none, some, List, [], ◌∷◌, ◌++◌, String, length,
  take, drop, map, units, if◌then◌else◌, ◌==◌, not,
}
use zkredit.Host.{Run, returned}
use zkredit.IdentityProof.{concat}
use zkredit.Groth16.{Curve, verify_groth16}
use zkredit.Risc0.Vk.{risc0_vk}

unfoldable pub control_root : List ℕ
control_root =
    0xa5 ∷ 0x4d ∷ 0xc8 ∷ 0x5a ∷ 0xc9 ∷ 0x9f ∷ 0x85 ∷ 0x1c ∷ 0x92 ∷ 0xd7 ∷ 0xc9 ∷ 0x6d ∷ 0x73 ∷ 0x18
    ∷ 0xaf ∷ 0x41 ∷ 0xdb ∷ 0xe7 ∷ 0xc0 ∷ 0x19 ∷ 0x4e ∷ 0xdf ∷ 0xcc ∷ 0x37 ∷ 0xeb ∷ 0x4d ∷ 0x42
    ∷ 0x2a ∷ 0x99 ∷ 0x8c ∷ 0x1f ∷ 0x56 ∷ []

unfoldable pub bn254_control_id : List ℕ
bn254_control_id =
    0xc0 ∷ 0x7a ∷ 0x65 ∷ 0x14 ∷ 0x5c ∷ 0x3c ∷ 0xb4 ∷ 0x8b ∷ 0x61 ∷ 0x01 ∷ 0x96 ∷ 0x2e ∷ 0xa6 ∷ 0x07
    ∷ 0xa4 ∷ 0xdd ∷ 0x93 ∷ 0xc7 ∷ 0x53 ∷ 0xbb ∷ 0x26 ∷ 0x97 ∷ 0x5c ∷ 0xb4 ∷ 0x7f ∷ 0xeb ∷ 0x00
    ∷ 0xd3 ∷ 0x66 ∷ 0x6e ∷ 0x44 ∷ 0x04 ∷ []

abbrev pub zeros_16 : List ℕ
zeros_16 = 0 ∷ 0 ∷ 0 ∷ 0 ∷ 0 ∷ 0 ∷ 0 ∷ 0 ∷ 0 ∷ 0 ∷ 0 ∷ 0 ∷ 0 ∷ 0 ∷ 0 ∷ 0 ∷ []

abbrev pub zero_digest : List ℕ
zero_digest = zeros_16 ++ zeros_16

-- `to_le_bytes` of a u32 and of a u16
abbrev pub u32_le : ℕ → List ℕ
u32_le n = n % 256 ∷ n / 256 % 256 ∷ n / 65536 % 256 ∷ n / 16777216 % 256 ∷ []

abbrev pub u16_le : ℕ → List ℕ
u16_le n = n % 256 ∷ n / 256 % 256 ∷ []

-- Of 32 bytes.
unfoldable pub split_digest : List ℕ → List ℕ × List ℕ
split_digest digest =
    let reversed = reverse digest in (zeros_16 ++ drop 16 reversed, zeros_16 ++ take 16 reversed)

module _ (sha256 : List ℕ → List ℕ) where
  unfoldable pub tagged_struct : String → List (List ℕ) → List ℕ → List ℕ
  tagged_struct tag down words = sha256 (
      sha256 (units tag)
      ++ (concat down ++ (concat (map u32_le words) ++ u16_le (length down % 65536))))

  unfoldable pub claim_digest : List ℕ → List ℕ → List ℕ
  claim_digest image_id journal_digest =
      let post = tagged_struct "risc0.SystemState" (zero_digest ∷ []) (0 ∷ []) in
      let output = tagged_struct "risc0.Output" (journal_digest ∷ zero_digest ∷ []) [] in
      tagged_struct "risc0.ReceiptClaim" (zero_digest ∷ image_id ∷ post ∷ output ∷ []) (0 ∷ 0 ∷ [])

  module _ (curve : Curve) where
    unfoldable pub verify_seal : List ℕ → List (List ℕ) → Run Bool
    verify_seal seal public_inputs =
        verify_groth16 curve risc0_vk (seal ++ (0 ∷ 5 ∷ concat public_inputs))

    unfoldable pub verify_receipt : List ℕ → List ℕ → List ℕ → Run Bool
    verify_receipt seal image_id journal =
        if length risc0_vk == 0
        then returned false
        else let (claim_0, claim_1) = split_digest (claim_digest image_id (sha256 journal)) in
          let (root_0, root_1) = split_digest control_root in
          verify_seal seal (root_0 ∷ root_1 ∷ claim_0 ∷ claim_1 ∷ reverse bn254_control_id ∷ [])

pub record Journal : Type 0 where
  pub risk_bucket : ℕ
  pub confidence : ℕ
  pub identity_commitment : List ℕ
  pub distilled_model_hash : List ℕ

-- `u32::from_be_bytes`
abbrev pub u32_be : List ℕ → ℕ
u32_be (a ∷ b ∷ c ∷ d ∷ _) = ((a * 256 + b) * 256 + c) * 256 + d
u32_be _ = 0

unfoldable pub parse_journal : List ℕ → Option Journal
parse_journal journal =
    if not (length journal == 72)
    then none
    else some (record {
      risk_bucket = u32_be journal;
      confidence = u32_be (drop 4 journal);
      identity_commitment = take 32 (drop 8 journal);
      distilled_model_hash = take 32 (drop 40 journal);
    })
