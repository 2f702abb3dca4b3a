-- ===== src/RiskAttestation/Calls.antt =====
-- The calls that change the storage, and what a call may do to it and under which authority.
use zkredit.Prelude.{ℕ, ◌<◌, ◌≡◌, true, false, Option, none, some, List, String}
use zkredit.Host.{Run, returned}
use zkredit.Storage.{find, put, bytes_eq, address_eq}
use zkredit.Groth16.{verify_groth16}
use zkredit.Risc0.{Journal, verify_receipt, parse_journal}
use zkredit.WalletIdentity.{AttestationData}
use zkredit.RiskAttestation.{
  Host, State, write_attestation, set_attestor_registry, set_wallet_identity, set_risc0_image_id,
  register_verification_key, attest_with_risc0, attest_with_hash, attest_with_proof,
}

pub data Call : Type 0 where
  sets_attestor_registry sets_wallet_identity : String → Call
  sets_risc0_image_id : List ℕ → Call
  registers_verification_key : List ℕ → List ℕ → Call
  attests_with_risc0 : String → AttestationData → List ℕ → List ℕ → Call
  attests_with_hash : String → AttestationData → Call
  attests_with_proof : String → AttestationData → List ℕ → Call

unfoldable pub run_call : Host → Call → State → Run State
run_call host (sets_attestor_registry id) s = set_attestor_registry host id s
run_call host (sets_wallet_identity id) s = set_wallet_identity host id s
run_call host (sets_risc0_image_id image_id) s = set_risc0_image_id host image_id s
run_call host (registers_verification_key model vk) s = register_verification_key host model vk s
run_call host (attests_with_risc0 wallet a seal journal) s =
    attest_with_risc0 host wallet a seal journal s
run_call host (attests_with_hash wallet a) s = attest_with_hash host wallet a s
run_call host (attests_with_proof wallet a proof) s = attest_with_proof host wallet a proof s

-- The administrator has authorised the call.
abbrev pub IsAdmin : Host → State → Type 0
IsAdmin host s = (admin : String) × (s.admin ≡ some admin) × (host.authorized admin ≡ true)

-- An attestor is registered, and has.
abbrev pub IsAttestor : Host → State → String → Type 0
IsAttestor host s attestor =
    (registry : String) × (s.attestor_registry ≡ some registry)
    × (host.is_attestor registry attestor ≡ returned true)
    × (host.authorized attestor ≡ true)

-- A first attestation, or one that is newer than the one that it replaces.
abbrev pub IsNewer : ℕ → Option AttestationData → Type 0
IsNewer issued_at none = Unit
IsNewer issued_at (some existing) = existing.issued_at < issued_at

-- The record that was given, with the four values of a journal in place of its own, and the mark.
abbrev pub proven : Journal → AttestationData → AttestationData
proven journal a = record {
  wallet = a.wallet;
  risk_bucket = journal.risk_bucket;
  confidence = journal.confidence;
  full_model_hash = a.full_model_hash;
  distilled_model_hash = journal.distilled_model_hash;
  proof_or_hash = a.proof_or_hash;
  zk_verified = true;
  attestor = a.attestor;
  issued_at = a.issued_at;
  expires_at = a.expires_at;
  kyc_verified = a.kyc_verified;
  identity_commitment = some journal.identity_commitment;
}

-- What a record of a wallet is written on.
pub data Grounds (host : Host) (s : State) (wallet : String) : AttestationData → Type 0 where
  on_word :
      {a : AttestationData}
      → find wallet s.attestations ≡ none
      → a.zk_verified ≡ false
      → Grounds host s wallet a
  on_proof :
      {a : AttestationData} (vk proof : List ℕ)
      → find wallet s.attestations ≡ none
      → find a.distilled_model_hash s.verification_keys ≡ some vk
      → verify_groth16 host.curve vk proof ≡ returned true
      → a.zk_verified ≡ true
      → Grounds host s wallet a
  on_receipt :
      {a : AttestationData} (given : AttestationData) (seal image_id bytes : List ℕ)
      (journal : Journal)
      → IsNewer a.issued_at (find wallet s.attestations)
      → s.risc0_image_id ≡ some image_id
      → verify_receipt host.sha256 host.curve seal image_id bytes ≡ returned true
      → parse_journal bytes ≡ some journal
      → a ≡ proven journal given
      → Grounds host s wallet a

pub data Change (host : Host) (s : State) : State → Type 0 where
  wires_registry :
      (id : String) → IsAdmin host s → Change host s (record s { attestor_registry = some id })
  wires_identity :
      (id : String) → IsAdmin host s → Change host s (record s { wallet_identity = some id })
  stores_image :
      (id : List ℕ) → IsAdmin host s → Change host s (record s { risc0_image_id = some id })
  stores_key :
      (model vk : List ℕ)
      → IsAdmin host s
      → Change host s (record s { verification_keys = put model vk s.verification_keys })
  attests :
      (wallet : String) (a : AttestationData)
      → host.authorized wallet ≡ true
      → IsAttestor host s a.attestor
      → Grounds host s wallet a
      → Change host s (write_attestation wallet a s)
