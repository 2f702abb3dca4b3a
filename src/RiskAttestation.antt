-- ===== src/RiskAttestation.antt =====
-- contracts/risk-attestation/src/lib.rs: the attestations of wallets. What a call reads of other
-- contracts and of the host is its Host.
pub mod Calls
pub mod Changes
pub mod Reachable
use zkredit.Prelude.{
  ℕ, ◌≡◌, Bool, true, false, not, Option, none, some, List, [], ◌∷◌, String, if◌then◌else◌, leb,
}
use zkredit.Host.{
  Run, returned, failed, panicked, ◌>>=◌, ◌>>◌, assert, refuse_if, expect, attestor_not_registered,
  unauthorized_attestor, invalid_proof, already_attested, invalid_inputs, risc0_image_not_set,
  stale_attestation,
}
use zkredit.Storage.{Table, find, put, bytes_eq, address_eq}
use zkredit.Groth16.{Curve, verify_groth16}
use zkredit.Risc0.{Journal, verify_receipt, parse_journal}
use zkredit.WalletIdentity.{AttestationData}

-- One table for each key of `DataKey` that the contract stores under, and the events that it
-- published, the last one first.
pub record State : Type 0 where
  pub admin : Option String
  pub attestor_registry : Option String
  pub wallet_identity : Option String
  pub risc0_image_id : Option (List ℕ)
  pub verification_keys : Table (List ℕ) (List ℕ)
  pub attestations : Table String AttestationData
  pub events : List AttestationData

pub record Host : Type 0 where
  -- who has authorised this call
  pub authorized : String → Bool
  -- `is_attestor` of the registry at an address
  pub is_attestor : String → String → Run Bool
  -- `get_group_attestation` of the identity contract at an address
  pub get_group_attestation : String → List ℕ → Run (Option AttestationData)
  pub sha256 : List ℕ → List ℕ
  pub curve : Curve

unfoldable pub constructor : String → State
constructor admin = record {
  admin = some admin;
  attestor_registry = none;
  wallet_identity = none;
  risc0_image_id = none;
  verification_keys = [];
  attestations = [];
  events = [];
}

-- The write of the record under the wallet, and `emit_attestation_written`.
unfoldable pub write_attestation : String → AttestationData → State → State
write_attestation wallet att s = record s {
  attestations = put wallet att s.attestations;
  events = att ∷ s.events;
}

abbrev registry_id : Option String → Run String
registry_id none = failed attestor_not_registered
registry_id (some registry) = returned registry

-- A wallet is attested once by a hash or by a proof.
abbrev pub not_attested : Option AttestationData → Run (Unit {0})
not_attested none = returned tt
not_attested (some existing) = failed already_attested

-- A wallet that has an attestation is attested again by a newer one only.
abbrev pub newer : ℕ → Option AttestationData → Run (Unit {0})
newer issued_at none = returned tt
newer issued_at (some existing) = refuse_if (leb issued_at existing.issued_at) stale_attestation

abbrev image_id_of : Option (List ℕ) → Run (List ℕ)
image_id_of none = failed risc0_image_not_set
image_id_of (some image_id) = returned image_id

abbrev journal_of : Option Journal → Run Journal
journal_of none = failed invalid_inputs
journal_of (some journal) = returned journal

-- The fields that the journal proves.
unfoldable pub bind_journal : Journal → AttestationData → AttestationData
bind_journal journal att = record att {
  risk_bucket = journal.risk_bucket;
  confidence = journal.confidence;
  identity_commitment = some journal.identity_commitment;
  distilled_model_hash = journal.distilled_model_hash;
  zk_verified = true;
}

module _ (host : Host) where
  -- The administrator's call, for the four functions that ask for it in the same way.
  unfoldable pub require_admin : State → Run (Unit {0})
  require_admin s = do admin ← expect s.admin; assert (host.authorized admin)

  unfoldable pub set_attestor_registry : String → State → Run State
  set_attestor_registry contract_id s =
      require_admin s >> returned (record s { attestor_registry = some contract_id })

  unfoldable pub set_wallet_identity : String → State → Run State
  set_wallet_identity contract_id s =
      require_admin s >> returned (record s { wallet_identity = some contract_id })

  unfoldable pub set_risc0_image_id : List ℕ → State → Run State
  set_risc0_image_id image_id s =
      require_admin s >> returned (record s { risc0_image_id = some image_id })

  unfoldable pub register_verification_key : List ℕ → List ℕ → State → Run State
  register_verification_key model_hash vk_bytes s =
      require_admin s
      >> returned (record s { verification_keys = put model_hash vk_bytes s.verification_keys })

  -- The attestor of the record is registered, and has authorised the call.
  unfoldable pub require_attestor : String → State → Run (Unit {0})
  require_attestor attestor s = do
    registry ← registry_id s.attestor_registry
    listed ← host.is_attestor registry attestor
    _ ← refuse_if (not listed) unauthorized_attestor
    assert (host.authorized attestor)

  unfoldable pub attest_with_risc0 : String → AttestationData → List ℕ → List ℕ → State → Run State
  attest_with_risc0 wallet att seal journal s = do
    _ ← assert (host.authorized wallet)
    _ ← newer att.issued_at (find wallet s.attestations)
    _ ← require_attestor att.attestor s
    image_id ← image_id_of s.risc0_image_id
    valid ← verify_receipt host.sha256 host.curve seal image_id journal
    _ ← refuse_if (not valid) invalid_proof
    proven ← journal_of (parse_journal journal)
    returned (write_attestation wallet (bind_journal proven att) s)

  unfoldable pub attest_with_hash : String → AttestationData → State → Run State
  attest_with_hash wallet att s = do
    _ ← assert (host.authorized wallet)
    _ ← not_attested (find wallet s.attestations)
    _ ← require_attestor att.attestor s
    returned (write_attestation wallet (record att { zk_verified = false }) s)

  -- Whether a proof was verified: where no key is registered for the model, none is asked for.
  unfoldable pub verify_for_model : Option (List ℕ) → List ℕ → Run Bool
  verify_for_model none proof_bytes = returned false
  verify_for_model (some vk_bytes) proof_bytes = do
    valid ← verify_groth16 host.curve vk_bytes proof_bytes
    _ ← refuse_if (not valid) invalid_proof
    returned true

  unfoldable pub attest_with_proof : String → AttestationData → List ℕ → State → Run State
  attest_with_proof wallet att proof_bytes s = do
    _ ← assert (host.authorized wallet)
    _ ← not_attested (find wallet s.attestations)
    _ ← require_attestor att.attestor s
    verified ← verify_for_model (find att.distilled_model_hash s.verification_keys) proof_bytes
    returned (write_attestation wallet (record att { zk_verified = verified }) s)

  abbrev group_or : AttestationData → Option AttestationData → Option AttestationData
  group_or own none = some own
  group_or own (some group) = some group

  -- The group of an attestation with a commitment, if an identity contract is configured.
  abbrev resolve : AttestationData → Option (List ℕ) → Option String → Run (Option AttestationData)
  resolve own none wi_id = returned (some own)
  resolve own (some commitment) none = returned (some own)
  resolve own (some commitment) (some wi_id) = do
    group ← host.get_group_attestation wi_id commitment
    returned (group_or own group)

  abbrev shared : Option AttestationData → Option String → Run (Option AttestationData)
  shared none wi_id = returned none
  shared (some own) wi_id = resolve own own.identity_commitment wi_id

  unfoldable pub get_attestation : String → State → Run (Option AttestationData)
  get_attestation wallet s = shared (find wallet s.attestations) s.wallet_identity
