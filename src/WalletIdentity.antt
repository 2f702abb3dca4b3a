-- ===== src/WalletIdentity.antt =====
-- contracts/wallet-identity/src/lib.rs: the contract that frontend/src/lib/contracts/wallet-identity.ts
-- calls. What a call reads of the host (authorisations, the registry, hashes, the curve) is its Host.
pub mod Invariant
pub mod Calls
pub mod Changes
pub mod Reachable
pub mod Joining
pub mod Binding
use zkredit.Prelude.{
  ℕ, ◌+◌, ◌-◌, ◌≡◌, Bool, true, false, not, Option, none, some, List, [], String, if◌then◌else◌,
  ltb, leb, ◌==◌, refl,
}
use zkredit.Host.{
  Error, Run, returned, failed, panicked, ◌>>=◌, ◌>>◌, assert, refuse_if, expect,
  attestation_not_found, attestor_not_registered, unauthorized_attestor, invalid_proof,
  already_in_group, commitment_conflict, nullifier_already_bound,
}
use zkredit.Storage.{Eq, equals, Table, find, put, remove, bytes_eq, address_eq}
use zkredit.Groth16.{Curve, verify_groth16, nth_public_input}

-- `AttestationData` of contracts/shared/src/lib.rs.
pub record AttestationData : Type 0 where
  pub wallet : String
  pub risk_bucket : ℕ
  pub confidence : ℕ
  pub full_model_hash : List ℕ
  pub distilled_model_hash : List ℕ
  pub proof_or_hash : List ℕ
  pub zk_verified : Bool
  pub attestor : String
  pub issued_at : ℕ
  pub expires_at : ℕ
  pub kyc_verified : Bool
  pub identity_commitment : Option (List ℕ)

-- One table for each key of `DataKey` that the contract stores under.
pub record State : Type 0 where
  pub admin : Option String
  pub attestor_registry : Option String
  pub identity_vk : Option (List ℕ)
  pub wallet_commitments : Table String (List ℕ)
  pub member_counts : Table (List ℕ) ℕ
  pub identity_attestations : Table (List ℕ) AttestationData
  pub nullifier_commitments : Table (List ℕ) (List ℕ)
  pub kyc_verified : Table (List ℕ) Bool

pub record Host : Type 0 where
  -- who has authorised this call
  pub authorized : String → Bool
  -- `is_attestor` of the registry at an address
  pub is_attestor : String → String → Bool
  -- SHA-256 of an address as text
  pub sha256 : String → List ℕ
  -- `Fr::from_bytes(…).to_bytes()`
  pub reduced : List ℕ → List ℕ
  pub curve : Curve

unfoldable pub constructor : String → State
constructor admin = record {
  admin = some admin;
  attestor_registry = none;
  identity_vk = none;
  wallet_commitments = [];
  member_counts = [];
  identity_attestations = [];
  nullifier_commitments = [];
  kyc_verified = [];
}

-- `unwrap_or`
abbrev pub unwrap_or : {A : Type 0} → Option A → A → A
unwrap_or none d = d
unwrap_or (some a) d = a

abbrev registry_of : Option String → Run String
registry_of none = failed attestor_not_registered
registry_of (some registry) = returned registry

abbrev not_in_group : List ℕ → Option (List ℕ) → Run (Unit {0})
not_in_group commitment none = returned tt
not_in_group commitment (some current) =
    if equals current commitment then failed already_in_group else failed commitment_conflict

-- The stored attestation of a group that has one is marked too.
abbrev pub mark_stored :
    List ℕ
    → Option AttestationData
    → Table (List ℕ) AttestationData
    → Table (List ℕ) AttestationData
mark_stored commitment none t = t
mark_stored commitment (some att) t = put commitment (record att { kyc_verified = true }) t

abbrev pub bind_new : List ℕ → List ℕ → Option (List ℕ) → State → Run State
bind_new commitment nullifier (some bound) s =
    if not (equals bound commitment) then failed nullifier_already_bound else returned s
bind_new commitment nullifier none s = returned (record s {
  nullifier_commitments = put nullifier commitment s.nullifier_commitments;
  kyc_verified = put commitment true s.kyc_verified;
  identity_attestations =
      mark_stored commitment (find commitment s.identity_attestations) s.identity_attestations;
})

abbrev leave : String → Option (List ℕ) → State → Run State
leave wallet none s = failed attestation_not_found
leave wallet (some commitment) s =
    let count = unwrap_or (find commitment s.member_counts) 1 in
    let left = remove wallet s.wallet_commitments in
    if leb count 1
    then returned (record s {
      wallet_commitments = left;
      member_counts = remove commitment s.member_counts;
      identity_attestations = remove commitment s.identity_attestations;
    })
    else returned (record s {
      wallet_commitments = left;
      member_counts = put commitment (count - 1) s.member_counts;
    })

module _ (host : Host) where
  unfoldable pub addr_to_fr : String → List ℕ
  addr_to_fr wallet = host.reduced (host.sha256 wallet)

  unfoldable pub set_attestor_registry : String → State → Run State
  set_attestor_registry contract_id s = do
    admin ← expect s.admin
    _ ← assert (host.authorized admin)
    returned (record s { attestor_registry = some contract_id })

  unfoldable pub require_registered_attestor : String → State → Run (Unit {0})
  require_registered_attestor attestor s = do
    registry ← registry_of s.attestor_registry
    _ ← refuse_if (not (host.is_attestor registry attestor)) unauthorized_attestor
    assert (host.authorized attestor)

  unfoldable pub set_identity_vk : List ℕ → State → Run State
  set_identity_vk vk_bytes s = do
    admin ← expect s.admin
    _ ← assert (host.authorized admin)
    returned (record s { identity_vk = some vk_bytes })

  -- The proof of `register_wallet`: nothing is asked of it where no key is stored.
  unfoldable pub check_proof : Option (List ℕ) → String → List ℕ → List ℕ → Run (Unit {0})
  check_proof none wallet commitment proof_bytes = returned tt
  check_proof (some vk_bytes) wallet commitment proof_bytes = do
    valid ← verify_groth16 host.curve vk_bytes proof_bytes
    _ ← refuse_if (not valid) invalid_proof
    proven ← nth_public_input proof_bytes 0
    _ ← refuse_if (not (equals proven commitment)) invalid_proof
    bound ← nth_public_input proof_bytes 1
    refuse_if (not (equals bound (addr_to_fr wallet))) invalid_proof

  -- The count is a u32 and is added to with overflow checks.
  unfoldable pub register_wallet : String → List ℕ → List ℕ → State → Run State
  register_wallet wallet commitment proof_bytes s = do
    _ ← assert (host.authorized wallet)
    _ ← check_proof s.identity_vk wallet commitment proof_bytes
    _ ← not_in_group commitment (find wallet s.wallet_commitments)
    _ ← assert (ltb (unwrap_or (find commitment s.member_counts) 0) 4294967295)
    returned (record s {
      wallet_commitments = put wallet commitment s.wallet_commitments;
      member_counts =
          put commitment (unwrap_or (find commitment s.member_counts) 0 + 1) s.member_counts;
    })

  unfoldable pub update_group_score : String → List ℕ → AttestationData → State → Run State
  update_group_score attestor commitment attestation s = do
    _ ← require_registered_attestor attestor s
    _ ← refuse_if (unwrap_or (find commitment s.member_counts) 0 == 0) attestation_not_found
    returned
        (record s { identity_attestations = put commitment attestation s.identity_attestations })

  unfoldable pub bind_kyc : String → List ℕ → List ℕ → State → Run State
  bind_kyc attestor commitment nullifier s = do
    _ ← require_registered_attestor attestor s
    bind_new commitment nullifier (find nullifier s.nullifier_commitments) s

  unfoldable pub leave_group : String → State → Run State
  leave_group wallet s =
      assert (host.authorized wallet) >> leave wallet (find wallet s.wallet_commitments) s

unfoldable pub is_kyc_verified : List ℕ → State → Bool
is_kyc_verified commitment s = unwrap_or (find commitment s.kyc_verified) false

abbrev overlaid : Bool → Option AttestationData → Option AttestationData
overlaid verified none = none
overlaid verified (some att) = some (if verified then record att { kyc_verified = true } else att)

unfoldable pub get_group_attestation : List ℕ → State → Option AttestationData
get_group_attestation commitment s =
    overlaid (is_kyc_verified commitment s) (find commitment s.identity_attestations)
