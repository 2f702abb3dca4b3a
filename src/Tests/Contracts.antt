-- ===== src/Tests/Contracts.antt =====
-- Theorems at concrete inputs: the attestation contract, the lending pool and the four
-- contracts together.
use zkredit.Prelude.{◌≤◌, ◌≡◌, ◌≢◌, refl, true, false, none, some, [], ◌∷◌, arith}
use zkredit.Host.{returned}
use zkredit.Storage.{find, put, bytes_eq, address_eq}
use zkredit.Groth16.Equation.{accepts, combine}
use zkredit.Groth16.{add_term}
use zkredit.Risc0.{verify_receipt, parse_journal}
use zkredit.Risc0.Receipts.{public_inputs, risc0_key, verify_receipt-accepts}
use zkredit.Risc0.Journals.{committed}
use zkredit.AttestorRegistry
use zkredit.AttestorRegistry.{revoke}
use zkredit.WalletIdentity.{AttestationData}
use zkredit.WalletIdentity
use zkredit.WalletIdentity.Calls.{
  sets_attestor_registry, registers_wallet, updates_group_score, perform,
}
use zkredit.WalletIdentity.Reachable.{here, after, deployed-IsConsistent, IsConsistent}
use zkredit.RiskAttestation
use zkredit.RiskAttestation.{attest_with_hash, attest_with_proof, attest_with_risc0}
use zkredit.RiskAttestation.Calls.{
  sets_attestor_registry as sets_attestor_registry_of, run_call, Change, attests_with_hash,
  attests_with_risc0,
}
use zkredit.RiskAttestation.Changes.{run_call-Change}
use zkredit.RiskAttestation.Reachable.{Keeps, Reach-Keeps}
use zkredit.RiskAttestation.Reachable as Risk
use zkredit.MockLendingPool
use zkredit.MockLendingPool.{LoanOffer, get_loan_terms, thin_file_terms, terms_from_bucket}
use zkredit.MockLendingPool.Terms.{IsGated, get_loan_terms-gate, terms_from_bucket-monotone}
use zkredit.Deployment.{Addresses, System, Ledger, IsWired, IsMember, risk_host, loan_terms}
use zkredit.Deployment.Credit.{group_shares_terms, bind_kyc_unlocks}
use zkredit.Deployment.Revoked.{revoke-refuses}
use zkredit.Tests.Groups.{zeros, test_curve, test_host, value_or, deployed}
use zkredit.Tests.Receipts.{flat_hash, some_journal}

abbrev pub some_attestation : AttestationData
some_attestation = record {
  wallet = "GA";
  risk_bucket = 2;
  confidence = 9000;
  full_model_hash = zeros 32;
  distilled_model_hash = zeros 32;
  proof_or_hash = zeros 32;
  zk_verified = false;
  attestor = "GATTESTOR";
  issued_at = 5;
  expires_at = 1000;
  kyc_verified = false;
  identity_commitment = some (1 ∷ []);
}

abbrev terms_host : MockLendingPool.Host
terms_host = record {
  authorized = λ a. true;
  get_attestation = λ id wallet. returned (some (record some_attestation { kyc_verified = true }));
  timestamp = 7;
}

get_loan_terms-gate_example :
    (offer : LoanOffer) × (get_loan_terms terms_host "GA"
        (record { admin = some "GADMIN"; risk_attestation = some "CRISK" })
      ≡ returned offer)
    × IsGated 7 (some (record some_attestation { kyc_verified = true })) offer
get_loan_terms-gate_example =
    get_loan_terms-gate terms_host "GA" "CRISK"
      (record { admin = some "GADMIN"; risk_attestation = some "CRISK" })
      (some (record some_attestation { kyc_verified = true })) refl refl

abbrev risky : AttestationData
risky = record some_attestation { risk_bucket = 4 }

terms_from_bucket-monotone_example :
    ((terms_from_bucket some_attestation).collateral_ratio_basis_points
      ≤ (terms_from_bucket risky).collateral_ratio_basis_points)
    × ((terms_from_bucket some_attestation).apr_basis_points
        ≤ (terms_from_bucket risky).apr_basis_points)
terms_from_bucket-monotone_example =
    terms_from_bucket-monotone some_attestation risky (omega arith) (omega arith) refl

abbrev pub at : Addresses
at = record { registry = "CREGISTRY"; identity = "CIDENTITY"; risk = "CRISK" }

abbrev pub ledger : Ledger
ledger = record { authorized = λ a. true; sha256 = flat_hash; curve = test_curve; timestamp = 7 }

abbrev listing : AttestorRegistry.State
listing = record { admin = some "GADMIN"; attestors = ("GATTESTOR", true) ∷ [] }

abbrev scoring : RiskAttestation.Host
scoring = record {
  authorized = λ a. true;
  is_attestor = λ id a. returned true;
  get_group_attestation = λ id c. returned none;
  sha256 = flat_hash;
  curve = test_curve;
}

abbrev risk_ready : RiskAttestation.State
risk_ready = record (RiskAttestation.constructor "GADMIN") {
  attestor_registry = some "CREGISTRY";
  wallet_identity = some "CIDENTITY";
  risc0_image_id = some (zeros 32);
}

-- Attested by a hash, and then by a receipt.
abbrev attested : RiskAttestation.State
attested = RiskAttestation.write_attestation "GA" some_attestation risk_ready

abbrev later : AttestationData
later = record some_attestation { issued_at = 6 }

abbrev proved : RiskAttestation.State
proved =
    RiskAttestation.write_attestation "GA" (RiskAttestation.bind_journal some_journal later)
      attested

run_call-Change_example : Change scoring risk_ready attested
unfolding run_call attest_with_hash RiskAttestation.constructor RiskAttestation.require_attestor
    find RiskAttestation.write_attestation
run_call-Change_example =
    run_call-Change scoring risk_ready (attests_with_hash "GA" some_attestation) refl

accepted :
    verify_receipt flat_hash test_curve (zeros 256) (zeros 32) (committed some_journal)
    ≡ returned true
unfolding accepts combine add_term risc0_key public_inputs
accepted =
    verify_receipt-accepts flat_hash (λ bytes. refl) test_curve (zeros 64) (zeros 128) (zeros 64)
      (zeros 32) (committed some_journal) refl refl refl

parsed : parse_journal (committed some_journal) ≡ some some_journal
unfolding parse_journal committed
parsed = refl

attested_again :
    run_call scoring (attests_with_risc0 "GA" later (zeros 256) (committed some_journal)) attested
    ≡ returned proved
unfolding run_call attest_with_risc0 RiskAttestation.constructor RiskAttestation.require_attestor
    find put RiskAttestation.write_attestation
attested_again = rw (accepted, parsed) refl

Reach-Keeps_example : Keeps "GA" some_attestation proved
unfolding RiskAttestation.write_attestation RiskAttestation.constructor find put
Reach-Keeps_example =
    Reach-Keeps flat_hash test_curve {s = attested} {t = proved} "GA" some_attestation
      (Risk.after Risk.here scoring
        (attests_with_risc0 "GA" later (zeros 256) (committed some_journal)) refl refl
        attested_again)
      refl

-- A group with one wallet and a score, without KYC.
abbrev group_ready : WalletIdentity.State
group_ready = value_or deployed (
    perform test_host (updates_group_score "GATTESTOR" (1 ∷ []) some_attestation) (
      value_or deployed (
        perform test_host (registers_wallet "GA" (1 ∷ []) [])
          (value_or deployed (perform test_host (sets_attestor_registry "CREGISTRY") deployed)))))

group_ready-IsConsistent : IsConsistent group_ready
unfolding perform WalletIdentity.set_attestor_registry WalletIdentity.constructor
    WalletIdentity.register_wallet WalletIdentity.check_proof find put
    WalletIdentity.update_group_score WalletIdentity.require_registered_attestor
group_ready-IsConsistent = deployed-IsConsistent "GADMIN" group_ready (
    after
      (after (after here test_host (sets_attestor_registry "CREGISTRY") refl) test_host
        (registers_wallet "GA" (1 ∷ []) []) refl)
      test_host (updates_group_score "GATTESTOR" (1 ∷ []) some_attestation) refl)

-- Two wallets are attested with the commitment of the group.
abbrev pub sys : System
sys = record {
  registry = listing;
  identity = group_ready;
  risk = RiskAttestation.write_attestation "GB" later attested;
  pool = record { admin = some "GADMIN"; risk_attestation = some "CRISK" };
}

pub sys-IsWired : IsWired at sys
unfolding RiskAttestation.write_attestation RiskAttestation.constructor
sys-IsWired = record { to_registry = refl; to_identity = refl; to_risk = refl }

pub a-IsMember : IsMember sys "GA" (1 ∷ [])
unfolding RiskAttestation.write_attestation RiskAttestation.constructor find put
a-IsMember = (some_attestation, refl, refl)

b-IsMember : IsMember sys "GB" (1 ∷ [])
unfolding RiskAttestation.write_attestation RiskAttestation.constructor find put
b-IsMember = (later, refl, refl)

group_shares_terms_example : loan_terms at ledger sys "GA" ≡ loan_terms at ledger sys "GB"
unfolding perform WalletIdentity.set_attestor_registry WalletIdentity.constructor
    WalletIdentity.register_wallet WalletIdentity.check_proof find put
    WalletIdentity.update_group_score WalletIdentity.require_registered_attestor
    WalletIdentity.get_group_attestation WalletIdentity.is_kyc_verified
group_shares_terms_example =
    group_shares_terms at ledger sys sys-IsWired "GA" "GB" (1 ∷ []) some_attestation a-IsMember
      b-IsMember refl

abbrev bound_group : WalletIdentity.State
bound_group =
    value_or deployed (WalletIdentity.bind_kyc test_host "GATTESTOR" (1 ∷ []) (7 ∷ []) group_ready)

bind_kyc_unlocks_example :
    loan_terms at ledger (record sys { identity = bound_group }) "GB"
    ≡ returned (terms_from_bucket some_attestation)
unfolding perform WalletIdentity.set_attestor_registry WalletIdentity.constructor
    WalletIdentity.register_wallet WalletIdentity.check_proof find put WalletIdentity.bind_kyc
    WalletIdentity.update_group_score WalletIdentity.require_registered_attestor
bind_kyc_unlocks_example =
    bind_kyc_unlocks at ledger sys test_host "GATTESTOR" "GB" (1 ∷ []) (7 ∷ []) some_attestation
      bound_group sys-IsWired group_ready-IsConsistent b-IsMember refl (omega arith) refl

abbrev without_attestor : System
without_attestor = record sys {
  registry = record listing { attestors = ("GATTESTOR", false) ∷ [] };
}

without_attestor-IsWired : IsWired at without_attestor
unfolding RiskAttestation.write_attestation RiskAttestation.constructor
without_attestor-IsWired = record { to_registry = refl; to_identity = refl; to_risk = refl }

revoke-refuses_example :
    (attest_with_hash (risk_host at ledger without_attestor) "GC" later without_attestor.risk
      ≢ returned proved)
    × (attest_with_proof (risk_host at ledger without_attestor) "GC" later [] without_attestor.risk
        ≢ returned proved)
    × (attest_with_risc0
          (risk_host at ledger without_attestor)
          "GC"
          later
          []
          []
          without_attestor.risk
        ≢ returned proved)
unfolding revoke put
revoke-refuses_example =
    revoke-refuses at ledger without_attestor (λ a. true) listing later "GC" [] [] [] proved
      without_attestor-IsWired refl
