-- ===== src/Deployment.antt =====
-- The four contracts deployed together: each calls the others by the addresses that it stores, as the
-- clients of contracts/risk-attestation/src/lib.rs and contracts/mock-lending-pool/src/lib.rs do.
pub mod Credit
pub mod Revoked
pub mod Quotes
use zkredit.Prelude.{ℕ, ◌≡◌, Bool, Option, some, List, String, if◌then◌else◌, str_eq}
use zkredit.Host.{Run, returned, panicked}
use zkredit.Storage.{find, address_eq}
use zkredit.Groth16.{Curve}
use zkredit.AttestorRegistry
use zkredit.WalletIdentity.{AttestationData}
use zkredit.WalletIdentity
use zkredit.RiskAttestation
use zkredit.MockLendingPool
use zkredit.MockLendingPool.{LoanOffer}

pub record Addresses : Type 0 where
  pub registry : String
  pub identity : String
  pub risk : String

pub record System : Type 0 where
  pub registry : AttestorRegistry.State
  pub identity : WalletIdentity.State
  pub risk : RiskAttestation.State
  pub pool : MockLendingPool.State

-- What the ledger gives to a transaction.
pub record Ledger : Type 0 where
  pub authorized : String → Bool
  pub sha256 : List ℕ → List ℕ
  pub curve : Curve
  pub timestamp : ℕ

-- A call of an address where no such contract stands traps.
abbrev called : {A : Type 0} → String → String → A → Run A
called address id answer = if str_eq id address then returned answer else panicked

module _ (at : Addresses) (ledger : Ledger) (sys : System) where
  unfoldable pub risk_host : RiskAttestation.Host
  risk_host = record {
    authorized = ledger.authorized;
    is_attestor =
        λ id attestor. called at.registry id (AttestorRegistry.is_attestor attestor sys.registry);
    get_group_attestation = λ id commitment.
        called at.identity id (WalletIdentity.get_group_attestation commitment sys.identity);
    sha256 = ledger.sha256;
    curve = ledger.curve;
  }

  unfoldable pub pool_host : MockLendingPool.Host
  pool_host = record {
    authorized = ledger.authorized;
    get_attestation = λ id wallet.
        if str_eq id at.risk
        then RiskAttestation.get_attestation risk_host wallet sys.risk
        else panicked;
    timestamp = ledger.timestamp;
  }

  -- The terms that the deployed pool offers.
  abbrev pub loan_terms : String → Run LoanOffer
  loan_terms wallet = MockLendingPool.get_loan_terms pool_host wallet sys.pool

-- Every contract knows the addresses of those that it calls.
pub record IsWired (at : Addresses) (sys : System) : Type 0 where
  pub to_registry : sys.risk.attestor_registry ≡ some at.registry
  pub to_identity : sys.risk.wallet_identity ≡ some at.identity
  pub to_risk : sys.pool.risk_attestation ≡ some at.risk

-- The wallet has an attestation of its own, which carries the commitment of a group.
abbrev pub IsMember : System → String → List ℕ → Type 0
IsMember sys wallet commitment =
    (own : AttestationData) × (find wallet sys.risk.attestations ≡ some own)
    × (own.identity_commitment ≡ some commitment)
