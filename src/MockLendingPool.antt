-- ===== src/MockLendingPool.antt =====
-- contracts/mock-lending-pool/src/lib.rs: the terms that a wallet is offered.
pub mod Terms
use zkredit.Prelude.{
  ℕ, zero, suc, ◌+◌, ◌≡◌, ◌&&◌, Bool, true, false, Option, none, some, String, if◌then◌else◌, leb,
}
use zkredit.Host.{Run, returned, failed, ◌>>=◌, ◌>>◌, assert, expect, attestation_not_found}
use zkredit.WalletIdentity.{AttestationData}

pub record LoanOffer : Type 0 where
  -- an i128
  pub max_principal : ℕ
  pub collateral_ratio_basis_points : ℕ
  pub apr_basis_points : ℕ

pub record State : Type 0 where
  pub admin : Option String
  pub risk_attestation : Option String

pub record Host : Type 0 where
  pub authorized : String → Bool
  -- `get_attestation` of the contract at an address
  pub get_attestation : String → String → Run (Option AttestationData)
  -- the ledger's time
  pub timestamp : ℕ

unfoldable pub constructor : String → State
constructor admin = record { admin = some admin; risk_attestation = none }

unfoldable pub thin_file_terms : LoanOffer
thin_file_terms = record {
  max_principal = 100;
  collateral_ratio_basis_points = 25000;
  apr_basis_points = 3500;
}

-- Collateral and base rate of a bucket.
abbrev pub ladder : ℕ → ℕ × ℕ
ladder zero = (12000, 800)
ladder (suc zero) = (13500, 1000)
ladder (suc (suc zero)) = (15000, 1500)
ladder (suc (suc (suc zero))) = (17500, 2200)
ladder (suc (suc (suc (suc zero)))) = (20000, 3000)
ladder (suc (suc (suc (suc (suc _))))) = (15000, 1500)

unfoldable pub terms_from_bucket : AttestationData → LoanOffer
terms_from_bucket a =
    let (collateral_bp, base_apr_bp) = ladder a.risk_bucket in
    record {
      max_principal = 1000;
      collateral_ratio_basis_points = collateral_bp;
      apr_basis_points = if a.zk_verified then base_apr_bp else base_apr_bp + 200;
    }

abbrev pub pool_terms : ℕ → Option AttestationData → LoanOffer
pool_terms now none = thin_file_terms
pool_terms now (some a) =
    if a.kyc_verified && leb now a.expires_at then terms_from_bucket a else thin_file_terms

abbrev risk_id : Option String → Run String
risk_id none = failed attestation_not_found
risk_id (some id) = returned id

module _ (host : Host) where
  unfoldable pub set_risk_attestation : String → State → Run State
  set_risk_attestation contract_id s = do
    admin ← expect s.admin
    _ ← assert (host.authorized admin)
    returned (record s { risk_attestation = some contract_id })

  unfoldable pub get_loan_terms : String → State → Run LoanOffer
  get_loan_terms wallet s = do
    risk ← risk_id s.risk_attestation
    attestation ← host.get_attestation risk wallet
    returned (pool_terms host.timestamp attestation)

unfoldable pub execute_loan : String → Bool
execute_loan wallet = true
