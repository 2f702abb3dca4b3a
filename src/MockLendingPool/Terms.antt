-- ===== src/MockLendingPool/Terms.antt =====
-- Which wallets get real terms, and how terms compare.
use native.Mathlib.Decide.{dec_lt}
use zkredit.Prelude.{
  ℕ, zero, suc, ◌+◌, ◌≤◌, ◌<◌, ◌≡◌, ◌↔◌, ◌⊎◌, inl, inr, refl, Bool, true, false, Option, none, some,
  String, arith, if◌then◌else◌, leb, ◌&&◌, Bool-cases,
}
use zkredit.Host.{returned}
use zkredit.WalletIdentity.{AttestationData}
use zkredit.MockLendingPool.{
  LoanOffer, State, Host, get_loan_terms, pool_terms, terms_from_bucket, thin_file_terms, ladder,
}

-- The contract answers with a KYC-verified attestation that has not expired.
abbrev pub IsEligible : ℕ → Option AttestationData → Type 0
IsEligible now o =
    (a : AttestationData) × (o ≡ some a) × (a.kyc_verified ≡ true) × (now ≤ a.expires_at)

-- More money for less collateral at a lower rate.
pub record IsBetter (better worse : LoanOffer) : Type 0 where
  pub principal : worse.max_principal < better.max_principal
  pub collateral : better.collateral_ratio_basis_points < worse.collateral_ratio_basis_points
  pub apr : better.apr_basis_points < worse.apr_basis_points

terms_from_bucket-IsBetter : (a : AttestationData) → IsBetter (terms_from_bucket a) thin_file_terms
unfolding terms_from_bucket thin_file_terms
terms_from_bucket-IsBetter a = on_bucket a.risk_bucket a.zk_verified
  where
    on_bucket :
        (bucket : ℕ) (proved : Bool)
        → IsBetter
            (record {
              max_principal = 1000;
              collateral_ratio_basis_points = (ladder bucket).0;
              apr_basis_points = if proved then (ladder bucket).1 else (ladder bucket).1 + 200;
            })
            thin_file_terms
    on_bucket zero proved = ground arith
    on_bucket (suc zero) proved = ground arith
    on_bucket (suc (suc zero)) proved = ground arith
    on_bucket (suc (suc (suc zero))) proved = ground arith
    on_bucket (suc (suc (suc (suc zero)))) proved = ground arith
    on_bucket (suc (suc (suc (suc (suc _))))) proved = ground arith

principal_of_bucket : (a : AttestationData) → (terms_from_bucket a).max_principal ≡ 1000
unfolding terms_from_bucket
principal_of_bucket a = refl

-- What the pool's decision says of the terms.
abbrev pub IsGated : ℕ → Option AttestationData → LoanOffer → Type 0
IsGated now o offer =
    ((offer.max_principal ≡ 1000) ↔ IsEligible now o)
    × ((offer ≡ thin_file_terms) ⊎ IsBetter offer thin_file_terms)

-- Where the test of the pool fails.
thin-IsGated :
    (now : ℕ) (o : Option AttestationData) → (IsEligible now o → ⊥) → IsGated now o thin_file_terms
unfolding thin_file_terms
thin-IsGated now o not_eligible =
    ((λ h. absurd (omega (arith, h)), λ h. absurd (not_eligible h)), inl refl)

eligible-IsGated :
    (now : ℕ) (a : AttestationData)
    → a.kyc_verified ≡ true
    → now ≤ a.expires_at
    → IsGated now (some a) (terms_from_bucket a)
eligible-IsGated now a kyc fresh =
    ((λ _. (a, refl, kyc, fresh), λ _. principal_of_bucket a), inr (terms_from_bucket-IsBetter a))

not_eligible :
    (now : ℕ) (a : AttestationData)
    → (a.kyc_verified && leb now a.expires_at) ≡ false
    → IsEligible now (some a)
    → ⊥
not_eligible now a no_test (b, e, kyc, fresh) = ground arith

pool_terms-IsGated : (now : ℕ) (o : Option AttestationData) → IsGated now o (pool_terms now o)
pool_terms-IsGated now none = thin-IsGated now none (λ (a, e, kyc, fresh). absurd cc)
pool_terms-IsGated now (some a) = elim (Bool-cases (a.kyc_verified && leb now a.expires_at)) [
  | inl may ↦ rw may (eligible-IsGated now a (ground arith) (ground arith))
  | inr no_test ↦ rw no_test (thin-IsGated now (some a) (not_eligible now a no_test))
]

module _ (host : Host) (wallet id : String) (s : State) (o : Option AttestationData)
    (wired : s.risk_attestation ≡ some id)
    (answered : host.get_attestation id wallet ≡ returned o) where
  pub get_loan_terms-answered :
      get_loan_terms host wallet s ≡ returned (pool_terms host.timestamp o)
  unfolding get_loan_terms
  get_loan_terms-answered = rw (wired, answered) refl

  -- When the attestation contract that the pool is wired to answers, the pool returns an offer;
  -- its principal is 1000 exactly when the answer is a KYC-verified attestation that has not
  -- expired; and the offer is either the thin-file terms, or better than they are in principal,
  -- collateral and rate, in every bucket.
  pub get_loan_terms-gate :
      (offer : LoanOffer) × (get_loan_terms host wallet s ≡ returned offer)
      × IsGated host.timestamp o offer
  unfolding get_loan_terms
  get_loan_terms-gate =
      (pool_terms host.timestamp o, rw (wired, answered) refl, pool_terms-IsGated host.timestamp o)

-- One bucket up costs no less.
ladder_step :
    (n : ℕ) → n < 4 → ((ladder n).0 ≤ (ladder (suc n)).0) × ((ladder n).1 ≤ (ladder (suc n)).1)
ladder_step zero h = ground arith
ladder_step (suc zero) h = ground arith
ladder_step (suc (suc zero)) h = ground arith
ladder_step (suc (suc (suc zero))) h = ground arith
ladder_step (suc (suc (suc (suc n)))) h = absurd (omega arith)

ladder_le :
    (m n : ℕ) → m ≤ n → n ≤ 4 → ((ladder m).0 ≤ (ladder n).0) × ((ladder m).1 ≤ (ladder n).1)
ladder_le m zero le top = let e : m ≡ 0 = omega arith in rw e (ground arith)
ladder_le m (suc n) le top = elim (dec_lt m (suc n)) [
  | yes below ↦
      let (collateral, apr) = ladder_le m n (omega arith) (omega arith) in
      let (collateral', apr') = ladder_step n (omega arith) in (omega arith, omega arith)
  | no here ↦ let e : m ≡ suc n = omega arith in rw e (omega arith, omega arith)
]

-- Among the five buckets, of two attestations that are both verified or both not, the one in the
-- higher bucket has no lower collateral and no lower rate.
pub terms_from_bucket-monotone :
    (a b : AttestationData)
    → a.risk_bucket ≤ b.risk_bucket
    → b.risk_bucket ≤ 4
    → a.zk_verified ≡ b.zk_verified
    → ((terms_from_bucket a).collateral_ratio_basis_points
        ≤ (terms_from_bucket b).collateral_ratio_basis_points)
      × ((terms_from_bucket a).apr_basis_points ≤ (terms_from_bucket b).apr_basis_points)
unfolding terms_from_bucket
terms_from_bucket-monotone a b le top same =
    let (collateral, apr) = ladder_le a.risk_bucket b.risk_bucket le top in
    (collateral, ground arith)
