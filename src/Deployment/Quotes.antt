-- ===== src/Deployment/Quotes.antt =====
-- The terms that frontend/src/lib/contracts/mock-lending-pool.ts shows, against those of the pool.
use zkredit.Prelude.{ℕ, ◌≡◌, refl, String, true, some, List, [], ◌∷◌, arith}
use zkredit.Prelude.Int.{pos}
use zkredit.BigInt.Laws.{big_int-show}
use zkredit.Host.{returned}
use zkredit.Effects.Errors.{Exception}
use zkredit.Effects.Sync.{ok, thrown}
use zkredit.Effects.Io.{returns}
use zkredit.Effects.Browser.{ScVal, Retval, struct, num, big, Chain, Clock, Wallet}
use zkredit.Freighter.{Network}
use zkredit.Rpc.{simulate_contract_call}
use zkredit.Contracts.{Runtime, whole, parse_terms, get_field, default_terms}
use zkredit.Contracts
use zkredit.Contracts.Client.{get_loan_terms, read_terms, terms_or_default, is_lending_deployed}
use zkredit.WalletIdentity.{AttestationData, get_group_attestation}
use zkredit.MockLendingPool.{LoanOffer, pool_terms, thin_file_terms}
use zkredit.MockLendingPool.Terms.{IsBetter}
use zkredit.Deployment.{Addresses, System, Ledger, IsWired, IsMember, loan_terms}
use zkredit.Deployment.Credit.{group_terms}

-- The struct as the SDK gives it: an i128 is a bigint, a u32 a number.
abbrev pub offer_to_native : LoanOffer → Retval
offer_to_native o = struct (
    ("apr_basis_points", num o.apr_basis_points)
    ∷ ("collateral_ratio_basis_points", num o.collateral_ratio_basis_points)
    ∷ ("max_principal", big o.max_principal)
    ∷ [])

-- The same terms in the client.
abbrev pub shown : LoanOffer → Contracts.LoanOffer
shown o = record {
  max_principal = pos o.max_principal;
  collateral_ratio_basis_points = whole o.collateral_ratio_basis_points;
  apr_basis_points = whole o.apr_basis_points;
}

parse_terms-to_native :
    (runtime : Runtime) (o : LoanOffer) → parse_terms runtime (offer_to_native o) ≡ ok (shown o)
unfolding parse_terms get_field
parse_terms-to_native runtime o = rw (big_int-show o.max_principal) refl

module _ {W : Type 0} (runtime : Runtime) (network : Network) (wallet : Wallet W) (clock : Clock W)
    (chain : Chain W) (address : String) (account : ScVal) (w v : W)
    (deployed : is_lending_deployed network ≡ true)
    (is_account : chain.to_address address ≡ returns account) where
  -- The server's answer to the simulated call.
  abbrev pub Answers : LoanOffer → Type 0
  Answers offer =
      simulate_contract_call network wallet clock chain network.mock_lending_pool "get_loan_terms"
        (account ∷ []) w
      ≡ (ok (some (offer_to_native offer)), v)

  answered_terms :
      (offer : LoanOffer)
      → Answers offer
      → get_loan_terms runtime network wallet clock chain address w ≡ (ok (some (shown offer)), v)
  unfolding get_loan_terms terms_or_default read_terms
  answered_terms offer e = rw (deployed, is_account, e, parse_terms-to_native runtime offer) refl

  -- With the contracts wired to one another, when the server answers the client's simulated call
  -- with the pool's terms, whatever they are, the client shows a wallet that is a member of a
  -- scored group the terms that the pool makes of the group's score, number for number.
  pub get_loan_terms-member :
      (at : Addresses) (ledger : Ledger) (sys : System) (c : List ℕ) (group : AttestationData)
      → IsWired at sys
      → IsMember sys address c
      → get_group_attestation c sys.identity ≡ some group
      → ((offer : LoanOffer) → loan_terms at ledger sys address ≡ returned offer → Answers offer)
      → get_loan_terms runtime network wallet clock chain address w
        ≡ (ok (some (shown (pool_terms ledger.timestamp (some group)))), v)
  get_loan_terms-member at ledger sys c group wired member scored honest =
      let offer = pool_terms ledger.timestamp (some group) in
      answered_terms offer
        (honest offer (group_terms at ledger sys wired address c group member scored))

-- When the lending pool is configured and reading its terms throws any error, the client shows
-- terms nevertheless, and they are better than those that the pool offers a wallet without KYC:
-- more principal for less collateral at a lower rate.
pub get_loan_terms-falls_back :
    {W : Type 0} (runtime : Runtime) (network : Network) (wallet : Wallet W) (clock : Clock W)
    (chain : Chain W) (address : String) (w v : W) (e : Exception)
    → is_lending_deployed network ≡ true
    → read_terms runtime network wallet clock chain address w ≡ (thrown e, v)
    → (offer : LoanOffer) × (get_loan_terms runtime network wallet clock chain address w
        ≡ (ok (some (shown offer)), v))
      × IsBetter offer thin_file_terms
unfolding get_loan_terms terms_or_default thin_file_terms
get_loan_terms-falls_back runtime network wallet clock chain address w v e deployed failed = (
  record { max_principal = 1000; collateral_ratio_basis_points = 15000; apr_basis_points = 1500 },
  rw (deployed, failed) refl,
  record { principal = omega arith; collateral = omega arith; apr = omega arith },
)
