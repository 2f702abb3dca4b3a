-- ===== src/Contracts/Client.antt =====
-- The calls of risk-attestation.ts, wallet-identity.ts and mock-lending-pool.ts. The world holds the
-- wallet extension and the RPC server; the fuel bounds the wait for a transaction.
use zkredit.Prelude.{ℕ, String, Bool, not, Option, none, some, List, [], ◌∷◌, if◌then◌else◌, str_eq}
use zkredit.Effects.Io.{Io, ◌>>=◌, pure, call, sync, try_catch}
use zkredit.Effects.Browser.{ScVal, bytes, Retval, Chain, Clock, Wallet}
use zkredit.Freighter.{Network}
use zkredit.Rpc.{simulate_contract_call, invoke_contract_call}
use zkredit.Contracts.{
  Runtime, AttestationData, LoanOffer, as_struct, parsed, parse_terms, commitment_sc_val,
  default_terms,
}

unfoldable pub is_lending_deployed : Network → Bool
is_lending_deployed network = not (str_eq network.mock_lending_pool "")

module _ {W : Type 0} (runtime : Runtime) (network : Network) (wallet : Wallet W) (clock : Clock W)
    (chain : Chain W) where
  abbrev simulate : String → String → List ScVal → Io W (Option Retval)
  simulate = simulate_contract_call network wallet clock chain

  abbrev invoke : ℕ → String → String → List ScVal → String → Io W String
  invoke = invoke_contract_call network wallet clock chain

  -- `none` is null
  unfoldable pub get_attestation : String → Io W (Option AttestationData)
  get_attestation address = do
    account ← call (chain.to_address address)
    result ← simulate network.risk_attestation "get_attestation" (account ∷ [])
    sync (parsed runtime (as_struct result))

  unfoldable pub get_group_attestation : String → Io W (Option AttestationData)
  get_group_attestation commitment = do
    argument ← sync (commitment_sc_val commitment)
    result ← simulate network.wallet_identity "get_group_attestation" (argument ∷ [])
    sync (parsed runtime (as_struct result))

  unfoldable pub register_wallet : ℕ → String → String → List ℕ → Io W String
  register_wallet fuel address commitment proof_bytes = do
    account ← call (chain.to_address address)
    argument ← sync (commitment_sc_val commitment)
    invoke fuel network.wallet_identity "register_wallet"
        (account ∷ argument ∷ bytes proof_bytes ∷ []) address

  unfoldable pub leave_group : ℕ → String → Io W String
  leave_group fuel address = do
    account ← call (chain.to_address address)
    invoke fuel network.wallet_identity "leave_group" (account ∷ []) address

  -- What the terms are made of: a result that is null gives the default terms.
  abbrev pub terms_of : Option Retval → Io W LoanOffer
  terms_of none = pure default_terms
  terms_of (some m) = sync (parse_terms runtime m)

  unfoldable pub read_terms : String → Io W LoanOffer
  read_terms address = do
    account ← call (chain.to_address address)
    result ← simulate network.mock_lending_pool "get_loan_terms" (account ∷ [])
    terms_of (as_struct result)

  unfoldable pub terms_or_default : String → Io W LoanOffer
  terms_or_default address = try_catch (read_terms address) (λ _. pure default_terms)

  unfoldable pub get_loan_terms : String → Io W (Option LoanOffer)
  get_loan_terms address =
      if not (is_lending_deployed network)
      then pure none
      else do terms ← terms_or_default address; pure (some terms)

  unfoldable pub execute_loan : ℕ → String → Io W String
  execute_loan fuel address = do
    account ← call (chain.to_address address)
    invoke fuel network.mock_lending_pool "execute_loan" (account ∷ []) address
