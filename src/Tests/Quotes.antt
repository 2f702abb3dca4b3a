-- ===== src/Tests/Quotes.antt =====
-- Theorems at concrete inputs: the terms that the client shows.
use zkredit.Prelude.{◌≡◌, true, refl, sym, ◌∙◌, some, [], ◌∷◌}
use zkredit.Host.{returned, returned_transport}
use zkredit.Storage.{find, put, bytes_eq, address_eq}
use zkredit.Effects.Sync.{ok}
use zkredit.Effects.Io.{returns}
use zkredit.Effects.Browser.{address, Chain, result, simulation_error}
use zkredit.Rpc.{simulate_contract_call}
use zkredit.Contracts.Client.{get_loan_terms, read_terms, is_lending_deployed}
use zkredit.WalletIdentity
use zkredit.WalletIdentity.Calls.{perform}
use zkredit.MockLendingPool.{LoanOffer, pool_terms, thin_file_terms}
use zkredit.MockLendingPool.Terms.{IsBetter}
use zkredit.Deployment.{loan_terms}
use zkredit.Deployment.Credit.{group_terms}
use zkredit.Deployment.Quotes.{
  offer_to_native, shown, Answers, get_loan_terms-member, get_loan_terms-falls_back,
}
use zkredit.Tests.World.{World, test_runtime, test_network, test_clock, test_wallet, test_chain}
use zkredit.Tests.Contracts.{sys, at, ledger, some_attestation, sys-IsWired, a-IsMember}

-- A server that answers with the terms of the group.
abbrev quoting : Chain World
quoting = record test_chain {
  simulate_transaction =
      λ tx t. (returns (result (offer_to_native (pool_terms 7 (some some_attestation)))), t);
}

scored : WalletIdentity.get_group_attestation (1 ∷ []) sys.identity ≡ some some_attestation
unfolding perform WalletIdentity.set_attestor_registry WalletIdentity.constructor
    WalletIdentity.register_wallet WalletIdentity.check_proof find put
    WalletIdentity.update_group_score WalletIdentity.require_registered_attestor
    WalletIdentity.get_group_attestation WalletIdentity.is_kyc_verified
scored = refl

abbrev is_deployed : is_lending_deployed test_network ≡ true
unfolding is_lending_deployed
is_deployed = refl

abbrev Served : LoanOffer → Type 0
Served offer =
    Answers test_runtime test_network test_wallet test_clock quoting "GA" (address "GA") 0 0
      is_deployed refl offer

quoted : Served (pool_terms 7 (some some_attestation))
unfolding simulate_contract_call
quoted = refl

honest : (offer : LoanOffer) → loan_terms at ledger sys "GA" ≡ returned offer → Served offer
honest offer e =
    let terms =
      group_terms at ledger sys sys-IsWired "GA" (1 ∷ []) some_attestation a-IsMember scored in
    returned_transport Served (sym terms ∙ e) quoted

get_loan_terms-member_example :
    get_loan_terms test_runtime test_network test_wallet test_clock quoting "GA" 0
    ≡ (ok (some (shown (pool_terms 7 (some some_attestation)))), 0)
get_loan_terms-member_example =
    get_loan_terms-member test_runtime test_network test_wallet test_clock quoting "GA"
      (address "GA") 0 0 is_deployed refl at ledger sys (1 ∷ []) some_attestation sys-IsWired
      a-IsMember scored honest

abbrev failing : Chain World
failing = record test_chain {
  simulate_transaction = λ tx t. (returns (simulation_error "Error(Contract, #3)"), t);
}

get_loan_terms-falls_back_example :
    (offer : LoanOffer) × (get_loan_terms test_runtime test_network test_wallet test_clock failing
        "GA" 0
      ≡ (ok (some (shown offer)), 0))
    × IsBetter offer thin_file_terms
unfolding is_lending_deployed read_terms simulate_contract_call
get_loan_terms-falls_back_example =
    get_loan_terms-falls_back test_runtime test_network test_wallet test_clock failing "GA" 0 0 _
      refl refl
