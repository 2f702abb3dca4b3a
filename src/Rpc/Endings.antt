-- ===== src/Rpc/Endings.antt =====
-- How the calls of contracts/rpc.ts can end: what they throw, and whether they wait for ever.
use zkredit.Prelude.{ℕ, zero, suc, ◌+◌, ◌≤◌, String, arith, ltb, List, Bool-cases, inl, inr}
use zkredit.Effects.Errors.{Exception}
use zkredit.Effects.Io.{await, throw}
use zkredit.Effects.Safe.{
  Safe, Outcome-ends, IsPlain, safe_rules, Safe-bind, Safe-await, Safe-throw, Safe-try_catch,
  to_exception-IsPlain,
}
use zkredit.Effects.Browser.{
  TxStatus, not_found, success, failed, Simulation, simulation_error, no_result, result, Chain,
  Clock, Wallet, ScVal,
}
use zkredit.Freighter.{Network}
use zkredit.Freighter.Laws.{sign_with_freighter-Safe}
use zkredit.Rpc.{
  wait_loop, await_status, submit, sign_envelope, submit_cosigned_attestation,
  parse_submission_error, parse_source_account_error, source_account, invoke_contract_call,
  simulated, simulate_contract_call, poll_timeout_ms, poll_interval_ms,
}
use zkredit.Rpc.Waiting.{Runs, wait_loop-ends, Reply-cases}

-- An error that `parseSubmissionError` makes is plain.
parse_submission_error-IsPlain :
    (network : Network) (prefix message : String)
    → IsPlain (parse_submission_error network prefix message)
unfolding parse_submission_error
parse_submission_error-IsPlain network prefix message = ground arith

parse_source_account_error-IsPlain :
    (network : Network) (e : Exception) → IsPlain (parse_source_account_error network e)
unfolding parse_source_account_error
parse_source_account_error-IsPlain network e = ground arith

module _ {W : Type 0} (network : Network) (wallet : Wallet W) (clock : Clock W)
    (chain : Chain W) where
  wait_loop-IsPlain :
      (fuel deadline : ℕ) (label hash : String) (status : TxStatus)
      → Safe IsPlain
          (Unit {0})
          (wait_loop network wallet clock chain fuel deadline label hash status)
  unfolding wait_loop
  wait_loop-IsPlain zero deadline label hash success = record { at = λ w. tt }
  wait_loop-IsPlain (suc fuel) deadline label hash success = record { at = λ w. tt }
  wait_loop-IsPlain zero deadline label hash failed = record { at = λ w. tt }
  wait_loop-IsPlain (suc fuel) deadline label hash failed = record { at = λ w. tt }
  wait_loop-IsPlain zero deadline label hash not_found = record { at = λ w. ground arith }
  wait_loop-IsPlain (suc fuel) deadline label hash not_found =
      let next =
        Safe-bind (await (chain.get_transaction hash))
          (wait_loop network wallet clock chain fuel deadline label hash)
          (Safe-await (chain.get_transaction hash) to_exception-IsPlain)
          (wait_loop-IsPlain fuel deadline label hash) in
      record {
        at = λ w. elim (Bool-cases (ltb deadline (clock.now w))) [
          | inl late ↦ rw late tt
          | inr early ↦ rw early (next.at (clock.delay poll_interval_ms w))
        ];
      }

  module _ (runs : Runs clock chain) where
    await_status-Safe :
        (fuel : ℕ) (label hash : String)
        → 21 ≤ fuel
        → Safe IsPlain ⊥ (await_status network wallet clock chain fuel label hash)
    await_status-Safe fuel label hash h = record {
      at = λ w.
          let deadline = clock.now w + poll_timeout_ms in
          elim (Reply-cases (chain.get_transaction hash w).0) [
            | inl (status, answered) ↦
                unfold await_status in
                rw answered (
                  Outcome-ends IsPlain
                    (wait_loop network wallet clock chain fuel deadline label hash status
                      (chain.get_transaction hash w).1).0
                    ((wait_loop-IsPlain fuel deadline label hash status).at
                      (chain.get_transaction hash w).1)
                    (wait_loop-ends network wallet clock chain label hash runs fuel deadline status
                      (chain.get_transaction hash w).1 (omega (arith, runs.asked hash w))))
            | inr (x, broken) ↦ unfold await_status in rw broken (to_exception-IsPlain x)
          ];
    }

    submit-Safe :
        (fuel : ℕ) (failure label signed_tx : String)
        → 21 ≤ fuel
        → Safe IsPlain ⊥ (submit network wallet clock chain fuel failure label signed_tx)
    unfolding submit
    submit-Safe fuel failure label signed_tx h =
        search (safe_rules, parse_submission_error-IsPlain, await_status-Safe) depth 8

    sign_envelope-Safe :
        (tx address : String) → Safe IsPlain ⊥ (sign_envelope network wallet clock chain tx address)
    unfolding sign_envelope
    sign_envelope-Safe tx address = search (safe_rules, sign_with_freighter-Safe) depth 8

    -- With a clock that runs and fuel of 21 at least, submitting a co-signed attestation ends for
    -- all answers of the wallet and of the server, and what it throws is an instance of none of
    -- the client's error classes.
    pub submit_cosigned_attestation-Safe :
        (fuel : ℕ) (partial_xdr wallet_address : String)
        → 21 ≤ fuel
        → Safe IsPlain ⊥
            (submit_cosigned_attestation network wallet clock chain fuel partial_xdr wallet_address)
    unfolding submit_cosigned_attestation
    submit_cosigned_attestation-Safe fuel partial_xdr wallet_address h =
        search (safe_rules, sign_envelope-Safe, submit-Safe) depth 8

    source_account-Safe :
        (source_address : String)
        → Safe IsPlain ⊥ (source_account network wallet clock chain source_address)
    unfolding source_account
    source_account-Safe source_address =
        Safe-try_catch {P' = IsPlain} (await (chain.get_account source_address))
          (λ e. throw (parse_source_account_error network e))
          (Safe-await (chain.get_account source_address) to_exception-IsPlain)
          (λ e h.
            Safe-throw (parse_source_account_error network e)
              (parse_source_account_error-IsPlain network e))

    pub invoke_contract_call-Safe :
        (fuel : ℕ) (contract_id method : String) (args : List ScVal) (address : String)
        → 21 ≤ fuel
        → Safe IsPlain ⊥
            (invoke_contract_call network wallet clock chain fuel contract_id method args address)
    unfolding invoke_contract_call
    invoke_contract_call-Safe fuel contract_id method args address h =
        search (safe_rules, source_account-Safe, sign_envelope-Safe, submit-Safe) depth 12

  simulated-Safe : (s : Simulation) → Safe IsPlain ⊥ (simulated {W = W} s)
  simulated-Safe (simulation_error text) = record { at = λ w. tt }
  simulated-Safe no_result = record { at = λ w. tt }
  simulated-Safe (result v) = record { at = λ w. tt }

  pub simulate_contract_call-Safe :
      (contract_id method : String) (args : List ScVal)
      → Safe IsPlain ⊥ (simulate_contract_call network wallet clock chain contract_id method args)
  unfolding simulate_contract_call
  simulate_contract_call-Safe contract_id method args = search (safe_rules, simulated-Safe) depth 8
