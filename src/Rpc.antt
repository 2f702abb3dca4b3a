-- ===== src/Rpc.antt =====
-- frontend/src/lib/contracts/rpc.ts: simulating and submitting contract calls.
pub mod Waiting
pub mod Endings
pub mod Success
use zkredit.Prelude.{
  ℕ, zero, suc, ◌+◌, String, Bool, true, false, ◌||◌, Option, none, some, List, [], ◌<>◌,
  if◌then◌else◌, str_eq, starts_with, includes_ci, ltb,
}
use zkredit.Effects.Errors.{
  Exception, error, base_error, value, RpcKind, source_account_unavailable, submit_failed,
  submit_timeout, chain_failed, rpc, message_of,
}
use zkredit.Effects.Sync.{Result, ok, thrown, pending}
use zkredit.Effects.Io.{
  Io, Reply, returns, throws, ◌>>=◌, ◌>>◌, throw, pure, await, try_catch, call, modify,
}
use zkredit.Effects.Browser.{
  Account, ScVal, Transaction, Sent, TxStatus, not_found, success, failed, Retval, native, Native,
  Simulation, simulation_error, no_result, result, Chain, Clock, Wallet,
}
use zkredit.Freighter.{Network, sign_with_freighter}
use zkredit.Http.{plain}

abbrev pub poll_timeout_ms : ℕ
poll_timeout_ms = 30_000

abbrev pub poll_interval_ms : ℕ
poll_interval_ms = 1_500

abbrev pub inclusion_fee : String
inclusion_fee = "1000000"

-- `BASE_FEE` of the SDK
abbrev pub base_fee : String
base_fee = "100"

abbrev pub simulation_source : Account
simulation_source = record {
  id = "GAAAAAAAAAAAAAAAAAAAAAAAAAAAAAAAAAAAAAAAAAAAAAAAAAAAAWHF";
  sequence = "0";
}

unfoldable pub network_name : Network → String
network_name network =
    if starts_with network.passphrase "Public Global Stellar Network" then "mainnet" else "testnet"

-- `makeRpcError`: the object is made by `new Error`, whatever its static type says.
abbrev pub make_rpc_error : RpcKind → String → Exception
make_rpc_error kind message = error base_error (rpc kind) message

unfoldable pub is_missing_account : String → Bool
is_missing_account message =
    includes_ci message "not found"
    || includes_ci message "404"
    || includes_ci message "unknown account"
    || includes_ci message "missing account"
    || includes_ci message "does not exist"

unfoldable pub parse_source_account_error : Network → Exception → Exception
parse_source_account_error network e =
    let message = message_of e in
    if is_missing_account message
    then make_rpc_error source_account_unavailable (
        "This Stellar "
        <> network_name network
        <> " wallet is not funded or does not exist on Soroban yet.")
    else make_rpc_error source_account_unavailable message

unfoldable pub is_underfunded : String → Bool
is_underfunded message =
    includes_ci message "insufficient"
    || includes_ci message "balance"
    || includes_ci message "underfunded"
    || includes_ci message "no account"
    || includes_ci message "tx_no_account"

-- `details` as a text, by `JSON.stringify` where it is none.
unfoldable pub parse_submission_error : Network → String → String → Exception
parse_submission_error network prefix message =
    if is_underfunded message
    then make_rpc_error source_account_unavailable (
        "This Stellar "
        <> network_name network
        <> " wallet does not have enough balance to submit the transaction.")
    else make_rpc_error submit_failed (prefix <> ": " <> message)

-- What a simulation makes of a read-only call; `none` is null.
abbrev pub simulated : {W : Type 0} → Simulation → Io W (Option Retval)
simulated (simulation_error text) = throw (plain ("Contract call failed: " <> text))
simulated no_result = pure none
simulated (result v) = pure (some v)

-- The status that is printed when a transaction is not successful.
abbrev pub status_text : TxStatus → String
status_text not_found = "NOT_FOUND"
status_text success = "SUCCESS"
status_text failed = "FAILED"

-- The answer behind the loop.
abbrev pub settled : {W : Type 0} → String → String → TxStatus → Io W String
settled label hash success = pure hash
settled label hash not_found = throw (
    make_rpc_error chain_failed
      (label <> " " <> hash <> " failed on-chain (" <> status_text not_found <> ")"))
settled label hash failed = throw (
    make_rpc_error chain_failed
      (label <> " " <> hash <> " failed on-chain (" <> status_text failed <> ")"))

module _ {W : Type 0} (network : Network) (wallet : Wallet W) (clock : Clock W)
    (chain : Chain W) where
  -- `none` is null.
  unfoldable pub simulate_contract_call : String → String → List ScVal → Io W (Option Retval)
  simulate_contract_call contract_id method args =
      if str_eq contract_id ""
      then throw
          (plain "Contract not deployed yet — set VITE_CONTRACT_* env vars after Day 4 deploy")
      else do
        built ← call (chain.contract contract_id)
        sim ← await (
            chain.simulate_transaction (record {
              source = simulation_source;
              fee = base_fee;
              network_passphrase = network.passphrase;
              contract_id = contract_id;
              method = method;
              args = args;
              timeout = 30;
            }))
        simulated sim

  -- One pass of `while (status === NOT_FOUND)`: past the deadline it throws, else it waits.
  abbrev pub waiting : ℕ → String → Io W String → Io W String
  waiting deadline hash again w =
      if ltb deadline (clock.now w)
      then throw (make_rpc_error submit_timeout ("Timed out waiting for transaction " <> hash)) w
      else again (clock.delay poll_interval_ms w)

  abbrev pub on_status : String → String → TxStatus → Io W String → Io W String
  on_status label hash not_found again w = again w
  on_status label hash success again w = settled label hash success w
  on_status label hash failed again w = settled label hash failed w

  -- The loop on the status of a transaction, with fuel.
  unfoldable pub wait_loop : ℕ → ℕ → String → String → TxStatus → Io W String
  wait_loop zero deadline label hash status =
      on_status label hash status (waiting deadline hash (λ w. (pending, w)))
  wait_loop (suc fuel) deadline label hash status = on_status label hash status (
      waiting deadline hash
        (await (chain.get_transaction hash) >>= wait_loop fuel deadline label hash))

  -- The deadline, the first answer, and the loop.
  unfoldable pub await_status : ℕ → String → String → Io W String
  await_status fuel label hash w =
      let deadline = clock.now w + poll_timeout_ms in
      (await (chain.get_transaction hash) >>= wait_loop fuel deadline label hash) w

  -- From sending a signed envelope to its final status; the two labels begin the error messages.
  unfoldable pub submit : ℕ → String → String → String → Io W String
  submit fuel failure label signed_tx = do
    sent ← await (chain.send_transaction signed_tx)
    if str_eq sent.status "ERROR"
        then throw (parse_submission_error network failure sent.error_result)
        else await_status fuel label sent.hash

  -- Sign with Freighter and parse what comes back.
  unfoldable pub sign_envelope : String → String → Io W String
  sign_envelope tx_xdr address = do
    signed_xdr ← sign_with_freighter network wallet tx_xdr network.passphrase address
    call (chain.from_xdr signed_xdr network.passphrase)

  unfoldable pub source_account : String → Io W Account
  source_account source_address =
      try_catch (await (chain.get_account source_address))
        (λ e. throw (parse_source_account_error network e))

  unfoldable pub invoke_contract_call : ℕ → String → String → List ScVal → String → Io W String
  invoke_contract_call fuel contract_id method args source_address =
      if str_eq contract_id ""
      then throw (plain "Contract not deployed yet — set VITE_CONTRACT_ID_* env vars")
      else do
        source ← source_account source_address
        built ← call (chain.contract contract_id)
        prepared ← await (
            chain.prepare_transaction (record {
              source = source;
              fee = inclusion_fee;
              network_passphrase = network.passphrase;
              contract_id = contract_id;
              method = method;
              args = args;
              timeout = 60;
            }))
        signed_tx ← sign_envelope prepared source_address
        submit fuel "Transaction submission failed" "Transaction" signed_tx

  unfoldable pub submit_cosigned_attestation : ℕ → String → String → Io W String
  submit_cosigned_attestation fuel partial_xdr wallet_address = do
    signed_tx ← sign_envelope partial_xdr wallet_address
    submit fuel "Attestation submission failed" "Attestation" signed_tx
