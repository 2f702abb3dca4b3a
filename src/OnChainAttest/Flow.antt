-- ===== src/OnChainAttest/Flow.antt =====
-- The handlers and effects of frontend/src/components/OnChainAttest.tsx. A `setState` changes the
-- state beside the world; the component's other code runs between two awaited calls.
use zkredit.Prelude.{ℕ, String, true, false, Option, none, some, if◌then◌else◌, str_eq}
use zkredit.Effects.Errors.{Exception}
use zkredit.Effects.Json.{Json, property, text_of}
use zkredit.Effects.Io.{Io, ◌>>=◌, ◌>>◌, pure, modify, try_catch}
use zkredit.Effects.Browser.{Http, Clock, Wallet, Chain}
use zkredit.Effects.Lift.{update, lift_http, lift_clock, lift_wallet, lift_chain}
use zkredit.Freighter.{Network, connect_freighter, get_connected_address}
use zkredit.Attestor.{PhaseMeta, prepare_attestation}
use zkredit.Rpc.{submit_cosigned_attestation}
use zkredit.Contracts.{Runtime, AttestationData}
use zkredit.Contracts.Client.{get_attestation}
use zkredit.OnChainAttest.{
  Phase, idle, connecting, creating_session, preparing, waiting, signing, submitting, reading, done,
  failed, ErrorState, State, describe_error,
}

abbrev pub set_phase : Phase → State → State
set_phase phase s = record s { phase = phase }

abbrev pub set_error : Option ErrorState → State → State
set_error error s = record s { error = error }

-- `setWallet((w) => w ?? a)`
abbrev pub add_wallet : String → State → State
add_wallet address s = record s { wallet = elim s.wallet [ none ↦ some address | some w ↦ some w ] }

-- `setError(describeError(e)); setPhase("error")`
unfoldable pub fail_with : Exception → State → State
fail_with e s = set_phase failed (set_error (some (describe_error e)) s)

-- The effect on a new `walletAddress`, where an empty text counts as none.
unfoldable pub on_wallet_address : Option String → State → State
on_wallet_address none s = s
on_wallet_address (some address) s = if str_eq address "" then s else add_wallet address s

-- What `attest` resets.
unfoldable pub reset : State → State
reset s = record s {
  error = none;
  tx_hash = none;
  attestation = none;
  prepared = none;
  prepare_meta = none;
  queue_state = none;
}

unfoldable pub handle_prepare_phase : PhaseMeta → State → State
handle_prepare_phase meta s = record s {
  prepare_meta = some (record {
    submission_mode = meta.submission_mode;
    submission_detail = meta.submission_detail;
  });
  queue_state = some (record { job_id = meta.job_id; status = meta.status });
  phase = waiting;
}

abbrev pub set_prepare_meta : Json → State → State
set_prepare_meta result s = record s {
  prepare_meta = some (record {
    submission_mode = property "submission_mode" result;
    submission_detail = property "submission_detail" result;
  });
}

abbrev pub set_tx_hash : String → State → State
set_tx_hash hash s = record s { tx_hash = some hash }

-- The last updates, behind the read of the contract.
unfoldable pub finish : Json → Option AttestationData → State → State
finish result att s = record s {
  prepared = some result;
  attestation = att;
  queue_state = none;
  phase = done;
}

-- The effect on `phase`: off at once, on with the next frame.
unfoldable pub on_phase_change : State → State
on_phase_change s = elim s.phase [
  | done ↦ record s { result_in = true }
  | idle ↦ record s { result_in = false }
  | connecting ↦ record s { result_in = false }
  | creating_session ↦ record s { result_in = false }
  | preparing ↦ record s { result_in = false }
  | waiting ↦ record s { result_in = false }
  | signing ↦ record s { result_in = false }
  | submitting ↦ record s { result_in = false }
  | reading ↦ record s { result_in = false }
  | failed ↦ record s { result_in = false }
]

module _ {W : Type 0} (runtime : Runtime) (network : Network) (http : Http W) (wallet : Wallet W)
    (clock : Clock W) (chain : Chain W) (api_url : String) (on_connected : String → W → W) where
  abbrev set : (State → State) → Io (State × W) (Unit {0})
  set f = modify (update f)

  abbrev pub notify : String → State × W → State × W
  notify address (s, w) = (s, on_connected address w)

  unfoldable pub try_connect : Io (State × W) (Unit {0})
  try_connect = do
    address ← connect_freighter network (lift_wallet wallet)
    set (λ s. record s { wallet = some address })
    modify (notify address)
    set (set_phase idle)

  unfoldable pub connect : Io (State × W) (Unit {0})
  connect =
      set (set_error none)
      >> set (set_phase connecting)
      >> try_catch try_connect (λ e. set (fail_with e))

  -- `getConnectedAddress().then(…)` on mount
  unfoldable pub on_mount : Io (State × W) (Unit {0})
  on_mount =
      get_connected_address network (lift_wallet wallet) >>= λ found. set (on_wallet_address found)

  -- From the signature to the read of the contract.
  unfoldable pub submit_and_read : ℕ → String → Json → Io (State × W) (Option AttestationData)
  submit_and_read fuel address result = do
    set (set_phase signing)
    set (set_phase submitting)
    hash ←
        submit_cosigned_attestation network (lift_wallet wallet) (lift_clock clock)
          (lift_chain chain) fuel (text_of (property "partial_xdr" result)) address
    set (set_tx_hash hash)
    set (set_phase reading)
    get_attestation runtime network (lift_wallet wallet) (lift_clock clock) (lift_chain chain)
        address

  unfoldable pub complete_prepared_attestation : ℕ → String → Json → Io (State × W) (Unit {0})
  complete_prepared_attestation fuel address result =
      submit_and_read fuel address result >>= λ att. set (finish result att)

  -- What `attest` protects; the fuel bounds the polling of the job, and the wait on the chain.
  unfoldable pub request_attestation : ℕ → ℕ → String → Io (State × W) (Unit {0})
  request_attestation polls fuel address = do
    set (set_phase creating_session)
    set (set_phase preparing)
    result ←
        prepare_attestation (lift_http http) (lift_clock clock) api_url
          (λ _ meta. update (handle_prepare_phase meta)) polls address
    set (set_prepare_meta result)
    complete_prepared_attestation fuel address result

  unfoldable pub attest_for : ℕ → ℕ → String → Io (State × W) (Unit {0})
  attest_for polls fuel address =
      set reset >> try_catch (request_attestation polls fuel address) (λ e. set (fail_with e))

  -- `if (!wallet) return`
  abbrev pub guarded : ℕ → ℕ → Option String → Io (State × W) (Unit {0})
  guarded polls fuel none = pure tt
  guarded polls fuel (some address) =
      if str_eq address "" then pure tt else attest_for polls fuel address

  unfoldable pub attest : ℕ → ℕ → Io (State × W) (Unit {0})
  attest polls fuel (s, w) = guarded polls fuel s.wallet (s, w)
