-- ===== src/OnChainAttest.antt =====
-- frontend/src/components/OnChainAttest.tsx: the state of the on-chain attestation, and the texts
-- that are shown for it.
pub mod Reading
pub mod Flow
pub mod Reveal
pub mod Page
pub mod Shows
pub mod Titles
pub mod Settles
pub mod Connecting
use zkredit.Prelude.{ℕ, String, Bool, true, false, Option, none, some, if◌then◌else◌}
use zkredit.Effects.Errors.{
  Exception, error, value, base_error, api_error, freighter_error, contract_rpc_error,
  attestation_prepare_error, Kind, no_kind, freighter, rpc, prepare, status, extension_missing,
  authorization_failed, address_unavailable, wrong_network, sign_rejected, unknown,
  source_account_unavailable, submit_failed, submit_timeout, chain_failed, api_unreachable,
  session_failed, prepare_unavailable, job_status_unavailable, job_failed, rate_limited,
  already_attested, request_failed,
}
use zkredit.Effects.Json.{Json, str, equals_text}
use zkredit.Contracts.{AttestationData}

pub data Phase : Type 0 where
  idle connecting creating_session preparing waiting signing submitting reading done failed : Phase

pub record ErrorState : Type 0 where
  pub title : String
  pub detail : String

-- The texts come from the API, so they may be missing.
pub record PrepareMeta : Type 0 where
  pub submission_mode : Option Json
  pub submission_detail : Option Json

pub record QueueState : Type 0 where
  pub job_id : Option Json
  pub status : Option Json

pub record State : Type 0 where
  pub wallet : Option String
  pub phase : Phase
  pub error : Option ErrorState
  pub tx_hash : Option String
  pub attestation : Option AttestationData
  pub prepared : Option Json
  pub prepare_meta : Option PrepareMeta
  pub queue_state : Option QueueState
  pub result_in : Bool

-- `busy`
abbrev pub is_busy : Phase → Bool
is_busy idle = false
is_busy connecting = true
is_busy creating_session = true
is_busy preparing = true
is_busy waiting = true
is_busy signing = true
is_busy submitting = true
is_busy reading = true
is_busy done = false
is_busy failed = false

pub record Stepper : Type 0 where
  pub show : Bool
  pub active_index : Option ℕ

unfoldable pub stepper_state : Phase → Stepper
stepper_state creating_session = record { show = true; active_index = some 0 }
stepper_state preparing = record { show = true; active_index = some 0 }
stepper_state waiting = record { show = true; active_index = some 1 }
stepper_state signing = record { show = true; active_index = some 2 }
stepper_state submitting = record { show = true; active_index = some 2 }
stepper_state reading = record { show = true; active_index = some 3 }
stepper_state done = record { show = true; active_index = none }
stepper_state idle = record { show = false; active_index = none }
stepper_state connecting = record { show = false; active_index = none }
stepper_state failed = record { show = false; active_index = none }

unfoldable pub request_label : Phase → String
request_label creating_session = "Creating session…"
request_label preparing = "Preparing…"
request_label waiting = "Queued for proving…"
request_label signing = "Waiting for Freighter…"
request_label submitting = "Submitting to Soroban…"
request_label reading = "Reading on-chain result…"
request_label done = "Attested ✓"
request_label idle = "Request attestation"
request_label connecting = "Request attestation"
request_label failed = "Request attestation"

pub data Tone : Type 0 where
  live fixture other : Tone

-- `StepperMode` of attestation/RevealStepper.tsx: a text of its own, or one from the API.
pub record StepperMode : Type 0 where
  pub title : Option Json
  pub detail : Option Json
  pub tone : Tone

abbrev pub shown : String → String → ErrorState
shown title detail = record { title = title; detail = detail }

abbrev pub freighter_text : String → Kind → ErrorState
freighter_text message (freighter extension_missing) =
    shown "Freighter not detected"
      "Install the Freighter browser extension, unlock it, and reload the page before connecting this wallet."
freighter_text message (freighter authorization_failed) =
    shown "Wallet access not approved"
      "Freighter did not grant this site access to the selected Stellar wallet. Approve the connection and try again."
freighter_text message (freighter address_unavailable) =
    shown "Wallet address unavailable"
      "Freighter connected, but it did not return a usable Stellar address. Unlock the extension and confirm the active account."
freighter_text message (freighter wrong_network) =
    shown "Wrong Freighter network"
      "Freighter is not on Stellar Mainnet. Switch the extension to Mainnet, then retry the wallet action."
freighter_text message (freighter sign_rejected) =
    shown "Transaction not signed"
      "The attestation transaction was not signed in Freighter. Approve the signature request to continue."
freighter_text message _ = shown "Wallet action failed" message

abbrev pub rpc_text : String → Kind → ErrorState
rpc_text message (rpc source_account_unavailable) =
    shown "Wallet not ready for mainnet submission"
      "This Stellar mainnet wallet is missing or underfunded for transaction fees. Fund it on mainnet, then retry the attestation."
rpc_text message (rpc submit_timeout) =
    shown "Transaction confirmation timed out"
      "The transaction was submitted, but the app did not see confirmation in time. Check the wallet activity and retry only if nothing landed on-chain."
rpc_text message (rpc chain_failed) =
    shown "Transaction failed on-chain"
      "Soroban accepted the submission attempt, but the transaction did not succeed on-chain. Check contract state and retry with a fresh attestation request."
rpc_text message _ = shown "Transaction submission failed" message

abbrev pub prepare_text : String → Kind → ErrorState
prepare_text message (prepare api_unreachable) =
    shown "Backend unavailable"
      "Wallet connection is working, but the ZKredit backend could not be reached from this browser."
prepare_text message (prepare session_failed) =
    shown "Session setup failed"
      "The backend could not create or validate the wallet session needed for attestation preparation."
prepare_text message (prepare rate_limited) =
    shown "Attestation temporarily rate-limited"
      "This wallet or browser has reached the current attestation limit. Wait and try again later."
prepare_text message (prepare already_attested) =
    shown "Wallet already attested"
      "This wallet already has an on-chain attestation in the current contract flow. Use a fresh wallet or wait for the re-attestation path."
prepare_text message (prepare prepare_unavailable) =
    shown "Live proof preparation unavailable"
      "The backend is reachable, but it cannot prepare a wallet-specific RISC Zero co-sign transaction in this environment right now."
prepare_text message (prepare job_status_unavailable) =
    shown "Queued proving is not available yet"
      "The backend accepted the attestation request as a queued job, but this deployment does not expose the job-status API needed to continue from the browser."
prepare_text message (prepare job_failed) =
    shown "Queued proving failed"
      "The backend reported that the proving job did not complete successfully. Check the attestor worker logs and retry the request."
prepare_text message _ = shown "Attestation preparation failed" message

-- `describeError`: the class decides first, then the kind.
unfoldable pub describe_error : Exception → ErrorState
describe_error (error freighter_error kind message) = freighter_text message kind
describe_error (error contract_rpc_error kind message) = rpc_text message kind
describe_error (error attestation_prepare_error kind message) = prepare_text message kind
describe_error (error base_error kind message) = shown "Attestation failed" message
describe_error (error api_error kind message) = shown "Attestation failed" message
describe_error (value text) = shown "Attestation failed" text

unfoldable pub mode_for : Option PrepareMeta → Option StepperMode
mode_for none = none
mode_for (some meta) =
    if equals_text meta.submission_mode "live_cosign"
    then some (record {
      title = some (str "Live proof");
      detail =
          some
            (str "Wallet-specific proof prepared for this request, not cached or fixture-backed");
      tone = live;
    })
    else if equals_text meta.submission_mode "demo_fixture_cosign"
    then some (record {
      title = some (str "Demo fixture proof");
      detail = some (
          str
            "Prepared from the committed demo fixture, this demonstrates the on-chain verify path, not a fresh wallet-specific proof");
      tone = fixture;
    })
    else some
        (record { title = meta.submission_mode; detail = meta.submission_detail; tone = other })
