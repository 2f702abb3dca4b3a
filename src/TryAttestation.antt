-- ===== src/TryAttestation.antt =====
-- frontend/src/components/TryAttestation.tsx: a preview of an attestation, for any address.
pub mod Messages
pub mod Page
pub mod Details
pub mod Results
use zkredit.Prelude.{
  ℕ, zero, suc, ◌+◌, ◌-◌, ltb, String, Bool, true, false, not, Option, none, some, trim, str_eq,
  if◌then◌else◌,
}
use zkredit.Effects.Errors.{
  Exception, error, value, base_error, api_error, freighter_error, contract_rpc_error,
  attestation_prepare_error, Kind, prepare, api_unreachable,
}
use zkredit.Effects.Json.{Json, str, num, bool, null, arr, nil, property, or_else}
use zkredit.Effects.Io.{Io, ◌>>=◌, ◌>>◌, pure, throw, modify, try_catch, finally}
use zkredit.Effects.Browser.{Http, Clock, Wallet}
use zkredit.Effects.Lift.{update, lift_http, lift_clock, lift_wallet}
use zkredit.Attestor.{PhaseMeta, prepare_attestation}
use zkredit.Freighter.{Network, get_connected_address}
use zkredit.Api.{
  is_valid_stellar_address, get_attestation_record, get_wallet_features, get_model_info,
}

pub data Phase : Type 0 where
  idle loading done failed : Phase

-- `AttestationResponse` of api.ts, made of what the API prepared; a field without a default may be
-- missing.
pub record AttestationResponse : Type 0 where
  pub stellar_address : Option Json
  pub risk_bucket : Option Json
  pub risk_bucket_name : Option Json
  pub confidence : Option Json
  pub credit_score : Option Json
  pub full_model_hash : Option Json
  pub distilled_model_hash : Option Json
  pub zk_verified : Option Json
  pub proof_generated : Option Json
  pub proof_hash : Option Json
  pub public_inputs : Option Json
  pub anomaly : Option Json
  pub anomaly_score : Option Json
  pub top_features : Option Json
  pub reason_codes : Option Json
  pub feature_schema_version : Option Json
  pub tx_hash : Option Json
  pub created_at : Option Json

pub record State : Type 0 where
  pub address : String
  pub phase : Phase
  pub step : ℕ
  pub error_message : String
  pub attestation : Option AttestationResponse
  pub attestation_record : Option Json
  pub features : Option Json
  pub features_unavailable : Bool
  pub model_info : Option Json
  -- `stepTimer.current` is running
  pub timer : Bool

-- `result.name ?? fallback`
abbrev get_or : String → Json → Json → Option Json
get_or name fallback result = or_else (property name result) (some fallback)

-- `now` is `new Date().toISOString()`.
unfoldable pub to_attestation_response : String → Json → AttestationResponse
to_attestation_response now result = record {
  stellar_address = get_or "stellar_address" (str "") result;
  risk_bucket = property "risk_bucket" result;
  risk_bucket_name = get_or "risk_bucket_name" (str "UNKNOWN") result;
  confidence = property "confidence" result;
  credit_score = get_or "credit_score" (num "0") result;
  full_model_hash = get_or "full_model_hash" (str "") result;
  distilled_model_hash = property "distilled_model_hash" result;
  zk_verified = get_or "zk_verified" (bool false) result;
  proof_generated = get_or "proof_generated" (bool false) result;
  proof_hash = get_or "proof_hash" (str "") result;
  public_inputs = get_or "public_inputs" (arr nil) result;
  anomaly = get_or "anomaly" (bool false) result;
  anomaly_score = get_or "anomaly_score" (num "0") result;
  top_features = get_or "top_features" (arr nil) result;
  reason_codes = get_or "reason_codes" (arr nil) result;
  feature_schema_version = get_or "feature_schema_version" (str "v1") result;
  tx_hash = some null;
  created_at = get_or "created_at" (str now) result;
}

abbrev pub general_message : String
general_message = "Something went wrong generating this attestation."

abbrev prepare_message : Kind → String → String
prepare_message (prepare api_unreachable) message =
    "Could not reach the attestation service. It may be offline - please retry in a moment."
prepare_message _ message = message

-- The message of the `catch`.
unfoldable pub error_message_of : Exception → String
error_message_of (error attestation_prepare_error kind message) = prepare_message kind message
error_message_of (error base_error kind message) = general_message
error_message_of (error api_error kind message) = general_message
error_message_of (error freighter_error kind message) = general_message
error_message_of (error contract_rpc_error kind message) = general_message
error_message_of (value text) = general_message

-- `STEPS.length - 1`
abbrev pub last_step : ℕ
last_step = 4

unfoldable pub begin : State → State
begin s = record s {
  phase = loading;
  step = 0;
  error_message = "";
  attestation = none;
  attestation_record = none;
  features = none;
  features_unavailable = false;
  model_info = none;
  timer = true;
}

-- A tick of the timer, every 900 milliseconds while it runs.
unfoldable pub tick : State → State
tick s =
    if s.timer
    then record s { step = if ltb (s.step + 1) last_step then s.step + 1 else last_step }
    else s

-- Either phase of the queue is shown as the fourth step.
abbrev pub on_phase : State → State
on_phase s = record s { step = 3 }

-- `(current) => current || found`
abbrev add_address : String → State → State
add_address found s = record s { address = if str_eq s.address "" then found else s.address }

unfoldable pub fail_with : Exception → State → State
fail_with e s = record s { error_message = error_message_of e; phase = failed }

unfoldable pub end_run : State → State
end_run s = record s { timer = false; step = last_step }

unfoldable pub reject : State → State
reject s = record s {
  phase = failed;
  error_message =
      "That doesn't look like a valid Stellar address (should start with G, 56 characters).";
}

module _ {W : Type 0} (network : Network) (wallet : Wallet W) (http : Http W) (clock : Clock W)
    (api_url api_base : String) (encode_uri : String → String) (now : W → String)
    (on_connected : String → W → W) where
  abbrev set : (State → State) → Io (State × W) (Unit {0})
  set f = modify (update f)

  abbrev pub show_response : Json → State × W → State × W
  show_response result (s, w) =
      (record s { attestation = some (to_attestation_response (now w) result) }, w)

  -- One promise of `Promise.allSettled`: what it gives, or what is shown without it.
  abbrev pub settled :
      Io (State × W) Json → (Json → State → State) → (State → State) → Io (State × W) (Unit {0})
  settled m on_value on_error = try_catch (m >>= λ j. set (on_value j)) (λ _. set on_error)

  -- The three requests are made at once there, and their answers shown when all have come. They do
  -- not depend on each other, so here they follow each other.
  unfoldable pub load_details : String → Io (State × W) (Unit {0})
  load_details address =
      settled (get_attestation_record (lift_http http) api_base encode_uri address)
        (λ j s. record s { attestation_record = some j }) (λ s. s)
      >> settled (get_wallet_features (lift_http http) api_base encode_uri address)
          (λ j s. record s { features = some j }) (λ s. record s { features_unavailable = true })
      >> settled (get_model_info (lift_http http) api_base encode_uri)
          (λ j s. record s { model_info = some j }) (λ s. s)

  unfoldable pub prepare_and_load : ℕ → String → Io (State × W) (Unit {0})
  prepare_and_load polls address = do
    result ←
        prepare_attestation (lift_http http) (lift_clock clock) api_url (λ _ _. update on_phase)
          polls address
    modify (show_response result)
    load_details address

  -- What `runAttestation` protects.
  unfoldable pub run_protected : ℕ → String → Io (State × W) (Unit {0})
  run_protected polls address =
      prepare_and_load polls address >> set (λ s. record s { phase = done })

  unfoldable pub run_attestation : ℕ → String → Io (State × W) (Unit {0})
  run_attestation polls address =
      set begin
      >> finally (try_catch (run_protected polls address) (λ e. set (fail_with e))) (set end_run)

  unfoldable pub on_submit : ℕ → Io (State × W) (Unit {0})
  on_submit polls (s, w) =
      let address = trim s.address in
      (if is_valid_stellar_address address then run_attestation polls address else set reject)
        (s, w)

  abbrev on_found : Option String → Io (State × W) (Unit {0})
  on_found none = pure tt
  on_found (some found) =
      if str_eq found ""
      then pure tt
      else set (add_address found) >> modify (λ (s, w). (s, on_connected found w))

  unfoldable pub on_mount : Io (State × W) (Unit {0})
  on_mount = get_connected_address network (lift_wallet wallet) >>= on_found
