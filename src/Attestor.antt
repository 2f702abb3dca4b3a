-- ===== src/Attestor.antt =====
-- frontend/src/lib/attestor.ts: preparing an attestation, with polling of a queued proving job.
-- What the API sends is dynamically typed there, so it is JSON here too.
pub mod Job
pub mod Polling
pub mod Endings
use zkredit.Prelude.{
  ℕ, zero, suc, ◌≡◌, String, Bool, true, false, ◌&&◌, ◌||◌, Option, none, some, List, [], ◌∷◌, map,
  ◌==◌, show, ◌<>◌, if◌then◌else◌, units, to_lower, is_prefix, is_infix, drop, includes_ci, str_eq,
}
use zkredit.Effects.Errors.{
  Exception, error, base_error, PrepareKind, api_unreachable, session_failed, prepare_unavailable,
  job_status_unavailable, job_failed, rate_limited, already_attested, request_failed, prepare,
}
use zkredit.Effects.Json.{
  Json, null, bool, num, str, arr, obj, Fields, end, field, lookup, assign, property, is_null,
  or_else, equals_text, truthy?, text_of, to_text,
}
use zkredit.Effects.Sync.{Result, ok, thrown, pending}
use zkredit.Effects.Io.{Io, Reply, ◌>>=◌, throw, pure, await, await_or, call, sync, modify, ◌>>◌}
use zkredit.Effects.Browser.{Request, Response, Http, Clock}
use zkredit.Http.{body_of, detail_or, with_status, unreachable, plain}

-- `makePrepareError`: the object is made by `new Error`, whatever its static type says.
abbrev pub make_prepare_error : PrepareKind → String → Exception
make_prepare_error kind message = error base_error (prepare kind) message

-- `/a.*b/i`: a line in which `b` follows `a`.
first_line : List ℕ → List ℕ
first_line [] = []
first_line (c ∷ cs) =
    if c == 10 || c == 13 || c == 0x2028 || c == 0x2029 then [] else c ∷ first_line cs

followed_by : List ℕ → ℕ → List ℕ → List ℕ → Bool
followed_by a size b [] = false
followed_by a size b (c ∷ cs) =
    is_prefix a (c ∷ cs) && is_infix b (first_line (drop size (c ∷ cs))) || followed_by a size b cs

unfoldable pub proof_unavailable : String → Bool
unfolding followed_by first_line
proof_unavailable detail =
    followed_by (units "proof") 5 (units "unavailable") (map to_lower (units detail))

-- The kind of error for an answer to `prepare` that is not ok.
unfoldable pub prepare_kind : ℕ → String → PrepareKind
prepare_kind code detail =
    if code == 401 || code == 403
    then session_failed
    else if code == 429
    then rate_limited
    else if includes_ci detail "alreadyattested" || includes_ci detail "already attested"
    then already_attested
    else if code == 503
        || includes_ci detail "co-sign preparation is unavailable"
        || includes_ci detail "risc zero"
        || includes_ci detail "prover"
        || proof_unavailable detail
    then prepare_unavailable
    else request_failed

-- The kind of error for an answer to a job request that is not ok.
unfoldable pub job_kind : ℕ → PrepareKind
job_kind code =
    if code == 404 || code == 405 || code == 501
    then job_status_unavailable
    else if code == 401 || code == 403
    then session_failed
    else if code == 429
    then rate_limited
    else request_failed

-- V8's texts for the TypeErrors of `in` and of a property of `null`.
abbrev in_error : Json → Exception
in_error j = plain ("Cannot use 'in' operator to search for 'job_id' in " <> to_text j)

abbrev read_error : String → Exception
read_error key = plain ("Cannot read properties of null (reading '" <> key <> "')")

abbrev pub is_present : Option Json → Bool
is_present none = false
is_present (some j) = true

-- `"job_id" in result`
unfoldable pub is_queued_attestation : Json → Result Bool
is_queued_attestation (obj fs) = ok (is_present (lookup "job_id" fs))
is_queued_attestation (arr xs) = ok false
is_queued_attestation j = thrown (in_error j)

abbrev pub set_some : String → Option Json → Fields → Fields
set_some key none fs = fs
set_some key (some v) fs = assign key v fs

-- `payload.result.key ?? payload.key ?? ''`
abbrev pub with_fallback : String → Json → Fields → Option Json
with_fallback key payload fs =
    or_else (lookup key fs) (or_else (property key payload) (some (str "")))

-- `{ ...payload.result, submission_mode: …, submission_detail: … }`
abbrev pub flattened : Json → Fields → Json
flattened payload fs = obj (
    set_some "submission_detail" (with_fallback "submission_detail" payload fs)
      (set_some "submission_mode" (with_fallback "submission_mode" payload fs) fs))

abbrev no_xdr : Exception
no_xdr =
    make_prepare_error job_failed "The proving job finished but returned no signable transaction."

-- A job that succeeded: `payload.result?.partial_xdr` must be there.
abbrev pub succeeded : Json → Option Json → Result Json
succeeded payload (some (obj fs)) =
    if truthy? (lookup "partial_xdr" fs) then ok (flattened payload fs) else thrown no_xdr
succeeded payload _ = thrown no_xdr

-- The text of an error, unless it is empty or missing.
abbrev failure_detail : Option Json → String
failure_detail detail =
    if truthy? detail
    then text_of detail
    else "The proving job failed. Check the attestor worker logs and retry."

-- What `getAttestationJob` makes of the payload of an answer that is ok.
unfoldable pub job_result : Json → Result Json
job_result null = thrown (read_error "error")
job_result payload =
    if truthy? (property "error" payload)
    then thrown (make_prepare_error job_failed (text_of (property "error" payload)))
    else if equals_text (property "status" payload) "failed"
    then thrown (make_prepare_error job_failed (failure_detail (property "error_detail" payload)))
    else if equals_text (property "status" payload) "succeeded"
    then succeeded payload (property "result" payload)
    else ok payload

pub data Phase : Type 0 where
  queued proving : Phase

-- `AttestationPreparePhaseMeta`
pub record PhaseMeta : Type 0 where
  pub job_id : Option Json
  pub status : Option Json
  pub submission_mode : Option Json
  pub submission_detail : Option Json

abbrev pub phase_of : Json → Phase
phase_of result = if equals_text (property "status" result) "proving" then proving else queued

abbrev pub meta_of : Json → PhaseMeta
meta_of result = record {
  job_id = property "job_id" result;
  status = property "status" result;
  submission_mode = property "submission_mode" result;
  submission_detail = property "submission_detail" result;
}

abbrev pub poll_interval_ms : ℕ
poll_interval_ms = 2000

module _ {W : Type 0} (http : Http W) (clock : Clock W) (api_url : String) where
  abbrev unreachable_error : Exception
  unreachable_error = make_prepare_error api_unreachable (unreachable api_url)

  -- The answer to the session request is awaited and not looked at.
  abbrev session_request : String → Request
  session_request wallet = record {
    method = "POST";
    path = api_url <> "/api/v1/auth/session";
    body = some (obj (field "stellar_address" (str wallet) end));
    with_credentials = true;
  }

  abbrev prepare_request : String → Request
  prepare_request wallet = record {
    method = "POST";
    path = api_url <> "/api/v1/attest/" <> wallet <> "/prepare";
    body = none;
    with_credentials = true;
  }

  abbrev job_request : String → Request
  job_request job_id = record {
    method = "GET";
    path = api_url <> "/api/v1/attest/jobs/" <> job_id;
    body = none;
    with_credentials = true;
  }

  unfoldable pub start_prepare_attestation : String → Io W Json
  start_prepare_attestation wallet = do
    session ← await_or unreachable_error (http.fetch (session_request wallet))
    res ← await_or unreachable_error (http.fetch (prepare_request wallet))
    if res.is_ok
        then call res.json
        else let detail =
            detail_or (body_of res.json) (with_status "Attestation request failed" res.status) in
          throw (make_prepare_error (prepare_kind res.status detail) detail)

  unfoldable pub get_attestation_job : String → Io W Json
  get_attestation_job job_id = do
    res ← await_or unreachable_error (http.fetch (job_request job_id))
    if res.is_ok
        then (do payload ← call res.json; sync (job_result payload))
        else let detail =
            detail_or (body_of res.json)
              (with_status "Attestation job request failed" res.status) in
          throw (make_prepare_error (job_kind res.status) detail)

  module _ (on_phase : Phase → PhaseMeta → W → W) where
    -- The body of the loop: report the phase, wait, ask again.
    unfoldable pub poll_again : Json → Io W Json
    poll_again result =
        modify (on_phase (phase_of result) (meta_of result))
        >> modify (clock.delay poll_interval_ms)
        >> get_attestation_job (text_of (property "job_id" result))

    -- One test of the loop: go on, or leave with the result.
    abbrev looping : Result Bool → Json → Io W Json → Io W Json
    looping (ok true) result again w = again w
    looping (ok false) result again w = (ok result, w)
    looping (thrown e) result again w = (thrown e, w)
    looping pending result again w = (pending, w)

    -- `while (isQueuedAttestation(result))`; `pending` means that the fuel ran out.
    unfoldable pub poll_loop : ℕ → Json → Io W Json
    poll_loop zero result = looping (is_queued_attestation result) result (λ w. (pending, w))
    poll_loop (suc fuel) result =
        looping (is_queued_attestation result) result (poll_again result >>= poll_loop fuel)

    unfoldable pub prepare_attestation : ℕ → String → Io W Json
    prepare_attestation fuel wallet = start_prepare_attestation wallet >>= poll_loop fuel
