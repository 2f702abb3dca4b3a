-- ===== src/Http.antt =====
-- Requests to the ZKredit API, as frontend/src/lib/kyc.ts and frontend/src/lib/identity.ts make
-- them: one throw for a server that cannot be reached, one for an answer that is not ok.
pub mod Laws
use zkredit.Prelude.{ℕ, String, Bool, true, false, Option, none, some, show, ◌<>◌, if◌then◌else◌}
use zkredit.Effects.Errors.{Exception, error, base_error, no_kind}
use zkredit.Effects.Json.{Json, null, str, obj, end, field, property, truthy?, text_of}
use zkredit.Effects.Io.{Io, Reply, returns, throws, ◌>>=◌, throw, await_or, call}
use zkredit.Effects.Browser.{Request, Response, Http}

-- `await res.json().catch(() => null)`
abbrev pub body_of : Reply Json → Json
body_of (returns j) = j
body_of (throws e) = null

-- `body?.detail || fallback`
unfoldable pub detail_or : Json → String → String
detail_or body fallback =
    if truthy? (property "detail" body) then text_of (property "detail" body) else fallback

-- `${label} (${res.status})`
abbrev pub with_status : String → ℕ → String
with_status label code = label <> " (" <> show code <> ")"

abbrev pub unreachable : String → String
unreachable api_url = "Could not reach the ZKredit API at " <> api_url <> "."

abbrev pub plain : String → Exception
plain message = error base_error no_kind message

module _ {W : Type 0} (http : Http W) (api_url : String) where
  -- What the functions of kyc.ts and identity.ts share; `label` names the request in the error.
  unfoldable pub request_json : String → Request → Io W Json
  request_json label request = do
    res ← await_or (plain (unreachable api_url)) (http.fetch request)
    if res.is_ok
        then call res.json
        else throw (plain (detail_or (body_of res.json) (with_status label res.status)))

  abbrev get_request : String → Request
  get_request path = record {
    method = "GET";
    path = api_url <> path;
    body = none;
    with_credentials = false;
  }

  abbrev post_request : String → Json → Request
  post_request path body = record {
    method = "POST";
    path = api_url <> path;
    body = some body;
    with_credentials = false;
  }

  -- kyc.ts
  unfoldable pub create_kyc_session : String → Io W Json
  create_kyc_session commitment =
      request_json "KYC session request failed"
        (post_request "/api/v1/kyc/session" (obj (field "commitment" (str commitment) end)))

  unfoldable pub get_kyc_status : String → Io W Json
  get_kyc_status commitment =
      request_json "KYC status check failed" (get_request ("/api/v1/kyc/status/" <> commitment))

  -- identity.ts
  unfoldable pub record_membership : String → String → Io W Json
  record_membership wallet_address commitment = request_json "Membership record failed" (
      post_request "/api/v1/identity/membership" (
        obj
          (field "wallet_address" (str wallet_address) (field "commitment" (str commitment) end))))

  unfoldable pub get_group_members : String → Io W Json
  get_group_members commitment =
      request_json "Group members request failed"
        (get_request ("/api/v1/identity/group/" <> commitment <> "/members"))
