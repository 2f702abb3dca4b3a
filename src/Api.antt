-- ===== src/Api.antt =====
-- frontend/src/lib/api.ts: requests for attestation records, wallet features and model data, and the
-- form of a Stellar address.
pub mod Addresses
use Prim.Native.Char.{Char, code}
use zkredit.Prelude.{
  ℕ, zero, suc, ◌+◌, ◌-◌, ◌*◌, ◌/◌, ◌%◌, ◌==◌, ◌<>◌, leb, ltb, String, Bool, true, false, ◌&&◌,
  ◌||◌, Option, none, some, List, [], ◌∷◌, show, str_eq, if◌then◌else◌, units, trim, length, any,
}
use zkredit.Effects.Errors.{Exception, error, api_error, status}
use zkredit.Effects.Json.{Json, str, property}
use zkredit.Effects.Io.{Io, Reply, ◌>>=◌, throw, await_or, call}
use zkredit.Effects.Browser.{Request, Response, Http}
use zkredit.Http.{body_of}

-- `new ApiError(status, message)`: a class with a constructor of its own.
abbrev pub new_api_error : ℕ → String → Exception
new_api_error code message = error api_error (status code) message

-- `typeof body?.detail === "string" ? body.detail : res.statusText`
abbrev pub detail_text : Option Json → String → String
detail_text (some (str s)) fallback = s
detail_text _ fallback = fallback

-- `detail || "Request failed (…)"`
unfoldable pub failure_text : Json → String → ℕ → String
failure_text body fallback code =
    let detail = detail_text (property "detail" body) fallback in
    if str_eq detail "" then "Request failed (" <> show code <> ")" else detail

-- `[A-Z2-7]`
abbrev pub is_base_32 : ℕ → Bool
is_base_32 c = leb b'A' c && leb c b'Z' || leb b'2' c && leb c b'7'

abbrev pub all_base_32 : List ℕ → Bool
all_base_32 [] = true
all_base_32 (c ∷ cs) = is_base_32 c && all_base_32 cs

-- `/^G[A-Z2-7]{55}$/`
unfoldable pub is_account_id : List ℕ → Bool
is_account_id [] = false
is_account_id (c ∷ cs) = c == b'G' && all_base_32 cs && length cs == 55

unfoldable pub is_valid_stellar_address : String → Bool
is_valid_stellar_address address = is_account_id (units (trim address))

module _ {W : Type 0} (http : Http W) (api_base : String) (encode_uri : String → String) where
  -- `encode_uri` is the runtime's `encodeURIComponent`.
  abbrev request : String → String → Request
  request method path = record {
    method = method;
    path = api_base <> path;
    body = none;
    with_credentials = false;
  }

  unfoldable pub api_fetch : String → String → Io W Json
  api_fetch method path = do
    res ←
        await_or (new_api_error 0 "Could not reach the attestation service.")
          (http.fetch (request method path))
    if res.is_ok
        then call res.json
        else throw
            (new_api_error res.status (failure_text (body_of res.json) res.status_text res.status))

  unfoldable pub request_attestation : String → Io W Json
  request_attestation address = api_fetch "POST" ("/api/v1/attest/" <> encode_uri address)

  unfoldable pub get_attestation_record : String → Io W Json
  get_attestation_record address = api_fetch "GET" ("/api/v1/attestation/" <> encode_uri address)

  unfoldable pub get_wallet_features : String → Io W Json
  get_wallet_features address =
      api_fetch "GET" ("/api/v1/wallet/" <> encode_uri address <> "/features")

  unfoldable pub get_model_info : Io W Json
  get_model_info = api_fetch "GET" "/api/v1/model-info"
