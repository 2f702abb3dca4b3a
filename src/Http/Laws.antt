-- ===== src/Http/Laws.antt =====
-- The answers and the errors of a request.
use zkredit.Prelude.{◌≡◌, String, arith, if◌then◌else◌}
use zkredit.Effects.Json.{Json}
use zkredit.Effects.Sync.{Result, thrown}
use zkredit.Effects.Io.{Reply, returns, throws, settle}
use zkredit.Effects.Browser.{Request, Response, Http}
use zkredit.Http.{request_json, plain, unreachable, with_status, detail_or, body_of}

-- What a reply to `fetch` makes of a request.
abbrev pub outcome : String → String → Reply Response → Result Json
outcome api_url label (throws e) = thrown (plain (unreachable api_url))
outcome api_url label (returns res) =
    if res.is_ok
    then settle res.json
    else thrown (plain (detail_or (body_of res.json) (with_status label res.status)))

module _ {W : Type 0} (http : Http W) (api_url label : String) (request : Request) (w : W) where
  -- A request makes one call of `fetch`, and its reply alone decides the answer or the error: no
  -- reply, an answer that is ok, or the detail of one that is not.
  pub request_json-outcome :
      request_json http api_url label request w
      ≡ (outcome api_url label (http.fetch request w).0, (http.fetch request w).1)
  unfolding request_json
  request_json-outcome = ground arith
