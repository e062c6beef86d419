-- ===== src/Api/Tests.antt =====
-- Runs of `api` of web/src/api.ts.
use context_gate.Base.{◌≤◌, ◌<◌, ◌≡◌, ◌≢◌, refl, ◌↔◌, codes, text_eq, true, none, some}
use context_gate.Editor.{digits, decimal}
use context_gate.Json.{Json, null, obj, end}
use context_gate.Api.{
  error_text, no_error, Response, returned, api_error, type_error, ApiOutcome, error_detail,
  label_in, api,
}
use context_gate.Api.Outcomes.{Given, api_iff}

abbrev refused : Response
refused = record {
  status = 401;
  body = some (record {
    value = obj end;
    error = error_text (codes "unauthorized");
    error_description = none;
  });
}

abbrev broken : Response
broken = record {
  status = 502;
  body = some (record { value = obj end; error = no_error; error_description = none });
}

api_expired : ApiOutcome.session_expired (api (codes "/api/agents") refused) ≡ true
unfolding api text_eq
api_expired = refl

broken_reply :
    ApiOutcome.result (api (codes "/api/agents") broken)
    ≡ api_error (record {
      code = codes "request_failed";
      message = codes "Request failed (502).";
      request_id = none;
      native_code = none;
    })
unfolding api error_detail label_in digits decimal text_eq
broken_reply = refl

-- A failed answer whose body is `null` throws before its error is read.
null_reply :
    ApiOutcome.result (
      api (codes "/api/agents") (record {
        status = 500;
        body = some (record { value = null; error = no_error; error_description = none });
      }))
    ≡ type_error
unfolding api
null_reply = refl

api_iff_example :
    ((ApiOutcome.session_expired (api (codes "/api/agents") refused) ≡ true) ↔ (
      (Response.status refused ≡ 401)
      × (codes "/api/agents" ≢ codes "/api/login")
      × (codes "/api/agents" ≢ codes "/api/setup")
      × Given (Response.body refused) (λ _. Unit {0})))
    × ((v : Json)
        → (ApiOutcome.result (api (codes "/api/agents") refused) ≡ returned v) ↔ (
            (200 ≤ Response.status refused)
            × (Response.status refused < 300)
            × Given (Response.body refused) (λ w. w.value ≡ v)))
api_iff_example = api_iff (codes "/api/agents") refused
