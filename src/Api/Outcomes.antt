-- ===== src/Api/Outcomes.antt =====
-- What the caller of `api` gets for each response.
use context_gate.Base.{
  ℕ, ◌≤◌, ◌<◌, ◌≡◌, ◌≢◌, ◌↔◌, Text, codes, true, Option, none, some, arith, ==_iff, text_eq_iff,
}
use context_gate.Json.{Json, null, bool, num, str, arr, obj}
use context_gate.Types.{Diagnostic}
use context_gate.Api.{
  Body, Response, returned, ApiOutcome, error_detail, failure, is_ok, api_body, api,
}

-- The body is JSON and has the property.
abbrev pub Given : Option Body → (Body → Type 0) → Type 0
Given none P = ⊥
Given (some b) P = P b

is_ok_iff : (n : ℕ) → (is_ok n ≡ true) ↔ ((200 ≤ n) × (n < 300))
is_ok_iff n = ground arith

expires_iff :
    (path : Text) (n : ℕ) (b : Option Body)
    → (ApiOutcome.session_expired (api_body path n b) ≡ true) ↔ (
        (n ≡ 401)
        × (path ≢ codes "/api/login")
        × (path ≢ codes "/api/setup")
        × Given b (λ _. Unit {0}))
unfolding api_body
expires_iff path n none = ground arith
expires_iff path n (some b) = ground (
  arith,
  ==_iff n 401,
  text_eq_iff path (codes "/api/login"),
  text_eq_iff path (codes "/api/setup"),
)

failure_returns_nothing : (b : Json) (d : Diagnostic) (v : Json) → failure b d ≢ returned v
unfolding failure
failure_returns_nothing null d v = ground arith
failure_returns_nothing (bool b) d v = ground arith
failure_returns_nothing (num n) d v = ground arith
failure_returns_nothing (str s) d v = ground arith
failure_returns_nothing (arr vs) d v = ground arith
failure_returns_nothing (obj fs) d v = ground arith

returns_iff :
    (path : Text) (n : ℕ) (b : Option Body) (v : Json)
    → (ApiOutcome.result (api_body path n b) ≡ returned v)
      ↔ ((200 ≤ n) × (n < 300) × Given b (λ w. w.value ≡ v))
unfolding api_body
returns_iff path n none v = ground arith
returns_iff path n (some b) v = ground (
  arith,
  is_ok_iff n,
  failure_returns_nothing b.value (error_detail b.error b.error_description n) v,
)

-- A request announces that the session expired exactly when a JSON answer has status 401 and the
-- path is neither that of the login nor of the setup; and it returns a value exactly when the
-- status is from 200 to 299 and the value is the JSON answer.
pub api_iff :
    (path : Text) (r : Response)
    → ((ApiOutcome.session_expired (api path r) ≡ true) ↔ (
        (r.status ≡ 401)
        × (path ≢ codes "/api/login")
        × (path ≢ codes "/api/setup")
        × Given r.body (λ _. Unit {0})))
      × ((v : Json)
          → (ApiOutcome.result (api path r) ≡ returned v)
            ↔ ((200 ≤ r.status) × (r.status < 300) × Given r.body (λ w. w.value ≡ v)))
unfolding api
api_iff path r = (expires_iff path r.status r.body, returns_iff path r.status r.body)
