-- ===== src/Api.antt =====
-- web/src/api.ts: what a request to the server returns, throws and announces. The browser's `fetch`
-- gives the response. `diagnostic` and `date` only make texts.
pub mod Outcomes
pub mod Tests
use context_gate.Base.{
  ℕ, Text, codes, Bool, true, false, not, ◌&&◌, ◌||◌, List, [], ◌∷◌, ◌++◌, Option, none, some,
  if◌then◌else◌, ◌==◌, leb, ltb, text_eq, or_text,
}
use context_gate.Editor.{decimal}
use context_gate.Json.{Json, null}
use context_gate.Types.{Diagnostic}

-- What the server puts under `error`: an object, a text, or nothing.
pub data ErrorMember : Type 0 where
  error_object : Diagnostic → ErrorMember
  error_text : Text → ErrorMember
  no_error : ErrorMember

pub record Body : Type 0 where
  pub value : Json
  pub error : ErrorMember
  pub error_description : Option Text

-- The body is `none` where it is not JSON.
pub record Response : Type 0 where
  pub status : ℕ
  pub body : Option Body

pub data ApiResult : Type 0 where
  returned : Json → ApiResult
  api_error : Diagnostic → ApiResult
  not_json : ApiResult
  type_error : ApiResult

pub record ApiOutcome : Type 0 where
  pub session_expired : Bool
  pub result : ApiResult

abbrev pub error_labels : List (Text × Text)
error_labels =
    (codes "consent_expired", codes "Authorization request expired. Start again from your client.")
    ∷ (codes "client_not_found", codes "Client not found. Register the client and try again.")
    ∷ (codes "unauthorized", codes "Your session or credential is no longer valid. Sign in again.")
    ∷ (codes "invalid_credentials", codes "Incorrect username or password. Please try again.")
    ∷ (codes "password_change_required", codes "Change your temporary password before continuing.")
    ∷ (codes "csrf_failed", codes "Session verification failed. Reload the page and try again.")
    ∷ (codes "cancelled", codes "Query cancelled or authorization changed.")
    ∷ (codes "conflict", codes "This configuration changed. Reload it before editing.")
    ∷ (codes "select_at_least_one_source", codes "Select at least one data source.")
    ∷ []

unfoldable pub label_in : List (Text × Text) → Text → Option Text
label_in [] code = none
label_in ((k, v) ∷ ls) code = if text_eq k code then some v else label_in ls code

abbrev label_of : ErrorMember → Option Text
label_of (error_text e) = label_in error_labels e
label_of _ = none

abbrev code_of : ErrorMember → Option Text
code_of (error_text e) = some e
code_of _ = none

-- The object behind `new APIError(…)`.
unfoldable pub error_detail : ErrorMember → Option Text → ℕ → Diagnostic
error_detail (error_object d) description status = d
error_detail e description status = record {
  code = or_text (code_of e) (codes "request_failed");
  message =
      or_text (label_of e)
        (or_text description (codes "Request failed (" ++ (decimal status ++ codes ").")));
  request_id = none;
  native_code = none;
}

-- `response.ok`
abbrev pub is_ok : ℕ → Bool
is_ok status = leb 200 status && ltb status 300

-- `["/api/login", "/api/setup"].includes(path)`
abbrev pub signs_in : Text → Bool
signs_in path = text_eq path (codes "/api/login") || text_eq path (codes "/api/setup")

-- `body.error` of a body that is `null` throws.
failure : Json → Diagnostic → ApiResult
failure null d = type_error
failure v d = api_error d

api_body : Text → ℕ → Option Body → ApiOutcome
api_body path status none = record { session_expired = false; result = not_json }
api_body path status (some b) =
    if is_ok status then record { session_expired = false; result = returned b.value } else record {
      session_expired = (status == 401) && not (signs_in path);
      result = failure b.value (error_detail b.error b.error_description status);
    }

unfoldable pub api : Text → Response → ApiOutcome
unfolding api_body failure
api path r = api_body path r.status r.body
