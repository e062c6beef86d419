-- ===== src/ClientCall.antt =====
-- web/src/client-call.ts: waiting for a client's call of a published query. The browser decides what
-- each wait brings, so a run is over a list of rounds: the abort flags seen at each test, and what
-- the load gave. A pause that is aborted rejects; timers themselves are the environment's.
pub mod Outcomes
pub mod Tests
use context_gate.Base.{
  Text, Bool, true, false, not, ◌&&◌, ◌||◌, List, [], ◌∷◌, Option, none, some, if◌then◌else◌, ltb,
  find, text_eq, includes,
}
use context_gate.Readiness.{Readiness, ReadyTemplate, TemplateActivity}

pub record CallIdentity : Type 0 where
  pub source : Text
  pub template : Text
  pub version : Text
  pub agent : Text

-- `signal.aborted` and `deadline.signal.aborted` at one moment.
pub record Flags : Type 0 where
  pub signal : Bool
  pub deadline : Bool

-- `combined.aborted`
abbrev pub aborted : Flags → Bool
aborted f = f.signal || f.deadline

pub record Round : Type 0 where
  pub start : Flags
  pub response : Option Readiness
  pub arrived : Flags
  pub resumed : Flags

pub data Outcome : Type 0 where
  confirmed changed timeout rejected : Outcome

-- The `catch`: the deadline's own abort is a timeout, all else is thrown on.
abbrev pub caught : Flags → Outcome
caught f = if f.deadline && not f.signal then timeout else rejected

-- `template?.executable` and `template.execution_version === identity.version`
abbrev template_runs : Option ReadyTemplate → Text → Bool
template_runs none version = false
template_runs (some t) version = t.executable && text_eq t.execution_version version

unfoldable pub still_published : Readiness → CallIdentity → Bool
still_published ready i =
    text_eq ready.source_id i.source
    && (includes ready.active_agents i.agent
        && template_runs (find (λ t. text_eq (ReadyTemplate.id t) i.template) ready.templates)
            i.version)

unfoldable pub call_recorded : Option TemplateActivity → CallIdentity → Bool
call_recorded none i = false
call_recorded (some a) i =
    text_eq a.agent_id i.agent
    && (text_eq a.template_id i.template
        && (text_eq a.execution_version i.version && ltb 0 a.successful_calls))

-- What one answer of the server decides; `none` goes on to the pause.
unfoldable pub verdict : Readiness → CallIdentity → Option Outcome
verdict ready i =
    if not (still_published ready i)
    then some changed
    else if call_recorded ready.template_activity i
    then some confirmed
    else none

-- The pause behind an answer that decides nothing.
abbrev pause : Flags → Option Outcome → Option Outcome
pause resumed (some o) = some o
pause resumed none = if aborted resumed then some (caught resumed) else none

abbrev answer : CallIdentity → Round → Option Readiness → Option Outcome
answer i r none = some (caught r.arrived)
answer i r (some ready) =
    if aborted r.arrived then some (caught r.arrived) else pause r.resumed (verdict ready i)

-- One turn of the loop; `none` goes round again.
unfoldable pub turn : CallIdentity → Round → Option Outcome
turn i r = if aborted r.start then some (caught r.start) else answer i r r.response

-- The loop over the rounds that the browser brings; `none` is still waiting.
unfoldable pub wait_for_client_call : CallIdentity → List Round → Option Outcome
wait_for_client_call i [] = none
wait_for_client_call i (r ∷ rs) = elim (turn i r) [
  | some o ↦ some o
  | none ↦ wait_for_client_call i rs
]
