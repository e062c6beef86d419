-- ===== src/Evaluation.antt =====
-- web/src/evaluation-types.ts, and the state of web/src/QueryEvaluation.tsx. An `async` handler is
-- two steps: it starts a request, which `pending` holds, and the server's reply ends it. The texts
-- of buttons, the choice of the agent and the list of the library are not modelled.
pub mod Page
pub mod Matching
pub mod Tests
use context_gate.Base.{ℕ, Text, Bool, true, false, not, ◌&&◌, [], Option, none, some}
use native.Mathlib.Decide.{ℕ_discrete}

pub record SavedQuestion : Type 0 where
  pub id : Text
  pub revision : Text
  pub name : Text
  pub question : Text
  pub criteria : Text
  pub client : Text
  pub created_at : Text

pub record EvaluationStats : Type 0 where
  pub calls : ℕ
  pub queries : ℕ
  pub successful_queries : ℕ
  pub errors : ℕ
  pub elapsed_ms : ℕ
  pub template_calls : ℕ

-- The type of `configuration`.
pub record Configuration : Type 0 where
  pub query_revision : Text
  pub published_version : Text
  pub agent_revision : Text
  pub ontology_id : Option Text
  pub ontology_version : Option Text

unfoldable pub Configuration-discrete : Discrete Configuration
Configuration-discrete = hlevel ℕ_discrete

pub data CaptureState : Type 0 where
  capturing completed abandoned : CaptureState

pub record EvaluationCapture : Type 0 where
  pub state : CaptureState
  pub started : Text
  pub until : Option Text
  pub stats : Option EvaluationStats
  pub configuration : Configuration
  pub configuration_changed : Bool
  pub verdict : Text
  pub notes : Text

pub data EvaluationMode : Type 0 where
  single comparison : EvaluationMode

pub data EvaluationKind : Type 0 where
  baseline guided : EvaluationKind

-- `Partial<Record<EvaluationKind, EvaluationCapture>>`
pub record EvaluationRuns : Type 0 where
  pub baseline_run : Option EvaluationCapture
  pub guided_run : Option EvaluationCapture

pub record Evaluation : Type 0 where
  pub mode : Option EvaluationMode
  pub id : Text
  pub revision : Text
  pub source_id : Text
  pub case_id : Option Text
  pub case_revision : Option Text
  pub name : Text
  pub question : Text
  pub criteria : Text
  pub client : Text
  pub agent_id : Text
  pub agent_name : Text
  pub created_at : Text
  pub runs : EvaluationRuns

-- `Pick<SavedQuestion, "name" | "question" | "criteria" | "client">`
pub record EvaluationForm : Type 0 where
  pub name : Text
  pub question : Text
  pub criteria : Text
  pub client : Text

abbrev pub empty_form : EvaluationForm
empty_form = record { name = []; question = []; criteria = []; client = [] }

-- The members of a question and of an evaluation that the form shows.
abbrev pub question_form : SavedQuestion → EvaluationForm
question_form q = record {
  name = q.name;
  question = q.question;
  criteria = q.criteria;
  client = q.client;
}

abbrev pub evaluation_form : Evaluation → EvaluationForm
evaluation_form e = record {
  name = e.name;
  question = e.question;
  criteria = e.criteria;
  client = e.client;
}

-- The comparison of the JSON texts of two configurations.
abbrev pub same_configuration : Configuration → Configuration → Bool
same_configuration a b = elim (Configuration-discrete a b) [ yes _ ↦ true | no _ ↦ false ]

abbrev matching_runs : Option EvaluationCapture → Option EvaluationCapture → Bool
matching_runs (some a) (some b) =
    not a.configuration_changed
    && (not b.configuration_changed && same_configuration a.configuration b.configuration)
matching_runs none _ = false
matching_runs (some a) none = false

unfoldable pub matching_conditions : Evaluation → Bool
matching_conditions e = matching_runs e.runs.baseline_run e.runs.guided_run
