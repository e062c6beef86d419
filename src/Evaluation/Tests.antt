-- ===== src/Evaluation/Tests.antt =====
-- EvaluationRuns of the evaluation page of web/src/QueryEvaluation.tsx.
use context_gate.Base.{◌≡◌, refl, ◌↔◌, codes, Bool, true, false, List, [], ◌∷◌, some, none}
use context_gate.Evaluation.{
  SavedQuestion, Configuration, EvaluationCapture, completed, Evaluation, EvaluationForm,
  matching_conditions,
}
use context_gate.Evaluation.Matching.{Comparable, matching_conditions_iff}
use context_gate.Evaluation.Page.{
  Page, PageEvent, first_page, typed, name_field, tab_chosen, history_tab, evaluation_tab,
  question_saved, server_replied, question_reply, page_step, page_run, offered, handle, change,
  save_question, select_tab,
}
use context_gate.Evaluation.Page.Saved.{AllEcho, Shows, page_run-Shows}

abbrev question : SavedQuestion
question = record {
  id = codes "q1";
  revision = codes "1";
  name = codes "Revenue";
  question = [];
  criteria = [];
  client = [];
  created_at = codes "2025-01-01";
}

abbrev typing : List PageEvent
typing = typed name_field (codes "Revenue") ∷ tab_chosen history_tab ∷ []

-- The form is saved, and what is typed while the request runs is not taken.
abbrev saving : List PageEvent
saving =
    typed name_field (codes "Revenue")
    ∷ question_saved false
    ∷ typed name_field (codes "Cost")
    ∷ server_replied (question_reply question)
    ∷ []

abbrev configuration : Configuration
configuration = record {
  query_revision = codes "1";
  published_version = codes "p1";
  agent_revision = codes "1";
  ontology_id = none;
  ontology_version = none;
}

abbrev run : Bool → EvaluationCapture
run moved = record {
  state = completed;
  started = codes "2025-01-01";
  until = none;
  stats = none;
  configuration = configuration;
  configuration_changed = moved;
  verdict = [];
  notes = [];
}

abbrev evaluation : Evaluation
evaluation = record {
  mode = none;
  id = codes "e1";
  revision = codes "1";
  source_id = codes "db";
  case_id = none;
  case_revision = none;
  name = codes "Revenue";
  question = [];
  criteria = [];
  client = [];
  agent_id = codes "claude";
  agent_name = codes "Claude";
  created_at = codes "2025-01-01";
  runs = record { baseline_run = some (run false); guided_run = some (run true) };
}

-- An edited form keeps the page on its tab.
tab_kept : Page.tab (page_run first_page typing) ≡ evaluation_tab
unfolding page_run page_step offered handle change select_tab
tab_kept = refl

form_saved : Page.dirty (page_run first_page saving) ≡ false
unfolding page_run page_step offered handle change save_question
form_saved = refl

name_saved : EvaluationForm.name (Page.form (page_run first_page saving)) ≡ codes "Revenue"
unfolding page_run page_step offered handle change save_question
name_saved = refl

saving_echoes : AllEcho first_page saving
unfolding page_step offered handle change save_question
saving_echoes = (tt, (tt, (tt, (refl, tt))))

page_run-Shows_example :
    Shows
      (Page.current (page_run first_page saving))
      (Page.form (page_run first_page saving))
      (Page.saved_question (page_run first_page saving))
      (Page.dirty (page_run first_page saving))
      (Page.review_dirty (page_run first_page saving))
page_run-Shows_example = page_run-Shows saving saving_echoes

matching_conditions_iff_example :
    (matching_conditions evaluation ≡ true) ↔ Comparable (some (run false)) (some (run true))
matching_conditions_iff_example = matching_conditions_iff evaluation
