-- ===== src/Evaluation/Page.antt =====
-- web/src/QueryEvaluation.tsx: its state, its handlers, and the guards of its buttons and fields.
pub mod Saved
use context_gate.Base.{
  Text, codes, Bool, true, false, not, ◌&&◌, ◌||◌, List, [], ◌∷◌, Option, none, some, if◌then◌else◌,
  or_text,
}
use context_gate.Evaluation.{
  SavedQuestion, CaptureState, capturing, completed, EvaluationCapture, EvaluationMode, single,
  comparison, EvaluationKind, baseline, guided, EvaluationRuns, Evaluation, EvaluationForm,
  empty_form, question_form, evaluation_form,
}

pub data Tab : Type 0 where
  evaluation_tab questions_tab history_tab : Tab

pub data CaptureAction : Type 0 where
  start collect abandon : CaptureAction

pub data Confirm : Type 0 where
  clear_new clear_review : Confirm

-- A manual review of one run.
pub record Review : Type 0 where
  pub verdict : Text
  pub notes : Text

-- What the handlers ask of the server, with the bodies that they send.
pub data Request : Type 0 where
  open_record : Text → Request
  save_form : Option SavedQuestion → EvaluationForm → Request
  capture_record : Text → Text → EvaluationKind → CaptureAction → Request
  create_record : EvaluationForm → Text → EvaluationKind → EvaluationMode → Text → Text → Request
  save_reviews : Evaluation → List (EvaluationKind × Review) → Request

pub record Page : Type 0 where
  pub mode : EvaluationMode
  pub tab : Tab
  pub form : EvaluationForm
  pub saved_question : Option SavedQuestion
  pub current : Option Evaluation
  pub agent_id : Text
  pub busy : Bool
  pub dirty : Bool
  pub review_dirty : Bool
  pub error : Text
  pub confirm_clear : Option Confirm
  pub pending : Option Request

abbrev pub first_page : Page
first_page = record {
  mode = single;
  tab = evaluation_tab;
  form = empty_form;
  saved_question = none;
  current = none;
  agent_id = [];
  busy = false;
  dirty = false;
  review_dirty = false;
  error = [];
  confirm_clear = none;
  pending = none;
}

pub data FormField : Type 0 where
  name_field question_field criteria_field client_field : FormField

abbrev put_field : EvaluationForm → FormField → Text → EvaluationForm
put_field f name_field v = record f { name = v }
put_field f question_field v = record f { question = v }
put_field f criteria_field v = record f { criteria = v }
put_field f client_field v = record f { client = v }

unfoldable pub change : Page → FormField → Text → Page
change p k v = record p { form = put_field p.form k v; dirty = true }

unfoldable pub select_tab : Page → Tab → Page
select_tab p next =
    if p.dirty || (p.review_dirty || p.busy)
    then record p { error = codes "Save or discard your edits before switching views." }
    else record p { error = []; tab = next }

unfoldable pub use_question : Page → SavedQuestion → Page
use_question p q = record p {
  saved_question = some q;
  form = question_form q;
  current = none;
  dirty = false;
  review_dirty = false;
  error = [];
  tab = evaluation_tab;
}

-- The lines up to the first `await`.
unfoldable pub ask_server : Page → Request → Page
ask_server p r = record p { busy = true; error = []; pending = some r }

unfoldable pub save_question : Page → Bool → Page
unfolding ask_server
save_question p as_new = ask_server p (save_form (if as_new then none else p.saved_question) p.form)

abbrev linked_case : Option SavedQuestion → Text
linked_case none = []
linked_case (some q) = q.id

abbrev linked_revision : Option SavedQuestion → Text
linked_revision none = codes "0"
linked_revision (some q) = or_text (some q.revision) (codes "0")

abbrev capture_request : Page → Option Evaluation → Text → EvaluationKind → CaptureAction → Request
capture_request p (some e) agent kind action = capture_record e.id e.revision kind action
capture_request p none agent kind action =
    create_record p.form agent kind p.mode (linked_case p.saved_question)
      (linked_revision p.saved_question)

-- `onCapture`; `agent` is the agent that the page shows.
unfoldable pub capture : Page → Text → EvaluationKind → CaptureAction → Page
unfolding ask_server
capture p agent kind action =
    if p.review_dirty
    then record p { error = codes "Save your review before collecting another capture." }
    else ask_server p (capture_request p p.current agent kind action)

abbrev is_completed : CaptureState → Bool
is_completed completed = true
is_completed _ = false

-- One member of `reviews`, if its run is completed.
abbrev review_of : EvaluationKind → Option EvaluationCapture → List (EvaluationKind × Review)
review_of kind none = []
review_of kind (some r) =
    if is_completed r.state
    then (kind, record { verdict = r.verdict; notes = r.notes }) ∷ []
    else []

abbrev reviews : EvaluationRuns → List (EvaluationKind × Review)
reviews r = elim (review_of baseline r.baseline_run) [
  | [] ↦ review_of guided r.guided_run
  | v ∷ _ ↦ v ∷ review_of guided r.guided_run
]

review_record : Page → Option Evaluation → Page
review_record p none = p
review_record p (some e) = record p {
  busy = true;
  error = [];
  pending = some (save_reviews e (reviews e.runs));
}

unfoldable pub save_review : Page → Page
unfolding review_record
save_review p = review_record p p.current

abbrev or_comparison : Option EvaluationMode → EvaluationMode
or_comparison none = comparison
or_comparison (some m) = m

-- The first half of `reset`.
reset_form : Page → Bool → Option Evaluation → Page
reset_form p true (some e) = record p {
  mode = or_comparison e.mode;
  form = evaluation_form e;
  agent_id = e.agent_id;
  dirty = true;
}
reset_form p false _ = record p { form = empty_form; dirty = false }
reset_form p true none = record p { form = empty_form; dirty = false }

unfoldable pub reset : Page → Bool → Page
unfolding reset_form
reset p repeat = record (reset_form p repeat p.current) {
  current = none;
  saved_question = none;
  review_dirty = false;
  confirm_clear = none;
  error = [];
  tab = evaluation_tab;
}

-- `onReview`: a run that is not there shows no review.
abbrev patch_run : Option EvaluationCapture → Review → Option EvaluationCapture
patch_run none v = none
patch_run (some r) v = some (record r { verdict = v.verdict; notes = v.notes })

abbrev patch_runs : EvaluationRuns → EvaluationKind → Review → EvaluationRuns
patch_runs r baseline v = record r { baseline_run = patch_run r.baseline_run v }
patch_runs r guided v = record r { guided_run = patch_run r.guided_run v }

abbrev patch_record : Option Evaluation → EvaluationKind → Review → Option Evaluation
patch_record none kind v = none
patch_record (some e) kind v = some (record e { runs = patch_runs e.runs kind v })

unfoldable pub review : Page → EvaluationKind → Review → Page
review p kind v = record p { current = patch_record p.current kind v; review_dirty = true }

pub data Reply : Type 0 where
  evaluation_reply : Evaluation → Reply
  question_reply : SavedQuestion → Reply
  error_reply : Text → Reply

-- The lines behind the `await`, with the `catch` and the `finally`. A reply is of the type of its
-- request.
replied : Page → Request → Reply → Page
replied p r (error_reply e) = record p { error = e; busy = false; pending = none }
replied p (open_record _) (evaluation_reply v) = record p {
  current = some v;
  form = evaluation_form v;
  saved_question = none;
  review_dirty = false;
  dirty = false;
  tab = evaluation_tab;
  confirm_clear = none;
  busy = false;
  pending = none;
}
replied p (save_form _ _) (question_reply v) = record p {
  saved_question = some v;
  dirty = false;
  busy = false;
  pending = none;
}
replied p (save_reviews _ _) (evaluation_reply v) = record p {
  current = some v;
  review_dirty = false;
  busy = false;
  pending = none;
}
replied p (capture_record _ _ _ _) (evaluation_reply v) = record p {
  current = some v;
  form = evaluation_form v;
  agent_id = v.agent_id;
  dirty = false;
  review_dirty = false;
  busy = false;
  pending = none;
}
replied p (create_record _ _ _ _ _ _) (evaluation_reply v) = record p {
  current = some v;
  form = evaluation_form v;
  agent_id = v.agent_id;
  dirty = false;
  review_dirty = false;
  busy = false;
  pending = none;
}
replied p _ _ = p

pub data PageEvent : Type 0 where
  typed : FormField → Text → PageEvent
  tab_chosen : Tab → PageEvent
  question_used : SavedQuestion → PageEvent
  record_opened : Evaluation → PageEvent
  question_saved : Bool → PageEvent
  run_captured : Text → EvaluationKind → CaptureAction → PageEvent
  run_reviewed : EvaluationKind → Review → PageEvent
  review_saved new_pressed repeat_pressed keep_pressed discard_pressed : PageEvent
  discard_asked : Confirm → PageEvent
  mode_chosen : EvaluationMode → PageEvent
  agent_chosen : Text → PageEvent
  server_replied : Reply → PageEvent

abbrev on_evaluation : Tab → Bool
on_evaluation evaluation_tab = true
on_evaluation _ = false

abbrev has_record : Option Evaluation → Bool
has_record none = false
has_record (some _) = true

abbrev is_capturing : Option EvaluationCapture → Bool
is_capturing (some r) = elim r.state [ capturing ↦ true | _ ↦ false ]
is_capturing none = false

abbrev active : Option Evaluation → Bool
active none = false
active (some e) = is_capturing e.runs.baseline_run || is_capturing e.runs.guided_run

abbrev has_confirm : Option Confirm → Bool
has_confirm none = false
has_confirm (some _) = true

-- Whether the page offers the event: what is rendered, and what is not `disabled`. The form is
-- there only without a record.
unfoldable pub offered : Page → PageEvent → Bool
offered p (typed _ _) = on_evaluation p.tab && (not (has_record p.current) && not p.busy)
offered p (tab_chosen _) = true
offered p (question_used _) = not (on_evaluation p.tab) && not p.busy
offered p (record_opened _) = not p.busy && (not (on_evaluation p.tab) || not p.review_dirty)
offered p (question_saved _) = on_evaluation p.tab && (not (has_record p.current) && not p.busy)
offered p (run_captured _ _ _) = on_evaluation p.tab && not p.busy
offered p (run_reviewed _ _) = on_evaluation p.tab && (has_record p.current && not p.busy)
offered p review_saved = on_evaluation p.tab && (p.review_dirty && not p.busy)
offered p new_pressed = not p.busy && not (active p.current)
offered p repeat_pressed =
    on_evaluation p.tab
    && (has_record p.current && (not p.busy && (not p.review_dirty && not (active p.current))))
offered p keep_pressed = has_confirm p.confirm_clear && not p.busy
offered p discard_pressed = has_confirm p.confirm_clear && not p.busy
offered p (discard_asked _) = on_evaluation p.tab && ((p.dirty || p.review_dirty) && not p.busy)
offered p (mode_chosen _) = on_evaluation p.tab && (not (has_record p.current) && not p.busy)
offered p (agent_chosen _) = on_evaluation p.tab && (not (has_record p.current) && not p.busy)
offered p (server_replied _) = true

discard : Page → Option Confirm → Option Evaluation → Page
discard p (some clear_review) (some e) = ask_server p (open_record e.id)
discard p _ _ = reset p false

receive : Page → Option Request → Reply → Page
receive p none r = p
receive p (some q) r = replied p q r

unfoldable pub handle : Page → PageEvent → Page
unfolding discard receive replied ask_server
handle p (typed k v) = change p k v
handle p (tab_chosen t) = select_tab p t
handle p (question_used q) = use_question p q
handle p (record_opened e) = ask_server p (open_record e.id)
handle p (question_saved as_new) = save_question p as_new
handle p (run_captured agent kind action) = capture p agent kind action
handle p (run_reviewed kind v) = review p kind v
handle p review_saved = save_review p
handle p new_pressed =
    if p.dirty || p.review_dirty then record p { confirm_clear = some clear_new } else reset p false
handle p repeat_pressed = reset p true
handle p keep_pressed = record p { confirm_clear = none }
handle p discard_pressed = discard p p.confirm_clear p.current
handle p (discard_asked c) = record p { confirm_clear = some c }
handle p (mode_chosen m) = record p { mode = m }
handle p (agent_chosen a) = record p { agent_id = a }
handle p (server_replied r) = receive p p.pending r

unfoldable pub page_step : Page → PageEvent → Page
page_step p e = if offered p e then handle p e else p

unfoldable pub page_run : Page → List PageEvent → Page
page_run p [] = p
page_run p (e ∷ es) = page_run (page_step p e) es
