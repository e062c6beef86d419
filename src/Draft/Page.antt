-- ===== src/Draft/Page.antt =====
-- web/src/QueryDraftEditor.tsx: the editor of a query's draft. An event changes the page's state; a
-- request to the server is one step, its answer another. What the page shows follows from the state.
pub mod Parameter
pub mod Quiet
pub mod Revisions
pub mod Conflict
use context_gate.Base.{
  ℕ, suc, zero, ◌+◌, Text, codes, Bool, true, false, not, ◌&&◌, ◌||◌, List, [], ◌∷◌, ◌++◌, map, any,
  Option, none, some, if◌then◌else◌, ◌==◌, ltb, length, text_eq, or_text, truthy, get_elem?, Thrown,
  error, syntax_error, type_error, Result, ok, throw,
}
use context_gate.Editor.{decimal}
use context_gate.Ontology.{OntologyBinding}
use context_gate.Parameters.{trim}
use context_gate.Parameters.Values.{parameter_values, parameter_json, value_of}
use context_gate.Parameters.Check.{validate_parameters}
use context_gate.Draft.{
  Values, erase, set_value, set_values, native_template_query, suggested_parameters,
}
use context_gate.Draft.Http.{is_given, http_template}
use context_gate.Semantics.{
  SemanticParameter, SemanticEntry, QueryTemplate, SemanticState, SemanticSnapshot,
}
use context_gate.Types.{HttpOperation}

pub data Pending : Type 0 where
  finding : Text → QueryTemplate → Pending
  saving : Bool → SemanticEntry → Pending
  reviewing : Pending

-- A request to save, and the callbacks of the parent.
pub data Outgoing : Type 0 where
  put_draft : Text → SemanticEntry → Outgoing
  told_saved : SemanticState → Text → Bool → Outgoing
  told_step : ℕ → Outgoing

pub record DraftPage : Type 0 where
  pub creating : Bool
  pub form : SemanticEntry
  pub baseline : SemanticEntry
  pub expected : Text
  pub binding : Option OntologyBinding
  pub step : ℕ
  pub message : Text
  pub conflict : Bool
  pub latest : Option SemanticState
  pub slots : Option (Text × List Text)
  pub pending : Option Pending
  pub sent : List Outgoing

unfoldable pub opened : Bool → SemanticEntry → Text → Option OntologyBinding → Text → DraftPage
opened creating entry revision ontology section = record {
  creating = creating;
  form = entry;
  baseline = entry;
  expected = revision;
  binding = ontology;
  step =
      if text_eq section (codes "purpose")
      then 2
      else if text_eq section (codes "parameters")
      then 3
      else 1;
  message = [];
  conflict = false;
  latest = none;
  slots = none;
  pending = none;
  sent = [];
}

abbrev pub thrown_text : Thrown → Text
thrown_text (error s) = s
thrown_text syntax_error = codes "Unexpected token in JSON"
thrown_text type_error = codes "Cannot read properties of null"

abbrev pub with_template : SemanticEntry → QueryTemplate → SemanticEntry
with_template form template = record form { template = some template }

abbrev pub failed_with : DraftPage → Text → DraftPage
failed_with page text = record page { message = text }

-- The examples behind a change of the parameter: a new name takes the example of the old one.
renamed_examples : Text → Text → Values → Result Values
renamed_examples before after examples =
    if is_given (value_of examples after)
    then throw (error (codes "Parameter names must be unique."))
    else ok (erase before (set_value after (or_text (value_of examples before) []) examples))

unfoldable pub changed_examples : Text → Option SemanticParameter → Values → Result Values
unfolding renamed_examples
changed_examples before none examples = ok (erase before examples)
changed_examples before (some p) examples =
    if text_eq p.name before
    then ok examples
    else if is_given (value_of examples before)
    then renamed_examples before p.name examples
    else ok (erase before examples)

-- `parameters.map((p, i) => i === index ? value : p)`, or the filter where there is no value.
unfoldable pub changed_parameters :
    ℕ → Option SemanticParameter → List SemanticParameter → List SemanticParameter
changed_parameters index value [] = []
changed_parameters zero none (p ∷ ps) = ps
changed_parameters zero (some q) (p ∷ ps) = q ∷ ps
changed_parameters (suc index) value (p ∷ ps) = p ∷ changed_parameters index value ps

examples_into : QueryTemplate → ℕ → Option SemanticParameter → DraftPage → Result Values → DraftPage
examples_into template index value page (throw e) = failed_with page (thrown_text e)
examples_into template index value page (ok examples) = record page {
  form = with_template page.form record template {
    parameters = changed_parameters index value template.parameters;
    example_json = parameter_json examples;
  };
  message = [];
}

examples_of : Text → Option SemanticParameter → Result Values → Result Values
examples_of before value (throw e) = throw e
examples_of before value (ok examples) = changed_examples before value examples

change_in :
    QueryTemplate → ℕ → Option SemanticParameter → Option SemanticParameter → DraftPage → DraftPage
change_in template index value none page = page
change_in template index value (some previous) page =
    examples_into template index value page
      (examples_of previous.name value (parameter_values template.example_json))

pub on_template : (QueryTemplate → DraftPage → DraftPage) → DraftPage → DraftPage
on_template act page = elim (SemanticEntry.template (DraftPage.form page)) [
  | none ↦ page
  | some template ↦ act template page
]

change_with : ℕ → Option SemanticParameter → QueryTemplate → DraftPage → DraftPage
change_with index value template page =
    change_in template index value (get_elem? template.parameters index) page

unfoldable pub change_parameter : ℕ → Option SemanticParameter → DraftPage → DraftPage
unfolding examples_into examples_of change_in change_with on_template
change_parameter index value page = on_template (change_with index value) page

-- `findParameters` up to its request, and behind the answer.
ask_slots : QueryTemplate → DraftPage → Result Text → DraftPage
ask_slots template page (throw e) = failed_with page (thrown_text e)
ask_slots template page (ok query) = record page {
  message = [];
  pending = some (finding query template);
}

seek_with : QueryTemplate → DraftPage → DraftPage
seek_with template page = ask_slots template page (native_template_query template.query_json)

unfoldable pub find_parameters : DraftPage → DraftPage
unfolding ask_slots seek_with on_template
find_parameters page = on_template seek_with page

write_slots :
    Text → List Text → List SemanticParameter → Values → QueryTemplate → DraftPage → DraftPage
write_slots query slots parameters examples template page = record page {
  form = with_template page.form record template {
    query_json = query;
    parameters = parameters;
    example_json = parameter_json examples;
  };
  slots = some (query, slots);
}

slots_into :
    Text → List Text → List SemanticParameter → DraftPage → Result Values → Values → DraftPage
slots_into query slots parameters page (throw e) found = failed_with page (thrown_text e)
slots_into query slots parameters page (ok examples) found =
    on_template (write_slots query slots parameters (set_values examples found)) page

suggest_into :
    Text
    → List Text
    → QueryTemplate
    → DraftPage
    → Result (List SemanticParameter × Values)
    → DraftPage
suggest_into query slots template page (throw e) = failed_with page (thrown_text e)
suggest_into query slots template page (ok (parameters, found)) =
    slots_into query slots parameters page (parameter_values template.example_json) found

abbrev without_request : DraftPage → DraftPage
without_request page = record page { pending = none }

unfoldable pub take_slots : Text → QueryTemplate → List Text → DraftPage → DraftPage
unfolding write_slots slots_into suggest_into on_template
take_slots query template slots page =
    suggest_into query slots template (without_request page)
      (suggested_parameters query slots template.parameters)

-- What `save` refuses before it asks the server.
abbrev refusal : Bool → QueryTemplate → Text
refusal checks template =
    if checks then validate_parameters template.parameters template.example_json else []

abbrev named_query : SemanticEntry → Text
named_query form = or_text (some (trim form.name)) (codes "Untitled query")

refuse_save : DraftPage → Text → DraftPage
refuse_save page text = record page { message = text; conflict = false }

send_entry : Bool → QueryTemplate → DraftPage → Result Text → DraftPage
send_entry finish template page (throw e) = refuse_save page (thrown_text e)
send_entry finish template page (ok query) =
    let value = record (with_template page.form record template { query_json = query }) {
      name = named_query page.form;
    } in
    record page {
      message = [];
      pending = some (saving finish value);
      sent = put_draft page.expected value ∷ page.sent;
    }

save_checked : Bool → QueryTemplate → DraftPage → Text → DraftPage
save_checked finish template page [] =
    send_entry finish template page (native_template_query template.query_json)
save_checked finish template page (c ∷ s) = refuse_save page (c ∷ s)

unfoldable pub save : Bool → DraftPage → DraftPage
unfolding refuse_save send_entry save_checked on_template
save finish page =
    on_template (λ t p. save_checked finish t p (refusal (finish && DraftPage.creating p) t)) page

pub data Answer : Type 0 where
  saved_state : SemanticState → Answer
  found_slots : List Text → Answer
  -- The code of the error, where it is the server's, and its message.
  refused : Option Text → Text → Answer

is_conflict : Option Text → Bool
is_conflict none = false
is_conflict (some code) = text_eq code (codes "conflict")

-- An answer to the request that is open.
answer_to : Option Pending → Answer → DraftPage → DraftPage
answer_to (some (saving finish value)) (saved_state state) page = record page {
  form = value;
  baseline = value;
  expected = state.revision;
  binding = SemanticSnapshot.ontology (SemanticState.draft state);
  conflict = false;
  latest = none;
  pending = none;
  sent = told_saved state value.id finish ∷ page.sent;
}
answer_to (some (saving finish value)) (refused code text) page = record page {
  conflict = is_conflict code;
  message = text;
  pending = none;
}
answer_to (some (finding query template)) (found_slots slots) page =
    take_slots query template slots page
answer_to (some (finding query template)) (refused code text) page = record page {
  message = text;
  pending = none;
}
answer_to (some reviewing) (saved_state state) page = record page {
  latest = some state;
  pending = none;
}
answer_to (some reviewing) (refused code text) page = record page { message = text; pending = none }
answer_to _ _ page = page

unfoldable pub draft_answered : Answer → DraftPage → DraftPage
unfolding is_conflict answer_to
draft_answered answer page = answer_to page.pending answer page

-- The button "Keep my entry edits and use this revision"
keep_with : Option SemanticState → DraftPage → DraftPage
keep_with none page = page
keep_with (some state) page = record page {
  expected = state.revision;
  binding = SemanticSnapshot.ontology (SemanticState.draft state);
  conflict = false;
  latest = none;
  message = [];
}

unfoldable pub keep_edits : DraftPage → DraftPage
unfolding keep_with
keep_edits page = if page.conflict then keep_with page.latest page else page

unfoldable pub move_to : ℕ → DraftPage → DraftPage
move_to next page = record page {
  step = next;
  message = [];
  sent = told_step (if ltb next 2 then next else 2) ∷ page.sent;
}

next_step : DraftPage → Result Text → DraftPage
next_step page (throw e) = failed_with page (thrown_text e)
next_step page (ok query) = move_to (page.step + 1) page

unfoldable pub submit : DraftPage → DraftPage
unfolding next_step on_template
submit page =
    if page.creating && ltb page.step 3
    then on_template (λ t p. next_step p (native_template_query (QueryTemplate.query_json t))) page
    else save true page

-- "Add parameter"
added_parameter : ℕ → SemanticParameter
added_parameter count = record {
  name = codes "parameter_" ++ decimal (count + 1);
  description = none;
  type = codes "string";
  required = true;
  pointers = [];
  default_json = none;
  enum_json = none;
  minimum = none;
  maximum = none;
}

add_with : QueryTemplate → DraftPage → DraftPage
add_with template page = record page {
  form = with_template page.form record template {
    parameters = template.parameters ++ added_parameter (length template.parameters) ∷ [];
  };
}

unfoldable pub add_parameter : DraftPage → DraftPage
unfolding added_parameter add_with on_template
add_parameter page = on_template add_with page

abbrev or_description : Option Text → Option Text → Option Text
or_description none d = d
or_description (some []) d = d
or_description (some (c ∷ s)) d = some (c ∷ s)

abbrev chosen_refs : SemanticEntry → Option (List Text)
chosen_refs form = elim (SemanticEntry.template form) [
  | none ↦ none
  | some t ↦ QueryTemplate.concept_refs t
]

-- The choice of an operation of a web service, whose example may be no JSON object.
operation_into : HttpOperation → DraftPage → Result QueryTemplate → Result DraftPage
operation_into op page (throw e) = throw e
operation_into op page (ok template) = ok (record page {
  form = record (with_template page.form record template { concept_refs = chosen_refs page.form }) {
    name = or_text (some (SemanticEntry.name (DraftPage.form page))) op.name;
    description = or_description (SemanticEntry.description (DraftPage.form page)) op.description;
  };
  slots = none;
})

unfoldable pub choose_operation : HttpOperation → DraftPage → Result DraftPage
unfolding operation_into
choose_operation op page = operation_into op page (http_template op)

unfoldable pub ask_review : DraftPage → DraftPage
ask_review page = if page.conflict then record page { pending = some reviewing } else page

-- An edit of a field stands for the form that it leads to.
pub data Event : Type 0 where
  edited : SemanticEntry → Event
  changed : ℕ → Option SemanticParameter → Event
  parameter_added slots_sought submitted save_pressed review_pressed keep_pressed : Event
  tab_pressed : ℕ → Event
  answer_came : Answer → Event

-- The buttons that save are disabled in a conflict. While a request is open the form, the tabs and the buttons are disabled, but for the one that keeps
-- the edits.
unfoldable pub draft_event : Event → DraftPage → DraftPage
draft_event (edited form) page = record page { form = form }
draft_event (changed index value) page = change_parameter index value page
draft_event parameter_added page = add_parameter page
draft_event slots_sought page = find_parameters page
draft_event submitted page = if page.conflict then page else submit page
draft_event save_pressed page = if page.creating && not page.conflict then save false page else page
draft_event review_pressed page = ask_review page
draft_event (tab_pressed next) page = move_to next page
draft_event keep_pressed page = keep_edits page
draft_event (answer_came answer) page = draft_answered answer page

abbrev while_busy : Event → DraftPage → DraftPage
while_busy keep_pressed page = keep_edits page
while_busy (answer_came answer) page = draft_answered answer page
while_busy _ page = page

abbrev step_by : Option Pending → Event → DraftPage → DraftPage
step_by none event page = draft_event event page
step_by (some p) event page = while_busy event page

unfoldable pub draft_step : Event → DraftPage → DraftPage
draft_step event page = step_by page.pending event page

unfoldable pub draft_run : List Event → DraftPage → DraftPage
draft_run [] page = page
draft_run (e ∷ es) page = draft_run es (draft_step e page)
