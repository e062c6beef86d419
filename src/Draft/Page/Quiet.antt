-- ===== src/Draft/Page/Quiet.antt =====
-- The steps of the draft editor that leave the server's draft alone.
use context_gate.Base.{
  ℕ, ◌≡◌, refl, Text, List, [], ◌∷◌, Option, none, some, get_elem?, Result, ok, throw,
}
use context_gate.Draft.{Values, native_template_query, suggested_parameters, set_values}
use context_gate.Draft.Page.{
  DraftPage, Pending, finding, saving, reviewing, Outgoing, put_draft, told_saved, told_step,
  on_template, examples_into, examples_of, change_in, change_with, add_with, seek_with, write_slots,
  change_parameter, ask_slots, find_parameters, slots_into, suggest_into, without_request,
  take_slots, move_to, add_parameter,
}
use context_gate.Parameters.Values.{parameter_values}
use context_gate.Semantics.{SemanticParameter, SemanticEntry, QueryTemplate}

-- The revisions and entries that were sent to be saved, the last one first.
unfoldable pub puts : List Outgoing → List (Text × SemanticEntry)
puts [] = []
puts (put_draft revision entry ∷ sent) = (revision, entry) ∷ puts sent
puts (told_saved state id finish ∷ sent) = puts sent
puts (told_step next ∷ sent) = puts sent

-- No save is open.
abbrev pub NotSaving : Option Pending → Type 0
NotSaving none = Unit
NotSaving (some (finding query template)) = Unit
NotSaving (some (saving finish value)) = ⊥
NotSaving (some reviewing) = Unit

-- A step that neither sends nor learns anything about the server's draft.
pub record Quiet (before after : DraftPage) : Type 0 where
  pub expected : after.expected ≡ before.expected
  pub sent : puts (after.sent) ≡ puts (before.sent)
  pub conflict : after.conflict ≡ before.conflict
  pub waits : NotSaving before.pending → NotSaving after.pending

pub still : (page : DraftPage) → Quiet page page
still page = record { expected = refl; sent = refl; conflict = refl; waits = λ h. h }

pub on_template-Quiet :
    (act : QueryTemplate → DraftPage → DraftPage) (before page : DraftPage)
    → Quiet before page
    → ((t : QueryTemplate) → Quiet before (act t page))
    → Quiet before (on_template act page)
unfolding on_template
on_template-Quiet act before page q h = go page.form.template
  where
    go :
        (o : Option QueryTemplate)
        → Quiet before (elim o as (λ _. DraftPage) [ none ↦ page | some t ↦ act t page ])
    go none = q
    go (some t) = h t

pub change_parameter-Quiet :
    (index : ℕ) (value : Option SemanticParameter) (page : DraftPage)
    → Quiet page (change_parameter index value page)
unfolding change_parameter change_with change_in examples_into
change_parameter-Quiet index value page =
    on_template-Quiet (change_with index value) page page (still page)
      λ t. with_previous t (get_elem? t.parameters index)
  where
    written :
        (t : QueryTemplate) (r : Result Values) → Quiet page (examples_into t index value page r)
    written t (throw e) = record { expected = refl; sent = refl; conflict = refl; waits = λ h. h }
    written t (ok vs) = record { expected = refl; sent = refl; conflict = refl; waits = λ h. h }

    with_previous :
        (t : QueryTemplate) (o : Option SemanticParameter)
        → Quiet page (change_in t index value o page)
    with_previous t none = still page
    with_previous t (some p) =
        written t (examples_of p.name value (parameter_values t.example_json))

pub add_parameter-Quiet : (page : DraftPage) → Quiet page (add_parameter page)
unfolding add_parameter add_with
add_parameter-Quiet page =
    on_template-Quiet add_with page page (still page)
      λ t. record { expected = refl; sent = refl; conflict = refl; waits = λ h. h }

pub find_parameters-Quiet : (page : DraftPage) → Quiet page (find_parameters page)
unfolding find_parameters seek_with ask_slots
find_parameters-Quiet page =
    on_template-Quiet seek_with page page (still page)
      λ t. asked t (native_template_query t.query_json)
  where
    asked : (t : QueryTemplate) (r : Result Text) → Quiet page (ask_slots t page r)
    asked t (throw e) = record { expected = refl; sent = refl; conflict = refl; waits = λ h. h }
    asked t (ok query) = record { expected = refl; sent = refl; conflict = refl; waits = λ h. tt }

pub take_slots-Quiet :
    (query : Text) (template : QueryTemplate) (slots : List Text) (page : DraftPage)
    → Quiet page (take_slots query template slots page)
unfolding take_slots suggest_into slots_into write_slots
take_slots-Quiet query template slots page =
    with_suggestions (suggested_parameters query slots template.parameters)
  where
    into :
        (ps : List SemanticParameter) (r : Result Values) (found : Values)
        → Quiet page (slots_into query slots ps (without_request page) r found)
    into ps (throw e) found = record {
      expected = refl;
      sent = refl;
      conflict = refl;
      waits = λ h. tt;
    }
    into ps (ok vs) found =
        on_template-Quiet (write_slots query slots ps (set_values vs found)) page
          (without_request page)
          (record { expected = refl; sent = refl; conflict = refl; waits = λ h. tt })
          λ t. record { expected = refl; sent = refl; conflict = refl; waits = λ h. tt }

    with_suggestions :
        (r : Result (List SemanticParameter × Values))
        → Quiet page (suggest_into query slots template (without_request page) r)
    with_suggestions (throw e) = record {
      expected = refl;
      sent = refl;
      conflict = refl;
      waits = λ h. tt;
    }
    with_suggestions (ok (ps, found)) = into ps (parameter_values template.example_json) found

pub move_to-Quiet : (next : ℕ) (page : DraftPage) → Quiet page (move_to next page)
unfolding move_to puts
move_to-Quiet next page = record { expected = refl; sent = refl; conflict = refl; waits = λ h. h }
