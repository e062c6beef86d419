-- ===== src/Editor/Form.antt =====
-- web/src/OntologyEditor.tsx: the form of one ontology item. An event changes its state; a request to
-- save is one step, its answer another. Fields are edited by the event `edited_item`.
pub mod Care
use context_gate.Base.{
  ℕ, suc, ◌+◌, Text, codes, Bool, true, false, not, ◌&&◌, ◌||◌, List, [], ◌∷◌, map, filter, Option,
  none, some, if◌then◌else◌, ◌==◌, ltb, leb, length, truthy, text_eq,
}
use context_gate.JsonText.{is_high, is_low}
use context_gate.Ontology.{EntityType, Property, RelationType, OntologyDefinition}
use context_gate.Parameters.{trim}
use context_gate.Semantics.{OntologyItem, entity_type, property, relation_type}
use context_gate.Editor.{
  OntologyKind, entities, properties, relations, new_ontology_item, suggested_id, base_id,
}

abbrev pub item_name : OntologyItem → Text
item_name (entity_type e) = e.name
item_name (property p) = p.name
item_name (relation_type r) = r.name

abbrev pub item_id : OntologyItem → Text
item_id (entity_type e) = e.id
item_id (property p) = p.id
item_id (relation_type r) = r.id

-- `property?.entity || relation?.from || ""`
abbrev pub item_owner : OntologyItem → Text
item_owner (entity_type e) = []
item_owner (property p) = p.entity
item_owner (relation_type r) = r.from

-- `update({ name, id })`
unfoldable pub with_name : Text → Option Text → OntologyItem → OntologyItem
with_name name none (entity_type e) = entity_type (record e { name = name })
with_name name none (property p) = property (record p { name = name })
with_name name none (relation_type r) = relation_type (record r { name = name })
with_name name (some id) (entity_type e) = entity_type (record e { name = name; id = id })
with_name name (some id) (property p) = property (record p { name = name; id = id })
with_name name (some id) (relation_type r) = relation_type (record r { name = name; id = id })

unfoldable pub with_id : Text → OntologyItem → OntologyItem
with_id id (entity_type e) = entity_type (record e { id = id })
with_id id (property p) = property (record p { id = id })
with_id id (relation_type r) = relation_type (record r { id = id })

-- The bytes of a text in UTF-8; a lone surrogate takes three.
unfoldable pub utf8_length : Text → ℕ
utf8_length [] = 0
utf8_length (c ∷ []) = if ltb c 128 then 1 else if ltb c 2048 then 2 else 3
utf8_length (c ∷ d ∷ s) =
    let behind_pair = utf8_length s in
    let behind_unit = utf8_length (d ∷ s) in
    if is_high c && is_low d
    then 4 + behind_pair
    else (if ltb c 128 then 1 else if ltb c 2048 then 2 else 3) + behind_unit

abbrev id_start : ℕ → Bool
id_start c = (leb 97 c && leb c 122) || ((leb 65 c && leb c 90) || (leb 48 c && leb c 57))

abbrev id_code : ℕ → Bool
id_code c = id_start c || ((c == 95) || ((c == 46) || (c == 45)))

unfoldable pub id_codes : Text → Bool
id_codes [] = true
id_codes (c ∷ s) = id_code c && id_codes s

-- `/^[a-zA-Z0-9][a-zA-Z0-9_.-]{0,95}$/`
unfoldable pub valid_id : Text → Bool
valid_id [] = false
valid_id (c ∷ s) = id_start c && (id_codes s && leb (length s) 95)

abbrev kept_texts : List Text → List Text
kept_texts ts = filter truthy ts

abbrev cleaned_aliases : Option (List Text) → Option (List Text)
cleaned_aliases none = some []
cleaned_aliases (some ts) = some (kept_texts (map trim ts))

abbrev cleaned_enums : Option (List Text) → Option (List Text)
cleaned_enums none = none
cleaned_enums (some ts) = some (kept_texts ts)

-- What is sent of the form.
unfoldable pub cleaned : OntologyItem → OntologyItem
cleaned (entity_type e) =
    entity_type (record e { name = trim e.name; aliases = cleaned_aliases e.aliases })
cleaned (property p) = property (record p {
  name = trim p.name;
  aliases = cleaned_aliases p.aliases;
  enums = cleaned_enums p.enums;
})
cleaned (relation_type r) =
    relation_type (record r { name = trim r.name; aliases = cleaned_aliases r.aliases })

pub record ItemForm : Type 0 where
  pub kind : OntologyKind
  pub existing : Bool
  pub item : OntologyItem
  pub initial : OntologyItem
  pub error_note : Text
  pub in_conflict : Bool
  pub manual_id : Bool
  pub closing : Bool
  -- Whether the form stays open behind the answer.
  pub saving_open : Option Bool
  pub requests : List OntologyItem
  pub closed : ℕ

unfoldable pub item_error : OntologyItem → Text
item_error item =
    if not (truthy (trim (item_name item)))
    then codes "Enter a name."
    else if ltb 256 (utf8_length (trim (item_name item)))
    then codes "The name is too long. Use a shorter name."
    else if not (valid_id (item_id item))
    then codes "Enter a valid reference ID under Reference ID & aliases."
    else []

submit_checked : Bool → Text → ItemForm → ItemForm
submit_checked another [] form = record form {
  error_note = [];
  saving_open = some (not form.existing && another);
  requests = cleaned form.item ∷ form.requests;
}
submit_checked another (c ∷ s) form = record form { error_note = c ∷ s; in_conflict = false }

-- `onSubmit`; the flag says that the button was "Save & add another".
unfoldable pub submit_item : Bool → ItemForm → ItemForm
unfolding submit_checked
submit_item another form = submit_checked another (item_error form.item) form

-- `JSON.stringify(form) !== JSON.stringify(initial.current)` is the argument `differs`.
module _ (differs : OntologyItem → OntologyItem → Bool) where
  unfoldable pub close_form : ItemForm → ItemForm
  close_form form =
      if differs form.item form.initial
      then record form { closing = true }
      else record form { closed = suc form.closed }

suggested_or : Text → Option Text → Text
suggested_or base none = base
suggested_or base (some id) = id

module _ (normalize lower : Text → Text) (definition : OntologyDefinition) where
  unfoldable pub rename_item : Text → ItemForm → ItemForm
  unfolding suggested_or
  rename_item name form = record form {
    item =
        with_name name
          (if form.manual_id
            then none
            else some (
                if truthy (trim name)
                then suggested_or (base_id normalize lower name form.kind (item_owner form.item))
                    (suggested_id normalize lower name form.kind definition (item_owner form.item))
                else []))
          form.item;
  }

pub data SaveAnswer : Type 0 where
  item_saved : SaveAnswer
  -- The code of the error, where it is the server's, and its message.
  item_refused : Option Text → Text → SaveAnswer

abbrev refused_in_conflict : Option Text → Bool
refused_in_conflict none = false
refused_in_conflict (some code) = text_eq code (codes "conflict")

item_answer : Option Bool → SaveAnswer → ItemForm → ItemForm
item_answer none answer form = form
item_answer (some false) item_saved form = record form { saving_open = none }
item_answer (some true) item_saved form =
    let blank = new_ontology_item form.kind (item_owner form.item) in
    record form {
      item = blank;
      initial = blank;
      manual_id = false;
      closing = false;
      saving_open = none;
    }
item_answer (some another) (item_refused code text) form = record form {
  error_note = text;
  in_conflict = refused_in_conflict code;
  saving_open = none;
}

unfoldable pub answer_item : SaveAnswer → ItemForm → ItemForm
unfolding item_answer
answer_item answer form = item_answer form.saving_open answer form

pub data FormEvent : Type 0 where
  edited_item : OntologyItem → FormEvent
  renamed_item : Text → FormEvent
  id_edited : Text → FormEvent
  close_pressed keep_editing discard_pressed : FormEvent
  submitted_item : Bool → FormEvent
  save_answered : SaveAnswer → FormEvent

module _ (differs : OntologyItem → OntologyItem → Bool) (normalize lower : Text → Text)
    (definition : OntologyDefinition) where
  -- Discarding is offered only where closing was asked for.
  unfoldable pub form_event : FormEvent → ItemForm → ItemForm
  form_event (edited_item item) form = record form { item = item }
  form_event (renamed_item name) form = rename_item normalize lower definition name form
  form_event (id_edited id) form = record form { manual_id = true; item = with_id id form.item }
  form_event close_pressed form = close_form differs form
  form_event keep_editing form = record form { closing = false }
  form_event discard_pressed form =
      if form.closing then record form { closed = suc form.closed } else form
  form_event (submitted_item another) form = submit_item another form
  form_event (save_answered answer) form = answer_item answer form

  abbrev pub form_busy : FormEvent → ItemForm → ItemForm
  form_busy (save_answered answer) form = answer_item answer form
  form_busy keep_editing form = record form { closing = false }
  form_busy _ form = form

  abbrev pub form_by : Option Bool → FormEvent → ItemForm → ItemForm
  form_by none event form = form_event event form
  form_by (some another) event form = form_busy event form

  unfoldable pub form_step : FormEvent → ItemForm → ItemForm
  form_step event form = form_by form.saving_open event form
