-- ===== src/Editor/Form/Care.antt =====
-- The form of an item loses no edit unasked, and sends no item that it has not checked.
use context_gate.Base.{
  suc, ◌≤◌, ◌≡◌, ◌≢◌, refl, ◌⊎◌, inl, inr, arith, Text, codes, Bool, true, false, not, [], ◌∷◌,
  Option, none, some, if◌then◌else◌, ltb, truthy,
}
use context_gate.Ontology.{OntologyDefinition}
use context_gate.Parameters.{trim}
use context_gate.Semantics.{OntologyItem}
use context_gate.Editor.Form.{
  ItemForm, item_name, item_id, utf8_length, valid_id, cleaned, item_error, submit_checked,
  submit_item, close_form, rename_item, SaveAnswer, item_saved, item_refused, item_answer,
  answer_item, FormEvent, edited_item, renamed_item, id_edited, close_pressed, keep_editing,
  discard_pressed, submitted_item, save_answered, form_event, form_by, form_step,
}

-- An item that may be sent: a name of at most 256 bytes, and an id of the allowed form.
pub record IsChecked (item : OntologyItem) : Type 0 where
  pub named : trim (item_name item) ≢ []
  pub short : utf8_length (trim (item_name item)) ≤ 256
  pub id : valid_id (item_id item) ≡ true

item_error-IsChecked : (item : OntologyItem) → item_error item ≡ [] → IsChecked item
unfolding item_error
item_error-IsChecked item =
    go (trim (item_name item)) refl (ltb 256 (utf8_length (trim (item_name item)))) refl
      (valid_id (item_id item)) refl
  where
    go :
        (name : Text)
        → trim (item_name item) ≡ name
        → (long : Bool) → ltb 256 (utf8_length (trim (item_name item))) ≡ long
        → (valid : Bool) → valid_id (item_id item) ≡ valid
        → (if not (truthy name)
            then codes "Enter a name."
            else if long
            then codes "The name is too long. Use a shorter name."
            else if not valid
            then codes "Enter a valid reference ID under Reference ID & aliases."
            else [])
          ≡ []
        → IsChecked item
    go [] e long f valid g h = absurd (ground arith)
    go (c ∷ s) e true f valid g h = absurd (ground arith)
    go (c ∷ s) e false f false g h = absurd (ground arith)
    go (c ∷ s) e false f true g h = record {
      named = λ k. ground (arith, e, k);
      short = ground (arith, f);
      id = g;
    }

module _ (differs : OntologyItem → OntologyItem → Bool) where
  -- Why a step closed the form: it was as it had been, or the administrator had been asked.
  abbrev pub Closes : ItemForm → ItemForm → Type 0
  Closes before after =
      (after.closed ≡ before.closed)
      ⊎ ((after.closed ≡ suc before.closed)
          × (before.saving_open ≡ none)
          × ((differs before.item before.initial ≡ false) ⊎ (before.closing ≡ true)))

  -- What a step sent: nothing, or the checked item of the form, cleaned.
  abbrev pub SendsChecked : ItemForm → ItemForm → Type 0
  SendsChecked before after =
      (after.requests ≡ before.requests)
      ⊎ ((before.saving_open ≡ none)
          × IsChecked before.item
          × (after.requests ≡ cleaned before.item ∷ before.requests))

  pub record Careful (before after : ItemForm) : Type 0 where
    pub closes : Closes before after
    pub sends : SendsChecked before after

  submit_item-Careful :
      (another : Bool) (form : ItemForm)
      → form.saving_open ≡ none
      → Careful form (submit_item another form)
  unfolding submit_item submit_checked
  submit_item-Careful another form idle = go (item_error form.item) refl
    where
      go : (s : Text) → item_error form.item ≡ s → Careful form (submit_checked another s form)
      go [] e = record {
        closes = inl refl;
        sends = inr (idle, item_error-IsChecked form.item e, refl);
      }
      go (c ∷ s) e = record { closes = inl refl; sends = inl refl }

  close_form-Careful :
      (form : ItemForm) → form.saving_open ≡ none → Careful form (close_form differs form)
  unfolding close_form
  close_form-Careful form idle = go (differs form.item form.initial) refl
    where
      go :
          (b : Bool)
          → differs form.item form.initial ≡ b
          → Careful form (
              if b
              then record form { closing = true }
              else record form { closed = suc form.closed })
      go true e = record { closes = inl refl; sends = inl refl }
      go false e = record { closes = inr (refl, idle, inl e); sends = inl refl }

  answer_item-Careful :
      (answer : SaveAnswer) (form : ItemForm) → Careful form (answer_item answer form)
  unfolding answer_item item_answer
  answer_item-Careful answer form = go form.saving_open answer
    where
      go : (o : Option Bool) (answer : SaveAnswer) → Careful form (item_answer o answer form)
      go none answer = record { closes = inl refl; sends = inl refl }
      go (some true) item_saved = record { closes = inl refl; sends = inl refl }
      go (some false) item_saved = record { closes = inl refl; sends = inl refl }
      go (some true) (item_refused code text) = record { closes = inl refl; sends = inl refl }
      go (some false) (item_refused code text) = record { closes = inl refl; sends = inl refl }

  module _ (normalize lower : Text → Text) (definition : OntologyDefinition) where
    form_event-Careful :
        (event : FormEvent) (form : ItemForm)
        → form.saving_open ≡ none
        → Careful form (form_event differs normalize lower definition event form)
    unfolding form_event rename_item
    form_event-Careful (edited_item item) form idle = record { closes = inl refl; sends = inl refl }
    form_event-Careful (renamed_item name) form idle = record {
      closes = inl refl;
      sends = inl refl;
    }
    form_event-Careful (id_edited id) form idle = record { closes = inl refl; sends = inl refl }
    form_event-Careful close_pressed form idle = close_form-Careful form idle
    form_event-Careful keep_editing form idle = record { closes = inl refl; sends = inl refl }
    form_event-Careful discard_pressed form idle = go form.closing refl
      where
        go :
            (b : Bool)
            → form.closing ≡ b
            → Careful form (if b then record form { closed = suc form.closed } else form)
        go true e = record { closes = inr (refl, idle, inr e); sends = inl refl }
        go false e = record { closes = inl refl; sends = inl refl }
    form_event-Careful (submitted_item another) form idle = submit_item-Careful another form idle
    form_event-Careful (save_answered answer) form idle = answer_item-Careful answer form

    -- Whatever happens to the form: a step closes it only where no save is open, and either the item is as it was
    -- or the administrator had asked to close it and was asked back; and a step sends nothing, or, with no save open,
    -- the item of the form, cleaned, whose name and id have passed the checks.
    pub form_step-Careful :
        (event : FormEvent) (form : ItemForm)
        → Careful form (form_step differs normalize lower definition event form)
    unfolding form_step
    form_step-Careful event form = go form.saving_open refl event
      where
        go :
            (o : Option Bool)
            → form.saving_open ≡ o
            → (event : FormEvent)
            → Careful form (form_by differs normalize lower definition o event form)
        go none e event = form_event-Careful event form e
        go (some b) e (save_answered answer) = answer_item-Careful answer form
        go (some b) e (edited_item item) = record { closes = inl refl; sends = inl refl }
        go (some b) e (renamed_item name) = record { closes = inl refl; sends = inl refl }
        go (some b) e (id_edited id) = record { closes = inl refl; sends = inl refl }
        go (some b) e close_pressed = record { closes = inl refl; sends = inl refl }
        go (some b) e keep_editing = record { closes = inl refl; sends = inl refl }
        go (some b) e discard_pressed = record { closes = inl refl; sends = inl refl }
        go (some b) e (submitted_item another) = record { closes = inl refl; sends = inl refl }
