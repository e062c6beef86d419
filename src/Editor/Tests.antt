-- ===== src/Editor/Tests.antt =====
-- Runs of the suggested id of web/src/OntologyEditor.tsx on the sample ontology.
use context_gate.Base.{
  Bool, true, false, not, none, ◌∷◌, [], ◌≡◌, refl, ◌⊎◌, ◌≤◌, ℕ, Text, codes, includes, text_eq,
  some, Has,
}
use context_gate.Editor.{
  entities, properties, used_ids, digits, decimal, numbered, next_id, fresh_id, slug, slug_code,
  dashed, without_marks, without_first, without_last, base_id, suggested_id,
}
use context_gate.Editor.Fresh.{suggested_id_free}
use context_gate.Editor.Form.{
  ItemForm, item_name, cleaned, item_error, valid_id, id_codes, utf8_length, submit_item,
  submitted_item, form_event, form_step,
}
use context_gate.Editor.Form.Care.{Careful, form_step-Careful}
use context_gate.Parameters.{trim, trim_start, trim_end}
use context_gate.Samples.{shop, party}
use context_gate.Semantics.{OntologyItem, entity_type}

abbrev same : Text → Text
same s = s

slug_words : slug same same (codes "  line items (net)") ≡ codes "line-items-net"
unfolding slug slug_code dashed without_marks without_first without_last
slug_words = refl

-- `order` is an entity type of the shop.
second_order : suggested_id same same (codes "order") entities shop [] ≡ some (codes "order-2")
unfolding suggested_id base_id slug slug_code dashed without_marks without_first without_last
    used_ids digits decimal numbered next_id fresh_id includes text_eq
second_order = refl

owned_property :
    suggested_id same same (codes "?") properties shop (codes "party")
    ≡ some (codes "party.property")
unfolding suggested_id base_id slug slug_code dashed without_marks without_first without_last
    used_ids digits decimal numbered next_id fresh_id includes text_eq
owned_property = refl

suggested_id_free_example :
    (id : Text) × (suggested_id same same (codes "order") entities shop [] ≡ some id)
    × (¬ Has id (used_ids shop entities))
    × (((id ≡ base_id same same (codes "order") entities [])
          × (¬ Has (base_id same same (codes "order") entities []) (used_ids shop entities)))
        ⊎ (Has (base_id same same (codes "order") entities []) (used_ids shop entities)
            × ((j : ℕ) × (2 ≤ j)
                × (id ≡ numbered 45 (base_id same same (codes "order") entities []) j))))
suggested_id_free_example = suggested_id_free same same (codes "order") entities shop []

abbrev party_form : ItemForm
party_form = record {
  kind = entities;
  existing = true;
  item = entity_type party;
  initial = entity_type party;
  error_note = [];
  in_conflict = false;
  manual_id = true;
  closing = false;
  saving_open = none;
  requests = [];
  closed = 0;
}

abbrev other_name : OntologyItem → OntologyItem → Bool
other_name a b = not (text_eq (item_name a) (item_name b))

form_step-Careful_example :
    Careful other_name party_form
      (form_step other_name same same shop (submitted_item false) party_form)
form_step-Careful_example =
    form_step-Careful other_name same same shop (submitted_item false) party_form

-- The item is sent with its name trimmed.
party_sent :
    (form_step other_name same same shop (submitted_item false) party_form).requests
    ≡ cleaned (entity_type party) ∷ []
unfolding form_step form_event submit_item item_error valid_id id_codes utf8_length trim trim_start
    trim_end
party_sent = refl
