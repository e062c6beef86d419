-- ===== src/Draft/Tests.antt =====
-- Runs of a draft: suggestions, pointers, and the editor in a conflict.
use context_gate.Base.{
  if◌then◌else◌, ◌≡◌, ◌≢◌, refl, text_eq, text_eq_iff, includes, add_to, unique, Text, codes, Bool,
  true, false, List, [], ◌∷◌, none, some, All, Has, ok, inl,
}
use context_gate.Editor.{digits, decimal, numbered, next_id, fresh_id}
use context_gate.JsonText.{
  parse_json, read_value, skip_space, expect, read_string, string_move, behind, read_number,
}
use context_gate.Parameters.{
  trim, trim_start, trim_end, parts, cut_from, scan_move, drop_last, entries, match_key, key_move,
}
use context_gate.Parameters.Values.{
  parameter_values, starts_with, array_index, put_member, ordered_from, value_of, entries_of,
  object_of, parameter_at, split_slash, replace_tilde, pointer_key, step_into, value_named,
  value_behind,
}
use context_gate.Draft.{
  erase, has_slot, add_slot, add_slots, suggested_parameters, suggested_name, suggested_base,
  slot_word, suggested_type, spells_integer, all_digits, suggested, set_value, replace_value,
}
use context_gate.Draft.Suggestions.{Suggests, suggested_parameters-Suggests}
use context_gate.Draft.Http.{pointer_of}
use context_gate.Draft.Pointers.{parameter_at-pointer_of}
use context_gate.Draft.Page.{
  DraftPage, answer_came, changed_examples, changed_parameters, draft_event, draft_run, draft_step,
  edited, opened, review_pressed, saved_state, submitted,
}
use context_gate.Draft.Page.Parameter.{AllDeclared, Carried, changed_examples-AllDeclared}
use context_gate.Draft.Page.Quiet.{Quiet}
use context_gate.Draft.Page.Conflict.{draft_run-Quiet}
use context_gate.Samples.{emails, state}
use context_gate.Semantics.{SemanticParameter}

abbrev native : Text
native = codes "{\"sql\": \"select\", \"params\": [7, \"x\"]}"

abbrev slots : List Text
slots = codes "/params/0" ∷ codes "/params/1" ∷ codes "/sql" ∷ []

-- A slot whose last part is no word takes a numbered name.
suggestions :
    suggested_parameters native slots (suggested (codes "sql") (codes "string") (codes "/sql") ∷ [])
    ≡ ok (
      suggested (codes "sql") (codes "string") (codes "/sql")
          ∷ suggested (codes "parameter_2") (codes "integer") (codes "/params/0")
          ∷ suggested (codes "parameter_3") (codes "string") (codes "/params/1")
          ∷ [],
      (codes "parameter_2", codes "7") ∷ (codes "parameter_3", codes "\"x\"") ∷ [],
    )
unfolding text_eq unique includes add_to parse_json read_value skip_space expect read_string
    string_move behind read_number trim trim_start trim_end parts cut_from scan_move drop_last
    entries match_key key_move parameter_values starts_with array_index put_member ordered_from
    value_of entries_of object_of digits decimal numbered next_id fresh_id suggested_parameters
    add_slots add_slot has_slot suggested_name suggested_base slot_word suggested_type
    spells_integer all_digits set_value replace_value parameter_at split_slash replace_tilde
    pointer_key step_into value_named value_behind
suggestions = refl

suggested_parameters-Suggests_example :
    Suggests native (suggested (codes "sql") (codes "string") (codes "/sql") ∷ []) (
      suggested (codes "sql") (codes "string") (codes "/sql")
          ∷ suggested (codes "parameter_2") (codes "integer") (codes "/params/0")
          ∷ suggested (codes "parameter_3") (codes "string") (codes "/params/1")
          ∷ [],
      (codes "parameter_2", codes "7") ∷ (codes "parameter_3", codes "\"x\"") ∷ [],
    )
    × All
        (λ slot.
          has_slot
            (suggested (codes "sql") (codes "string") (codes "/sql")
              ∷ suggested (codes "parameter_2") (codes "integer") (codes "/params/0")
              ∷ suggested (codes "parameter_3") (codes "string") (codes "/params/1")
              ∷ [])
            slot
          ≡ true)
        slots
suggested_parameters-Suggests_example =
    suggested_parameters-Suggests native slots
      (suggested (codes "sql") (codes "string") (codes "/sql") ∷ []) _ suggestions

abbrev service_query : Text
service_query = codes "{\"operation\": \"get\", \"named_params\": {\"a/b~c\": 5}}"

outer_values :
    parameter_values service_query
    ≡ ok
        ((codes "operation", codes "\"get\"") ∷ (codes "named_params", codes "{\"a/b~c\": 5}") ∷ [])
unfolding text_eq unique includes add_to parse_json read_value skip_space expect read_string
    string_move behind read_number trim trim_start trim_end parts cut_from scan_move drop_last
    entries match_key key_move parameter_values starts_with array_index put_member ordered_from
    value_of entries_of object_of
outer_values = refl

inner_values : parameter_values (codes "{\"a/b~c\": 5}") ≡ ok ((codes "a/b~c", codes "5") ∷ [])
unfolding text_eq unique includes add_to parse_json read_value skip_space expect read_string
    string_move behind read_number trim trim_start trim_end parts cut_from scan_move drop_last
    entries match_key key_move parameter_values starts_with array_index put_member ordered_from
    value_of entries_of object_of
inner_values = refl

params_value :
    value_of
      ((codes "operation", codes "\"get\"") ∷ (codes "named_params", codes "{\"a/b~c\": 5}") ∷ [])
      (codes "named_params")
    ≡ some (codes "{\"a/b~c\": 5}")
unfolding value_of text_eq
params_value = refl

own_value : value_of ((codes "a/b~c", codes "5") ∷ []) (codes "a/b~c") ≡ some (codes "5")
unfolding value_of text_eq
own_value = refl

parameter_at-pointer_of_example :
    parameter_at service_query (pointer_of (codes "a/b~c")) ≡ ok (codes "5")
parameter_at-pointer_of_example =
    parameter_at-pointer_of (codes "a/b~c") service_query (codes "{\"a/b~c\": 5}") (codes "5") _ _
      outer_values params_value inner_values own_value

abbrev limit : SemanticParameter
limit = suggested (codes "limit") (codes "integer") []

abbrev top : SemanticParameter
top = suggested (codes "top") (codes "integer") []

limit_declared : AllDeclared ((codes "limit", codes "5") ∷ []) (limit ∷ [])
unfolding value_of
limit_declared k h = go (text_eq (codes "limit") k) refl h
  where
    go :
        (b : Bool)
        → text_eq (codes "limit") k ≡ b
        → (if b then some (codes "5") else none) ≢ none
        → Has k (codes "limit" ∷ [])
    go true e h = inl ((text_eq_iff (codes "limit") k).0 e)
    go false e h = absurd (h refl)

limit_renamed :
    changed_examples (codes "limit") (some top) ((codes "limit", codes "5") ∷ [])
    ≡ ok ((codes "top", codes "5") ∷ [])
unfolding changed_examples value_of text_eq erase set_value replace_value put_member array_index
limit_renamed = refl

changed_examples-AllDeclared_example :
    AllDeclared ((codes "top", codes "5") ∷ []) (changed_parameters 0 (some top) (limit ∷ []))
    × Carried ((codes "limit", codes "5") ∷ []) limit (some top) ((codes "top", codes "5") ∷ [])
changed_examples-AllDeclared_example =
    changed_examples-AllDeclared 0 (limit ∷ []) limit ((codes "limit", codes "5") ∷ []) refl
      limit_declared (some top) ((codes "top", codes "5") ∷ []) limit_renamed

abbrev in_conflict : DraftPage
in_conflict = record (opened false emails (codes "r1") none []) { conflict = true }

abbrev fresh_page : DraftPage
fresh_page = opened true emails (codes "r1") none []

refused_save : draft_step submitted in_conflict ≡ in_conflict
unfolding draft_step draft_event opened
refused_save = refl

-- A conflict in which the entry is reviewed, edited, and pressed to be saved.
draft_run-Quiet_example : Quiet in_conflict (
    draft_run
      (review_pressed ∷ answer_came (saved_state state) ∷ edited emails ∷ submitted ∷ [])
      in_conflict)
unfolding opened
draft_run-Quiet_example =
    draft_run-Quiet
      (review_pressed ∷ answer_came (saved_state state) ∷ edited emails ∷ submitted ∷ [])
      in_conflict (tt, (tt, (tt, (tt, tt)))) refl tt
