-- ===== src/Parameters/Tests.antt =====
-- Runs of the template parameters, on JavaScript's own texts.
use context_gate.Base.{
  inr, ◌↔◌, text_eq, unique, includes, add_to, ◌≡◌, ◌≢◌, refl, arith, Text, codes, true, false, [],
  ◌∷◌, some, none, ok, throw, error, List, Distinct,
}
use context_gate.Base.Int.{pos, ◌-ℤ◌}
use context_gate.Json.{num}
use context_gate.JsonText.{
  parse_json, read_value, skip_space, expect, read_string, string_move, behind, read_number,
  quote_text, escape_from, unit_text, escape_code,
}
use context_gate.Parameters.{
  trim, trim_start, trim_end, parts, cut_from, scan_move, drop_last, entries, match_key, key_move,
}
use context_gate.Parameters.Split.{scan_run}
use context_gate.Parameters.Values.{
  parameter_values, starts_with, array_index, put_member, ordered_from, value_of, entries_of,
  object_of, parameter_at, split_slash, replace_tilde, pointer_key, step_into, value_behind, names,
  parameter_json, repeated_name, member_line, join, join_behind, parameter_choices,
}
use context_gate.Parameters.Numbers.{
  compare_numbers, decimal, is_number, groups, number_of, digits_number, front_digits,
  compare_first, compare_with, compare_fractions,
}
use context_gate.Parameters.Equality.{equal_json, equal_from, same_by, compare_types, every_part}
use context_gate.Parameters.Equality.Recursion.{
  compare_json, compare_json-IsComparison, equal_json_unique,
}
use context_gate.Parameters.Check.{
  validate_parameters, parameter_error, value_check, number_check, choice_check, some_choice,
  limit_check, caught, unknown_name, first_error, is_whole,
}
use context_gate.Parameters.Check.Verdict.{NoneUnknown, AllAccepted, validate_parameters_iff}
use context_gate.Parameters.Check.Range.{InRange, parameter_error-InRange}
use context_gate.Draft.{update_value, set_value, replace_value}
use context_gate.Parameters.Form.{display, editable_json, typed_value}
use context_gate.Parameters.Form.Typing.{CanKeep, parameter_values-update_value}
use context_gate.Parameters.RoundTrip.{IsMember, parameter_values-parameter_json}
use context_gate.Semantics.{SemanticParameter}

abbrev age : SemanticParameter
age = record {
  name = codes "age";
  description = none;
  type = codes "integer";
  required = true;
  pointers = codes "/where/age" ∷ [];
  default_json = none;
  enum_json = none;
  minimum = some (codes "0");
  maximum = some (codes "1.2e2");
}

abbrev age_value : Text → List (Text × Text)
age_value v = (codes "age", v) ∷ []

-- The values keep their digits; the names that are array indices come first.
read_members :
    parameter_values (codes "{\"b\": 9007199254740993.10, \"a,\" :[1, 2], \"7\": \"x\"}")
    ≡ ok (
        (codes "7", codes "\"x\"")
        ∷ (codes "b", codes "9007199254740993.10")
        ∷ (codes "a,", codes "[1, 2]")
        ∷ [])
unfolding text_eq unique includes add_to parse_json read_value skip_space expect read_string
    string_move behind read_number trim trim_start trim_end parts cut_from scan_move drop_last
    entries match_key key_move parameter_values starts_with array_index put_member ordered_from
    value_of entries_of object_of
read_members = refl

read_repeated : parameter_values (codes "{\"a\": 1, \"\\u0061\": 2}") ≡ throw (error repeated_name)
unfolding text_eq unique includes add_to parse_json read_value skip_space expect read_string
    string_move behind read_number trim trim_start trim_end parts cut_from scan_move drop_last
    entries match_key key_move parameter_values starts_with array_index put_member ordered_from
    value_of entries_of object_of
read_repeated = refl

read_pointer :
    parameter_at (codes "{\"a/b\": [10, {\"c\": 20}]}") (codes "/a~1b/1/c") ≡ ok (codes "20")
unfolding text_eq unique includes add_to parse_json read_value skip_space expect read_string
    string_move behind read_number trim trim_start trim_end parts cut_from scan_move drop_last
    entries match_key key_move parameter_values starts_with array_index put_member ordered_from
    value_of entries_of object_of parameter_at split_slash replace_tilde pointer_key step_into
    value_behind
read_pointer = refl

compare_decimals : compare_numbers (codes "1.20e1") (codes "12") ≡ ok (pos 0)
unfolding compare_numbers decimal is_number groups number_of digits_number front_digits
    compare_first compare_with compare_fractions ◌-ℤ◌ read_number
compare_decimals = refl

-- Equal by value at the top, by text below it.
equal_numbers : equal_json (codes "1.0") (codes "1") ≡ ok true
unfolding equal_json equal_from same_by compare_types every_part compare_numbers decimal is_number
    groups number_of digits_number front_digits compare_first compare_with compare_fractions ◌-ℤ◌
    parse_json read_value skip_space expect read_string string_move behind read_number
equal_numbers = refl

equal_nested : equal_json (codes "[1.0]") (codes "[1]") ≡ ok false
unfolding equal_json equal_from same_by compare_types every_part compare_numbers decimal is_number
    groups number_of digits_number front_digits compare_first compare_with compare_fractions ◌-ℤ◌
    text_eq unique includes add_to parse_json read_value skip_space expect read_string string_move
    behind read_number trim trim_start trim_end parts cut_from scan_move drop_last entries match_key
    key_move parameter_values starts_with array_index put_member ordered_from value_of entries_of
    object_of
equal_nested = refl

accepted_age : validate_parameters (age ∷ []) (codes "{\"age\": 120.0}") ≡ []
unfolding validate_parameters parameter_error value_check number_check choice_check some_choice
    limit_check caught unknown_name first_error is_whole parameter_choices compare_numbers decimal
    is_number groups number_of digits_number front_digits compare_first compare_with
    compare_fractions ◌-ℤ◌ text_eq unique includes add_to parse_json read_value skip_space expect
    read_string string_move behind read_number trim trim_start trim_end parts cut_from scan_move
    drop_last entries match_key key_move parameter_values starts_with array_index put_member
    ordered_from value_of entries_of object_of
accepted_age = refl

refused_age : validate_parameters (age ∷ []) (codes "{\"age\": 121}") ≡ codes "age: Maximum: 1.2e2."
unfolding validate_parameters parameter_error value_check number_check choice_check some_choice
    limit_check caught unknown_name first_error is_whole parameter_choices compare_numbers decimal
    is_number groups number_of digits_number front_digits compare_first compare_with
    compare_fractions ◌-ℤ◌ text_eq unique includes add_to parse_json read_value skip_space expect
    read_string string_move behind read_number trim trim_start trim_end parts cut_from scan_move
    drop_last entries match_key key_move parameter_values starts_with array_index put_member
    ordered_from value_of entries_of object_of
refused_age = refl

-- A name that no parameter has is refused, unless the empty name stands in front of it.
refused_unknown :
    validate_parameters (age ∷ []) (codes "{\"age\": 1, \"bogus\": 2}")
    ≡ codes "Unknown parameter: bogus. Remove it or check the template."
unfolding validate_parameters parameter_error value_check number_check choice_check some_choice
    limit_check caught unknown_name first_error is_whole parameter_choices compare_numbers decimal
    is_number groups number_of digits_number front_digits compare_first compare_with
    compare_fractions ◌-ℤ◌ text_eq unique includes add_to parse_json read_value skip_space expect
    read_string string_move behind read_number trim trim_start trim_end parts cut_from scan_move
    drop_last entries match_key key_move parameter_values starts_with array_index put_member
    ordered_from value_of entries_of object_of
refused_unknown = refl

accepted_unknown : validate_parameters (age ∷ []) (codes "{\"age\": 1, \"\": 3, \"bogus\": 2}") ≡ []
unfolding validate_parameters parameter_error value_check number_check choice_check some_choice
    limit_check caught unknown_name first_error is_whole parameter_choices compare_numbers decimal
    is_number groups number_of digits_number front_digits compare_first compare_with
    compare_fractions ◌-ℤ◌ text_eq unique includes add_to parse_json read_value skip_space expect
    read_string string_move behind read_number trim trim_start trim_end parts cut_from scan_move
    drop_last entries match_key key_move parameter_values starts_with array_index put_member
    ordered_from value_of entries_of object_of
accepted_unknown = refl

validate_parameters_iff_example :
    (validate_parameters (age ∷ []) (codes "{\"age\": 1, \"\": 3, \"bogus\": 2}") ≡ []) ↔ (
      (vs : List (Text × Text)) × (parameter_values (codes "{\"age\": 1, \"\": 3, \"bogus\": 2}")
        ≡ ok vs)
      × NoneUnknown (unknown_name (age ∷ []) vs)
      × AllAccepted (age ∷ []) vs)
validate_parameters_iff_example =
    validate_parameters_iff (age ∷ []) (codes "{\"age\": 1, \"\": 3, \"bogus\": 2}")

parse_age : parse_json (codes "120.0") ≡ some (num (codes "120.0"))
unfolding parse_json read_value skip_space expect read_string string_move behind read_number
parse_age = refl

error_age : parameter_error age (some (codes "120.0")) ≡ []
unfolding parameter_error value_check number_check choice_check some_choice limit_check caught
    unknown_name first_error is_whole parameter_choices compare_numbers decimal is_number groups
    number_of digits_number front_digits compare_first compare_with compare_fractions ◌-ℤ◌ text_eq
    unique includes add_to parse_json read_value skip_space expect read_string string_move behind
    read_number trim trim_start trim_end parts cut_from scan_move drop_last entries match_key
    key_move parameter_values starts_with array_index put_member ordered_from value_of entries_of
    object_of
error_age = refl

parameter_error-InRange_example : InRange age (codes "120.0")
unfolding trim trim_start trim_end
parameter_error-InRange_example =
    parameter_error-InRange age (codes "120.0") (codes "120.0") parse_age error_age

equal_json_unique_example :
    equal_json (codes "[1.0]") (codes "[1]") ≡ compare_json false (codes "[1.0]") (codes "[1]")
equal_json_unique_example =
    equal_json_unique compare_json compare_json-IsComparison (codes "[1.0]") (codes "[1]")

abbrev two_values : List (Text × Text)
two_values = (codes "id", codes "9007199254740993") ∷ (codes "a,b", codes "[1.50, \"}\"]") ∷ []

id_IsMember : IsMember (codes "id") (codes "9007199254740993")
unfolding trim_start trim_end scan_run scan_move
id_IsMember = record {
  units = ground arith;
  trimmed = record { at_start = refl; at_end = refl };
  filled = λ e. ground arith;
  unbroken = refl;
}

pair_IsMember : IsMember (codes "a,b") (codes "[1.50, \"}\"]")
unfolding trim_start trim_end scan_run scan_move
pair_IsMember = record {
  units = ground arith;
  trimmed = record { at_start = refl; at_end = refl };
  filled = λ e. ground arith;
  unbroken = refl;
}

names-Distinct : Distinct (names two_values)
names-Distinct = ground arith

two_values_ordered : ordered_from [] two_values ≡ two_values
unfolding ordered_from put_member array_index
two_values_ordered = refl

two_values_parsed : parse_json (parameter_json two_values) ≢ none
unfolding parse_json read_value skip_space expect read_string string_move behind read_number
    parameter_json join join_behind member_line quote_text escape_from unit_text escape_code
two_values_parsed e = ground (arith, e)

parameter_values-parameter_json_example :
    parameter_values (parameter_json two_values) ≡ ok two_values
parameter_values-parameter_json_example =
    parameter_values-parameter_json two_values (id_IsMember, (pair_IsMember, tt)) names-Distinct
      two_values_ordered two_values_parsed

twelve-CanKeep : CanKeep (codes "integer") (codes "12")
unfolding parse_json read_value skip_space read_number trim_start trim_end scan_run scan_move
twelve-CanKeep =
    inr ((λ h. ground (arith, h.1)), inr (record { at_start = refl; at_end = refl }, refl))

updated_parsed :
    parse_json
      (update_value (codes "id") (some (typed_value (codes "integer") (codes "12"))) two_values)
    ≢ none
unfolding update_value set_value replace_value typed_value editable_json text_eq parse_json
    read_value skip_space expect read_string string_move behind read_number parameter_json join
    join_behind member_line quote_text escape_from unit_text escape_code
updated_parsed e = ground (arith, e)

-- What is stored of a number loses the white space behind it.
stored_space :
    parameter_values (
      update_value
        (codes "age")
        (some (typed_value (codes "integer") (codes "2 ")))
        (age_value (codes "1")))
    ≡ ok (age_value (codes "2"))
unfolding update_value set_value replace_value typed_value editable_json text_eq unique includes
    add_to parse_json read_value skip_space expect read_string string_move behind read_number trim
    trim_start trim_end parts cut_from scan_move drop_last entries match_key key_move
    parameter_values starts_with array_index put_member ordered_from value_of entries_of object_of
    parameter_json join join_behind member_line quote_text escape_from unit_text escape_code
stored_space = refl

abbrev twelve : Text
twelve = update_value (codes "id") (some (typed_value (codes "integer") (codes "12"))) two_values

parameter_values-update_value_example :
    (after : List (Text × Text)) × (parameter_values twelve ≡ ok after)
    × ((raw : Text) × (value_of after (codes "id") ≡ some raw)
        × (parse_json raw ≢ none)
        × (display raw ≡ codes "12"))
    × ((other : Text) → codes "id" ≢ other → value_of after other ≡ value_of two_values other)
parameter_values-update_value_example =
    parameter_values-update_value two_values (codes "id") (codes "integer") (codes "12")
      (ground arith) (ground arith) (id_IsMember, (pair_IsMember, tt)) names-Distinct
      two_values_ordered twelve-CanKeep updated_parsed
