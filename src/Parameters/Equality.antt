-- ===== src/Parameters/Equality.antt =====
-- `equalJSON`: numbers by value at the top and by their text below it, all else by structure. The
-- fuel is a level more than the length of the first text.
pub mod Recursion
use context_gate.Base.{
  ℕ, zero, suc, ◌+◌, Text, Bool, true, false, not, ◌&&◌, ◌||◌, List, [], ◌∷◌, Option, none, some,
  if◌then◌else◌, ◌==◌, length, text_eq, Result, ok, throw, syntax_error, type_error,
}
use context_gate.Base.Int.{ℤ, pos, negsuc}
use context_gate.Json.{Json, null, bool, num, str, arr, obj}
use context_gate.JsonText.{parse_json}
use context_gate.Parameters.{parts, is_zero}
use context_gate.Parameters.Values.{parameter_values, value_of}
use context_gate.Parameters.Numbers.{compare_numbers}

-- What is left to compare, once the types agree.
pub data Comparison : Type 0 where
  decided : Bool → Comparison
  of_numbers of_arrays of_objects : Comparison

bool_eq : Bool → Bool → Bool
bool_eq true b = b
bool_eq false b = not b

unfoldable pub compare_types : Json → Json → Comparison
unfolding bool_eq
compare_types (num _) (num _) = of_numbers
compare_types (str a) (str b) = decided (text_eq a b)
compare_types (bool a) (bool b) = decided (bool_eq a b)
compare_types null null = decided true
compare_types (arr _) (arr _) = of_arrays
compare_types (obj _) (obj _) = of_objects
compare_types _ _ = decided false

abbrev parsed_pair : Option Json → Option Json → Result Comparison
parsed_pair none b = throw syntax_error
parsed_pair (some a) none = throw syntax_error
parsed_pair (some a) (some b) = ok (compare_types a b)

abbrev is_zero_result : Result ℤ → Result Bool
is_zero_result (throw e) = throw e
is_zero_result (ok d) = ok (is_zero d)

-- `&&` on results
abbrev pub both : Result Bool → Result Bool → Result Bool
both (throw e) b = throw e
both (ok false) b = ok false
both (ok true) b = b

module _ (same : Text → Text → Result Bool) where
  unfoldable pub every_part : List Text → List Text → Result Bool
  every_part [] bs = ok true
  every_part (a ∷ as') [] = throw syntax_error
  every_part (a ∷ as') (b ∷ bs) = both (same a b) (every_part as' bs)

  same_member : Text → Option Text → Result Bool
  same_member v none = ok false
  same_member v (some w) = same v w

  unfoldable pub every_member : List (Text × Text) → List (Text × Text) → Result Bool
  unfolding same_member
  every_member [] bs = ok true
  every_member ((k, v) ∷ vs) bs = both (same_member v (value_of bs k)) (every_member vs bs)

  same_arrays : Result (List Text) → Result (List Text) → Result Bool
  same_arrays (throw e) b = throw e
  same_arrays (ok as') (throw e) = throw e
  same_arrays (ok as') (ok bs) = if length as' == length bs then every_part as' bs else ok false

  same_objects : Result (List (Text × Text)) → Result (List (Text × Text)) → Result Bool
  same_objects (throw e) b = throw e
  same_objects (ok vs) (throw e) = throw e
  same_objects (ok vs) (ok ws) = if length vs == length ws then every_member vs ws else ok false

  unfoldable pub same_by : Bool → Text → Text → Result Comparison → Result Bool
  unfolding same_arrays same_objects
  same_by nested a b (throw e) = throw e
  same_by nested a b (ok (decided r)) = ok r
  same_by nested a b (ok of_numbers) =
      if nested then ok (text_eq a b) else is_zero_result (compare_numbers a b)
  same_by nested a b (ok of_arrays) = same_arrays (parts a) (parts b)
  same_by nested a b (ok of_objects) = same_objects (parameter_values a) (parameter_values b)

-- `type_error` says that the fuel ran out.
unfoldable pub equal_from : ℕ → Bool → Text → Text → Result Bool
equal_from zero nested a b = throw type_error
equal_from (suc fuel) nested a b =
    same_by (equal_from fuel true) nested a b (parsed_pair (parse_json a) (parse_json b))

unfoldable pub equal_json : Text → Text → Result Bool
equal_json a b = equal_from (length a + 1) false a b
