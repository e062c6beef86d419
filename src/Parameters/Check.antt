-- ===== src/Parameters/Check.antt =====
-- `parameterError` and `validateParameters`: a check gives a message, which is empty where nothing
-- is wrong, or throws; both functions turn what is thrown into a message.
pub mod Verdict
pub mod Range
use context_gate.Base.{
  ℕ, ◌+◌, ◌%◌, ◌*◌, Text, codes, Bool, true, false, not, ◌&&◌, ◌||◌, List, [], ◌∷◌, ◌++◌, Option,
  none, some, if◌then◌else◌, ◌==◌, any, find, text_eq, truthy, truthy?, Thrown, error, syntax_error,
  type_error, Result, ok, throw,
}
use context_gate.Base.Int.{ℤ, pos, negsuc, pos_part, neg_part, ltb_ℤ, ◌+ℤ◌}
use context_gate.Json.{Json, null, bool, num, str, arr, obj}
use context_gate.JsonText.{parse_json}
use context_gate.Parameters.{trim}
use context_gate.Parameters.Values.{parameter_values, parameter_choices, value_of}
use context_gate.Parameters.Numbers.{Fraction, decimal, compare_numbers}
use context_gate.Parameters.Equality.{equal_json}
use context_gate.Semantics.{SemanticParameter}

abbrev pub type_name : Json → Text
type_name null = codes "null"
type_name (bool _) = codes "boolean"
type_name (num _) = codes "number"
type_name (str _) = codes "string"
type_name (arr _) = codes "array"
type_name (obj _) = codes "object"

abbrev pub is_integer : SemanticParameter → Bool
is_integer p = text_eq p.type (codes "integer")

abbrev pub json_type : SemanticParameter → Text
json_type p = if is_integer p then codes "number" else p.type

-- The next check, where nothing is wrong so far.
infixr 20 ◌&then◌
abbrev pub ◌&then◌ : Result Text → Result Text → Result Text
throw e &then next = throw e
ok [] &then next = next
ok (c ∷ s) &then next = ok (c ∷ s)

-- `n % d !== 0n`
unfoldable pub is_whole : Fraction → Bool
is_whole (n, d) = (pos_part n + neg_part n) % d == 0

limit_message : Text → Text → Bool → Result Text
limit_message word limit true = ok (word ++ (codes ": " ++ (limit ++ codes ".")))
limit_message word limit false = ok []

limit_by : Text → Text → (ℤ → Bool) → Result ℤ → Result Text
limit_by word limit beyond (throw e) = throw e
limit_by word limit beyond (ok d) = limit_message word limit (beyond d)

-- A limit that is not given, or empty, is none.
unfoldable pub limit_check : Text → (ℤ → Bool) → Text → Option Text → Result Text
unfolding limit_by limit_message
limit_check word beyond raw none = ok []
limit_check word beyond raw (some limit) =
    if truthy limit then limit_by word limit beyond (compare_numbers raw limit) else ok []

abbrev pub is_negative : ℤ → Bool
is_negative d = ltb_ℤ d (pos 0)

abbrev pub is_positive : ℤ → Bool
is_positive d = ltb_ℤ (pos 0) d

range_check : SemanticParameter → Text → Result Fraction → Result Text
range_check p raw (throw e) = throw e
range_check p raw (ok q) =
    (if is_integer p && not (is_whole q) then ok (codes "Enter a whole number.") else ok [])
    &then limit_check (codes "Minimum") is_negative raw p.minimum
    &then limit_check (codes "Maximum") is_positive raw p.maximum

abbrev pub is_num : Json → Bool
is_num (num _) = true
is_num _ = false

unfoldable pub number_check : SemanticParameter → Text → Json → Result Text
unfolding range_check
number_check p raw v = if is_num v then range_check p raw (decimal raw) else ok []

-- `choices.some(…)`
either_choice : Result Bool → Result Bool → Result Bool
either_choice (throw e) rest = throw e
either_choice (ok true) rest = ok true
either_choice (ok false) rest = rest

unfoldable pub some_choice : Text → List Text → Result Bool
unfolding either_choice
some_choice raw [] = ok false
some_choice raw (c ∷ cs) = either_choice (equal_json c raw) (some_choice raw cs)

chosen : Result Bool → Result Text
chosen (throw e) = throw e
chosen (ok true) = ok []
chosen (ok false) = ok (codes "Choose one of the allowed values.")

unfoldable pub choice_check : Text → Result (List Text) → Result Text
unfolding chosen
choice_check raw (throw e) = throw e
choice_check raw (ok []) = ok []
choice_check raw (ok (c ∷ cs)) = chosen (some_choice raw (c ∷ cs))

type_check : SemanticParameter → Json → Result Text
type_check p v =
    if text_eq (type_name v) (json_type p)
    then ok []
    else ok (codes "Enter a value of type " ++ (p.type ++ codes "."))

unfoldable pub value_check : SemanticParameter → Text → Option Json → Result Text
unfolding type_check
value_check p raw none = throw syntax_error
value_check p raw (some v) =
    type_check p v
    &then number_check p (trim raw) v
    &then choice_check (trim raw) (parameter_choices p)

-- The `catch`; `syntax` is the message for a `SyntaxError`.
unfoldable pub caught : Text → Result Text → Text
caught syntax (ok s) = s
caught syntax (throw syntax_error) = syntax
caught syntax (throw (error s)) = s
caught syntax (throw type_error) = codes "Cannot read properties of null"

unfoldable pub parameter_error : SemanticParameter → Option Text → Text
parameter_error p none =
    if p.required && not (truthy? p.default_json) then codes "This parameter is required." else []
parameter_error p (some raw) =
    caught (codes "Enter valid " ++ (json_type p ++ codes " JSON."))
      (value_check p raw (parse_json raw))

-- The first name that no parameter has.
unfoldable pub unknown_name : List SemanticParameter → List (Text × Text) → Option Text
unknown_name ps [] = none
unknown_name ps ((k, v) ∷ vs) =
    if any (λ p. text_eq (SemanticParameter.name p) k) ps then unknown_name ps vs else some k

named_error : Text → Text → Text → Text
named_error name [] rest = rest
named_error name (c ∷ s) rest = name ++ (codes ": " ++ c ∷ s)

unfoldable pub first_error : List SemanticParameter → List (Text × Text) → Text
unfolding named_error
first_error [] vs = []
first_error (p ∷ ps) vs =
    named_error p.name (parameter_error p (value_of vs p.name)) (first_error ps vs)

validate_names : List SemanticParameter → List (Text × Text) → Option Text → Text
validate_names ps vs none = first_error ps vs
validate_names ps vs (some []) = first_error ps vs
validate_names ps vs (some (c ∷ s)) =
    codes "Unknown parameter: " ++ ((c ∷ s) ++ codes ". Remove it or check the template.")

validate_object : List SemanticParameter → Result (List (Text × Text)) → Result Text
validate_object ps (throw e) = throw e
validate_object ps (ok vs) = ok (validate_names ps vs (unknown_name ps vs))

unfoldable pub validate_parameters : List SemanticParameter → Text → Text
unfolding validate_object validate_names
validate_parameters ps text =
    caught (codes "Enter a valid JSON object.") (validate_object ps (parameter_values text))
