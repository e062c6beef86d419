-- ===== src/Parameters/Form.antt =====
-- web/src/TemplateParameters.tsx: the form of the parameters' values, over the JSON text that it edits.
-- Its `update` is `update_value` of Draft.
mod Assigned
pub mod Ordered
pub mod Setting
pub mod Typing
use context_gate.Base.{
  Text, codes, Bool, true, false, not, ◌&&◌, ◌||◌, List, [], ◌∷◌, ◌++◌, Option, none, some,
  if◌then◌else◌, any, text_eq, truthy, truthy?, Result, ok, throw,
}
use context_gate.Json.{Json, null, bool, num, str, arr, obj}
use context_gate.JsonText.{parse_json, quote_text}
use context_gate.Parameters.Values.{parameter_values, parameter_json, join}
use context_gate.Semantics.{SemanticParameter}

-- The names that no parameter has.
unfoldable pub unknown_names : List SemanticParameter → List (Text × Text) → List Text
unknown_names ps [] = []
unknown_names ps ((k, v) ∷ vs) =
    let rest = unknown_names ps vs in
    if any (λ p. text_eq (SemanticParameter.name p) k) ps then rest else k ∷ rest

unknown_error : List Text → Text
unknown_error [] = []
unknown_error (k ∷ ks) =
    codes "Unknown parameters: "
    ++ (join (codes ", ") (k ∷ ks) ++ codes ". Edit JSON to remove them.")

read_form : List SemanticParameter → Result (List (Text × Text)) → List (Text × Text) × Text
read_form ps (throw e) = ([], codes "Fix the JSON before returning to the form.")
read_form ps (ok vs) = (vs, unknown_error (unknown_names ps vs))

-- `values` and `parseError`
unfoldable pub form_values : List SemanticParameter → Text → List (Text × Text) × Text
unfolding read_form unknown_error
form_values ps value = read_form ps (parameter_values value)

unfoldable pub json_mode : Bool → Text → Bool
json_mode advanced parse_error = advanced || truthy parse_error

-- What an input shows of a value.
unfoldable pub display : Text → Text
display raw = elim (parse_json raw) [ some (str s) ↦ s | _ ↦ raw ]

-- `editableJSON`, and the text that an input's change stores.
unfoldable pub editable_json : Text → Text
editable_json text = elim (parse_json text) [ none ↦ quote_text text | some v ↦ text ]

unfoldable pub typed_value : Text → Text → Text
typed_value type text =
    if text_eq type (codes "string") then quote_text text else editable_json text

zero_value : Text → Text
zero_value type =
    if text_eq type (codes "string")
    then codes "\"\""
    else if text_eq type (codes "boolean")
    then codes "false"
    else if text_eq type (codes "object")
    then codes "{}"
    else if text_eq type (codes "array")
    then codes "[]"
    else if text_eq type (codes "null")
    then codes "null"
    else codes "0"

first_choice : Text → List Text → Text
first_choice type [] = zero_value type
first_choice type (c ∷ cs) = if truthy c then c else zero_value type

default_or : Option Text → Text → Text
default_or none other = other
default_or (some []) other = other
default_or (some (c ∷ s)) other = c ∷ s

-- The value that the box of an optional parameter includes.
unfoldable pub included_value : SemanticParameter → List Text → Text
unfolding zero_value first_choice default_or
included_value p choices = default_or p.default_json (first_choice p.type choices)
