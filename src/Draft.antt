-- ===== src/Draft.antt =====
-- What a query's draft is made of: nativeTemplateQuery and suggestedParameters of
-- web/src/query-publishing.ts, httpTemplate of web/src/http-template.ts, queryPayload of
-- web/src/query.ts and templatePayload of web/src/semantic-types.ts. `t` is the identity here.
pub mod Examples
pub mod Suggestions
pub mod Http
pub mod Pointers
pub mod Page
pub mod Tests
use context_gate.Base.{
  ℕ, ◌+◌, Text, codes, Bool, true, false, not, ◌&&◌, ◌||◌, List, [], ◌∷◌, ◌++◌, map, Option, none,
  some, if◌then◌else◌, ◌==◌, leb, length, any, text_eq, includes, Result, ok, throw, error,
  syntax_error,
}
use context_gate.Editor.{decimal, fresh_id}
use context_gate.Json.{Json, null, bool, num, str, arr, obj}
use context_gate.JsonText.{parse_json, quote_text, is_digit}
use context_gate.Parameters.Values.{
  parameter_values, parameter_json, parameter_at, split_slash, pointer_key, put_member,
}
use context_gate.Parameters.Check.{type_name}
use context_gate.Semantics.{SemanticParameter, SemanticEntry, QueryTemplate}

abbrev pub Values : Type 0
Values = List (Text × Text)

-- `delete values[name]`
unfoldable pub erase : Text → Values → Values
erase name [] = []
erase name ((k, v) ∷ vs) =
    let rest = erase name vs in if text_eq k name then rest else (k, v) ∷ rest

unfoldable pub erase_all : List Text → Values → Values
erase_all [] vs = vs
erase_all (name ∷ more) vs = erase_all more (erase name vs)

-- The members that the gateway adds to a query.
abbrev pub call_members : List Text
call_members =
    codes "source_id"
    ∷ codes "agent_id"
    ∷ codes "tool"
    ∷ codes "cursor"
    ∷ codes "max_rows"
    ∷ codes "max_bytes"
    ∷ codes "timeout_seconds"
    ∷ []

native_of : Result Values → Result Text
native_of (throw e) = throw e
native_of (ok vs) = ok (parameter_json (erase_all call_members vs))

unfoldable pub native_template_query : Text → Result Text
unfolding native_of
native_template_query text = native_of (parameter_values text)

-- `values[name] = raw`: a member that is there keeps its place.
unfoldable pub replace_value : Text → Text → Values → Option Values
replace_value name raw [] = none
replace_value name raw ((k, v) ∷ vs) = elim (text_eq k name) [
  | true ↦ some ((k, raw) ∷ vs)
  | false ↦ elim (replace_value name raw vs) [ none ↦ none | some ws ↦ some ((k, v) ∷ ws) ]
]

abbrev or_new : Text → Text → Values → Option Values → Values
or_new name raw vs none = put_member (name, raw) vs
or_new name raw vs (some ws) = ws

unfoldable pub set_value : Text → Text → Values → Values
set_value name raw vs = or_new name raw vs (replace_value name raw vs)

-- `{...vs, ...ws}`
unfoldable pub set_values : Values → Values → Values
set_values vs [] = vs
set_values vs ((k, v) ∷ ws) = set_values (set_value k v vs) ws

-- `update` of web/src/TemplateParameters.tsx: the text that the form hands on.
unfoldable pub update_value : Text → Option Text → Values → Text
update_value name none vs = parameter_json (erase name vs)
update_value name (some raw) vs = parameter_json (set_value name raw vs)

-- `/^-?\d+$/`
unfoldable pub all_digits : Text → Bool
all_digits [] = true
all_digits (c ∷ s) = is_digit c && all_digits s

abbrev some_digits : Text → Bool
some_digits [] = false
some_digits (c ∷ s) = all_digits (c ∷ s)

unfoldable pub spells_integer : Text → Bool
spells_integer [] = false
spells_integer (c ∷ s) = if c == 45 then some_digits s else all_digits (c ∷ s)

unfoldable pub suggested_type : Json → Text → Text
suggested_type (num n) raw = if spells_integer raw then codes "integer" else codes "number"
suggested_type v raw = type_name v

abbrev pub letter_code : ℕ → Bool
letter_code c = (leb 65 c && leb c 90) || (leb 97 c && leb c 122)

abbrev pub word_code : ℕ → Bool
word_code c = letter_code c || (is_digit c || (c == 95))

-- `.split("/").at(-1)!`
abbrev pub last_of : List Text → Text
last_of [] = []
last_of (s ∷ []) = s
last_of (s ∷ t ∷ ss) = last_of (t ∷ ss)

starts_letter : Text → Bool
starts_letter [] = false
starts_letter (c ∷ s) = letter_code c

unfoldable pub slot_word : Text → Text
slot_word slot = map (λ c. if word_code c then c else 95) (pointer_key (last_of (split_slash slot)))

unfoldable pub suggested_base : Text → ℕ → Text
unfolding starts_letter
suggested_base slot count =
    if starts_letter (slot_word slot)
    then slot_word slot
    else codes "parameter_" ++ decimal (count + 1)

abbrev pub parameter_names : List SemanticParameter → List Text
parameter_names ps = map (λ p. SemanticParameter.name p) ps

abbrev found_or : Text → Option Text → Text
found_or base none = base
found_or base (some name) = name

-- The loop's name; the base stands for a loop that would run out of fuel.
unfoldable pub suggested_name : Text → List SemanticParameter → Text
suggested_name slot ps =
    let base = suggested_base slot (length ps) in
    found_or base (fresh_id 95 base (parameter_names ps))

abbrev pub suggested : Text → Text → Text → SemanticParameter
suggested name type slot = record {
  name = name;
  description = none;
  type = type;
  required = true;
  pointers = slot ∷ [];
  default_json = none;
  enum_json = none;
  minimum = none;
  maximum = none;
}

unfoldable pub has_slot : List SemanticParameter → Text → Bool
has_slot ps slot = any (λ p. includes (SemanticParameter.pointers p) slot) ps

-- One slot that no parameter has yet: the parameters and the examples with its own.
typed_slot :
    Text
    → Text
    → Option Json
    → List SemanticParameter × Values
    → Result (List SemanticParameter × Values)
typed_slot slot raw none (ps, ex) = throw syntax_error
typed_slot slot raw (some v) (ps, ex) =
    let name = suggested_name slot ps in
    ok (ps ++ suggested name (suggested_type v raw) slot ∷ [], set_value name raw ex)

read_slot :
    Text → Result Text → List SemanticParameter × Values → Result (List SemanticParameter × Values)
read_slot slot (throw e) st = throw e
read_slot slot (ok raw) st = typed_slot slot raw (parse_json raw) st

unfoldable pub add_slot :
    List SemanticParameter
    → Text
    → Text
    → List SemanticParameter × Values
    → Result (List SemanticParameter × Values)
unfolding read_slot typed_slot
add_slot existing query slot st =
    if has_slot existing slot then ok st else read_slot slot (parameter_at query slot) st

unfoldable pub add_slots :
    List SemanticParameter
    → Text
    → List Text
    → List SemanticParameter × Values
    → Result (List SemanticParameter × Values)
add_slots existing query [] st = ok st
add_slots existing query (slot ∷ slots) st = elim (add_slot existing query slot st) [
  | throw e ↦ throw e
  | ok st' ↦ add_slots existing query slots st'
]

unfoldable pub suggested_parameters :
    Text → List Text → List SemanticParameter → Result (List SemanticParameter × Values)
suggested_parameters query slots existing = add_slots existing query slots (existing, [])

-- A payload that holds the text as it was given.
object_payload : Text → Option Json → Text → Result Text
object_payload message (some (obj fs)) payload = ok payload
object_payload message (some _) payload = throw (error message)
object_payload message none payload = throw syntax_error

unfoldable pub query_payload : Text → Text → Text → Text → Text → Result Text
unfolding object_payload
query_payload text source operation agent cursor =
    object_payload (codes "Query parameters must be a JSON object.") (parse_json text) (
      codes "{\"source_id\":"
      ++ (quote_text source
          ++ (codes ",\"operation\":"
              ++ (quote_text operation
                  ++ (codes ",\"agent_id\":"
                      ++ (quote_text agent
                          ++ (codes ",\"cursor\":"
                              ++ (quote_text cursor
                                  ++ (codes ",\"query\":" ++ (text ++ codes "}"))))))))))

-- `JSON.stringify(undefined)` in a template text
abbrev quote_optional : Option Text → Text
quote_optional none = codes "undefined"
quote_optional (some s) = quote_text s

abbrev version_of : Option QueryTemplate → Option Text
version_of none = none
version_of (some template) = template.execution_version

unfoldable pub template_payload : Text → SemanticEntry → Text → Text → Text → Result Text
unfolding object_payload
template_payload source entry parameters agent cursor =
    object_payload (codes "Parameters must be a JSON object.") (parse_json parameters) (
      codes "{\"source_id\":"
      ++ (quote_text source
          ++ (codes ",\"template_id\":"
              ++ (quote_text entry.id
                  ++ (codes ",\"execution_version\":"
                      ++ (quote_optional (version_of entry.template)
                          ++ (codes ",\"agent_id\":"
                              ++ (quote_text agent
                                  ++ (codes ",\"cursor\":"
                                      ++ (quote_text cursor
                                          ++ (codes ",\"parameters\":"
                                              ++ (parameters ++ codes "}"))))))))))))
