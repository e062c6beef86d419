-- ===== src/Draft/Http.antt =====
-- httpTemplate of web/src/http-template.ts: a query template for an operation of a web service.
use context_gate.Base.{
  ℕ, Text, codes, Bool, true, false, ◌||◌, List, [], ◌∷◌, ◌++◌, map, filter, any, Option, none,
  some, if◌then◌else◌, ◌==◌, text_eq, or_text, truthy?, Result, ok, throw,
}
use context_gate.JsonText.{quote_text}
use context_gate.Parameters.Values.{parameter_values, parameter_json, value_of, join}
use context_gate.Draft.{Values, set_value}
use context_gate.Semantics.{SemanticParameter, QueryTemplate}
use context_gate.Types.{HttpOperation, HttpParameter, HttpColumn}

-- `text.replaceAll(sign, by)` for one code unit
unfoldable pub replace_all : ℕ → Text → Text → Text
replace_all sign by [] = []
replace_all sign by (c ∷ s) =
    let rest = replace_all sign by s in if c == sign then by ++ rest else c ∷ rest

unfoldable pub pointer_of : Text → Text
pointer_of name =
    codes "/named_params/" ++ replace_all 47 (codes "~1") (replace_all 126 (codes "~0") name)

abbrev pub given_list {ℓ} : {A : Type ℓ} → Option (List A) → List A
given_list none = []
given_list (some xs) = xs

abbrev pub is_given : Option Text → Bool
is_given none = false
is_given (some _) = true

-- An optional parameter without an example or a default is left out.
unfoldable pub kept_parameters : Values → List HttpParameter → List HttpParameter
kept_parameters examples ps =
    filter
      (λ p.
        HttpParameter.required p
        || (is_given (value_of examples (HttpParameter.name p))
            || truthy? (HttpParameter.default_json p)))
      ps

zero_literal : Text → Text
zero_literal type =
    if text_eq type (codes "string")
    then codes "\"\""
    else if text_eq type (codes "boolean")
    then codes "false"
    else codes "0"

-- `a ?? b ?? c`
abbrev first_given : Option Text → Option Text → Text → Text
first_given (some v) b c = v
first_given none (some v) c = v
first_given none none c = c

unfoldable pub fixed_values : Values → List HttpParameter → Values → Values
unfolding zero_literal
fixed_values examples [] fixed = fixed
fixed_values examples (p ∷ ps) fixed = fixed_values examples ps (
    set_value p.name (first_given (value_of examples p.name) p.default_json (zero_literal p.type))
      fixed)

unfoldable pub template_parameter : HttpParameter → SemanticParameter
template_parameter p = record {
  name = p.name;
  description = none;
  type = p.type;
  required = p.required;
  pointers = pointer_of p.name ∷ [];
  default_json = p.default_json;
  enum_json = p.enum_json;
  minimum = p.minimum;
  maximum = p.maximum;
}

unfoldable pub named_members : List HttpParameter → Values → Values
named_members ps [] = []
named_members ps ((k, v) ∷ vs) =
    let rest = named_members ps vs in
    if any (λ p. text_eq (HttpParameter.name p) k) ps then (k, v) ∷ rest else rest

column_line : HttpColumn → Text
column_line c = c.name ++ (codes ": " ++ c.type)

template_of : HttpOperation → Values → QueryTemplate
template_of op examples =
    let ps = kept_parameters examples (given_list op.parameters) in
    record {
      tests = none;
      concept_refs = none;
      enabled = true;
      tool = codes "query_http_api";
      query_json = parameter_json (
          (codes "operation", quote_text op.id)
          ∷ (codes "named_params", parameter_json (fixed_values examples ps []))
          ∷ []);
      parameters = map template_parameter ps;
      example_json = parameter_json (named_members ps examples);
      result_description = some (join (codes "\n") (map column_line (given_list op.columns)));
      execution_version = none;
    }

template_from : HttpOperation → Result Values → Result QueryTemplate
template_from op (throw e) = throw e
template_from op (ok examples) = ok (template_of op examples)

unfoldable pub http_template : HttpOperation → Result QueryTemplate
unfolding template_from template_of column_line
http_template op = template_from op (parameter_values (or_text (some op.example_json) (codes "{}")))
