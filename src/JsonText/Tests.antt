-- ===== src/JsonText/Tests.antt =====
-- Runs of `JSON.parse` and `JSON.stringify`.
use context_gate.Base.{◌≡◌, refl, codes, true, [], ◌∷◌, some, none}
use context_gate.Json.{null, num, str, arr, obj, bool, nil, cons, end, field}
use context_gate.JsonText.{parse_json, quote_text}

parse_object :
    parse_json (codes " {\"id\": -1.50e3, \"tags\": [true, null]} ")
    ≡ some (
        obj (
          field
            (codes "id")
            (num (codes "-1.50e3"))
            (field (codes "tags") (arr (cons (bool true) (cons null nil))) end)))
unfolding parse_json context_gate.JsonText.read_value context_gate.JsonText.skip_space
    context_gate.JsonText.expect context_gate.JsonText.read_string context_gate.JsonText.string_move
    context_gate.JsonText.behind context_gate.JsonText.read_number
parse_object = refl

parse_broken : parse_json (codes "{\"id\": 01}") ≡ none
unfolding parse_json context_gate.JsonText.read_value context_gate.JsonText.skip_space
    context_gate.JsonText.expect context_gate.JsonText.read_string context_gate.JsonText.string_move
    context_gate.JsonText.behind context_gate.JsonText.read_number
parse_broken = refl

parse_escapes : parse_json (codes "\"a\\u0041\\n\"") ≡ some (str (97 ∷ 65 ∷ 10 ∷ []))
unfolding parse_json context_gate.JsonText.read_value context_gate.JsonText.skip_space
    context_gate.JsonText.read_string context_gate.JsonText.string_move
parse_escapes = refl

-- A lone high surrogate is written as an escape, a pair as it is.
quote_surrogates :
    quote_text (55357 ∷ 56832 ∷ 55357 ∷ 34 ∷ []) ≡ 34 ∷ 55357 ∷ 56832 ∷ codes "\\ud83d\\\"\""
unfolding quote_text context_gate.JsonText.escape_from context_gate.JsonText.unit_text
    context_gate.JsonText.escape_code
quote_surrogates = refl
