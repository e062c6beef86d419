-- ===== src/Parameters/Form/Typing.antt =====
-- What is typed into an input, stored as the JSON text of all values, and read back for the input.
use mathlib.Core.Path.{subst}
use context_gate.Base.{
  ◌≡◌, ◌≢◌, refl, ap, ◌∙◌, ◌⊎◌, inl, inr, arith, ◌<◌, Text, codes, false, List, [], ◌∷◌, ◌++◌,
  Option, none, some, All, Distinct, text_eq, text_eq_iff, Bool-cases, ok,
}
use context_gate.Json.{Json, null, bool, num, str, arr, obj}
use context_gate.JsonText.{parse_json, read_value, skip_space, quote_text, escape_from}
use context_gate.Parameters.Split.{IsTrimmed, IsWhole, trim_end-concat, trim_start-solid}
use context_gate.Parameters.Lines.{quote_text-IsWhole}
use context_gate.Parameters.Values.{names, ordered_from, value_of, parameter_values, parameter_json}
use context_gate.Parameters.RoundTrip.{
  IsMember, AllMembers, parse_json-quote_text, parameter_values-parameter_json,
}
use context_gate.Draft.{update_value}
use context_gate.Parameters.Form.{display, editable_json, typed_value}
use context_gate.Parameters.Form.Assigned.{assign_value, set_value-assign_value}
use context_gate.Parameters.Form.Ordered.{ordered_from-assign_value}
use context_gate.Parameters.Form.Setting.{
  assign_value-Distinct, assign_value-AllMembers, value_of-assign_value,
}

-- A text that is itself a JSON string.
abbrev pub IsStringText : Text → Type 0
IsStringText text = (s : Text) × (parse_json text ≡ some (str s))

-- A text that the input of a parameter of the type can keep: any for a string; for another type one
-- that is no JSON string, and that is not JSON at all or has no white space at its ends and stands
-- in one part.
abbrev pub CanKeep : Text → Text → Type 0
CanKeep type text =
    (type ≡ codes "string")
    ⊎ ((¬ IsStringText text) × ((parse_json text ≡ none) ⊎ (IsTrimmed text × IsWhole text)))

-- The stored value stands for the text: a member's value that is JSON and shown as the text.
record StandsFor (name text raw : Text) : Type 0 where
  member : IsMember name raw
  parsed : parse_json raw ≢ none
  shown : display raw ≡ text

quote_text-IsTrimmed : (text : Text) → IsTrimmed (quote_text text)
unfolding quote_text
quote_text-IsTrimmed text = record {
  at_start = trim_start-solid 34 (escape_from false text ++ 34 ∷ []) refl;
  at_end = trim_end-concat (34 ∷ escape_from false text) 34 refl;
}

parse_json-nil : parse_json [] ≡ none
unfolding parse_json read_value skip_space
parse_json-nil = refl

module _ (name text : Text) (named : All (λ c. c < 65536) name)
    (units : All (λ c. c < 65536) text) where
  quoted : StandsFor name text (quote_text text)
  unfolding display quote_text
  quoted = record {
    member = record {
      units = named;
      trimmed = quote_text-IsTrimmed text;
      filled = λ e. cc;
      unbroken = quote_text-IsWhole text units;
    };
    parsed = λ e. ground (arith, e, parse_json-quote_text text units);
    shown = rw (display, parse_json-quote_text text units) refl;
  }

  shown_as_typed : (v : Json) → parse_json text ≡ some v → ¬ IsStringText text → display text ≡ text
  unfolding display
  shown_as_typed null e n = rw (display, e) refl
  shown_as_typed (bool b) e n = rw (display, e) refl
  shown_as_typed (num d) e n = rw (display, e) refl
  shown_as_typed (str s) e n = absurd (n (s, e))
  shown_as_typed (arr vs) e n = rw (display, e) refl
  shown_as_typed (obj fs) e n = rw (display, e) refl

  kept :
      (v : Json)
      → parse_json text ≡ some v
      → ¬ IsStringText text
      → IsTrimmed text
      → IsWhole text
      → StandsFor name text text
  kept v e n t w = record {
    member = record {
      units = named;
      trimmed = t;
      filled = λ empty. cc (ap parse_json empty, parse_json-nil, e);
      unbroken = w;
    };
    parsed = λ f. cc;
    shown = shown_as_typed v e n;
  }

  editable_json-StandsFor :
      ¬ IsStringText text
      → (parse_json text ≡ none) ⊎ (IsTrimmed text × IsWhole text)
      → StandsFor name text (editable_json text)
  unfolding editable_json
  editable_json-StandsFor n h = go (parse_json text) refl h
    where
      go :
          (o : Option Json)
          → parse_json text ≡ o
          → (parse_json text ≡ none) ⊎ (IsTrimmed text × IsWhole text)
          → StandsFor name text (elim o as (λ _. Text) [ none ↦ quote_text text | some v ↦ text ])
      go none e h = quoted
      go (some v) e (inl gone) = absurd (cc (gone, e))
      go (some v) e (inr (t, w)) = kept v e n t w

  typed_value-StandsFor :
      (type : Text) → CanKeep type text → StandsFor name text (typed_value type text)
  unfolding typed_value
  typed_value-StandsFor type h = elim (Bool-cases (text_eq type (codes "string"))) [
    | inl e ↦ rw e quoted
    | inr e ↦ rw e (elim h [
      | inl s ↦ absurd (cc ((text_eq_iff type (codes "string")).1 s))
      | inr (n, k) ↦ editable_json-StandsFor n k
    ])
  ]

differ : (a b : Text) → a ≢ b → text_eq a b ≡ false
differ a b ne = ground (arith, text_eq_iff a b)

-- A text of code units that the input of the parameter's type can keep is typed for one parameter
-- of a form. The form's values are the members of a JavaScript object (different names, in its
-- order, each value in one part without white space at its ends), and what the form stores is JSON.
-- Then the values that are read back from the stored text hold a JSON value for the parameter, of
-- which the input shows the typed text, and every other parameter has the value that it had.
pub parameter_values-update_value :
    (vs : List (Text × Text)) (name type text : Text)
    → All (λ c. c < 65536) name
    → All (λ c. c < 65536) text
    → AllMembers vs
    → Distinct (names vs)
    → ordered_from [] vs ≡ vs
    → CanKeep type text
    → parse_json (update_value name (some (typed_value type text)) vs) ≢ none
    → (after : List (Text × Text)) × (parameter_values
          (update_value name (some (typed_value type text)) vs)
        ≡ ok after)
      × ((raw : Text) × (value_of after name ≡ some raw)
          × (parse_json raw ≢ none)
          × (display raw ≡ text))
      × ((other : Text) → name ≢ other → value_of after other ≡ value_of vs other)
unfolding update_value
parameter_values-update_value vs name type text named units members d o keeps valid =
    let raw = typed_value type text in
    let same = set_value-assign_value name raw vs d in
    let stands = typed_value-StandsFor name text named units type keeps in
    (
      assign_value vs name raw,
      ap (λ ws. parameter_values (parameter_json ws)) same
          ∙ parameter_values-parameter_json (assign_value vs name raw)
              (assign_value-AllMembers name raw vs stands.member members)
              (assign_value-Distinct name raw vs d) (ordered_from-assign_value name raw vs o)
              (subst (λ ws. parse_json (parameter_json ws) ≢ none) same valid),
      (
        raw,
        rw (value_of-assign_value name raw vs name, (text_eq_iff name name).1 refl) refl,
        stands.parsed,
        stands.shown,
      ),
      λ other ne. value_of-assign_value name raw vs other ∙ (rw (differ name other ne) refl),
    )
