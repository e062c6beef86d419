-- ===== src/Parameters/Check/Verdict.antt =====
-- What `validateParameters` accepts, and what an accepted value is.
use context_gate.Base.{
  ◌≡◌, ◌↔◌, refl, arith, Text, codes, Bool, true, false, List, [], ◌∷◌, Option, none, some,
  if◌then◌else◌, ◌==◌, All, error, syntax_error, type_error, Result, ok, throw, length, unique,
}
use context_gate.Json.{Json, null, bool, num, str, arr, obj}
use context_gate.JsonText.{parse_json}
use context_gate.Parameters.{
  trim, parts, parts_of, entries, entry_of, put_entry, name_in, match_key, opening,
}
use context_gate.Parameters.Values.{
  parameter_values, entries_of, object_of, not_an_object, repeated_name, starts_with, value_of,
  names, ordered_from,
}
use context_gate.Parameters.Check.{
  caught, unknown_name, named_error, first_error, parameter_error, validate_names, validate_object,
  validate_parameters,
}
use context_gate.Semantics.{SemanticParameter}

-- What is thrown has a message.
abbrev pub Speaks {ℓ} : {A : Type ℓ} → Result A → Type 0
Speaks (throw (error [])) = ⊥
Speaks _ = Unit

parts-Speaks : (text : Text) → Speaks (parts text)
unfolding parts
parts-Speaks text = go (parse_json text)
  where
    go : (v : Option Json) → Speaks (parts_of text v)
    go none = tt
    go (some v) = tt

entry_of-Speaks : (k : Option (Text × Text)) → Speaks (entry_of k)
unfolding entry_of name_in
entry_of-Speaks none = tt
entry_of-Speaks (some (k, r)) = go (parse_json k) (trim r)
  where
    go : (v : Option Json) (r : Text) → Speaks (name_in v r)
    go none r = tt
    go (some null) r = tt
    go (some (bool b)) r = tt
    go (some (num n)) r = tt
    go (some (str s)) r = tt
    go (some (arr vs)) r = tt
    go (some (obj vs)) r = tt

put_entry-Speaks :
    (v : Result (Text × Text)) (vs : Result (List (Text × Text)))
    → Speaks v
    → Speaks vs
    → Speaks (put_entry v vs)
unfolding put_entry
put_entry-Speaks (throw (error (c ∷ s))) vs h k = tt
put_entry-Speaks (throw (error [])) vs h k = h
put_entry-Speaks (throw syntax_error) vs h k = tt
put_entry-Speaks (throw type_error) vs h k = tt
put_entry-Speaks (ok v) (throw (error (c ∷ s))) h k = tt
put_entry-Speaks (ok v) (throw (error [])) h k = k
put_entry-Speaks (ok v) (throw syntax_error) h k = tt
put_entry-Speaks (ok v) (throw type_error) h k = tt
put_entry-Speaks (ok v) (ok vs) h k = tt

entries-Speaks : (ps : List Text) → Speaks (entries ps)
unfolding entries
entries-Speaks [] = tt
entries-Speaks (p ∷ ps) =
    put_entry-Speaks _ _ (entry_of-Speaks (match_key opening p)) (entries-Speaks ps)

object_of-Speaks : (vs : Result (List (Text × Text))) → Speaks vs → Speaks (object_of vs)
unfolding object_of
object_of-Speaks (throw (error (c ∷ s))) h = tt
object_of-Speaks (throw (error [])) h = h
object_of-Speaks (throw syntax_error) h = tt
object_of-Speaks (throw type_error) h = tt
object_of-Speaks (ok vs) h = go (length (unique (names vs)) == length vs)
  where
    go : (b : Bool) → Speaks (if b then ok (ordered_from [] vs) else throw (error repeated_name))
    go true = tt
    go false = tt

entries_of-Speaks : (ps : Result (List Text)) → Speaks ps → Speaks (entries_of ps)
unfolding entries_of
entries_of-Speaks (throw (error (c ∷ s))) h = tt
entries_of-Speaks (throw (error [])) h = h
entries_of-Speaks (throw syntax_error) h = tt
entries_of-Speaks (throw type_error) h = tt
entries_of-Speaks (ok ps) h = object_of-Speaks (entries ps) (entries-Speaks ps)

parameter_values-Speaks : (text : Text) → Speaks (parameter_values text)
unfolding parameter_values
parameter_values-Speaks text = go (starts_with 123 (trim text))
  where
    go : (b : Bool) → Speaks (if b then entries_of (parts text) else throw (error not_an_object))
    go true = entries_of-Speaks (parts text) (parts-Speaks text)
    go false = tt

-- Every parameter's value is accepted.
abbrev pub AllAccepted : List SemanticParameter → List (Text × Text) → Type 0
AllAccepted ps vs = All (λ p. parameter_error p (value_of vs (SemanticParameter.name p)) ≡ []) ps

named_error_iff : (name e rest : Text) → (named_error name e rest ≡ []) ↔ ((e ≡ []) × (rest ≡ []))
unfolding named_error
named_error_iff [] [] rest = ((λ h. (refl, h)), λ h. h.1)
named_error_iff [] (c ∷ e) rest = ((λ h. cc), λ h. absurd (ground arith))
named_error_iff (d ∷ n) [] rest = ((λ h. (refl, h)), λ h. h.1)
named_error_iff (d ∷ n) (c ∷ e) rest = ((λ h. cc), λ h. absurd (ground arith))

first_error_iff :
    (ps : List SemanticParameter) (vs : List (Text × Text))
    → (first_error ps vs ≡ []) ↔ AllAccepted ps vs
unfolding first_error
first_error_iff [] vs = ((λ h. tt), λ h. refl)
first_error_iff (p ∷ ps) vs =
    let (there, back) =
      named_error_iff p.name (parameter_error p (value_of vs p.name)) (first_error ps vs) in
    let (there', back') = first_error_iff ps vs in
    ((λ h. ((there h).0, there' (there h).1)), λ h. back (h.0, back' h.1))

-- No name that no parameter has, or the empty one is the first.
abbrev pub NoneUnknown : Option Text → Type 0
NoneUnknown none = Unit
NoneUnknown (some []) = Unit
NoneUnknown (some (c ∷ s)) = ⊥

validate_names_iff :
    (ps : List SemanticParameter) (vs : List (Text × Text)) (u : Option Text)
    → (validate_names ps vs u ≡ []) ↔ (NoneUnknown u × AllAccepted ps vs)
unfolding validate_names
validate_names_iff ps vs none =
    let (there, back) = first_error_iff ps vs in ((λ h. (tt, there h)), λ h. back h.1)
validate_names_iff ps vs (some []) =
    let (there, back) = first_error_iff ps vs in ((λ h. (tt, there h)), λ h. back h.1)
validate_names_iff ps vs (some (c ∷ s)) = ((λ h. absurd (ground arith)), λ h. absurd h.0)

ok-injective : (vs ws : List (Text × Text)) → ok vs ≡ ok ws → vs ≡ ws
ok-injective vs ws h = cc

caught_iff :
    (ps : List SemanticParameter) (r : Result (List (Text × Text)))
    → Speaks r
    → (caught (codes "Enter a valid JSON object.") (validate_object ps r) ≡ []) ↔ (
        (vs : List (Text × Text)) × (r ≡ ok vs)
        × NoneUnknown (unknown_name ps vs)
        × AllAccepted ps vs)
unfolding caught validate_object
caught_iff ps (throw (error [])) h = absurd h
caught_iff ps (throw (error (c ∷ s))) h =
    ((λ e. absurd (ground arith)), λ (vs, e, u, k). absurd (ground arith))
caught_iff ps (throw syntax_error) h =
    ((λ e. absurd (ground arith)), λ (vs, e, u, k). absurd (ground arith))
caught_iff ps (throw type_error) h =
    ((λ e. absurd (ground arith)), λ (vs, e, u, k). absurd (ground arith))
caught_iff ps (ok vs) h =
    let (there, back) = validate_names_iff ps vs (unknown_name ps vs) in
    ((λ e. (vs, refl, (there e).0, (there e).1)), λ k. accepted k)
  where
    accepted :
        ((ws : List (Text × Text)) × (ok vs ≡ ok ws)
          × NoneUnknown (unknown_name ps ws)
          × AllAccepted ps ws)
        → validate_names ps vs (unknown_name ps vs) ≡ []
    accepted (ws, e, u, k) =
        let (there, back) = validate_names_iff ps ws (unknown_name ps ws) in
        rw (ok-injective vs ws e) (back (u, k))

-- `validateParameters` accepts a text where, and only where, it is a JSON object of differently named
-- members, the first of the names that no parameter has is missing or empty, and each parameter accepts its value.
pub validate_parameters_iff :
    (ps : List SemanticParameter) (text : Text)
    → (validate_parameters ps text ≡ []) ↔ (
        (vs : List (Text × Text)) × (parameter_values text ≡ ok vs)
        × NoneUnknown (unknown_name ps vs)
        × AllAccepted ps vs)
unfolding validate_parameters
validate_parameters_iff ps text =
    caught_iff ps (parameter_values text) (parameter_values-Speaks text)
