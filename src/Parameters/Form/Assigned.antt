-- ===== src/Parameters/Form/Assigned.antt =====
-- A value that is set in the list of a form's values, by its name alone.
use context_gate.Base.{
  ◌≡◌, refl, sym, ap, inl, inr, Text, Bool, true, false, List, [], ◌∷◌, map, Option, none, some,
  if◌then◌else◌, any, Distinct, Has, text_eq, text_eq_iff, Bool-cases,
}
use context_gate.Draft.{replace_value, set_value}
use context_gate.Parameters.Values.{put_member, names}

abbrev pub reassign : Text → Text → Text × Text → Text × Text
reassign name raw (k, v) = (k, if text_eq k name then raw else v)

abbrev pub is_named : Text → Text × Text → Bool
is_named name (k, v) = text_eq k name

unfoldable pub assign_value : List (Text × Text) → Text → Text → List (Text × Text)
assign_value vs name raw =
    if any (is_named name) vs then map (reassign name raw) vs else put_member (name, raw) vs

map-reassign :
    (name raw : Text) (vs : List (Text × Text))
    → ¬ Has name (names vs)
    → map (reassign name raw) vs ≡ vs
map-reassign name raw [] h = refl
map-reassign name raw ((k, v) ∷ vs) h = elim (Bool-cases (text_eq k name)) [
  | inl e ↦ absurd (h (inl ((text_eq_iff k name).0 e)))
  | inr e ↦ rw e (ap (◌∷◌ (k, v)) (map-reassign name raw vs (λ z. h (inr z))))
]

abbrev replaced : Bool → List (Text × Text) → Option (List (Text × Text))
replaced b vs = if b then some vs else none

replace_value_lem :
    (name raw : Text) (vs : List (Text × Text))
    → Distinct (names vs)
    → replace_value name raw vs ≡ replaced (any (is_named name) vs) (map (reassign name raw) vs)
unfolding replace_value
replace_value_lem name raw [] d = refl
replace_value_lem name raw ((k, v) ∷ vs) (new, d) = elim (Bool-cases (text_eq k name)) [
  | inl e ↦
      rw (e, replace_value)
        (ap (λ ws. some ((k, raw) ∷ ws))
          (sym (map-reassign name raw vs (subst_name ((text_eq_iff k name).0 e)))))
  | inr e ↦
      rw (e, replace_value) (rw (replace_value_lem name raw vs d) (behind (any (is_named name) vs)))
]
  where
    subst_name : k ≡ name → ¬ Has name (names vs)
    subst_name e z = new (rw e z)

    behind :
        (b : Bool)
        → elim (replaced b (map (reassign name raw) vs)) as (λ _. Option (List (Text × Text))) [
          | none ↦ none
          | some ws ↦ some ((k, v) ∷ ws)
        ]
          ≡ replaced b ((k, v) ∷ map (reassign name raw) vs)
    behind true = refl
    behind false = refl

-- Where the names are distinct, the first member of the name is the only one.
pub set_value-assign_value :
    (name raw : Text) (vs : List (Text × Text))
    → Distinct (names vs)
    → set_value name raw vs ≡ assign_value vs name raw
unfolding set_value assign_value
set_value-assign_value name raw vs d = elim (Bool-cases (any (is_named name) vs)) [
  | inl e ↦ rw (replace_value_lem name raw vs d, e) refl
  | inr e ↦ rw (replace_value_lem name raw vs d, e) refl
]
