-- ===== src/Draft/Examples.antt =====
-- Finding a member behind a new one: the members of `examples` while slots are added.
use context_gate.Base.{
  ◌≡◌, ◌≢◌, refl, sym, ◌∙◌, ◌⊎◌, inl, inr, arith, Text, Bool, true, false, [], ◌∷◌, none, some,
  if◌then◌else◌, text_eq, text_eq_iff, Bool-cases,
}
use context_gate.Parameters.Values.{value_of, put_member, array_index, comes_before}
use context_gate.Draft.{Values, replace_value, set_value}

pub text_eq_refl : (a : Text) → text_eq a a ≡ true
text_eq_refl a = (text_eq_iff a a).1 refl

pub text_eq_ne : (a b : Text) → a ≢ b → text_eq a b ≡ false
text_eq_ne a b ne = elim (Bool-cases (text_eq a b)) [
  | inl e ↦ absurd (ne ((text_eq_iff a b).0 e))
  | inr e ↦ e
]

pub text_cases : (a b : Text) → (a ≡ b) ⊎ (a ≢ b)
text_cases a b = elim (Bool-cases (text_eq a b)) [
  | inl e ↦ inl ((text_eq_iff a b).0 e)
  | inr e ↦ inr (λ same. clash (sym ((text_eq_iff a b).1 same) ∙ e))
]
  where
    clash : true ≡ false → ⊥
    clash e = ground arith

-- A member that is put in is found, and the others are found as before.
pub value_of-put_member :
    (k v : Text) (vs : Values) → value_of vs k ≡ none → value_of (put_member (k, v) vs) k ≡ some v
unfolding put_member value_of
value_of-put_member k v [] h = rw (text_eq_refl k)
value_of-put_member k v ((j, w) ∷ vs) h =
    go (comes_before (array_index k) (array_index j)) (text_eq j k) refl h
      (value_of-put_member k v vs)
  where
    go :
        (b c : Bool)
        → text_eq j k ≡ c
        → (if c then some w else value_of vs k) ≡ none
        → (value_of vs k ≡ none → value_of (put_member (k, v) vs) k ≡ some v)
        → value_of (if b then (k, v) ∷ (j, w) ∷ vs else (j, w) ∷ put_member (k, v) vs) k ≡ some v
    go true c e h later = rw (text_eq_refl k)
    go false true e h later = absurd (ground arith)
    go false false e h later = rw e (later h)

pub value_of-put_member-other :
    (k v other : Text) (vs : Values)
    → k ≢ other
    → value_of (put_member (k, v) vs) other ≡ value_of vs other
unfolding put_member value_of
value_of-put_member-other k v other [] ne = rw (text_eq_ne k other ne)
value_of-put_member-other k v other ((j, w) ∷ vs) ne =
    go (comes_before (array_index k) (array_index j)) (value_of-put_member-other k v other vs ne)
  where
    go :
        (b : Bool)
        → value_of (put_member (k, v) vs) other ≡ value_of vs other
        → value_of (if b then (k, v) ∷ (j, w) ∷ vs else (j, w) ∷ put_member (k, v) vs) other
          ≡ (if text_eq j other then some w else value_of vs other)
    go true later = rw (text_eq_ne k other ne)
    go false later = rw later

replace_value-none : (k v : Text) (vs : Values) → value_of vs k ≡ none → replace_value k v vs ≡ none
unfolding replace_value value_of
replace_value-none k v [] h = refl
replace_value-none k v ((j, w) ∷ vs) h = ground (arith, replace_value-none k v vs)

pub set_value-new :
    (k v : Text) (vs : Values) → value_of vs k ≡ none → set_value k v vs ≡ put_member (k, v) vs
unfolding set_value
set_value-new k v vs h = rw (replace_value-none k v vs h)
