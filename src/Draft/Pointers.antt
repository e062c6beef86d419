-- ===== src/Draft/Pointers.antt =====
-- The pointers that httpTemplate makes lead `parameterAt` to the parameters they were made for.
use context_gate.Base.{
  ◌≡◌, refl, ap, ◌∙◌, inl, inr, arith, Text, codes, Bool, true, false, List, [], ◌∷◌, ◌++◌, some,
  if◌then◌else◌, ◌==◌, ==_iff, All, Bool-cases, ok, throw, error,
}
use context_gate.Parameters.{trim, parts}
use context_gate.Parameters.Values.{
  parameter_values, parameter_at, value_of, starts_with, step_into, value_named, value_behind,
  split_slash, pointer_key, replace_tilde, entries_of, not_an_object,
}
use context_gate.Draft.{Values}
use context_gate.Draft.Http.{replace_all, pointer_of}

-- The name with its tildes and slashes written as a pointer writes them.
abbrev escaped : Text → Text
escaped name = replace_all 47 (codes "~1") (replace_all 126 (codes "~0") name)

abbrev half_escaped : Text → Text
half_escaped name = replace_all 126 (codes "~0") name

replace_tilde-escaped : (name : Text) → replace_tilde 49 47 false (escaped name) ≡ half_escaped name
unfolding replace_tilde replace_all
replace_tilde-escaped [] = refl
replace_tilde-escaped (c ∷ s) = elim (Bool-cases (c == 126)) [
  | inl e ↦ rw e (ap (λ t. 126 ∷ 48 ∷ t) (replace_tilde-escaped s))
  | inr e ↦ elim (Bool-cases (c == 47)) [
    | inl f ↦ rw (e, f) (rw (replace_tilde-escaped s, (==_iff c 47).0 f))
    | inr f ↦ rw (e, f) (rw e (ap (◌∷◌ c) (replace_tilde-escaped s)))
  ]
]

replace_tilde-half_escaped : (name : Text) → replace_tilde 48 126 false (half_escaped name) ≡ name
unfolding replace_tilde replace_all
replace_tilde-half_escaped [] = refl
replace_tilde-half_escaped (c ∷ s) = elim (Bool-cases (c == 126)) [
  | inl e ↦ rw e (ground (arith, replace_tilde-half_escaped s))
  | inr e ↦ rw e (rw e (ground (arith, replace_tilde-half_escaped s)))
]

pub pointer_key-escaped : (name : Text) → pointer_key (escaped name) ≡ name
unfolding pointer_key
pointer_key-escaped name =
    ap (replace_tilde 48 126 false) (replace_tilde-escaped name) ∙ replace_tilde-half_escaped name

split_slash-whole : (s : Text) → All (λ c. (c == 47) ≡ false) s → split_slash s ≡ s ∷ []
unfolding split_slash
split_slash-whole [] h = refl
split_slash-whole (c ∷ s) (h, hs) = rw (split_slash-whole s hs) (rw h)

escaped-whole : (name : Text) → All (λ c. (c == 47) ≡ false) (escaped name)
unfolding replace_all
escaped-whole [] = tt
escaped-whole (c ∷ s) = elim (Bool-cases (c == 126)) [
  | inl e ↦ rw e (refl, (refl, escaped-whole s))
  | inr e ↦ elim (Bool-cases (c == 47)) [
    | inl f ↦ rw (e, f) (refl, (refl, escaped-whole s))
    | inr f ↦ rw (e, f) (f, escaped-whole s)
  ]
]

split_slash-named_params :
    (s : Text)
    → All (λ c. (c == 47) ≡ false) s
    → split_slash (codes "named_params/" ++ s) ≡ codes "named_params" ∷ s ∷ []
unfolding split_slash
split_slash-named_params s h = rw (split_slash-whole s h)

pointer_key-plain : pointer_key (codes "named_params") ≡ codes "named_params"
unfolding pointer_key replace_tilde
pointer_key-plain = refl

-- An object is no array.
starts_other :
    (text : Text) (vs : Values) → parameter_values text ≡ ok vs → starts_with 91 (trim text) ≡ false
unfolding parameter_values starts_with
starts_other text vs e = go (trim text) e
  where
    go :
        (t : Text)
        → (if starts_with 123 t then entries_of (parts text) else throw (error not_an_object))
          ≡ ok vs
        → starts_with 91 t ≡ false
    go [] e = refl
    go (c ∷ t) e = first (c == 123) refl e
      where
        first :
            (b : Bool)
            → (c == 123) ≡ b
            → (if b then entries_of (parts text) else throw (error not_an_object)) ≡ ok vs
            → (c == 91) ≡ false
        first true h e = ground arith
        first false h e = absurd (ground arith)

step_into-object :
    (text key : Text) (vs : Values)
    → parameter_values text ≡ ok vs
    → step_into text key ≡ ok (value_of vs key)
unfolding step_into value_named
step_into-object text key vs e = rw (starts_other text vs e) (rw e)

value_behind-step :
    (value k : Text) (ks : List Text) (next : Text)
    → step_into value (pointer_key k) ≡ ok (some next)
    → value_behind value (k ∷ ks) ≡ value_behind next ks
unfolding value_behind
value_behind-step value k ks next h = rw (value_behind, h) refl

-- In a query whose `named_params` is an object with the name, the pointer that httpTemplate makes of the
-- name leads `parameterAt` to its value there, whatever signs the name has.
pub parameter_at-pointer_of :
    (name query inner value : Text) (vs ws : Values)
    → parameter_values query ≡ ok vs
    → value_of vs (codes "named_params") ≡ some inner
    → parameter_values inner ≡ ok ws
    → value_of ws name ≡ some value
    → parameter_at query (pointer_of name) ≡ ok value
unfolding parameter_at pointer_of value_behind
parameter_at-pointer_of name query inner value vs ws e at e' at' =
    rw (split_slash-named_params (escaped name) (escaped-whole name)) (
      value_behind-step query (codes "named_params") (escaped name ∷ []) inner (
        ap (step_into query) pointer_key-plain
        ∙ step_into-object query (codes "named_params") vs e
        ∙ ap ok at)
      ∙ value_behind-step inner (escaped name) [] value (
          ap (step_into inner) (pointer_key-escaped name)
          ∙ step_into-object inner name ws e'
          ∙ ap ok at'))
