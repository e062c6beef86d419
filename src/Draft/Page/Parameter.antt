-- ===== src/Draft/Page/Parameter.antt =====
-- changeParameter: renaming and removing a parameter keep the examples in step with the parameters.
use mathlib.Core.Path.{subst}
use context_gate.Base.{
  ℕ, suc, zero, ◌≡◌, ◌≢◌, refl, sym, ap, ◌∙◌, inl, inr, arith, Text, codes, Bool, true, false, List,
  [], ◌∷◌, Option, none, some, if◌then◌else◌, Has, get_elem?, or_text, text_eq, text_eq_iff, ok,
  throw, error,
}
use context_gate.Parameters.Values.{value_of, put_member}
use context_gate.Draft.{Values, erase, set_value, parameter_names}
use context_gate.Draft.Examples.{
  text_eq_ne, text_cases, value_of-put_member, value_of-put_member-other, set_value-new,
}
use context_gate.Draft.Http.{is_given}
use context_gate.Draft.Page.{changed_examples, renamed_examples, changed_parameters}
use context_gate.Semantics.{SemanticParameter}

-- Every example has a parameter of its name.
abbrev pub AllDeclared : Values → List SemanticParameter → Type 0
AllDeclared vs ps = (k : Text) → value_of vs k ≢ none → Has k (parameter_names ps)

value_of-erase : (k : Text) (vs : Values) → value_of (erase k vs) k ≡ none
unfolding erase value_of
value_of-erase k [] = refl
value_of-erase k ((j, w) ∷ vs) = go (text_eq j k) refl (value_of-erase k vs)
  where
    go :
        (b : Bool)
        → text_eq j k ≡ b
        → value_of (erase k vs) k ≡ none
        → value_of (if b then erase k vs else (j, w) ∷ erase k vs) k ≡ none
    go true e h = h
    go false e h = rw e h

value_of-erase-other : (k j : Text) (vs : Values) → k ≢ j → value_of (erase k vs) j ≡ value_of vs j
unfolding erase value_of
value_of-erase-other k j [] ne = refl
value_of-erase-other k j ((i, w) ∷ vs) ne = go (text_eq i k) refl (value_of-erase-other k j vs ne)
  where
    go :
        (b : Bool)
        → text_eq i k ≡ b
        → value_of (erase k vs) j ≡ value_of vs j
        → value_of (if b then erase k vs else (i, w) ∷ erase k vs) j
          ≡ (if text_eq i j then some w else value_of vs j)
    go true e h = rw (text_eq_ne i j (λ same. ne (sym ((text_eq_iff i k).0 e) ∙ same))) h
    go false e h = rw h

Has-changed :
    (index : ℕ) (value : Option SemanticParameter) (ps : List SemanticParameter)
    (previous : SemanticParameter) (k : Text)
    → get_elem? ps index ≡ some previous
    → Has k (parameter_names ps)
    → k ≢ previous.name
    → Has k (parameter_names (changed_parameters index value ps))
unfolding changed_parameters
Has-changed index value [] previous k e m ne = absurd m
Has-changed zero none (p ∷ ps) previous k e (inl h) ne =
    absurd (ne (sym h ∙ ap SemanticParameter.name (same_parameter p previous e)))
  where
    same_parameter : (p q : SemanticParameter) → some p ≡ some q → p ≡ q
    same_parameter p q e = cc
Has-changed zero none (p ∷ ps) previous k e (inr m) ne = m
Has-changed zero (some q) (p ∷ ps) previous k e (inl h) ne =
    absurd (ne (sym h ∙ ap SemanticParameter.name (same_parameter p previous e)))
  where
    same_parameter : (p q : SemanticParameter) → some p ≡ some q → p ≡ q
    same_parameter p q e = cc
Has-changed zero (some q) (p ∷ ps) previous k e (inr m) ne = inr m
Has-changed (suc index) value (p ∷ ps) previous k e (inl h) ne = inl h
Has-changed (suc index) value (p ∷ ps) previous k e (inr m) ne =
    inr (Has-changed index value ps previous k e m ne)

Has-new :
    (index : ℕ) (q : SemanticParameter) (ps : List SemanticParameter) (previous : SemanticParameter)
    → get_elem? ps index ≡ some previous
    → Has q.name (parameter_names (changed_parameters index (some q) ps))
unfolding changed_parameters
Has-new index q [] previous e = absurd (ground arith)
Has-new zero q (p ∷ ps) previous e = inl refl
Has-new (suc index) q (p ∷ ps) previous e = inr (Has-new index q ps previous e)

same_text : (raw : Text) → or_text (some raw) [] ≡ raw
same_text [] = refl
same_text (c ∷ s) = refl

ok_injective : (vs ws : Values) → ok vs ≡ ok ws → vs ≡ ws
ok_injective vs ws e = cc

-- The example of the changed parameter, where it had one.
abbrev pub Carried : Values → SemanticParameter → Option SemanticParameter → Values → Type 0
Carried examples previous none vs = Unit
Carried examples previous (some q) vs =
    value_of examples previous.name ≢ none → value_of vs q.name ≡ value_of examples previous.name

module _ (index : ℕ) (ps : List SemanticParameter) (previous : SemanticParameter)
    (examples : Values) (at : get_elem? ps index ≡ some previous)
    (declared : AllDeclared examples ps) where
  -- Without the old name, every example is declared behind the change.
  erased :
      (value : Option SemanticParameter)
      → AllDeclared (erase previous.name examples) (changed_parameters index value ps)
  erased value k h = elim (text_cases previous.name k) [
    | inl e ↦ absurd (
        h (
          subst (λ j. value_of (erase previous.name examples) j ≡ none) e
            (value_of-erase previous.name examples)))
    | inr ne ↦
        Has-changed index value ps previous k at
          (declared k (λ f. h (value_of-erase-other previous.name k examples ne ∙ f)))
          (λ same. ne (sym same))
  ]

  -- Behind the rename, all that has an example is declared.
  renamed :
      (q : SemanticParameter) (raw : Text)
      → AllDeclared
          (erase previous.name (put_member (q.name, raw) examples))
          (changed_parameters index (some q) ps)
  renamed q raw k h = elim (text_cases q.name k) [
    | inl e ↦
        subst (λ j. Has j (parameter_names (changed_parameters index (some q) ps))) e
          (Has-new index q ps previous at)
    | inr other ↦ erased (some q) k λ f. h (elim (text_cases previous.name k) [
      | inl e ↦
          subst (λ j. value_of (erase previous.name (put_member (q.name, raw) examples)) j ≡ none) e
            (value_of-erase previous.name (put_member (q.name, raw) examples))
      | inr ne ↦
          value_of-erase-other previous.name k (put_member (q.name, raw) examples) ne
          ∙ value_of-put_member-other q.name raw k examples other
          ∙ sym (value_of-erase-other previous.name k examples ne)
          ∙ f
    ])
  ]

  renamed_examples-AllDeclared :
      (q : SemanticParameter) (vs : Values) (raw : Text)
      → q.name ≢ previous.name
      → value_of examples previous.name ≡ some raw
      → renamed_examples previous.name q.name examples ≡ ok vs
      → AllDeclared vs (changed_parameters index (some q) ps)
        × Carried examples previous (some q) vs
  unfolding renamed_examples
  renamed_examples-AllDeclared q vs raw ne had = go (value_of examples q.name) refl
    where
      go :
          (o : Option Text)
          → value_of examples q.name ≡ o
          → (if is_given o
              then throw (error (codes "Parameter names must be unique."))
              else ok (
                  erase previous.name
                    (set_value q.name (or_text (value_of examples previous.name) []) examples)))
            ≡ ok vs
          → AllDeclared vs (changed_parameters index (some q) ps)
            × Carried examples previous (some q) vs
      go (some taken) f e = absurd (ground arith)
      go none f e =
          let put : erase previous.name (put_member (q.name, raw) examples) ≡ vs =
            ap (erase previous.name) (
              sym (
                ap (λ o. set_value q.name (or_text o []) examples) had
                ∙ ap (λ t. set_value q.name t examples) (same_text raw)
                ∙ set_value-new q.name raw examples f))
            ∙ ok_injective _ _ e in
          (
            subst (λ ws. AllDeclared ws (changed_parameters index (some q) ps)) put (renamed q raw),
            λ _.
                subst (λ ws. value_of ws q.name ≡ value_of examples previous.name) put
                  (value_of-erase-other previous.name q.name (put_member (q.name, raw) examples)
                      (λ same. ne (sym same))
                    ∙ value_of-put_member q.name raw examples f
                    ∙ sym had),
          )

  -- Where every example has a parameter, the change of one parameter, a new name or its removal, leaves
  -- every example with a parameter, and the changed one with the example that it had, if any.
  pub changed_examples-AllDeclared :
      (value : Option SemanticParameter) (vs : Values)
      → changed_examples previous.name value examples ≡ ok vs
      → AllDeclared vs (changed_parameters index value ps) × Carried examples previous value vs
  unfolding changed_examples
  changed_examples-AllDeclared none vs = λ e. (
    subst (λ ws. AllDeclared ws (changed_parameters index none ps)) (ok_injective _ _ e)
        (erased none),
    tt,
  )
  changed_examples-AllDeclared (some q) vs =
      go (text_eq q.name previous.name) refl (value_of examples previous.name) refl
    where
      differ : text_eq q.name previous.name ≡ false → q.name ≢ previous.name
      differ other same = clash (sym ((text_eq_iff q.name previous.name).1 same) ∙ other)
        where
          clash : true ≡ false → ⊥
          clash e = ground arith

      kept :
          q.name ≡ previous.name
          → (k : Text) → Has k (parameter_names ps)
          → Has k (parameter_names (changed_parameters index (some q) ps))
      kept name k m = elim (text_cases k previous.name) [
        | inl e ↦
            subst (λ j. Has j (parameter_names (changed_parameters index (some q) ps)))
              (name ∙ sym e) (Has-new index q ps previous at)
        | inr ne ↦ Has-changed index (some q) ps previous k at m ne
      ]

      go :
          (b : Bool)
          → text_eq q.name previous.name ≡ b
          → (o : Option Text) → value_of examples previous.name ≡ o
          → (if b
              then ok examples
              else if is_given o
              then renamed_examples previous.name q.name examples
              else ok (erase previous.name examples))
            ≡ ok vs
          → AllDeclared vs (changed_parameters index (some q) ps)
            × Carried examples previous (some q) vs
      go true same o had e =
          let name = (text_eq_iff q.name previous.name).0 same in
          subst
            (λ ws.
              AllDeclared ws (changed_parameters index (some q) ps)
              × Carried examples previous (some q) ws)
            (ok_injective _ _ e)
            ((λ k h. kept name k (declared k h)), λ _. ap (value_of examples) name)
      go false other (some raw) had e = renamed_examples-AllDeclared q vs raw (differ other) had e
      go false other none had e = (
        subst (λ ws. AllDeclared ws (changed_parameters index (some q) ps)) (ok_injective _ _ e)
            (erased (some q)),
        λ given. absurd (given had),
      )
