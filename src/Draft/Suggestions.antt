-- ===== src/Draft/Suggestions.antt =====
-- The parameters that suggestedParameters adds: new names, one for each slot that had none, each
-- with the text at its slot as its example.
use context_gate.Base.{
  ◌≡◌, ◌≢◌, refl, sym, ap, ◌∙◌, inl, inr, arith, Text, Bool, true, false, ◌||◌, List, [], ◌∷◌, ◌++◌,
  append_assoc, append-nil, Option, none, some, if◌then◌else◌, length, All, Has, Distinct,
  Distinct-concat, text_eq, text_eq_iff, includes_iff, Bool-cases, Option-cases, Result, ok, throw,
}
use mathlib.Core.Path.{subst}
use context_gate.Editor.Fresh.{fresh_id_free}
use context_gate.Json.{Json}
use context_gate.JsonText.{parse_json}
use context_gate.Parameters.Values.{value_of, parameter_at, put_member}
use context_gate.Draft.{
  Values, suggested_base, suggested_name, suggested_type, suggested, parameter_names, has_slot,
  typed_slot, read_slot, add_slot, add_slots, suggested_parameters,
}
use context_gate.Draft.Examples.{value_of-put_member, value_of-put_member-other, set_value-new}
use context_gate.Semantics.{SemanticParameter}

pub suggested_name_free :
    (slot : Text) (ps : List SemanticParameter)
    → ¬ Has (suggested_name slot ps) (parameter_names ps)
unfolding suggested_name
suggested_name_free slot ps =
    let (id, found, new, _) =
      fresh_id_free 95 (suggested_base slot (length ps)) (parameter_names ps) in
    rw found new

parameter_names-append :
    (ps qs : List SemanticParameter)
    → parameter_names (ps ++ qs) ≡ parameter_names ps ++ parameter_names qs
parameter_names-append [] qs = refl
parameter_names-append (p ∷ ps) qs = ap (◌∷◌ p.name) (parameter_names-append ps qs)

has_slot-append :
    (ps qs : List SemanticParameter) (slot : Text)
    → has_slot (ps ++ qs) slot ≡ has_slot ps slot || has_slot qs slot
unfolding has_slot
has_slot-append [] qs slot = refl
has_slot-append (p ∷ ps) qs slot = ground (arith, has_slot-append ps qs slot)

has_slot-own : (name type slot : Text) → has_slot (suggested name type slot ∷ []) slot ≡ true
unfolding has_slot
has_slot-own name type slot = ap (λ b. b || false) ((includes_iff (slot ∷ []) slot).1 (inl refl))

-- A parameter made for a slot of the query, whose example is the text there.
pub record IsSample (query : Text) (ex : Values) (p : SemanticParameter) : Type 0 where
  pub slot : Text
  pub raw : Text
  pub value : Json
  pub read : parameter_at query slot ≡ ok raw
  pub parsed : parse_json raw ≡ some value
  pub made : p ≡ suggested p.name (suggested_type value raw) slot
  pub example : value_of ex p.name ≡ some raw

pub record Suggests (query : Text) (existing : List SemanticParameter)
    (st : List SemanticParameter × Values) : Type 0 where
  pub added : List SemanticParameter
  pub extends : st.0 ≡ existing ++ added
  pub distinct : Distinct (parameter_names existing) → Distinct (parameter_names (st.0))
  pub samples : All (IsSample query (st.1)) added
  pub named : (k : Text) → value_of (st.1) k ≢ none → Has k (parameter_names (st.0))

-- Another example does not change those of other names.
samples-put_member :
    (query k v : Text) (ex : Values) (added : List SemanticParameter)
    → ¬ Has k (parameter_names added)
    → All (IsSample query ex) added
    → All (IsSample query (put_member (k, v) ex)) added
samples-put_member query k v ex [] new h = tt
samples-put_member query k v ex (p ∷ added) new (h, hs) = (
  record {
    slot = h.slot;
    raw = h.raw;
    value = h.value;
    read = h.read;
    parsed = h.parsed;
    made = h.made;
    example = value_of-put_member-other k v p.name ex (λ e. new (inl (sym e))) ∙ h.example;
  },
  samples-put_member query k v ex added (λ m. new (inr m)) hs,
)

All-concat :
    (P : SemanticParameter → Type 0) (ps : List SemanticParameter) (p : SemanticParameter)
    → All P ps
    → P p
    → All P (ps ++ p ∷ [])
All-concat P [] p h k = (k, tt)
All-concat P (q ∷ ps) p (h, hs) k = (h, All-concat P ps p hs k)

-- The names of the added parameters are among those of all.
Has-extends :
    (existing added : List SemanticParameter) (k : Text)
    → Has k (parameter_names added)
    → Has k (parameter_names (existing ++ added))
Has-extends [] added k m = m
Has-extends (p ∷ existing) added k m = inr (Has-extends existing added k m)

Has-concat :
    (ps : List SemanticParameter) (p : SemanticParameter) (k : Text)
    → Has k (parameter_names ps)
    → Has k (parameter_names (ps ++ p ∷ []))
Has-concat [] p k m = absurd m
Has-concat (q ∷ ps) p k (inl e) = inl e
Has-concat (q ∷ ps) p k (inr m) = inr (Has-concat ps p k m)

Has-last :
    (ps : List SemanticParameter) (p : SemanticParameter)
    → Has p.name (parameter_names (ps ++ p ∷ []))
Has-last [] p = inl refl
Has-last (q ∷ ps) p = inr (Has-last ps p)

ok_injective : (st st' : List SemanticParameter × Values) → ok st ≡ ok st' → st ≡ st'
ok_injective st st' e = cc

module _ (query : Text) (existing : List SemanticParameter) where
  -- No example has the name that is suggested next.
  unnamed :
      (ps : List SemanticParameter) (ex : Values) (k : Text)
      → Suggests query existing (ps, ex)
      → ¬ Has k (parameter_names ps)
      → value_of ex k ≡ none
  unnamed ps ex k s new = elim (Option-cases (value_of ex k)) [
    | inl e ↦ e
    | inr (v, e) ↦ absurd (new (s.named k (λ f. some_ne_none v (sym e ∙ f))))
  ]
    where
      some_ne_none : (v : Text) → some v ≢ none
      some_ne_none v e = ground arith

  put_member-Suggests :
      (ps : List SemanticParameter) (ex : Values) (k t slot raw : Text) (v : Json)
      → Suggests query existing (ps, ex)
      → ¬ Has k (parameter_names ps)
      → parameter_at query slot ≡ ok raw
      → parse_json raw ≡ some v
      → t ≡ suggested_type v raw
      → Suggests query existing (ps ++ suggested k t slot ∷ [], put_member (k, raw) ex)
  put_member-Suggests ps ex k t slot raw v s new at parsed typed = record {
    added = s.added ++ suggested k t slot ∷ [];
    extends =
        ap (λ qs. qs ++ suggested k t slot ∷ []) s.extends
        ∙ append_assoc existing s.added (suggested k t slot ∷ []);
    distinct = λ d.
        subst Distinct (sym (parameter_names-append ps (suggested k t slot ∷ [])))
          (Distinct-concat (parameter_names ps) k (s.distinct d) new);
    samples =
        All-concat (IsSample query (put_member (k, raw) ex)) s.added (suggested k t slot)
          (samples-put_member query k raw ex s.added
            (λ m. new (
              subst (λ qs. Has k (parameter_names qs)) (sym s.extends)
                (Has-extends existing s.added k m)))
            s.samples)
          record {
            slot = slot;
            raw = raw;
            value = v;
            read = at;
            parsed = parsed;
            made = ap (λ u. suggested k u slot) typed;
            example = value_of-put_member k raw ex (unnamed ps ex k s new);
          };
    named = λ j h. elim (Bool-cases (text_eq k j)) [
      | inl e ↦
          subst (λ i. Has i (parameter_names (ps ++ suggested k t slot ∷ [])))
            ((text_eq_iff k j).0 e) (Has-last ps (suggested k t slot))
      | inr e ↦ Has-concat ps (suggested k t slot) j (
          s.named j
            (λ f. h (value_of-put_member-other k raw j ex (λ same. different k j e same) ∙ f)))
    ];
  }
    where
      different : (k j : Text) → text_eq k j ≡ false → k ≡ j → ⊥
      different k j e same = true_ne_false (sym ((text_eq_iff k j).1 same) ∙ e)
        where
          true_ne_false : true ≡ false → ⊥
          true_ne_false e = ground arith

  -- What one slot leads to: the parameters go on, and one has the slot.
  abbrev SlotStep : Text → List SemanticParameter → List SemanticParameter × Values → Type 0
  SlotStep slot ps st' =
      Suggests query existing st'
      × ((new : List SemanticParameter) × (st'.0 ≡ ps ++ new))
      × (has_slot (st'.0) slot ≡ true)

  typed_slot-Suggests :
      (slot raw : Text) (o : Option Json) (ps : List SemanticParameter) (ex : Values)
      (st' : List SemanticParameter × Values)
      → Suggests query existing (ps, ex)
      → parameter_at query slot ≡ ok raw
      → parse_json raw ≡ o
      → typed_slot slot raw o (ps, ex) ≡ ok st'
      → SlotStep slot ps st'
  unfolding typed_slot
  typed_slot-Suggests slot raw none ps ex st' s at parsed e = absurd (ground arith)
  typed_slot-Suggests slot raw (some v) ps ex st' s at parsed e =
      let k = suggested_name slot ps in
      let new = suggested_name_free slot ps in
      let p = suggested k (suggested_type v raw) slot in
      subst (SlotStep slot ps) (ok_injective _ _ e) (
        subst (λ vs. Suggests query existing (ps ++ p ∷ [], vs))
            (sym (set_value-new k raw ex (unnamed ps ex k s new)))
            (put_member-Suggests ps ex k (suggested_type v raw) slot raw v s new at parsed refl),
        (p ∷ [], refl),
        has_slot-append ps (p ∷ []) slot
            ∙ last (has_slot ps slot) (has_slot (p ∷ []) slot) (has_slot-own k p.type slot),
      )
    where
      last : (a b : Bool) → b ≡ true → a || b ≡ true
      last a b h = ground arith

  add_slot-Suggests :
      (slot : Text) (ps : List SemanticParameter) (ex : Values)
      (st' : List SemanticParameter × Values)
      → Suggests query existing (ps, ex)
      → add_slot existing query slot (ps, ex) ≡ ok st'
      → SlotStep slot ps st'
  unfolding add_slot read_slot
  add_slot-Suggests slot ps ex st' s =
      go (has_slot existing slot) refl (parameter_at query slot) refl
    where
      go :
          (b : Bool)
          → has_slot existing slot ≡ b
          → (r : Result Text) → parameter_at query slot ≡ r
          → (if b then ok (ps, ex) else read_slot slot r (ps, ex)) ≡ ok st'
          → SlotStep slot ps st'
      go true had r at e = subst (SlotStep slot ps) (ok_injective _ _ e) (
        s,
        ([], sym (append-nil ps)),
        ap (λ qs. has_slot qs slot) s.extends
            ∙ has_slot-append existing s.added slot
            ∙ ap (λ b. b || has_slot s.added slot) had,
      )
      go false had (throw x) at e = absurd (ground arith)
      go false had (ok raw) at e =
          typed_slot-Suggests slot raw (parse_json raw) ps ex st' s at refl e

  add_slots-Suggests :
      (slots : List Text) (ps : List SemanticParameter) (ex : Values)
      (st' : List SemanticParameter × Values)
      → Suggests query existing (ps, ex)
      → add_slots existing query slots (ps, ex) ≡ ok st'
      → Suggests query existing st'
        × ((new : List SemanticParameter) × (st'.0 ≡ ps ++ new))
        × All (λ slot. has_slot (st'.0) slot ≡ true) slots
  unfolding add_slots
  add_slots-Suggests [] ps ex st' s e =
      subst
        (λ st.
          Suggests query existing st × ((new : List SemanticParameter) × (st.0 ≡ ps ++ new)) × Unit)
        (ok_injective _ _ e) (s, ([], sym (append-nil ps)), tt)
  add_slots-Suggests (slot ∷ slots) ps ex st' s e =
      go (add_slot existing query slot (ps, ex)) refl e
        (λ qs fx t f. add_slots-Suggests slots qs fx st' t f)
    where
      go :
          (r : Result (List SemanticParameter × Values))
          → add_slot existing query slot (ps, ex) ≡ r
          → (elim r as (λ _. Result (List SemanticParameter × Values)) [
            | throw x ↦ throw x
            | ok st ↦ add_slots existing query slots st
          ])
            ≡ ok st'
          → ((qs : List SemanticParameter) (fx : Values)
              → Suggests query existing (qs, fx)
              → add_slots existing query slots (qs, fx) ≡ ok st'
              → Suggests query existing st'
                × ((new : List SemanticParameter) × (st'.0 ≡ qs ++ new))
                × All (λ slot. has_slot (st'.0) slot ≡ true) slots)
          → Suggests query existing st'
            × ((new : List SemanticParameter) × (st'.0 ≡ ps ++ new))
            × ((has_slot (st'.0) slot ≡ true) × All (λ slot. has_slot (st'.0) slot ≡ true) slots)
      go (throw x) at f later = absurd (ground arith)
      go (ok (qs, fx)) at f later =
          let (t, (new, grown), had) = add_slot-Suggests slot ps ex (qs, fx) s at in
          let (u, (more, grown'), all_had) = later qs fx t f in
          (
            u,
            (new ++ more, grown' ∙ ap (λ xs. xs ++ more) grown ∙ append_assoc ps new more),
            (
              ap (λ xs. has_slot xs slot) grown'
                  ∙ has_slot-append qs more slot
                  ∙ ap (λ b. b || has_slot more slot) had,
              all_had,
            ),
          )

-- Where the slots can be read, the parameters that suggestedParameters returns are the existing ones
-- and behind them new ones, their names differ where those of the existing do, each slot has a
-- parameter, and each new parameter has its slot, the type of the text there and that text as its example.
pub suggested_parameters-Suggests :
    (query : Text) (slots : List Text) (existing : List SemanticParameter)
    (st : List SemanticParameter × Values)
    → suggested_parameters query slots existing ≡ ok st
    → Suggests query existing st × All (λ slot. has_slot (st.0) slot ≡ true) slots
unfolding suggested_parameters value_of
suggested_parameters-Suggests query slots existing st e =
    let (s, _, had) = add_slots-Suggests query existing slots existing [] st start e in (s, had)
  where
    start : Suggests query existing (existing, [])
    start = record {
      added = [];
      extends = sym (append-nil existing);
      distinct = λ d. d;
      samples = tt;
      named = λ k h. absurd (h refl);
    }
