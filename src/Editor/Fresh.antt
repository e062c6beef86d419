-- ===== src/Editor/Fresh.antt =====
-- The suggested id is free, and the loop that looks for it ends.
use context_gate.Base.{
  ℕ, zero, suc, ◌+◌, ◌-◌, ◌*◌, ◌/◌, ◌%◌, ◌≤◌, ◌<◌, ◌≡◌, ◌≢◌, refl, sym, ap, ◌∙◌, ◌⊎◌, inl, inr,
  Text, List, [], ◌∷◌, ◌++◌, some, arith, ltb, length, All, Has, Distinct, includes, includes_iff,
  Bool-cases, length-append, length_le_of_Distinct,
}
use context_gate.Ontology.{OntologyDefinition}
use context_gate.Editor.{
  OntologyKind, used_ids, digits, decimal, numbered, next_id, fresh_id, base_id, suggested_id,
}

-- The number that a text of digits stands for.
abbrev value_from : ℕ → Text → ℕ
value_from n [] = n
value_from n (c ∷ s) = value_from (n * 10 + (c - 48)) s

value_from-concat :
    (n : ℕ) (s : Text) (c : ℕ) → value_from n (s ++ c ∷ []) ≡ value_from n s * 10 + (c - 48)
value_from-concat n [] c = refl
value_from-concat n (x ∷ s) c = value_from-concat (n * 10 + (x - 48)) s c

value_from-digits : (fuel n : ℕ) → n < fuel → value_from 0 (digits fuel n) ≡ n
unfolding digits
value_from-digits zero n h = absurd (omega arith)
value_from-digits (suc fuel) n h = elim (Bool-cases (ltb n 10)) [
  | inl small ↦ rw small (omega arith)
  | inr big ↦
      let bound : 10 ≤ n = ground arith in
      let step = value_from-concat 0 (digits fuel (n / 10)) (48 + n % 10) in
      let rest = value_from-digits fuel (n / 10) (omega arith) in
      rw big (step ∙ rw rest (omega arith))
]

decimal_injective : (a b : ℕ) → decimal a ≡ decimal b → a ≡ b
unfolding decimal
decimal_injective a b h =
    sym (value_from-digits (a + 1) a (omega arith))
    ∙ ap (value_from 0) h
    ∙ value_from-digits (b + 1) b (omega arith)

append_cancel : (p a b : Text) → p ++ a ≡ p ++ b → a ≡ b
append_cancel [] a b h = h
append_cancel (c ∷ p) a b h = append_cancel p a b (cc)

numbered_injective :
    (sep : ℕ) (base : Text) (i j : ℕ) → numbered sep base i ≡ numbered sep base j → i ≡ j
unfolding numbered
numbered_injective sep base i j h =
    decimal_injective i j (append_cancel (sep ∷ []) _ _ (append_cancel base _ _ h))

numbered-ne-base : (sep : ℕ) (base : Text) (i : ℕ) → numbered sep base i ≢ base
unfolding numbered
numbered-ne-base sep base i h =
    let same = ap (λ (t : Text). length t) h in omega (arith, length-append base (sep ∷ decimal i))

-- An id that the loop tried before `i`.
abbrev Tried : ℕ → Text → ℕ → Text → Type 0
Tried sep base i t = (t ≡ base) ⊎ ((j : ℕ) × (j < i) × (t ≡ numbered sep base j))

module _ (sep : ℕ) (base : Text) (used : List Text) where
  Tried-later :
      (i : ℕ) (ts : List Text) → All (Tried sep base i) ts → All (Tried sep base (i + 1)) ts
  Tried-later i [] h = tt
  Tried-later i (t ∷ ts) (inl e, hs) = (inl e, Tried-later i ts hs)
  Tried-later i (t ∷ ts) (inr (j, lt, e), hs) = (inr (j, omega arith, e), Tried-later i ts hs)

  untried : (i : ℕ) (ts : List Text) → All (Tried sep base i) ts → ¬ Has (numbered sep base i) ts
  untried i [] h m = m
  untried i (t ∷ ts) (inl e, hs) (inl same) = numbered-ne-base sep base i (sym same ∙ e)
  untried i (t ∷ ts) (inr (j, lt, e), hs) (inl same) =
      let eq = numbered_injective sep base i j (sym same ∙ e) in omega arith
  untried i (t ∷ ts) (h, hs) (inr m) = untried i ts hs m

  -- The tried ids are used and distinct, so they are at most as many as the used ones.
  next_id_free :
      (fuel i : ℕ) (ts : List Text)
      → length used + 1 ≤ fuel + length ts
      → 2 ≤ i
      → Distinct ts
      → All (λ t. Has t used) ts
      → All (Tried sep base i) ts
      → (id : Text) × (next_id sep fuel base used i ≡ some id)
        × (¬ Has id used)
        × ((j : ℕ) × (2 ≤ j) × (id ≡ numbered sep base j))
  unfolding next_id
  next_id_free zero i ts room two d u h = absurd (omega (arith, length_le_of_Distinct ts used d u))
  next_id_free (suc fuel) i ts room two d u h =
      elim (Bool-cases (includes used (numbered sep base i))) [
        | inr free ↦ rw free (
          numbered sep base i,
          refl,
          (λ m. cc ((includes_iff used (numbered sep base i)).1 m)),
          (i, two, refl),
        )
        | inl taken ↦ rw taken (
            next_id_free fuel (i + 1) (numbered sep base i ∷ ts) (omega arith) (omega arith)
              (untried i ts h, d) ((includes_iff used (numbered sep base i)).0 taken, u)
              (inr (i, omega arith, refl), Tried-later i ts h))
      ]

  pub fresh_id_free :
      (id : Text) × (fresh_id sep base used ≡ some id)
      × (¬ Has id used)
      × (((id ≡ base) × (¬ Has base used))
          ⊎ (Has base used × ((j : ℕ) × (2 ≤ j) × (id ≡ numbered sep base j))))
  unfolding fresh_id
  fresh_id_free = elim (Bool-cases (includes used base)) [
    | inr free ↦
        let new : ¬ Has base used = λ m. cc ((includes_iff used base).1 m) in
        rw free (base, refl, new, inl (refl, new))
    | inl taken ↦
        let at = (includes_iff used base).0 taken in
        let (id, found, new, number) =
          next_id_free (length used) 2 (base ∷ []) (omega arith) (omega arith) ((λ m. m), tt)
            (at, tt) (inl refl, tt) in
        rw taken (id, found, new, inr (at, number))
  ]

-- The editor always suggests an id, and one that no item of the kind has: the base made of the
-- owner and the name where that is free, and the base with a number from 2 on where it is not.
pub suggested_id_free :
    (normalize lower : Text → Text) (name : Text) (kind : OntologyKind) (d : OntologyDefinition)
    (owner : Text)
    → (id : Text) × (suggested_id normalize lower name kind d owner ≡ some id)
      × (¬ Has id (used_ids d kind))
      × (((id ≡ base_id normalize lower name kind owner)
            × (¬ Has (base_id normalize lower name kind owner) (used_ids d kind)))
          ⊎ (Has (base_id normalize lower name kind owner) (used_ids d kind)
              × ((j : ℕ) × (2 ≤ j)
                  × (id ≡ numbered 45 (base_id normalize lower name kind owner) j))))
unfolding suggested_id
suggested_id_free normalize lower name kind d owner =
    fresh_id_free 45 (base_id normalize lower name kind owner) (used_ids d kind)
