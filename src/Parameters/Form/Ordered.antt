-- ===== src/Parameters/Form/Ordered.antt =====
-- The order of a JavaScript object's members, and that setting a member keeps it.
use mathlib.Core.Path.{subst}
use context_gate.Base.{
  ℕ, ◌≡◌, refl, sym, ap, ◌∙◌, inl, inr, Text, Bool, true, false, List, [], ◌∷◌, ◌++◌, append-nil,
  append_assoc, map, Option, none, some, arith, All, Bool-cases, any,
}
use context_gate.Parameters.Values.{comes_before, array_index, put_member, ordered_from}
use context_gate.Parameters.Form.Assigned.{reassign, is_named, assign_value}

-- Whether the first member stands before the second in an object, wherever they were set.
abbrev precedes : Text × Text → Text × Text → Bool
precedes (k, v) (j, w) = comes_before (array_index k) (array_index j)

-- No member stands behind one that it precedes.
abbrev Sorted : List (Text × Text) → Type 0
Sorted [] = Unit
Sorted (w ∷ vs) = All (λ x. precedes x w ≡ false) vs × Sorted vs

before_asym : (a b : Option ℕ) → comes_before a b ≡ true → comes_before b a ≡ false
before_asym none b h = ground arith
before_asym (some a) none h = refl
before_asym (some a) (some b) h = ground arith

before_between :
    (a b c : Option ℕ)
    → comes_before a b ≡ true
    → comes_before c b ≡ false
    → comes_before c a ≡ false
before_between none b c h k = ground arith
before_between (some a) none none h k = refl
before_between (some a) none (some c) h k = ground arith
before_between (some a) (some b) none h k = refl
before_between (some a) (some b) (some c) h k = ground arith

All-put_member :
    (P : Text × Text → Type 0) (w : Text × Text) (vs : List (Text × Text))
    → P w
    → All P vs
    → All P (put_member w vs)
unfolding put_member
All-put_member P (k, v) [] p h = (p, tt)
All-put_member P (k, v) ((j, u) ∷ vs) p (q, h) =
    elim (Bool-cases (comes_before (array_index k) (array_index j))) [
      | inl e ↦ rw e (p, (q, h))
      | inr e ↦ rw e (q, All-put_member P (k, v) vs p h)
    ]

All-behind :
    (k j : Text) (vs : List (Text × Text))
    → comes_before (array_index k) (array_index j) ≡ true
    → All (λ x. comes_before (array_index (x.0)) (array_index j) ≡ false) vs
    → All (λ x. comes_before (array_index (x.0)) (array_index k) ≡ false) vs
All-behind k j [] e h = tt
All-behind k j (x ∷ vs) e (p, h) =
    (before_between (array_index k) (array_index j) (array_index (x.0)) e p, All-behind k j vs e h)

put_member-Sorted :
    (w : Text × Text) (vs : List (Text × Text)) → Sorted vs → Sorted (put_member w vs)
unfolding put_member
put_member-Sorted (k, v) [] h = (tt, tt)
put_member-Sorted (k, v) ((j, u) ∷ vs) (p, h) =
    elim (Bool-cases (comes_before (array_index k) (array_index j))) [
      | inl e ↦
          rw e ((before_asym (array_index k) (array_index j) e, All-behind k j vs e p), (p, h))
      | inr e ↦ rw e (All-put_member _ (k, v) vs e p, put_member-Sorted (k, v) vs h)
    ]

ordered_from-Sorted : (acc vs : List (Text × Text)) → Sorted acc → Sorted (ordered_from acc vs)
unfolding ordered_from
ordered_from-Sorted acc [] h = h
ordered_from-Sorted acc (w ∷ vs) h =
    ordered_from-Sorted (put_member w acc) vs (put_member-Sorted w acc h)

put_member_last :
    (acc vs : List (Text × Text)) (w : Text × Text)
    → Sorted (acc ++ w ∷ vs)
    → put_member w acc ≡ acc ++ w ∷ []
unfolding put_member
put_member_last [] vs (k, v) h = refl
put_member_last ((j, u) ∷ acc) vs (k, v) (p, h) =
    rw (at acc p) (ap (◌∷◌ (j, u)) (put_member_last acc vs (k, v) h))
  where
    at :
        (xs : List (Text × Text))
        → All (λ x. precedes x (j, u) ≡ false) (xs ++ (k, v) ∷ vs)
        → comes_before (array_index k) (array_index j) ≡ false
    at [] q = q.0
    at (x ∷ xs) q = at xs q.1

ordered_from_of_Sorted :
    (acc vs : List (Text × Text)) → Sorted (acc ++ vs) → ordered_from acc vs ≡ acc ++ vs
unfolding ordered_from
ordered_from_of_Sorted acc [] h = sym (append-nil acc)
ordered_from_of_Sorted acc (w ∷ vs) h =
    ap (λ a. ordered_from a vs) (put_member_last acc vs w h)
    ∙ ordered_from_of_Sorted (acc ++ w ∷ []) vs (rw append_assoc h)
    ∙ append_assoc acc (w ∷ []) vs

module _ (name raw : Text) where
  put_member-reassign :
      (w : Text × Text) (vs : List (Text × Text))
      → put_member (reassign name raw w) (map (reassign name raw) vs)
        ≡ map (reassign name raw) (put_member w vs)
  unfolding put_member
  put_member-reassign (k, v) [] = refl
  put_member-reassign (k, v) ((j, u) ∷ vs) =
      elim (Bool-cases (comes_before (array_index k) (array_index j))) [
        | inl e ↦ rw e refl
        | inr e ↦ rw e (ap (◌∷◌ (reassign name raw (j, u))) (put_member-reassign (k, v) vs))
      ]

  ordered_from-reassign :
      (acc vs : List (Text × Text))
      → ordered_from (map (reassign name raw) acc) (map (reassign name raw) vs)
        ≡ map (reassign name raw) (ordered_from acc vs)
  unfolding ordered_from
  ordered_from-reassign acc [] = refl
  ordered_from-reassign acc (w ∷ vs) =
      ap (λ a. ordered_from a (map (reassign name raw) vs)) (put_member-reassign w acc)
      ∙ ordered_from-reassign (put_member w acc) vs

  -- A member that is set keeps the order.
  pub ordered_from-assign_value :
      (vs : List (Text × Text))
      → ordered_from [] vs ≡ vs
      → ordered_from [] (assign_value vs name raw) ≡ assign_value vs name raw
  unfolding assign_value
  ordered_from-assign_value vs o = elim (Bool-cases (any (is_named name) vs)) [
    | inl old ↦ rw old (ordered_from-reassign [] vs ∙ ap (map (reassign name raw)) o)
    | inr new ↦ rw new (
        ordered_from_of_Sorted [] (put_member (name, raw) vs)
          (put_member-Sorted (name, raw) vs (subst Sorted o (ordered_from-Sorted [] vs tt))))
  ]
