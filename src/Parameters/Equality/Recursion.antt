-- ===== src/Parameters/Equality/Recursion.antt =====
-- The fuel of `equalJSON` is enough: it keeps the recursion of the source, and alone does.
use context_gate.Base.{
  ℕ, zero, suc, ◌+◌, ◌≡◌, ◌<◌, refl, sym, ◌∙◌, arith, Text, Bool, true, false, List, [], ◌∷◌,
  Option, none, some, length, Result, ok, throw,
}
use context_gate.JsonText.{parse_json}
use context_gate.Parameters.{parts}
use context_gate.Parameters.Values.{parameter_values, value_of}
use context_gate.Parameters.Size.{
  AllShorter, ValuesShorter, PartsShorter, MembersShorter, parts-PartsShorter,
  parameter_values-MembersShorter,
}
use context_gate.Parameters.Equality.{
  Comparison, decided, of_numbers, of_arrays, of_objects, every_part, every_member, same_member,
  same_arrays, same_objects, same_by, parsed_pair, equal_from, equal_json,
}

-- Two comparisons that agree on every shorter first text.
module _ (f g : Text → Text → Result Bool) (n : ℕ)
    (agree : (a b : Text) → length a < n → f a b ≡ g a b) where
  every_part-agree :
      (as' bs : List Text) → AllShorter n as' → every_part f as' bs ≡ every_part g as' bs
  unfolding every_part
  every_part-agree [] bs h = refl
  every_part-agree (a ∷ as') [] h = refl
  every_part-agree (a ∷ as') (b ∷ bs) (h, hs) = rw (agree a b h, every_part-agree as' bs hs)

  same_member-agree :
      (v : Text) (o : Option Text) → length v < n → same_member f v o ≡ same_member g v o
  unfolding same_member
  same_member-agree v none h = refl
  same_member-agree v (some w) h = agree v w h

  every_member-agree :
      (vs ws : List (Text × Text))
      → ValuesShorter n vs
      → every_member f vs ws ≡ every_member g vs ws
  unfolding every_member
  every_member-agree [] ws h = refl
  every_member-agree ((k, v) ∷ vs) ws (h, hs) =
      rw (same_member-agree v (value_of ws k) h, every_member-agree vs ws hs)

  same_arrays-agree :
      (x y : Result (List Text)) → PartsShorter n x → same_arrays f x y ≡ same_arrays g x y
  unfolding same_arrays
  same_arrays-agree (throw e) y h = refl
  same_arrays-agree (ok as') (throw e) h = refl
  same_arrays-agree (ok as') (ok bs) h = rw (every_part-agree as' bs h)

  same_objects-agree :
      (x y : Result (List (Text × Text)))
      → MembersShorter n x
      → same_objects f x y ≡ same_objects g x y
  unfolding same_objects
  same_objects-agree (throw e) y h = refl
  same_objects-agree (ok vs) (throw e) h = refl
  same_objects-agree (ok vs) (ok ws) h = rw (every_member-agree vs ws h)

same_by-agree :
    (f g : Text → Text → Result Bool) (nested : Bool) (a b : Text) (c : Result Comparison)
    → ((x y : Text) → length x < length a → f x y ≡ g x y)
    → same_by f nested a b c ≡ same_by g nested a b c
unfolding same_by
same_by-agree f g nested a b (throw e) agree = refl
same_by-agree f g nested a b (ok (decided r)) agree = refl
same_by-agree f g nested a b (ok of_numbers) agree = refl
same_by-agree f g nested a b (ok of_arrays) agree =
    same_arrays-agree f g (length a) agree (parts a) (parts b) (parts-PartsShorter a)
same_by-agree f g nested a b (ok of_objects) agree =
    same_objects-agree f g (length a) agree (parameter_values a) (parameter_values b)
      (parameter_values-MembersShorter a)

-- A comparison that does what the source says, calling itself where the source does.
abbrev pub IsComparison : (Bool → Text → Text → Result Bool) → Type 0
IsComparison same =
    (nested : Bool) (a b : Text)
    → same nested a b ≡ same_by (same true) nested a b (parsed_pair (parse_json a) (parse_json b))

equal_from_unique :
    (same : Bool → Text → Text → Result Bool)
    → IsComparison same
    → (fuel : ℕ) (nested : Bool) (a b : Text) → length a < fuel
    → equal_from fuel nested a b ≡ same nested a b
unfolding equal_from
equal_from_unique same h zero nested a b lt = absurd (omega arith)
equal_from_unique same h (suc fuel) nested a b lt =
    same_by-agree (equal_from fuel true) (same true) nested a b _
      (λ x y shorter. equal_from_unique same h fuel true x y (omega arith))
    ∙ sym (h nested a b)

-- Enough fuel for the texts.
unfoldable pub compare_json : Bool → Text → Text → Result Bool
compare_json nested a b = equal_from (length a + 1) nested a b

equal_from-enough :
    (f g : ℕ) (nested : Bool) (a b : Text)
    → length a < f
    → length a < g
    → equal_from f nested a b ≡ equal_from g nested a b
unfolding equal_from
equal_from-enough zero g nested a b lt lt' = absurd (omega arith)
equal_from-enough (suc f) zero nested a b lt lt' = absurd (omega arith)
equal_from-enough (suc f) (suc g) nested a b lt lt' =
    same_by-agree (equal_from f true) (equal_from g true) nested a b _
      (λ x y shorter. equal_from-enough f g true x y (omega arith) (omega arith))

-- With its fuel `equalJSON`, nested or not, is what the source says of it: the comparison of the
-- types, then of the numbers, or of the parts or members by `equalJSON` itself.
pub compare_json-IsComparison : IsComparison compare_json
unfolding compare_json
compare_json-IsComparison nested a b =
    equal_from-enough (length a + 1) (suc (length a)) nested a b (omega arith) (omega arith)
    ∙ unfolded
  where
    unfolded :
        equal_from (suc (length a)) nested a b
        ≡ same_by
            (λ x y. equal_from (length x + 1) true x y)
            nested
            a
            b
            (parsed_pair (parse_json a) (parse_json b))
    unfolded =
        unfold equal_from in
        same_by-agree (equal_from (length a) true) (λ x y. equal_from (length x + 1) true x y)
          nested a b _
          (λ x y shorter.
            equal_from-enough (length a) (length x + 1) true x y shorter (omega arith))

-- Every comparison that does what the source says gives the result of `equalJSON` on every two
-- texts.
pub equal_json_unique :
    (same : Bool → Text → Text → Result Bool)
    → IsComparison same
    → (a b : Text) → equal_json a b ≡ same false a b
unfolding equal_json
equal_json_unique same h a b = equal_from_unique same h (length a + 1) false a b (omega arith)
