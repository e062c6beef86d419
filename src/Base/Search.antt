-- ===== src/Base/Search.antt =====
-- Counting arguments over lists of texts.
use Prim.Native.Nat.{suc, ◌≤◌}
use mathlib.Core.Path.{◌≡◌}
use mathlib.Core.Logic.{inl, inr}
use mathlib.Core.List.{List, [], ◌∷◌}
use native.Mathlib.Omega.{arith}
use context_gate.Base.Tests.{if◌then◌else◌}
use context_gate.Base.Lists.{length, All, Has, Distinct}
use context_gate.Base.Texts.{Text, text_eq, text_eq_iff}

-- The list with the first `a` taken out.
without : Text → List Text → List Text
without a [] = []
without a (x ∷ xs) = let rest = x ∷ without a xs in if text_eq x a then xs else rest

length-without : (a : Text) (xs : List Text) → Has a xs → suc (length (without a xs)) ≡ length xs
unfolding without
length-without a [] h = absurd h
length-without a (x ∷ xs) h = ground (arith, text_eq_iff x a, length-without a xs)

Has-without : (a b : Text) (xs : List Text) → Has b xs → (b ≡ a → ⊥) → Has b (without a xs)
unfolding without
Has-without a b [] h ne = absurd h
Has-without a b (x ∷ xs) h ne = ground (arith, text_eq_iff x a, Has-without a b xs)

All-Has-without :
    (a : Text) (xs ys : List Text)
    → (Has a xs → ⊥)
    → All (λ x. Has x ys) xs
    → All (λ x. Has x (without a ys)) xs
All-Has-without a [] ys new h = tt
All-Has-without a (x ∷ xs) ys new (at, h) =
    (Has-without a x ys at (λ e. new (inl e)), All-Has-without a xs ys (λ m. new (inr m)) h)

-- Distinct texts that all stand in a list are at most as many as it has places.
pub length_le_of_Distinct :
    (xs ys : List Text) → Distinct xs → All (λ x. Has x ys) xs → length xs ≤ length ys
length_le_of_Distinct [] ys d h = omega arith
length_le_of_Distinct (x ∷ xs) ys (new, d) (at, h) = omega (
  arith,
  length-without x ys at,
  length_le_of_Distinct xs (without x ys) d (All-Has-without x xs ys new h),
)
