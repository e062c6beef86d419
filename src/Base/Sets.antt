-- ===== src/Base/Sets.antt =====
-- A JavaScript `Set` of strings, as the list of its members in insertion order.
use mathlib.Core.Path.{◌≡◌}
use mathlib.Core.Logic.{◌↔◌, ◌⊎◌, inl, inr}
use mathlib.Core.List.{List, [], ◌∷◌, ◌++◌}
use native.Mathlib.Omega.{arith}
use context_gate.Base.Tests.{if◌then◌else◌, Bool-cases}
use context_gate.Base.Lists.{Has, Distinct, Distinct-concat, Has-append}
use context_gate.Base.Texts.{Text, includes, includes_iff}

-- `set.add(text)`
unfoldable pub add_to : List Text → Text → List Text
add_to acc x = if includes acc x then acc else acc ++ x ∷ []

unique_from : List Text → List Text → List Text
unique_from acc [] = acc
unique_from acc (x ∷ xs) = unique_from (add_to acc x) xs

-- `[...new Set(list)]`
unfoldable pub unique : List Text → List Text
unfolding unique_from add_to includes
unique xs = unique_from [] xs

add_to-Distinct : (acc : List Text) (x : Text) → Distinct acc → Distinct (add_to acc x)
unfolding add_to
add_to-Distinct acc x d = elim (Bool-cases (includes acc x)) [
  | inl old ↦ rw old d
  | inr new ↦ rw new (Distinct-concat acc x d (λ m. cc ((includes_iff acc x).1 m)))
]

Has-add_to : (acc : List Text) (x a : Text) → Has a (add_to acc x) ↔ (Has a acc ⊎ (x ≡ a))
unfolding add_to
Has-add_to acc x a = elim (Bool-cases (includes acc x)) [
  | inl old ↦
      rw old (inl, λ h. elim h [ inl m ↦ m | inr e ↦ rw (← e) ((includes_iff acc x).0 old) ])
  | inr new ↦ rw new (ground (arith, Has-append acc (x ∷ []) a))
]

unique_from-Distinct : (acc xs : List Text) → Distinct acc → Distinct (unique_from acc xs)
unfolding unique_from
unique_from-Distinct acc [] d = d
unique_from-Distinct acc (x ∷ xs) d =
    unique_from-Distinct (add_to acc x) xs (add_to-Distinct acc x d)

Has-unique_from :
    (acc xs : List Text) (a : Text) → Has a (unique_from acc xs) ↔ (Has a acc ⊎ Has a xs)
unfolding unique_from
Has-unique_from acc [] a = (inl, λ h. elim h [ inl m ↦ m | inr z ↦ absurd z ])
Has-unique_from acc (x ∷ xs) a =
    ground (arith, Has-unique_from (add_to acc x) xs a, Has-add_to acc x a)

pub unique-Distinct : (xs : List Text) → Distinct (unique xs)
unfolding unique
unique-Distinct xs = unique_from-Distinct [] xs tt

pub Has-unique : (xs : List Text) (a : Text) → Has a (unique xs) ↔ Has a xs
unfolding unique
Has-unique xs a = ground (arith, Has-unique_from [] xs a)
