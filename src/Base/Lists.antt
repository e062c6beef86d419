-- ===== src/Base/Lists.antt =====
-- Arrays as lists: sizes over the native numbers, the array methods that take a Boolean callback
-- (`some`, `every`, `find`, `filter`), and predicates on lists by recursion.
use Prim.Native.Nat.{ℕ, zero, suc, ◌+◌, ◌≤◌}
use mathlib.Core.Path.{◌≡◌, refl, sym, ap}
use mathlib.Core.Logic.{◌↔◌, ◌⊎◌, inl, inr}
use mathlib.Core.Bool.{Bool, true, false, ◌&&◌, ◌||◌}
use mathlib.Core.List.{List, [], ◌∷◌, ◌++◌, map}
use mathlib.Core.Option.{Option, none, some}
use native.Mathlib.Omega.{arith}
use context_gate.Base.Tests.{if◌then◌else◌}

module _ {ℓ} {A : Type ℓ} where
  abbrev pub length : List A → ℕ
  length [] = 0
  length (x ∷ xs) = suc (length xs)

  abbrev pub get_elem? : List A → ℕ → Option A
  get_elem? [] i = none
  get_elem? (x ∷ xs) zero = some x
  get_elem? (x ∷ xs) (suc i) = get_elem? xs i

  abbrev pub take : ℕ → List A → List A
  take zero xs = []
  take (suc n) [] = []
  take (suc n) (x ∷ xs) = x ∷ take n xs

  abbrev pub drop : ℕ → List A → List A
  drop zero xs = xs
  drop (suc n) [] = []
  drop (suc n) (x ∷ xs) = drop n xs

  abbrev pub any : (A → Bool) → List A → Bool
  any p [] = false
  any p (x ∷ xs) = p x || any p xs

  abbrev pub all : (A → Bool) → List A → Bool
  all p [] = true
  all p (x ∷ xs) = p x && all p xs

  abbrev pub find : (A → Bool) → List A → Option A
  find p [] = none
  find p (x ∷ xs) = if p x then some x else find p xs

  abbrev pub filter : (A → Bool) → List A → List A
  filter p [] = []
  filter p (x ∷ xs) = let rest = filter p xs in if p x then x ∷ rest else rest

module _ {ℓ} {A : Type ℓ} where
  abbrev pub All : (A → Type 0) → List A → Type 0
  All P [] = Unit
  All P (x ∷ xs) = P x × All P xs

  abbrev pub Any : (A → Type 0) → List A → Type 0
  Any P [] = ⊥
  Any P (x ∷ xs) = P x ⊎ Any P xs

module _ {A : Type 0} where
  -- `a` is an element.
  abbrev pub Has : A → List A → Type 0
  Has a = Any (λ x. x ≡ a)

  -- No element stands twice.
  abbrev pub Distinct : List A → Type 0
  Distinct [] = Unit
  Distinct (x ∷ xs) = (Has x xs → ⊥) × Distinct xs

module _ {A : Type 0} where
  pub length-append : (xs ys : List A) → length (xs ++ ys) ≡ length xs + length ys
  length-append [] ys = omega arith
  length-append (x ∷ xs) ys = omega (arith, length-append xs ys)

  pub length-take-le : (n : ℕ) (xs : List A) → length (take n xs) ≤ n
  length-take-le zero xs = omega arith
  length-take-le (suc n) [] = omega arith
  length-take-le (suc n) (x ∷ xs) = omega (arith, length-take-le n xs)

  pub length-filter-le : (p : A → Bool) (xs : List A) → length (filter p xs) ≤ length xs
  length-filter-le p [] = omega arith
  length-filter-le p (x ∷ xs) = ground (arith, length-filter-le p xs)

  pub all_iff : (p : A → Bool) (xs : List A) → (all p xs ≡ true) ↔ All (λ x. p x ≡ true) xs
  all_iff p [] = ((λ _. tt), λ _. refl)
  all_iff p (x ∷ xs) = ground (arith, all_iff p xs)

  pub any_iff : (p : A → Bool) (xs : List A) → (any p xs ≡ true) ↔ Any (λ x. p x ≡ true) xs
  any_iff p [] = ((λ h. cc), λ h. absurd h)
  any_iff p (x ∷ xs) = ground (arith, any_iff p xs)

  -- A test that decides `P` decides whether some element has it.
  pub any_of_iff :
      (p : A → Bool) (P : A → Type 0) (xs : List A)
      → ((a : A) → (p a ≡ true) ↔ P a)
      → (any p xs ≡ true) ↔ Any P xs
  any_of_iff p P [] h = ground arith
  any_of_iff p P (x ∷ xs) h = ground (arith, h x, any_of_iff p P xs h)

  pub All_of_Has : (P : A → Type 0) (xs : List A) (a : A) → All P xs → Has a xs → P a
  All_of_Has P [] a h m = absurd m
  All_of_Has P (x ∷ xs) a h (inl e) = rw (← e) h.0
  All_of_Has P (x ∷ xs) a h (inr m) = All_of_Has P xs a h.1 m

  pub Any-of_Has : (P : A → Type 0) (xs : List A) (a : A) → P a → Has a xs → Any P xs
  Any-of_Has P [] a h m = absurd m
  Any-of_Has P (x ∷ xs) a h (inl e) = inl (rw e h)
  Any-of_Has P (x ∷ xs) a h (inr m) = inr (Any-of_Has P xs a h m)

  pub Has-of_Any : (P : A → Type 0) (xs : List A) → Any P xs → (a : A) × Has a xs × P a
  Has-of_Any P [] m = absurd m
  Has-of_Any P (x ∷ xs) (inl p) = (x, inl refl, p)
  Has-of_Any P (x ∷ xs) (inr m) = let (a, at, p) = Has-of_Any P xs m in (a, inr at, p)

  pub Has-append : (xs ys : List A) (a : A) → Has a (xs ++ ys) ↔ (Has a xs ⊎ Has a ys)
  Has-append [] ys a = (inr, elim [ inl h ↦ absurd h | inr h ↦ h ])
  Has-append (x ∷ xs) ys a = ground (arith, Has-append xs ys a)

  pub Has-filter :
      (p : A → Bool) (xs : List A) (a : A) → Has a (filter p xs) ↔ (Has a xs × (p a ≡ true))
  Has-filter p [] a = ((λ h. absurd h), λ h. absurd h.0)
  Has-filter p (x ∷ xs) a = ground (arith, Has-filter p xs a)

  pub Has-take : (n : ℕ) (xs : List A) (a : A) → Has a (take n xs) → Has a xs
  Has-take zero xs a h = absurd h
  Has-take (suc n) [] a h = absurd h
  Has-take (suc n) (x ∷ xs) a (inl e) = inl e
  Has-take (suc n) (x ∷ xs) a (inr h) = inr (Has-take n xs a h)

  pub find-eq-some :
      (p : A → Bool) (xs : List A) (a : A) → find p xs ≡ some a → Has a xs × (p a ≡ true)
  find-eq-some p [] a h = cc
  find-eq-some p (x ∷ xs) a h = ground (arith, find-eq-some p xs a)

  pub find-eq-none : (p : A → Bool) (xs : List A) → find p xs ≡ none → All (λ x. p x ≡ false) xs
  find-eq-none p [] h = tt
  find-eq-none p (x ∷ xs) h = ground (arith, find-eq-none p xs)

  pub Distinct-concat : (xs : List A) (a : A) → Distinct xs → ¬ Has a xs → Distinct (xs ++ a ∷ [])
  Distinct-concat [] a d h = ((λ m. m), tt)
  Distinct-concat (x ∷ xs) a (new, d) h = (
    (λ m. elim ((Has-append xs (a ∷ []) x).0 m) [
      | inl old ↦ new old
      | inr (inl e) ↦ h (inl (sym e))
      | inr (inr z) ↦ z
    ]),
    Distinct-concat xs a d (λ m. h (inr m)),
  )

module _ {A B : Type 0} where
  pub Has-map : (f : A → B) (xs : List A) (a : A) → Has a xs → Has (f a) (map f xs)
  Has-map f [] a h = absurd h
  Has-map f (x ∷ xs) a (inl e) = inl (ap f e)
  Has-map f (x ∷ xs) a (inr h) = inr (Has-map f xs a h)

  pub Has-map_inv :
      (f : A → B) (xs : List A) (b : B) → Has b (map f xs) → (a : A) × Has a xs × (f a ≡ b)
  Has-map_inv f [] b h = absurd h
  Has-map_inv f (x ∷ xs) b (inl e) = (x, inl refl, e)
  Has-map_inv f (x ∷ xs) b (inr h) = let (a, at, e) = Has-map_inv f xs b h in (a, inr at, e)

  pub length-map : (f : A → B) (xs : List A) → length (map f xs) ≡ length xs
  length-map f [] = refl
  length-map f (x ∷ xs) = ap suc (length-map f xs)
