-- ===== src/Parameters/Check/Range.antt =====
-- A number that `parameterError` accepts keeps the limits of its parameter.
use context_gate.Base.{
  text_eq, ℕ, ◌≡◌, refl, ap, arith, Text, codes, Bool, true, false, not, ◌&&◌, ◌||◌, [], ◌∷◌, ◌++◌,
  Option, none, some, if◌then◌else◌, ltb, length, truthy, error, syntax_error, type_error, Result,
  ok, throw,
}
use mathlib.Core.Path.{subst}
use context_gate.Base.Int.{ℤ}
use context_gate.Json.{Json, num}
use context_gate.JsonText.{parse_json}
use context_gate.Parameters.{trim}
use context_gate.Parameters.Numbers.{
  Fraction, number_message, number_of, groups, is_number, decimal, compare_with, compare_first,
  compare_numbers, Groups, digits_number,
}
use context_gate.Parameters.Check.{
  is_integer, is_whole, is_negative, is_positive, limit_message, limit_by, limit_check, range_check,
  number_check, type_check, value_check, caught, parameter_error, json_type, type_name, ◌&then◌,
}
use context_gate.Parameters.Check.Verdict.{Speaks}
use context_gate.Semantics.{SemanticParameter}

-- The limit is not given or empty, or `compare` finds the number within it.
abbrev pub Within : Text → (ℤ → Bool) → Option Text → Type 0
Within raw beyond none = Unit
Within raw beyond (some limit) =
    truthy limit ≡ true → (d : ℤ) × (compare_numbers raw limit ≡ ok d) × (beyond d ≡ false)

pub record InRange (p : SemanticParameter) (raw : Text) : Type 0 where
  pub value : Fraction
  pub read : decimal raw ≡ ok value
  pub integral : is_integer p ≡ true → is_whole value ≡ true
  pub above : Within raw is_negative p.minimum
  pub below : Within raw is_positive p.maximum

decimal-Speaks : (raw : Text) → Speaks (decimal raw)
unfolding decimal
decimal-Speaks raw = go (
    not (is_number raw)
    || (ltb 1024 (length raw) || ltb 10000 (digits_number 0 (Groups.power_digits (groups raw)))))
  where
    go :
        (b : Bool)
        → Speaks (if b then throw (error number_message) else ok (number_of (groups raw)))
    go true = tt
    go false = tt

compare_numbers-Speaks : (a b : Text) → Speaks (compare_numbers a b)
unfolding compare_numbers compare_first compare_with
compare_numbers-Speaks a b = go (decimal a) (decimal b) (decimal-Speaks a) (decimal-Speaks b)
  where
    go : (x y : Result Fraction) → Speaks x → Speaks y → Speaks (compare_first x y)
    go (throw (error (c ∷ s))) y h k = tt
    go (throw (error [])) y h k = h
    go (throw syntax_error) y h k = tt
    go (throw type_error) y h k = tt
    go (ok x) (throw (error (c ∷ s))) h k = tt
    go (ok x) (throw (error [])) h k = k
    go (ok x) (throw syntax_error) h k = tt
    go (ok x) (throw type_error) h k = tt
    go (ok x) (ok y) h k = tt

-- Nothing that is thrown or said first is silent, so an empty message clears the first check.
cleared :
    (c : ℕ) (s : Text) (a b : Result Text) → Speaks a → caught (c ∷ s) (a &then b) ≡ [] → a ≡ ok []
unfolding caught
cleared c s (throw (error [])) b h e = absurd h
cleared c s (throw (error (d ∷ t))) b h e = cc
cleared c s (throw syntax_error) b h e = cc
cleared c s (throw type_error) b h e = absurd (ground arith)
cleared c s (ok []) b h e = refl
cleared c s (ok (d ∷ t)) b h e = cc

next_check :
    (c : ℕ) (s : Text) (a b : Result Text)
    → Speaks a
    → caught (c ∷ s) (a &then b) ≡ []
    → caught (c ∷ s) b ≡ []
next_check c s a b h e = subst (λ a. caught (c ∷ s) (a &then b) ≡ []) (cleared c s a b h e) e

alone : (c : ℕ) (s : Text) (a : Result Text) → Speaks a → caught (c ∷ s) a ≡ [] → a ≡ ok []
unfolding caught
alone c s (throw (error [])) h e = absurd h
alone c s (throw (error (d ∷ t))) h e = cc
alone c s (throw syntax_error) h e = cc
alone c s (throw type_error) h e = absurd (ground arith)
alone c s (ok t) h e = ap ok e

module _ (c : ℕ) (w : Text) (beyond : ℤ → Bool) where
  limit_message-Speaks : (limit : Text) (b : Bool) → Speaks (limit_message (c ∷ w) limit b)
  unfolding limit_message
  limit_message-Speaks limit true = tt
  limit_message-Speaks limit false = tt

  limit_by-Speaks :
      (limit : Text) (r : Result ℤ) → Speaks r → Speaks (limit_by (c ∷ w) limit beyond r)
  unfolding limit_by
  limit_by-Speaks limit (throw (error (d ∷ s))) h = tt
  limit_by-Speaks limit (throw (error [])) h = h
  limit_by-Speaks limit (throw syntax_error) h = tt
  limit_by-Speaks limit (throw type_error) h = tt
  limit_by-Speaks limit (ok d) h = limit_message-Speaks limit (beyond d)

  limit_check-Speaks :
      (raw : Text) (limit : Option Text) → Speaks (limit_check (c ∷ w) beyond raw limit)
  unfolding limit_check
  limit_check-Speaks raw none = tt
  limit_check-Speaks raw (some limit) = go (truthy limit)
    where
      go :
          (b : Bool)
          → Speaks (if b then limit_by (c ∷ w) limit beyond (compare_numbers raw limit) else ok [])
      go true = limit_by-Speaks limit (compare_numbers raw limit) (compare_numbers-Speaks raw limit)
      go false = tt

  limit_message-clear :
      (limit : Text) (b : Bool) → limit_message (c ∷ w) limit b ≡ ok [] → b ≡ false
  unfolding limit_message
  limit_message-clear limit true e = cc
  limit_message-clear limit false e = refl

  limit_by-clear :
      (limit : Text) (r : Result ℤ)
      → limit_by (c ∷ w) limit beyond r ≡ ok []
      → (d : ℤ) × (r ≡ ok d) × (beyond d ≡ false)
  unfolding limit_by
  limit_by-clear limit (throw x) e = absurd (ground arith)
  limit_by-clear limit (ok d) e = (d, refl, limit_message-clear limit (beyond d) e)

  limit_check-Within :
      (raw : Text) (limit : Option Text)
      → limit_check (c ∷ w) beyond raw limit ≡ ok []
      → Within raw beyond limit
  unfolding limit_check
  limit_check-Within raw none = λ e. tt
  limit_check-Within raw (some limit) = λ e given.
      limit_by-clear limit (compare_numbers raw limit) (
        subst
          (λ b.
            (if b then limit_by (c ∷ w) limit beyond (compare_numbers raw limit) else ok [])
            ≡ ok [])
          given e)

type_check-Speaks : (p : SemanticParameter) (v : Json) → Speaks (type_check p v)
unfolding type_check
type_check-Speaks p v = go (text_eq (type_name v) (json_type p))
  where
    go :
        (b : Bool)
        → Speaks (if b then ok [] else ok (codes "Enter a value of type " ++ (p.type ++ codes ".")))
    go true = tt
    go false = tt

abbrev whole_check : SemanticParameter → Fraction → Result Text
whole_check p q =
    if is_integer p && not (is_whole q) then ok (codes "Enter a whole number.") else ok []

whole_check-Speaks : (p : SemanticParameter) (q : Fraction) → Speaks (whole_check p q)
whole_check-Speaks p q = go (is_integer p && not (is_whole q))
  where
    go : (b : Bool) → Speaks (if b then ok (codes "Enter a whole number.") else ok [])
    go true = tt
    go false = tt

whole_check-clear :
    (p : SemanticParameter) (q : Fraction)
    → whole_check p q ≡ ok []
    → is_integer p ≡ true
    → is_whole q ≡ true
whole_check-clear p q e i = go (is_integer p) (is_whole q) e i
  where
    go :
        (a b : Bool)
        → (if a && not b then ok (codes "Enter a whole number.") else ok []) ≡ ok []
        → a ≡ true
        → b ≡ true
    go true true e i = refl
    go true false e i = absurd (ground arith)
    go false b e i = cc

then-Speaks : (a b : Result Text) → Speaks a → Speaks b → Speaks (a &then b)
then-Speaks (throw (error (d ∷ s))) b h k = tt
then-Speaks (throw (error [])) b h k = h
then-Speaks (throw syntax_error) b h k = tt
then-Speaks (throw type_error) b h k = tt
then-Speaks (ok []) b h k = k
then-Speaks (ok (d ∷ t)) b h k = tt

range_check-Speaks :
    (p : SemanticParameter) (raw : Text) (r : Result Fraction)
    → Speaks r
    → Speaks (range_check p raw r)
unfolding range_check
range_check-Speaks p raw (throw (error (c ∷ s))) h = tt
range_check-Speaks p raw (throw (error [])) h = h
range_check-Speaks p raw (throw syntax_error) h = tt
range_check-Speaks p raw (throw type_error) h = tt
range_check-Speaks p raw (ok q) h = then-Speaks _ _ (whole_check-Speaks p q) (
    then-Speaks _ _ (limit_check-Speaks _ _ is_negative raw p.minimum)
      (limit_check-Speaks _ _ is_positive raw p.maximum))

-- A check in front of another is clear where the two are.
both_clear : (a b : Result Text) → a &then b ≡ ok [] → (a ≡ ok []) × (b ≡ ok [])
both_clear (throw e) b h = absurd (ground arith)
both_clear (ok []) b h = (refl, h)
both_clear (ok (d ∷ t)) b h = absurd (ground arith)

range_check-InRange :
    (p : SemanticParameter) (raw : Text) (r : Result Fraction)
    → decimal raw ≡ r
    → range_check p raw r ≡ ok []
    → InRange p raw
unfolding range_check
range_check-InRange p raw (throw x) at e = absurd (ground arith)
range_check-InRange p raw (ok q) at e =
    let (whole, limits) = both_clear (whole_check p q) _ e in
    let (low, high) = both_clear _ _ limits in
    record {
      value = q;
      read = at;
      integral = whole_check-clear p q whole;
      above = limit_check-Within _ _ is_negative raw p.minimum low;
      below = limit_check-Within _ _ is_positive raw p.maximum high;
    }

-- A number that `parameterError` accepts is a number that it can hold exactly, is whole where the
-- parameter is an integer, and is neither below its minimum nor above its maximum, as `compare` finds.
pub parameter_error-InRange :
    (p : SemanticParameter) (raw n : Text)
    → parse_json raw ≡ some (num n)
    → parameter_error p (some raw) ≡ []
    → InRange p (trim raw)
unfolding parameter_error value_check number_check
parameter_error-InRange p raw n at e =
    let raised =
      subst
        (λ v.
          caught (codes "Enter valid " ++ (json_type p ++ codes " JSON.")) (value_check p raw v)
          ≡ [])
        at e in
    let typed = next_check _ _ (type_check p (num n)) _ (type_check-Speaks p (num n)) raised in
    range_check-InRange p (trim raw) (decimal (trim raw)) refl (
      cleared _ _ (range_check p (trim raw) (decimal (trim raw))) _
        (range_check-Speaks p (trim raw) _ (decimal-Speaks (trim raw))) typed)
