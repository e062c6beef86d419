-- ===== src/Parameters/Numbers.antt =====
-- `decimal` and `compare`: exact numbers, as a numerator over a power of ten.
use context_gate.Base.{
  ℕ, zero, suc, ◌+◌, ◌-◌, ◌*◌, ◌^◌, Text, codes, Bool, true, false, not, ◌||◌, [], ◌∷◌, ◌++◌,
  Option, none, some, if◌then◌else◌, ◌==◌, ltb, length, Result, ok, throw, error,
}
use context_gate.Base.Int.{ℤ, pos, negsuc, ◌-ℤ◌}
use context_gate.JsonText.{is_digit, first, read_number}

-- - n, and n or - n.
abbrev pub negated : ℕ → ℤ
negated zero = pos 0
negated (suc n) = negsuc n

abbrev signed : Bool → ℕ → ℤ
signed true n = negated n
signed false n = pos n

-- The digits at the front, and the text behind them.
abbrev put_digit : ℕ → Text × Text → Text × Text
put_digit c (ds, r) = (c ∷ ds, r)

unfoldable pub front_digits : Text → Text × Text
front_digits [] = ([], [])
front_digits (c ∷ s) =
    let more = put_digit c (front_digits s) in if is_digit c then more else ([], c ∷ s)

unfoldable pub digits_number : ℕ → Text → ℕ
digits_number n [] = n
digits_number n (c ∷ s) = digits_number (n * 10 + (c - 48)) s

-- The four groups of the expression.
pub record Groups : Type 0 where
  pub negative : Bool
  pub whole_digits : Text
  pub fraction_digits : Text
  pub negative_power : Bool
  pub power_digits : Text

power_groups : Bool → Text → Text → Text → Groups
power_groups neg w f [] = record {
  negative = neg;
  whole_digits = w;
  fraction_digits = f;
  negative_power = false;
  power_digits = [];
}
power_groups neg w f (c ∷ s) = record {
  negative = neg;
  whole_digits = w;
  fraction_digits = f;
  negative_power = c == 45;
  power_digits = if (c == 45) || (c == 43) then s else c ∷ s;
}

-- Behind the letter of the exponent
exponent_groups : Bool → Text → Text × Text → Groups
exponent_groups neg w (f, []) = power_groups neg w f []
exponent_groups neg w (f, c ∷ s) = power_groups neg w f s

fraction_groups : Bool → Text × Text → Groups
fraction_groups neg (w, []) = power_groups neg w [] []
fraction_groups neg (w, c ∷ s) =
    if c == 46 then exponent_groups neg w (front_digits s) else power_groups neg w [] s

unfoldable pub groups : Text → Groups
unfolding power_groups exponent_groups fraction_groups front_digits
groups [] = fraction_groups false ([], [])
groups (c ∷ s) =
    if c == 45
    then fraction_groups true (front_digits s)
    else fraction_groups false (front_digits (c ∷ s))

abbrev pub number_message : Text
number_message = codes "Enter a JSON number (up to 1,024 characters; exponent within ±10,000)."

-- `raw.match(…)`: the number that starts the text is all of it.
abbrev all_read : Option (Text × Text) → Bool
all_read none = false
all_read (some (v, [])) = true
all_read (some (v, c ∷ r)) = false

unfoldable pub is_number : Text → Bool
is_number raw = all_read (read_number first raw)

-- A fraction with a positive denominator.
abbrev pub Fraction : Type 0
Fraction = ℤ × ℕ

abbrev pub times : ℤ → ℕ → ℤ
times (pos n) k = pos (n * k)
times (negsuc n) k = negated (suc n * k)

scaled : ℤ → ℤ → Fraction
scaled coefficient (pos n) = (times coefficient (10 ^ n), 1)
scaled coefficient (negsuc n) = (coefficient, 10 ^ suc n)

unfoldable pub number_of : Groups → Fraction
unfolding scaled
number_of g =
    let power = signed g.negative_power (digits_number 0 g.power_digits) in
    scaled (signed g.negative (digits_number 0 (g.whole_digits ++ g.fraction_digits)))
      (power -ℤ pos (length g.fraction_digits))

unfoldable pub decimal : Text → Result Fraction
decimal raw =
    if not (is_number raw)
      || (ltb 1024 (length raw) || ltb 10000 (digits_number 0 (Groups.power_digits (groups raw))))
    then throw (error number_message)
    else ok (number_of (groups raw))

-- `compare`, as the two products that it subtracts
unfoldable pub compare_fractions : Fraction → Fraction → ℤ
compare_fractions (an, ad) (bn, bd) = times an bd -ℤ times bn ad

unfoldable pub compare_with : Fraction → Result Fraction → Result ℤ
compare_with a (throw e) = throw e
compare_with a (ok b) = ok (compare_fractions a b)

unfoldable pub compare_first : Result Fraction → Result Fraction → Result ℤ
unfolding compare_with
compare_first (throw e) b = throw e
compare_first (ok a) b = compare_with a b

unfoldable pub compare_numbers : Text → Text → Result ℤ
unfolding compare_first
compare_numbers a b = compare_first (decimal a) (decimal b)
