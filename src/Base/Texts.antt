-- ===== src/Base/Texts.antt =====
-- A text is the list of its UTF-16 code units, as a JavaScript string is.
use Prim.Native.Nat.{ℕ}
use Prim.Native.Char.{code}
use Prim.Native.String.{String}
use mathlib.Core.Path.{◌≡◌}
use mathlib.Core.Logic.{◌↔◌}
use mathlib.Core.Bool.{Bool, true, false, ◌&&◌}
use mathlib.Core.Option.{Option, none, some}
use mathlib.Core.List.{List, [], ◌∷◌}
use native.Mathlib.Omega.{arith}
use context_gate.Base.Tests.{◌==◌}
use context_gate.Base.Lists.{Has}

abbrev pub Text : Type 0
Text = List ℕ

-- The code units of a literal. The literals of the sources stay within the basic plane.
abbrev pub codes : String → Text
codes String.[] = []
codes (String.◌∷◌ c s) = code c ∷ codes s

-- `===` on strings.
unfoldable pub text_eq : Text → Text → Bool
text_eq [] [] = true
text_eq (x ∷ xs) (y ∷ ys) = x == y && text_eq xs ys
text_eq [] (_ ∷ _) = false
text_eq (_ ∷ _) [] = false

pub text_eq_iff : (a b : Text) → (text_eq a b ≡ true) ↔ (a ≡ b)
unfolding text_eq
text_eq_iff [] [] = ground arith
text_eq_iff (x ∷ xs) (y ∷ ys) = ground (arith, text_eq_iff xs ys)
text_eq_iff [] (y ∷ ys) = ground arith
text_eq_iff (x ∷ xs) [] = ground arith

-- A string in a condition: the empty one is false.
abbrev pub truthy : Text → Bool
truthy [] = false
truthy (_ ∷ _) = true

-- An optional string in a condition: `undefined` is false too.
abbrev pub truthy? : Option Text → Bool
truthy? none = false
truthy? (some s) = truthy s

-- `value || fallback` on an optional string.
abbrev pub or_text : Option Text → Text → Text
or_text none d = d
or_text (some []) d = d
or_text (some (c ∷ s)) d = c ∷ s

-- `list.includes(text)`, and `set.has(text)`.
unfoldable pub includes : List Text → Text → Bool
includes [] a = false
includes (x ∷ xs) a = elim (text_eq x a) [ true ↦ true | false ↦ includes xs a ]

pub includes_iff : (xs : List Text) (a : Text) → (includes xs a ≡ true) ↔ Has a xs
unfolding includes
includes_iff [] a = ground arith
includes_iff (x ∷ xs) a = ground (arith, text_eq_iff x a, includes_iff xs a)
