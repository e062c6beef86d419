-- ===== src/Parameters.antt =====
-- web/src/template-parameters.ts: the parts of a JSON text as they are written, and a parameter
-- object as a list of names with the texts of their values. `t` is the identity here.
pub mod Split
pub mod Values
pub mod Numbers
pub mod Equality
pub mod Size
pub mod Check
pub mod Lines
pub mod Form
pub mod RoundTrip
pub mod Tests
use context_gate.Base.{
  ℕ, zero, suc, ◌+◌, ◌-◌, ◌*◌, Text, codes, Bool, true, false, not, ◌&&◌, ◌||◌, List, [], ◌∷◌, ◌++◌,
  map, Option, none, some, if◌then◌else◌, ◌==◌, ltb, leb, length, find, text_eq, unique, Result, ok,
  throw, error, syntax_error, type_error, Thrown,
}
use context_gate.Base.Int.{ℤ, pos, negsuc}
use context_gate.Json.{Json, str}
use context_gate.JsonText.{parse_json, quote_text}

-- The white space of `trim` and of `\s`.
abbrev pub is_space : ℕ → Bool
is_space c =
    (leb 9 c && leb c 13)
    || ((c == 32)
        || ((c == 160)
            || ((c == 5760)
                || ((leb 8192 c && leb c 8202)
                    || ((c == 8232)
                        || ((c == 8233)
                            || ((c == 8239)
                                || ((c == 8287) || ((c == 12288) || (c == 65279))))))))))

unfoldable pub trim_start : Text → Text
trim_start [] = []
trim_start (c ∷ s) = let rest = trim_start s in if is_space c then rest else c ∷ s

abbrev put_unless_space : ℕ → Text → Text
put_unless_space c [] = if is_space c then [] else c ∷ []
put_unless_space c (d ∷ s) = c ∷ d ∷ s

unfoldable pub trim_end : Text → Text
trim_end [] = []
trim_end (c ∷ s) = put_unless_space c (trim_end s)

unfoldable pub trim : Text → Text
trim s = trim_end (trim_start s)

-- `.slice(1, -1)`
unfoldable pub drop_last : Text → Text
drop_last [] = []
drop_last (c ∷ []) = []
drop_last (c ∷ d ∷ s) = c ∷ drop_last (d ∷ s)

abbrev pub behind_first : Text → Text
behind_first [] = []
behind_first (c ∷ s) = s

-- The loop's variables `depth`, `quoted` and `escaped`.
pub data Scan : Type 0 where
  bare : ℤ → Scan
  quoted : ℤ → Scan
  quoted_escape : ℤ → Scan

abbrev pub up : ℤ → ℤ
up (pos n) = pos (suc n)
up (negsuc zero) = pos 0
up (negsuc (suc n)) = negsuc n

abbrev pub down : ℤ → ℤ
down (pos zero) = negsuc 0
down (pos (suc n)) = pos n
down (negsuc n) = negsuc (suc n)

abbrev pub is_zero : ℤ → Bool
is_zero (pos zero) = true
is_zero (pos (suc n)) = false
is_zero (negsuc n) = false

-- The body of the loop: `none` cuts the text at this unit.
unfoldable pub scan_move : Scan → ℕ → Option Scan
scan_move (quoted d) c =
    if c == 92 then some (quoted_escape d) else if c == 34 then some (bare d) else some (quoted d)
scan_move (quoted_escape d) c = some (quoted d)
scan_move (bare d) c =
    if c == 34
    then some (quoted d)
    else if (c == 123) || (c == 91)
    then some (bare (up d))
    else if (c == 125) || (c == 93)
    then some (bare (down d))
    else if (c == 44) && is_zero d
    then none
    else some (bare d)

abbrev pub begin_slice : Text × List Text → Text × List Text
begin_slice (p, ps) = ([], p ∷ ps)

abbrev pub put_slice : ℕ → Text × List Text → Text × List Text
put_slice c (p, ps) = (c ∷ p, ps)

-- The slice up to the next cut, and the slices behind it.
unfoldable pub cut_from : Scan → Text → Text × List Text
cut_from q [] = ([], [])
cut_from q (c ∷ s) = elim (scan_move q c) [
  | none ↦ begin_slice (cut_from q s)
  | some q' ↦ put_slice c (cut_from q' s)
]

-- The slices; a blank text has no comma, and none.
abbrev trimmed_slices : Text × List Text → List Text
trimmed_slices (p, ps) = trim p ∷ map trim ps

slices : Text → Text → List Text
slices inner [] = []
slices inner (c ∷ s) = trimmed_slices (cut_from (bare (pos 0)) inner)

parts_of : Text → Option Json → Result (List Text)
parts_of text none = throw syntax_error
parts_of text (some v) =
    let inner = drop_last (behind_first (trim text)) in ok (slices inner (trim inner))

unfoldable pub parts : Text → Result (List Text)
unfolding parts_of slices
parts text = parts_of text (parse_json text)

-- The regular expression of a key, up to its colon.
pub data KeyState : Type 0 where
  opening inside inside_escape closed : KeyState

pub data KeyMove : Type 0 where
  found refused : KeyMove
  onward : KeyState → KeyMove

abbrev ends_line : ℕ → Bool
ends_line c = (c == 10) || ((c == 13) || ((c == 8232) || (c == 8233)))

unfoldable pub key_move : KeyState → ℕ → KeyMove
key_move opening c = if c == 34 then onward inside else refused
key_move inside c =
    if c == 92 then onward inside_escape else if c == 34 then onward closed else onward inside
key_move inside_escape c = if ends_line c then refused else onward inside
key_move closed c = if is_space c then onward closed else if c == 58 then found else refused

abbrev put_key : ℕ → Option (Text × Text) → Option (Text × Text)
put_key c none = none
put_key c (some (k, r)) = some (c ∷ k, r)

-- The key without its colon, which is the last one of the match, and the text behind it.
unfoldable pub match_key : KeyState → Text → Option (Text × Text)
match_key q [] = none
match_key q (c ∷ s) = elim (key_move q c) [
  | found ↦ some ([], s)
  | refused ↦ none
  | onward q' ↦ put_key c (match_key q' s)
]

-- The name in a key: a text that starts with a quote is a string or an error.
name_in : Option Json → Text → Result (Text × Text)
name_in (some (str k)) value = ok (k, value)
name_in _ value = throw syntax_error

entry_of : Option (Text × Text) → Result (Text × Text)
entry_of none = throw type_error
entry_of (some (k, r)) = name_in (parse_json k) (trim r)

put_entry : Result (Text × Text) → Result (List (Text × Text)) → Result (List (Text × Text))
put_entry (throw e) rest = throw e
put_entry (ok v) (throw e) = throw e
put_entry (ok v) (ok vs) = ok (v ∷ vs)

unfoldable pub entries : List Text → Result (List (Text × Text))
unfolding entry_of name_in put_entry
entries [] = ok []
entries (p ∷ ps) = put_entry (entry_of (match_key opening p)) (entries ps)
