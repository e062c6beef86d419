-- ===== src/Parameters/Values.antt =====
-- `parameterValues`, `parameterJSON`, `parameterAt` and `parameterChoices`. An object is the list of
-- its members in JavaScript's order: the names that are array indices first, by their value.
use context_gate.Base.{
  ℕ, ◌+◌, ◌-◌, ◌*◌, Text, codes, Bool, true, false, List, [], ◌∷◌, ◌++◌, map, Option, none, some,
  if◌then◌else◌, ◌==◌, ltb, length, get_elem?, text_eq, truthy, unique, Result, ok, throw, error,
}
use context_gate.JsonText.{quote_text, is_digit}
use context_gate.Parameters.{trim, parts, entries}
use context_gate.Semantics.{SemanticParameter}

-- `values[name]`
unfoldable pub value_of : List (Text × Text) → Text → Option Text
value_of [] name = none
value_of ((k, v) ∷ vs) name = if text_eq k name then some v else value_of vs name

-- The array index that a name spells: a decimal with no leading zero, below 2 ^ 32 - 1.
abbrev pub digits_value : ℕ → Text → Option ℕ
digits_value n [] = some n
digits_value n (c ∷ s) =
    let rest = digits_value (n * 10 + (c - 48)) s in if is_digit c then rest else none

abbrev below_limit : Option ℕ → Option ℕ
below_limit none = none
below_limit (some n) = if ltb n 4294967295 then some n else none

unfoldable pub array_index : Text → Option ℕ
array_index [] = none
array_index (c ∷ []) = if is_digit c then some (c - 48) else none
array_index (c ∷ d ∷ s) = if c == 48 then none else below_limit (digits_value 0 (c ∷ d ∷ s))

abbrev pub comes_before : Option ℕ → Option ℕ → Bool
comes_before (some a) (some b) = ltb a b
comes_before (some a) none = true
comes_before none other = false

-- A new member stands before the first that it comes before.
unfoldable pub put_member : Text × Text → List (Text × Text) → List (Text × Text)
put_member (k, v) [] = (k, v) ∷ []
put_member (k, v) ((j, w) ∷ vs) =
    if comes_before (array_index k) (array_index j)
    then (k, v) ∷ (j, w) ∷ vs
    else (j, w) ∷ put_member (k, v) vs

-- `Object.fromEntries` of members with different names
unfoldable pub ordered_from : List (Text × Text) → List (Text × Text) → List (Text × Text)
ordered_from vs [] = vs
ordered_from vs (v ∷ more) = ordered_from (put_member v vs) more

abbrev pub names : List (Text × Text) → List Text
names [] = []
names ((k, v) ∷ vs) = k ∷ names vs

abbrev pub not_an_object : Text
not_an_object = codes "Parameters must be a JSON object."

abbrev pub repeated_name : Text
repeated_name = codes "Each parameter name must appear only once."

unfoldable pub starts_with : ℕ → Text → Bool
starts_with c [] = false
starts_with c (d ∷ s) = d == c

unfoldable pub object_of : Result (List (Text × Text)) → Result (List (Text × Text))
object_of (throw e) = throw e
object_of (ok vs) =
    if length (unique (names vs)) == length vs
    then ok (ordered_from [] vs)
    else throw (error repeated_name)

unfoldable pub entries_of : Result (List Text) → Result (List (Text × Text))
entries_of (throw e) = throw e
entries_of (ok ps) = object_of (entries ps)

unfoldable pub parameter_values : Text → Result (List (Text × Text))
unfolding entries_of object_of
parameter_values text =
    if starts_with 123 (trim text) then entries_of (parts text) else throw (error not_an_object)

-- The line of a member, and `join`.
unfoldable pub member_line : Text × Text → Text
member_line (k, v) = codes "  " ++ (quote_text k ++ (codes ": " ++ v))

unfoldable pub join_behind : Text → List Text → Text
join_behind sep [] = []
join_behind sep (x ∷ xs) = sep ++ (x ++ join_behind sep xs)

unfoldable pub join : Text → List Text → Text
join sep [] = []
join sep (x ∷ xs) = x ++ join_behind sep xs

unfoldable pub parameter_json : List (Text × Text) → Text
parameter_json vs = codes "{\n" ++ (join (codes ",\n") (map member_line vs) ++ codes "\n}")

-- `pointer.split("/")` behind its first character, with the two replacements of each part.
unfoldable pub split_slash : Text → List Text
split_slash [] = [] ∷ []
split_slash (c ∷ s) = elim (split_slash s) [
  | [] ↦ []
  | p ∷ ps ↦ if c == 47 then [] ∷ p ∷ ps else (c ∷ p) ∷ ps
]

-- `.replaceAll("~k", by)` for a digit `k`; the flag holds a tilde back.
unfoldable pub replace_tilde : ℕ → ℕ → Bool → Text → Text
replace_tilde k by held [] = if held then 126 ∷ [] else []
replace_tilde k by false (c ∷ s) =
    let kept = replace_tilde k by false s in
    let open_tilde = replace_tilde k by true s in if c == 126 then open_tilde else c ∷ kept
replace_tilde k by true (c ∷ s) =
    let kept = replace_tilde k by false s in
    let open_tilde = replace_tilde k by true s in
    if c == k then by ∷ kept else if c == 126 then 126 ∷ open_tilde else 126 ∷ c ∷ kept

unfoldable pub pointer_key : Text → Text
pointer_key part = replace_tilde 48 126 false (replace_tilde 49 47 false part)

abbrev element_at : List Text → Option ℕ → Option Text
element_at ps none = none
element_at ps (some i) = get_elem? ps i

-- `Number(key)` of decimal digits, with leading zeros and white space around them; a blank key is 0.
-- Any other spelling is taken for a missing element.
abbrev position : Text → Option ℕ
position s = digits_value 0 (trim s)

element : Text → Result (List Text) → Result (Option Text)
element key (throw e) = throw e
element key (ok ps) = ok (element_at ps (position key))

unfoldable pub value_named : Text → Result (List (Text × Text)) → Result (Option Text)
value_named key (throw e) = throw e
value_named key (ok vs) = ok (value_of vs key)

unfoldable pub step_into : Text → Text → Result (Option Text)
unfolding element value_named
step_into value key =
    if starts_with 91 (trim value)
    then element key (parts value)
    else value_named key (parameter_values value)

unfoldable pub value_behind : Text → List Text → Result Text
value_behind value [] = ok value
value_behind value (k ∷ ks) = elim (step_into value (pointer_key k)) [
  | throw e ↦ throw e
  | ok none ↦ throw (error (codes "Parameter position no longer exists."))
  | ok (some next) ↦ value_behind next ks
]

unfoldable pub parameter_at : Text → Text → Result Text
parameter_at text [] = throw (error (codes "Invalid parameter position."))
parameter_at text (c ∷ pointer) =
    if c == 47
    then value_behind text (split_slash pointer)
    else throw (error (codes "Invalid parameter position."))

abbrev choices_in : Option Text → Result (List Text)
choices_in none = ok []
choices_in (some text) = if truthy text then parts text else ok []

unfoldable pub parameter_choices : SemanticParameter → Result (List Text)
parameter_choices p = choices_in p.enum_json
