-- ===== src/JsonText.antt =====
-- What the sources use of JavaScript's `JSON`: `JSON.parse`, and `JSON.stringify` of a string. A
-- text is read by small machines, one code unit after another; the fuel of the grammar is twice the
-- length of the text, and each round of two levels reads a code unit.
pub mod Strings
pub mod Tokens
pub mod Fuel
pub mod Enough
pub mod Tests
use context_gate.Base.{
  ℕ, zero, suc, ◌+◌, ◌-◌, ◌*◌, ◌/◌, ◌%◌, Text, codes, Bool, true, false, not, ◌&&◌, ◌||◌, List, [],
  ◌∷◌, ◌++◌, Option, none, some, if◌then◌else◌, ◌==◌, ltb, leb, length,
}
use context_gate.Json.{Json, null, bool, num, str, arr, obj, Items, nil, cons, Fields, end, field}

-- White space of the JSON grammar.
abbrev pub is_json_space : ℕ → Bool
is_json_space c = (c == 32) || ((c == 10) || ((c == 13) || (c == 9)))

unfoldable pub skip_space : Text → Text
skip_space [] = []
skip_space (c ∷ s) = let rest = skip_space s in if is_json_space c then rest else c ∷ s

-- Inside a string: plain text, behind a backslash, or with so many hexadecimal digits to come.
pub data StringState : Type 0 where
  plain : StringState
  escaped : StringState
  hex : ℕ → ℕ → StringState

pub data StringMove : Type 0 where
  close : StringMove
  refuse : StringMove
  go : StringState → StringMove
  emit : ℕ → StringMove

-- The value of a hexadecimal digit.
abbrev pub hex_value : ℕ → Option ℕ
hex_value c =
    if leb 48 c && leb c 57
    then some (c - 48)
    else if leb 97 c && leb c 102
    then some (c - 87)
    else if leb 65 c && leb c 70
    then some (c - 55)
    else none

hex_move : ℕ → ℕ → Option ℕ → StringMove
hex_move n v none = refuse
hex_move zero v (some d) = emit (v * 16 + d)
hex_move (suc n) v (some d) = go (hex n (v * 16 + d))

unfoldable pub string_move : StringState → ℕ → StringMove
unfolding hex_move
string_move plain c =
    if c == 34 then close else if c == 92 then go escaped else if ltb c 32 then refuse else emit c
string_move escaped c =
    if (c == 34) || ((c == 92) || (c == 47))
    then emit c
    else if c == 98
    then emit 8
    else if c == 116
    then emit 9
    else if c == 110
    then emit 10
    else if c == 102
    then emit 12
    else if c == 114
    then emit 13
    else if c == 117
    then go (hex 3 0)
    else refuse
string_move (hex n v) c = hex_move n v (hex_value c)

abbrev pub put_first : ℕ → Option (Text × Text) → Option (Text × Text)
put_first c none = none
put_first c (some (v, r)) = some (c ∷ v, r)

-- The rest of a string behind its opening quote: the value, and the text behind the closing quote.
unfoldable pub read_string : StringState → Text → Option (Text × Text)
read_string q [] = none
read_string q (c ∷ s) = elim (string_move q c) [
  | close ↦ some ([], s)
  | refuse ↦ none
  | go q' ↦ read_string q' s
  | emit d ↦ put_first d (read_string plain s)
]

-- Inside a number.
pub data NumberState : Type 0 where
  first minus zeros digits point fraction exponent sign power : NumberState

abbrev pub is_digit : ℕ → Bool
is_digit c = leb 48 c && leb c 57

abbrev pub number_ends : NumberState → Bool
number_ends zeros = true
number_ends digits = true
number_ends fraction = true
number_ends power = true
number_ends _ = false

abbrev behind_digits : NumberState → ℕ → Option NumberState
behind_digits q c =
    if c == 46 then some point else if (c == 101) || (c == 69) then some exponent else none

abbrev pub number_move : NumberState → ℕ → Option NumberState
number_move first c =
    if c == 45
    then some minus
    else if c == 48
    then some zeros
    else if is_digit c
    then some digits
    else none
number_move minus c = if c == 48 then some zeros else if is_digit c then some digits else none
number_move zeros c = behind_digits zeros c
number_move digits c = if is_digit c then some digits else behind_digits digits c
number_move point c = if is_digit c then some fraction else none
number_move fraction c =
    if is_digit c then some fraction else if (c == 101) || (c == 69) then some exponent else none
number_move exponent c =
    if (c == 43) || (c == 45) then some sign else if is_digit c then some power else none
number_move sign c = if is_digit c then some power else none
number_move power c = if is_digit c then some power else none

-- The longest number, and the text behind it.
unfoldable pub read_number : NumberState → Text → Option (Text × Text)
read_number q [] = if number_ends q then some ([], []) else none
read_number q (c ∷ s) = elim (number_move q c) [
  | none ↦ if number_ends q then some ([], c ∷ s) else none
  | some q' ↦ put_first c (read_number q' s)
]

-- The text behind a word that it starts with.
unfoldable pub behind : Text → Text → Option Text
behind [] s = some s
behind (c ∷ w) [] = none
behind (c ∷ w) (d ∷ s) = let rest = behind w s in if c == d then rest else none

abbrev pub Read : Type 0 → Type 0
Read A = Option (A × Text)

abbrev mapped : {A B : Type 0} → (A → B) → Read A → Read B
mapped f none = none
mapped f (some (a, r)) = some (f a, r)

abbrev worded : Json → Option Text → Read Json → Read Json
worded v (some r) other = some (v, r)
worded v none other = other

-- `true`, `false`, `null`, or a number.
pub read_word : Text → Read Json
read_word s = worded (bool true) (behind (codes "true") s) (
    worded (bool false) (behind (codes "false") s)
      (worded null (behind (codes "null") s) (mapped num (read_number first s))))

-- The text behind white space and the given code unit.
unfoldable pub expect : ℕ → Text → Option Text
expect c s = elim (skip_space s) [ [] ↦ none | d ∷ r ↦ if d == c then some r else none ]

-- Behind the first unit of a value, with the readers of what an array and an object hold.
module _ (items : Text → Read Items) (fields : Text → Read Fields) where
  pub array_from : Text → Read Json
  array_from [] = none
  array_from (c ∷ s) = elim (c == 93) [
    | true ↦ some (arr nil, s)
    | false ↦ mapped arr (items (c ∷ s))
  ]

  pub object_from : Text → Read Json
  object_from [] = none
  object_from (c ∷ s) = elim (c == 125) [
    | true ↦ some (obj end, s)
    | false ↦ mapped obj (fields (c ∷ s))
  ]

  pub value_from : Text → Read Json
  value_from [] = none
  value_from (c ∷ s) = elim (c == 34) [
    | true ↦ mapped str (read_string plain s)
    | false ↦ elim (c == 123) [
      | true ↦ object_from (skip_space s)
      | false ↦ elim (c == 91) [ true ↦ array_from (skip_space s) | false ↦ read_word (c ∷ s) ]
    ]
  ]

-- Behind an item, with the reader of the next ones.
pub item_end : (Text → Read Items) → Json → Text → Read Items
item_end items v [] = none
item_end items v (c ∷ s) = elim (c == 93) [
  | true ↦ some (cons v nil, s)
  | false ↦ elim (c == 44) [ true ↦ mapped (cons v) (items s) | false ↦ none ]
]

pub items_from : (Text → Read Items) → Read Json → Read Items
items_from items none = none
items_from items (some (v, r)) = item_end items v (skip_space r)

-- Behind a member, with the reader of the next ones.
pub field_end : (Text → Read Fields) → Text → Json → Text → Read Fields
field_end fields k v [] = none
field_end fields k v (c ∷ s) = elim (c == 125) [
  | true ↦ some (field k v end, s)
  | false ↦ elim (c == 44) [ true ↦ mapped (field k v) (fields s) | false ↦ none ]
]

pub field_value : (Text → Read Fields) → Text → Read Json → Read Fields
field_value fields k none = none
field_value fields k (some (v, r)) = field_end fields k v (skip_space r)

-- Behind a name, with the reader of a value.
pub field_from : (Text → Read Json) → (Text → Read Fields) → Text → Option Text → Read Fields
field_from value fields k none = none
field_from value fields k (some r) = field_value fields k (value r)

pub name_from : (Text → Read Json) → (Text → Read Fields) → Read Text → Read Fields
name_from value fields none = none
name_from value fields (some (k, r)) = field_from value fields k (expect 58 r)

pub fields_from : (Text → Read Json) → (Text → Read Fields) → Option Text → Read Fields
fields_from value fields none = none
fields_from value fields (some r) = name_from value fields (read_string plain r)

unfoldable mutual
  unfolding read_word array_from object_from value_from item_end items_from field_end field_value
      field_from name_from fields_from

  pub read_value : ℕ → Text → Read Json
  read_value zero s = none
  read_value (suc f) s = value_from (read_items f) (read_fields f) (skip_space s)

  pub read_items : ℕ → Text → Read Items
  read_items zero s = none
  read_items (suc f) s = items_from (read_items f) (read_value f s)

  pub read_fields : ℕ → Text → Read Fields
  read_fields zero s = none
  read_fields (suc f) s = fields_from (read_value f) (read_fields f) (expect 34 s)

abbrev pub whole : Read Json → Option Json
whole none = none
whole (some (v, r)) = elim (skip_space r) [ [] ↦ some v | _ ∷ _ ↦ none ]

-- `JSON.parse(text)`; `none` is its `SyntaxError`.
unfoldable pub parse_json : Text → Option Json
parse_json s = whole (read_value (2 * length s + 2) s)

-- `JSON.stringify` of a string: short escapes, then the other controls and lone surrogates as four
-- hexadecimal digits.
abbrev pub hex_digit : ℕ → ℕ
hex_digit d = if ltb d 10 then 48 + d else 87 + d

abbrev pub hex_escape : ℕ → Text
hex_escape c =
    92
    ∷ 117
    ∷ hex_digit (c / 4096)
    ∷ hex_digit (c / 256 % 16)
    ∷ hex_digit (c / 16 % 16)
    ∷ hex_digit (c % 16)
    ∷ []

abbrev pub is_high : ℕ → Bool
is_high c = leb 55296 c && leb c 56319

abbrev pub is_low : ℕ → Bool
is_low c = leb 56320 c && leb c 57343

unfoldable pub escape_code : ℕ → Text
escape_code c =
    if c == 34
    then codes "\\\""
    else if c == 92
    then codes "\\\\"
    else if c == 8
    then codes "\\b"
    else if c == 12
    then codes "\\f"
    else if c == 10
    then codes "\\n"
    else if c == 13
    then codes "\\r"
    else if c == 9
    then codes "\\t"
    else if ltb c 32
    then hex_escape c
    else c ∷ []

abbrev pub starts_low : Text → Bool
starts_low [] = false
starts_low (c ∷ s) = is_low c

-- One unit, where `paired` says that it is the low surrogate of the high one before, and `low` that
-- a low one follows.
unfoldable pub unit_text : Bool → ℕ → Bool → Text
unit_text true c low = c ∷ []
unit_text false c low =
    if is_high c && low
    then c ∷ []
    else if is_high c || is_low c
    then hex_escape c
    else escape_code c

unfoldable pub escape_from : Bool → Text → Text
escape_from paired [] = []
escape_from paired (c ∷ s) =
    unit_text paired c (starts_low s) ++ escape_from (not paired && (is_high c && starts_low s)) s

unfoldable pub quote_text : Text → Text
quote_text s = 34 ∷ (escape_from false s ++ 34 ∷ [])
