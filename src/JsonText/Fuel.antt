-- ===== src/JsonText/Fuel.antt =====
-- What every reader of `parse_json` leaves is shorter than what it was given.
use context_gate.Base.{
  ℕ, zero, suc, arith, Text, Bool, true, false, [], ◌∷◌, Option, none, some, ◌==◌, length,
}
use context_gate.Json.{Json, Items, Fields, str, arr, obj, nil, cons, end, field}
use context_gate.JsonText.{
  skip_space, plain, read_string, Read, mapped, read_word, expect, array_from, object_from,
  value_from, item_end, items_from, field_end, field_value, field_from, name_from, fields_from,
  read_value, read_items, read_fields,
}
use context_gate.JsonText.Tokens.{
  RestBelow, WordBelow, RestBelow-le, mapped-RestBelow, length-skip_space, read_string-RestBelow,
  read_word-RestBelow, expect-WordBelow,
}

-- Readers of items and of fields that leave less, and what is built of them.
module _ (items : Text → Read Items) (fields : Text → Read Fields)
    (items_below : (s : Text) → RestBelow (length s) (items s))
    (fields_below : (s : Text) → RestBelow (length s) (fields s)) where
  array_from-RestBelow : (t : Text) → RestBelow (length t) (array_from items fields t)
  unfolding array_from
  array_from-RestBelow [] = tt
  array_from-RestBelow (c ∷ s) = read (c == 93)
    where
      read :
          (b : Bool)
          → RestBelow (suc (length s)) (elim b as (λ _. Read Json) [
            | true ↦ some (arr nil, s)
            | false ↦ mapped arr (items (c ∷ s))
          ])
      read true = omega arith
      read false = mapped-RestBelow arr (suc (length s)) (items (c ∷ s)) (items_below (c ∷ s))

  object_from-RestBelow : (t : Text) → RestBelow (length t) (object_from items fields t)
  unfolding object_from
  object_from-RestBelow [] = tt
  object_from-RestBelow (c ∷ s) = read (c == 125)
    where
      read :
          (b : Bool)
          → RestBelow (suc (length s)) (elim b as (λ _. Read Json) [
            | true ↦ some (obj end, s)
            | false ↦ mapped obj (fields (c ∷ s))
          ])
      read true = omega arith
      read false = mapped-RestBelow obj (suc (length s)) (fields (c ∷ s)) (fields_below (c ∷ s))

  value_from-RestBelow : (t : Text) → RestBelow (length t) (value_from items fields t)
  unfolding value_from
  value_from-RestBelow [] = tt
  value_from-RestBelow (c ∷ s) = read (c == 34) (c == 123) (c == 91)
    where
      read :
          (p q r : Bool)
          → RestBelow (suc (length s)) (elim p as (λ _. Read Json) [
            | true ↦ mapped str (read_string plain s)
            | false ↦ elim q as (λ _. Read Json) [
              | true ↦ object_from items fields (skip_space s)
              | false ↦ elim r as (λ _. Read Json) [
                | true ↦ array_from items fields (skip_space s)
                | false ↦ read_word (c ∷ s)
              ]
            ]
          ])
      read true q r = mapped-RestBelow str (suc (length s)) (read_string plain s) (
          RestBelow-le (length s) (suc (length s)) (read_string plain s) (omega arith)
            (read_string-RestBelow plain s))
      read false true r =
          RestBelow-le (length (skip_space s)) (suc (length s))
            (object_from items fields (skip_space s)) (omega (arith, length-skip_space s))
            (object_from-RestBelow (skip_space s))
      read false false true =
          RestBelow-le (length (skip_space s)) (suc (length s))
            (array_from items fields (skip_space s)) (omega (arith, length-skip_space s))
            (array_from-RestBelow (skip_space s))
      read false false false = read_word-RestBelow (c ∷ s)

  item_end-RestBelow : (v : Json) (t : Text) → RestBelow (length t) (item_end items v t)
  unfolding item_end
  item_end-RestBelow v [] = tt
  item_end-RestBelow v (c ∷ s) = read (c == 93) (c == 44)
    where
      read :
          (p q : Bool)
          → RestBelow (suc (length s)) (elim p as (λ _. Read Items) [
            | true ↦ some (cons v nil, s)
            | false ↦ elim q as (λ _. Read Items) [
              | true ↦ mapped (cons v) (items s)
              | false ↦ none
            ]
          ])
      read true q = omega arith
      read false true =
          mapped-RestBelow (cons v) (suc (length s)) (items s)
            (RestBelow-le (length s) (suc (length s)) (items s) (omega arith) (items_below s))
      read false false = tt

  items_from-RestBelow : (n : ℕ) (o : Read Json) → RestBelow n o → RestBelow n (items_from items o)
  unfolding items_from
  items_from-RestBelow n none h = tt
  items_from-RestBelow n (some (v, r)) h =
      RestBelow-le (length (skip_space r)) n (item_end items v (skip_space r))
        (omega (arith, length-skip_space r)) (item_end-RestBelow v (skip_space r))

  field_end-RestBelow :
      (k : Text) (v : Json) (t : Text) → RestBelow (length t) (field_end fields k v t)
  unfolding field_end
  field_end-RestBelow k v [] = tt
  field_end-RestBelow k v (c ∷ s) = read (c == 125) (c == 44)
    where
      read :
          (p q : Bool)
          → RestBelow (suc (length s)) (elim p as (λ _. Read Fields) [
            | true ↦ some (field k v end, s)
            | false ↦ elim q as (λ _. Read Fields) [
              | true ↦ mapped (field k v) (fields s)
              | false ↦ none
            ]
          ])
      read true q = omega arith
      read false true =
          mapped-RestBelow (field k v) (suc (length s)) (fields s)
            (RestBelow-le (length s) (suc (length s)) (fields s) (omega arith) (fields_below s))
      read false false = tt

  field_value-RestBelow :
      (n : ℕ) (k : Text) (o : Read Json) → RestBelow n o → RestBelow n (field_value fields k o)
  unfolding field_value
  field_value-RestBelow n k none h = tt
  field_value-RestBelow n k (some (v, r)) h =
      RestBelow-le (length (skip_space r)) n (field_end fields k v (skip_space r))
        (omega (arith, length-skip_space r)) (field_end-RestBelow k v (skip_space r))

  module _ (value : Text → Read Json)
      (value_below : (s : Text) → RestBelow (length s) (value s)) where
    field_from-RestBelow :
        (n : ℕ) (k : Text) (o : Option Text)
        → WordBelow n o
        → RestBelow n (field_from value fields k o)
    unfolding field_from
    field_from-RestBelow n k none h = tt
    field_from-RestBelow n k (some r) h =
        RestBelow-le (length r) n (field_value fields k (value r)) (omega arith)
          (field_value-RestBelow (length r) k (value r) (value_below r))

    fields_from-RestBelow :
        (n : ℕ) (o : Option Text) → WordBelow n o → RestBelow n (fields_from value fields o)
    unfolding fields_from name_from
    fields_from-RestBelow n none h = tt
    fields_from-RestBelow n (some r) h = named (read_string plain r) (read_string-RestBelow plain r)
      where
        named : (o : Read Text) → RestBelow (length r) o → RestBelow n (name_from value fields o)
        named none h = tt
        named (some (k, r₁)) g =
            RestBelow-le (length r₁) n (field_from value fields k (expect 58 r₁)) (omega arith)
              (field_from-RestBelow (length r₁) k (expect 58 r₁) (expect-WordBelow 58 r₁))

-- All three readers leave less than they were given.
abbrev pub LeavesLess : ℕ → Type 0
LeavesLess f =
    ((s : Text) → RestBelow (length s) (read_value f s))
    × ((s : Text) → RestBelow (length s) (read_items f s))
    × ((s : Text) → RestBelow (length s) (read_fields f s))

pub readers-LeavesLess : (f : ℕ) → LeavesLess f
unfolding read_value read_items read_fields
readers-LeavesLess zero = ((λ s. tt), (λ s. tt), λ s. tt)
readers-LeavesLess (suc f) =
    let (v, i, m) = readers-LeavesLess f in
    (
      (λ s.
          RestBelow-le (length (skip_space s)) (length s)
            (value_from (read_items f) (read_fields f) (skip_space s)) (length-skip_space s)
            (value_from-RestBelow (read_items f) (read_fields f) i m (skip_space s))),
      (λ s.
          items_from-RestBelow (read_items f) (read_fields f) i m (length s) (read_value f s)
            (v s)),
      λ s.
          fields_from-RestBelow (read_items f) (read_fields f) i m (read_value f) v (length s)
            (expect 34 s) (expect-WordBelow 34 s),
    )
