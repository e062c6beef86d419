-- ===== src/JsonText/Enough.antt =====
-- The fuel of `parse_json` is enough: with more, every text is read alike.
use context_gate.Base.{
  ℕ, zero, suc, ◌+◌, ◌*◌, ◌<◌, ◌≤◌, ◌≡◌, refl, ap, ◌∙◌, arith, Text, true, false, [], ◌∷◌, Option,
  none, some, ◌==◌, length,
}
use context_gate.Json.{Json, Items, Fields, str, arr, obj, nil, cons, end, field}
use context_gate.JsonText.{
  skip_space, plain, read_string, Read, mapped, read_word, expect, array_from, object_from,
  value_from, item_end, items_from, field_end, field_value, field_from, name_from, fields_from,
  read_value, read_items, read_fields, whole, parse_json,
}
use context_gate.JsonText.Fuel.{readers-LeavesLess}
use context_gate.JsonText.Tokens.{
  RestBelow, WordBelow, RestBelow-le, length-skip_space, read_string-RestBelow, expect-WordBelow,
}

-- Readers that agree on every shorter text.
module _ (items items' : Text → Read Items) (fields fields' : Text → Read Fields) (n : ℕ)
    (same_items : (s : Text) → length s < n → items s ≡ items' s)
    (same_fields : (s : Text) → length s < n → fields s ≡ fields' s) where
  array_from-agree :
      (t : Text) → length t < n → array_from items fields t ≡ array_from items' fields' t
  unfolding array_from
  array_from-agree [] h = refl
  array_from-agree (c ∷ s) h =
      ap
        (λ o. elim (c == 93) as (λ _. Read Json) [
          | true ↦ some (arr nil, s)
          | false ↦ mapped arr o
        ])
        (same_items (c ∷ s) h)

  object_from-agree :
      (t : Text) → length t < n → object_from items fields t ≡ object_from items' fields' t
  unfolding object_from
  object_from-agree [] h = refl
  object_from-agree (c ∷ s) h =
      ap
        (λ o. elim (c == 125) as (λ _. Read Json) [
          | true ↦ some (obj end, s)
          | false ↦ mapped obj o
        ])
        (same_fields (c ∷ s) h)

  value_from-agree :
      (t : Text) → length t ≤ n → value_from items fields t ≡ value_from items' fields' t
  unfolding value_from
  value_from-agree [] h = refl
  value_from-agree (c ∷ s) h =
      ap (by_sign (array_from items fields (skip_space s)))
        (object_from-agree (skip_space s) (omega (arith, length-skip_space s)))
      ∙ ap (λ a. by_sign a (object_from items' fields' (skip_space s)))
          (array_from-agree (skip_space s) (omega (arith, length-skip_space s)))
    where
      by_sign : Read Json → Read Json → Read Json
      by_sign a o = elim (c == 34) as (λ _. Read Json) [
        | true ↦ mapped str (read_string plain s)
        | false ↦ elim (c == 123) as (λ _. Read Json) [
          | true ↦ o
          | false ↦ elim (c == 91) as (λ _. Read Json) [ true ↦ a | false ↦ read_word (c ∷ s) ]
        ]
      ]

  item_end-agree : (v : Json) (t : Text) → length t ≤ n → item_end items v t ≡ item_end items' v t
  unfolding item_end
  item_end-agree v [] h = refl
  item_end-agree v (c ∷ s) h =
      ap
        (λ o. elim (c == 93) as (λ _. Read Items) [
          | true ↦ some (cons v nil, s)
          | false ↦ elim (c == 44) as (λ _. Read Items) [ true ↦ mapped (cons v) o | false ↦ none ]
        ])
        (same_items s (omega arith))

  items_from-agree : (o : Read Json) → RestBelow n o → items_from items o ≡ items_from items' o
  unfolding items_from
  items_from-agree none h = refl
  items_from-agree (some (v, r)) h =
      item_end-agree v (skip_space r) (omega (arith, length-skip_space r))

  field_end-agree :
      (k : Text) (v : Json) (t : Text)
      → length t ≤ n
      → field_end fields k v t ≡ field_end fields' k v t
  unfolding field_end
  field_end-agree k v [] h = refl
  field_end-agree k v (c ∷ s) h =
      ap
        (λ o. elim (c == 125) as (λ _. Read Fields) [
          | true ↦ some (field k v end, s)
          | false ↦ elim (c == 44) as (λ _. Read Fields) [
            | true ↦ mapped (field k v) o
            | false ↦ none
          ]
        ])
        (same_fields s (omega arith))

  field_value-agree :
      (k : Text) (o : Read Json) → RestBelow n o → field_value fields k o ≡ field_value fields' k o
  unfolding field_value
  field_value-agree k none h = refl
  field_value-agree k (some (v, r)) h =
      field_end-agree k v (skip_space r) (omega (arith, length-skip_space r))

  module _ (value value' : Text → Read Json)
      (value_below : (s : Text) → RestBelow (length s) (value s))
      (same_value : (s : Text) → length s < n → value s ≡ value' s) where
    field_from-agree :
        (k : Text) (o : Option Text)
        → WordBelow n o
        → field_from value fields k o ≡ field_from value' fields' k o
    unfolding field_from
    field_from-agree k none h = refl
    field_from-agree k (some r) h =
        field_value-agree k (value r)
          (RestBelow-le (length r) n (value r) (omega arith) (value_below r))
        ∙ ap (field_value fields' k) (same_value r h)

    fields_from-agree :
        (o : Option Text)
        → WordBelow n o
        → fields_from value fields o ≡ fields_from value' fields' o
    unfolding fields_from name_from
    fields_from-agree none h = refl
    fields_from-agree (some r) h = named (read_string plain r) (read_string-RestBelow plain r)
      where
        below : (m : ℕ) (o : Option Text) → m < n → WordBelow m o → WordBelow n o
        below m none lt g = tt
        below m (some s) lt g = omega arith

        named :
            (o : Read Text)
            → RestBelow (length r) o
            → name_from value fields o ≡ name_from value' fields' o
        named none g = refl
        named (some (k, r₁)) g =
            field_from-agree k (expect 58 r₁)
              (below (length r₁) (expect 58 r₁) (omega arith) (expect-WordBelow 58 r₁))

abbrev Agree : ℕ → ℕ → Text → Type 0
Agree f g s =
    (2 * length s < f → 2 * length s < g → read_value f s ≡ read_value g s)
    × (2 * length s + 1 < f → 2 * length s + 1 < g → read_items f s ≡ read_items g s)
    × (2 * length s + 1 < f → 2 * length s + 1 < g → read_fields f s ≡ read_fields g s)

readers-Agree : (f g : ℕ) (s : Text) → Agree f g s
unfolding read_value read_items read_fields
readers-Agree zero g s =
    ((λ h k. absurd (omega arith)), (λ h k. absurd (omega arith)), λ h k. absurd (omega arith))
readers-Agree (suc f) zero s =
    ((λ h k. absurd (omega arith)), (λ h k. absurd (omega arith)), λ h k. absurd (omega arith))
readers-Agree (suc f) (suc g) s = (
  (λ h k.
      value_from-agree (read_items f) (read_items g) (read_fields f) (read_fields g) (length s)
        (λ u lt. (readers-Agree f g u).1 (omega arith) (omega arith))
        (λ u lt. (readers-Agree f g u).2 (omega arith) (omega arith)) (skip_space s)
        (length-skip_space s)),
  (λ h k.
      items_from-agree (read_items f) (read_items g) (read_fields f) (read_fields g) (length s)
        (λ u lt. (readers-Agree f g u).1 (omega arith) (omega arith))
        (λ u lt. (readers-Agree f g u).2 (omega arith) (omega arith)) (read_value f s)
        ((readers-LeavesLess f).0 s)
      ∙ ap (items_from (read_items g)) ((readers-Agree f g s).0 (omega arith) (omega arith))),
  λ h k.
      fields_from-agree (read_items f) (read_items g) (read_fields f) (read_fields g) (length s)
        (λ u lt. (readers-Agree f g u).1 (omega arith) (omega arith))
        (λ u lt. (readers-Agree f g u).2 (omega arith) (omega arith)) (read_value f) (read_value g)
        ((readers-LeavesLess f).0) (λ u lt. (readers-Agree f g u).0 (omega arith) (omega arith))
        (expect 34 s) (expect-WordBelow 34 s),
)

-- Any fuel above that of `parse_json` reads a text to the same value, or to the same error.
pub parse_json_enough :
    (fuel : ℕ) (s : Text) → 2 * length s < fuel → parse_json s ≡ whole (read_value fuel s)
unfolding parse_json
parse_json_enough fuel s h = ap whole ((readers-Agree (2 * length s + 2) fuel s).0 (omega arith) h)
