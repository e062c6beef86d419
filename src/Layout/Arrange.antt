-- ===== src/Layout/Arrange.antt =====
-- The grid: every entity has a cell, and no two nodes overlap.
use native.Mathlib.Decide.{ℕ_discrete, dec_lt}
use native.Mathlib.Nat.{div-add-mod}
use context_gate.Base.{
  ℕ, zero, suc, ◌+◌, ◌*◌, ◌/◌, ◌%◌, ◌≤◌, ◌<◌, ◌≡◌, ◌≢◌, refl, sym, ap, ◌∙◌, ◌⊎◌, inl, inr, Text,
  List, [], ◌∷◌, map, Option, none, some, arith, if◌then◌else◌, leb→le, length, Has, Distinct,
  get_elem?, text_eq, text_eq_iff, Bool-cases,
}
use context_gate.Base.Int.{pos, ◌+ℤ◌, ◌≤ℤ◌}
use context_gate.Ontology.{EntityType}
use context_gate.Layout.{
  Point, Positions, node_width, node_height, position_of, put, from_entries, ceil_sqrt_from,
  ceil_sqrt, column_count, cell, cells, arrange_entities,
}

pub position_of-put :
    (ps : Positions) (k j : Text) (p : Point)
    → position_of (put ps k p) j ≡ (if text_eq k j then some p else position_of ps j)
unfolding position_of put
position_of-put [] k j p = ground arith
position_of-put ((i, q) ∷ ps) k j p =
    ground (arith, text_eq_iff k j, text_eq_iff i k, text_eq_iff i j, position_of-put ps k j p)

-- The value of the last entry with the key.
abbrev pub last_entry : Option Point → List (Text × Point) → Text → Option Point
last_entry found [] k = found
last_entry found ((j, p) ∷ es) k = last_entry (if text_eq j k then some p else found) es k

pub position_of-from_entries :
    (es : List (Text × Point)) (ps : Positions) (k : Text)
    → position_of (from_entries ps es) k ≡ last_entry (position_of ps k) es k
unfolding from_entries
position_of-from_entries [] ps k = refl
position_of-from_entries ((j, p) ∷ es) ps k =
    position_of-from_entries es (put ps j p) k
    ∙ ap (λ o. last_entry o es k) (position_of-put ps j k p)

-- Two nodes side by side, or one below the other.
abbrev pub Apart : Point → Point → Type 0
Apart p q =
    ((p.x +ℤ pos node_width ≤ℤ q.x) ⊎ (q.x +ℤ pos node_width ≤ℤ p.x))
    ⊎ ((p.y +ℤ pos node_height ≤ℤ q.y) ⊎ (q.y +ℤ pos node_height ≤ℤ p.y))

pos-+ℤ : (a b : ℕ) → pos a +ℤ pos b ≡ pos (a + b)
unfolding ◌+ℤ◌
pos-+ℤ a b = ground arith

steps_apart :
    (step size a b : ℕ)
    → size ≤ step
    → a ≢ b
    → (a * step + size ≤ b * step) ⊎ (b * step + size ≤ a * step)
steps_apart step size a b h ne = elim (dec_lt a b) [
  | yes l ↦ inl (grind arith)
  | no g ↦ inr (grind arith)
]

numbers_differ : (c i j : ℕ) → i ≢ j → (i % c ≢ j % c) ⊎ ((i % c ≡ j % c) × (i / c ≢ j / c))
numbers_differ c i j ne = elim (ℕ_discrete (i % c) (j % c)) [
  | no n ↦ inl n
  | yes e ↦ inr (e, λ d. ne (sym (div-add-mod i c) ∙ rw (d, e) (div-add-mod j c)))
]

-- Cells with different numbers differ in their column or in their row.
cell-Apart : (c i j : ℕ) → i ≢ j → Apart (cell c i) (cell c j)
unfolding cell
cell-Apart c i j ne =
    rw (pos-+ℤ, pos-+ℤ, pos-+ℤ, pos-+ℤ)
      (elim (numbers_differ c i j ne) [
        | inl columns ↦ elim (steps_apart 438 248 (i % c) (j % c) (omega arith) columns) [
          | inl l ↦ inl (inl (omega arith))
          | inr l ↦ inl (inr (omega arith))
        ]
        | inr (_, rows) ↦ elim (steps_apart 370 230 (i / c) (j / c) (omega arith) rows) [
          | inl l ↦ inr (inl (omega arith))
          | inr l ↦ inr (inr (omega arith))
        ]
      ])

column_count_pos : (n : ℕ) → 1 ≤ column_count n
unfolding column_count
column_count_pos n = ground (arith, leb→le 1 (ceil_sqrt n))

-- The columns hold `n` nodes in as many rows as columns.
le-ceil_sqrt_from :
    (fuel c n : ℕ) → n ≤ fuel + c → n ≤ ceil_sqrt_from fuel c n * ceil_sqrt_from fuel c n
unfolding ceil_sqrt_from
le-ceil_sqrt_from zero c n h = grind arith
le-ceil_sqrt_from (suc fuel) c n h =
    ground (arith, leb→le n (c * c), le-ceil_sqrt_from fuel (c + 1) n (omega arith))

last_entry_absent :
    (c i : ℕ) (es : List EntityType) (id : Text) (found : Option Point)
    → ¬ Has id (map (λ e. EntityType.id e) es)
    → last_entry found (cells c i es) id ≡ found
unfolding cells
last_entry_absent c i [] id found h = refl
last_entry_absent c i (e ∷ es) id found h = elim (Bool-cases (text_eq e.id id)) [
  | inl same ↦ absurd (h (inl ((text_eq_iff e.id id).0 same)))
  | inr other ↦ rw (other, last_entry) (last_entry_absent c (i + 1) es id found (λ m. h (inr m)))
]

last_entry-cells :
    (c i : ℕ) (es : List EntityType) (k : ℕ) (e : EntityType) (found : Option Point)
    → Distinct (map (λ e. EntityType.id e) es)
    → get_elem? es k ≡ some e
    → last_entry found (cells c i es) e.id ≡ some (cell c (i + k))
unfolding cells
last_entry-cells c i [] k e found d h = cc
last_entry-cells c i (x ∷ es) zero e found (new, d) h =
    let same : x ≡ e = cc in
    rw (← same) (
      rw ((text_eq_iff x.id x.id).1 refl, last_entry)
        (last_entry_absent c (i + 1) es x.id (some (cell c i)) new
          ∙ ap (λ n. some (cell c n)) (omega arith)))
last_entry-cells c i (x ∷ es) (suc k) e found (new, d) h =
    last_entry-cells c (i + 1) es k e (if text_eq x.id e.id then some (cell c i) else found) d h
    ∙ ap (λ n. some (cell c n)) (omega arith)

pub index_of_Has :
    (es : List EntityType) (e : EntityType)
    → Has e es
    → (k : ℕ) × (get_elem? es k ≡ some e) × (k < length es)
index_of_Has [] e h = absurd h
index_of_Has (x ∷ es) e (inl same) = (0, ap some same, omega arith)
index_of_Has (x ∷ es) e (inr h) = let (k, at, l) = index_of_Has es e h in (suc k, at, omega arith)

abbrev pub ids : List EntityType → List Text
ids es = map (λ e. EntityType.id e) es

-- The entity numbered `k` has the cell numbered `k`.
pub position_of-arrange_entities :
    (es : List EntityType) (k : ℕ) (e : EntityType)
    → Distinct (ids es)
    → get_elem? es k ≡ some e
    → position_of (arrange_entities es) e.id ≡ some (cell (column_count (length es)) k)
unfolding arrange_entities
position_of-arrange_entities es k e d h =
    position_of-from_entries (cells (column_count (length es)) 0 es) [] e.id
    ∙ last_entry-cells (column_count (length es)) 0 es k e (position_of [] e.id) d h
    ∙ ap (λ n. some (cell (column_count (length es)) n)) (omega arith)

-- Both entities are placed, in nodes that do not overlap.
abbrev pub PlacedApart : Option Point → Option Point → Type 0
PlacedApart none q = ⊥
PlacedApart (some p) none = ⊥
PlacedApart (some p) (some q) = Apart p q

-- Entity types with different ids are arranged in nodes that do not overlap.
pub arrange_entities-PlacedApart :
    (es : List EntityType) (e f : EntityType)
    → Distinct (ids es)
    → Has e es
    → Has f es
    → e.id ≢ f.id
    → PlacedApart (position_of (arrange_entities es) e.id) (position_of (arrange_entities es) f.id)
arrange_entities-PlacedApart es e f d he hf ne =
    let (i, at_i, li) = index_of_Has es e he in
    let (j, at_j, lj) = index_of_Has es f hf in
    rw (position_of-arrange_entities es i e d at_i, position_of-arrange_entities es j f d at_j)
      (cell-Apart (column_count (length es)) i j (λ same. ne (one i j at_i at_j same)))
  where
    one : (k l : ℕ) → get_elem? es k ≡ some e → get_elem? es l ≡ some f → k ≡ l → e.id ≡ f.id
    one k l a b same = cc
