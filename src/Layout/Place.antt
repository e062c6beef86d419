-- ===== src/Layout/Place.antt =====
-- Placing the entity types of a definition beside the saved positions.
use context_gate.Base.{
  ℕ, ◌+◌, ◌≡◌, ◌≢◌, refl, sym, ap, ◌∙◌, inl, inr, Text, Bool, not, List, [], ◌∷◌, Option, none,
  some, arith, if◌then◌else◌, length, filter, All, Has, Distinct, Has-map, Has-map_inv, Has-filter,
  text_eq, text_eq_iff, Bool-cases, Option-cases,
}
use context_gate.Base.Int.{ℤ, ◌≤ℤ◌, ltb_ℤ}
use context_gate.Ontology.{EntityType}
use context_gate.Layout.{
  Point, Positions, position_of, column_count, cell, cells, arrange_entities, known_points,
  missing_entities, lowest, settle, settled, is_some,
}
use context_gate.Layout.Arrange.{last_entry, position_of-from_entries, ids}

-- The arranged value of an entity is a cell, whatever ids repeat.
cell_kept :
    (c i : ℕ) (es : List EntityType) (id : Text) (m : ℕ)
    → (k : ℕ) × (last_entry (some (cell c m)) (cells c i es) id ≡ some (cell c k))
unfolding cells
cell_kept c i [] id m = (m, refl)
cell_kept c i (e ∷ es) id m = elim (Bool-cases (text_eq e.id id)) [
  | inl same ↦ rw (same, last_entry) (cell_kept c (i + 1) es id i)
  | inr other ↦ rw (other, last_entry) (cell_kept c (i + 1) es id m)
]

cell_found :
    (c i : ℕ) (es : List EntityType) (e : EntityType) (found : Option Point)
    → Has e es
    → (k : ℕ) × (last_entry found (cells c i es) e.id ≡ some (cell c k))
unfolding cells
cell_found c i [] e found h = absurd h
cell_found c i (x ∷ es) e found (inl same) =
    rw ((text_eq_iff x.id e.id).1 (ap (λ v. EntityType.id v) same), last_entry)
      (cell_kept c (i + 1) es e.id i)
cell_found c i (x ∷ es) e found (inr h) =
    cell_found c (i + 1) es e (if text_eq x.id e.id then some (cell c i) else found) h

pub arranged_cell :
    (es : List EntityType) (e : EntityType)
    → Has e es
    → (c k : ℕ) × (position_of (arrange_entities es) e.id ≡ some (cell c k))
unfolding arrange_entities
arranged_cell es e h =
    let c = column_count (length es) in
    let (k, at) = cell_found c 0 es e (position_of [] e.id) h in
    (c, k, position_of-from_entries (cells c 0 es) [] e.id ∙ at)

-- `lowest` is above none of the points.
pub lowest_le : (y : ℤ) (ps : List Point) → y ≤ℤ lowest y ps
unfolding lowest
lowest_le y [] = omega arith
lowest_le y (p ∷ ps) = ground (arith, lowest_le (if ltb_ℤ y p.y then p.y else y) ps)

pub le-lowest : (y : ℤ) (ps : List Point) (p : Point) → Has p ps → p.y ≤ℤ lowest y ps
unfolding lowest
le-lowest y [] p h = absurd h
le-lowest y (q ∷ ps) p (inl same) =
    rw (← same) (ground (arith, lowest_le (if ltb_ℤ y q.y then q.y else y) ps))
le-lowest y (q ∷ ps) p (inr h) = le-lowest (if ltb_ℤ y q.y then q.y else y) ps p h

module _ (saved : Positions) where
  pub Has-known_points :
      (es : List EntityType) (e : EntityType) (p : Point)
      → Has e es
      → position_of saved e.id ≡ some p
      → Has p (known_points saved es)
  unfolding known_points
  Has-known_points [] e p h at = absurd h
  Has-known_points (x ∷ es) e p (inl same) at =
      let here : position_of saved x.id ≡ some p = rw same at in rw here (inl refl)
  Has-known_points (x ∷ es) e p (inr h) at = elim (Option-cases (position_of saved x.id)) [
    | inl gone ↦ rw gone (Has-known_points es e p h at)
    | inr (q, there) ↦ rw there (inr (Has-known_points es e p h at))
  ]

  pub Has-missing_entities :
      (es : List EntityType) (e : EntityType)
      → Has e es
      → position_of saved e.id ≡ none
      → Has e (missing_entities saved es)
  unfolding missing_entities
  Has-missing_entities es e h at =
      (Has-filter (λ v. not (is_some (position_of saved (EntityType.id v)))) es e).1 (h, rw at)

  pub Distinct-missing :
      (es : List EntityType) → Distinct (ids es) → Distinct (ids (missing_entities saved es))
  unfolding missing_entities
  Distinct-missing [] d = tt
  Distinct-missing (x ∷ es) (new, d) =
      let test : EntityType → Bool = λ v. not (is_some (position_of saved (EntityType.id v))) in
      elim (Bool-cases (test x)) [
        | inl keep ↦ rw keep (
          (λ h.
              let (e, at, same) = Has-map_inv (λ v. EntityType.id v) (filter test es) x.id h in
              new (
                rw (← same) (Has-map (λ v. EntityType.id v) es e ((Has-filter test es e).0 at).0))),
          Distinct-missing es d,
        )
        | inr drop ↦ rw drop (Distinct-missing es d)
      ]

module _ (saved extra : Positions) (bottom : ℤ) where
  -- The value that the code computes for an id.
  abbrev pub value : Text → Option Point
  value id = settle bottom (position_of saved id) (position_of extra id)

  head_kept :
      (k : Text) (p : Point)
      → value k ≡ some p
      → (id : Text) → (if text_eq k id then some p else value id) ≡ value id
  head_kept k p there id = elim (Bool-cases (text_eq k id)) [
    | inl same ↦ rw same (sym there ∙ ap value ((text_eq_iff k id).0 same))
    | inr other ↦ rw other
  ]

  head_found :
      (k : Text) (p : Point)
      → value k ≡ some p
      → (id : Text) (found : Option Point) → k ≡ id
      → (if text_eq k id then some p else found) ≡ value id
  head_found k p there id found same = rw ((text_eq_iff k id).1 same) (sym there ∙ ap value same)

  pub settled_total :
      (es : List EntityType)
      → All (λ e. value (EntityType.id e) ≢ none) es
      → (l : List (Text × Point)) × (settled saved extra bottom es ≡ some l)
        × ((id : Text) → last_entry (value id) l id ≡ value id)
        × ((e : EntityType) (found : Option Point)
            → Has e es
            → last_entry found l e.id ≡ value e.id)
  unfolding settled
  settled_total [] h = ([], refl, (λ id. refl), λ e found z. absurd z)
  settled_total (x ∷ es) (h, hs) =
      let (l, at, kept, found_in) = settled_total es hs in
      elim (Option-cases (value x.id)) [
        | inl gone ↦ absurd (h gone)
        | inr (p, there) ↦ (
          (x.id, p) ∷ l,
          rw (there, at),
          (λ id. ap (λ o. last_entry o l id) (head_kept x.id p there id) ∙ kept id),
          λ e found m. elim m [
            | inl same ↦
                ap (λ o. last_entry o l e.id)
                  (head_found x.id p there e.id found (ap (λ v. EntityType.id v) same))
                ∙ kept e.id
            | inr later ↦ found_in e (if text_eq x.id e.id then some p else found) later
          ],
        )
      ]
