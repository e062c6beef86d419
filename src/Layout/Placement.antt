-- ===== src/Layout/Placement.antt =====
-- `entityPositions` keeps what is saved and puts the rest clear of it.
use context_gate.Base.{
  ℕ, ◌≡◌, ◌≢◌, refl, ◌∙◌, inl, inr, List, [], ◌∷◌, Option, none, some, All, Has, Distinct,
  Option-cases,
}
use context_gate.Base.Int.{ℤ, pos, ◌+ℤ◌, ◌≤ℤ◌, int_laws}
use context_gate.Ontology.{EntityType}
use context_gate.Layout.{
  Point, Positions, position_of, from_entries, cell, arrange_entities, known_points,
  missing_entities, lowest, settle, settled, collected, positions_below, entity_positions,
}
use context_gate.Layout.Arrange.{
  position_of-from_entries, PlacedApart, ids, arrange_entities-PlacedApart,
}
use context_gate.Layout.Place.{
  arranged_cell, lowest_le, le-lowest, Has-known_points, Has-missing_entities, Distinct-missing,
  value, settled_total,
}

-- What `entityPositions` promises of the positions it returns.
pub record IsPlacement (es : List EntityType) (saved ps : Positions) : Type 0 where
  pub complete : (e : EntityType) → Has e es → position_of ps e.id ≢ none
  pub kept :
      (e : EntityType) (p : Point)
      → Has e es
      → position_of saved e.id ≡ some p
      → position_of ps e.id ≡ some p
  pub apart :
      (e f : EntityType)
      → Has e es
      → Has f es
      → position_of saved e.id ≡ none
      → e.id ≢ f.id
      → PlacedApart (position_of ps e.id) (position_of ps f.id)

module _ (saved : Positions) (es : List EntityType) (first : Point) (known : List Point)
    (all_known : known_points saved es ≡ first ∷ known) where
  abbrev extra : Positions
  extra = arrange_entities (missing_entities saved es)

  abbrev bottom : ℤ
  bottom = lowest first.y known +ℤ pos 370

  each_placed : (e : EntityType) → Has e es → value saved extra bottom e.id ≢ none
  each_placed e h = elim (Option-cases (position_of saved e.id)) [
    | inr (p, at) ↦ rw at (cc)
    | inl gone ↦
        let (c, k, at) =
          arranged_cell (missing_entities saved es) e (Has-missing_entities saved es e h gone) in
        rw (gone, at) (cc)
  ]

  shift_apart :
      (p q : Option Point)
      → PlacedApart p q
      → PlacedApart (settle bottom none p) (settle bottom none q)
  shift_apart none q h = absurd h
  shift_apart (some p) none h = absurd h
  shift_apart (some p) (some q) (inl h) = inl h
  shift_apart (some p) (some q) (inr (inl h)) = inr (inl (omega int_laws))
  shift_apart (some p) (some q) (inr (inr h)) = inr (inr (omega int_laws))

  -- A cell moved down by `bottom` lies clear below a saved node.
  cell_below :
      (c k : ℕ) (p : Point)
      → Has p (first ∷ known)
      → PlacedApart (settle bottom none (some (cell c k))) (some p)
  unfolding cell
  cell_below c k p h = inr (inr (omega (int_laws, top p h)))
    where
      top : (p : Point) → Has p (first ∷ known) → p.y ≤ℤ lowest first.y known
      top p (inl same) = rw (← same) (lowest_le first.y known)
      top p (inr h) = le-lowest first.y known p h

  value_apart :
      (e f : EntityType)
      → Distinct (ids es)
      → Has e es
      → Has f es
      → position_of saved e.id ≡ none
      → e.id ≢ f.id
      → PlacedApart (value saved extra bottom e.id) (value saved extra bottom f.id)
  value_apart e f d he hf gone ne = elim (Option-cases (position_of saved f.id)) [
    | inl gone_f ↦
        rw (gone, gone_f)
          (shift_apart _ _ (
            arrange_entities-PlacedApart (missing_entities saved es) e f
              (Distinct-missing saved es d) (Has-missing_entities saved es e he gone)
              (Has-missing_entities saved es f hf gone_f) ne))
    | inr (p, at) ↦
        let (c, k, cell_at) =
          arranged_cell (missing_entities saved es) e (Has-missing_entities saved es e he gone) in
        rw (gone, at, cell_at)
          (cell_below c k p (rw all_known at (Has-known_points saved es f p hf at)))
  ]

  All-of_each :
      (P : EntityType → Type 0) (xs : List EntityType)
      → ((e : EntityType) → Has e xs → P e)
      → All P xs
  All-of_each P [] h = tt
  All-of_each P (x ∷ xs) h = (h x (inl refl), All-of_each P xs (λ e m. h e (inr m)))

  placed_below :
      Distinct (ids es)
      → (ps : Positions) × (collected (settled saved extra bottom es) ≡ some ps)
        × IsPlacement es saved ps
  placed_below d =
      let (l, at, _, found) = settled_total saved extra bottom es (All-of_each _ es each_placed) in
      let placed : (e : EntityType)
          → Has e es
          → position_of (from_entries [] l) e.id ≡ value saved extra bottom e.id =
        λ e h. position_of-from_entries l [] e.id ∙ found e (position_of [] e.id) h in
      (
        from_entries [] l,
        rw at,
        record {
          complete = λ e h. rw (placed e h) (each_placed e h);
          kept = λ e p h s. rw (placed e h) (rw s);
          apart =
              λ e f he hf gone ne. rw (placed e he, placed f hf) (value_apart e f d he hf gone ne);
        },
      )

all_missing :
    (saved : Positions) (es : List EntityType)
    → known_points saved es ≡ []
    → (e : EntityType) → Has e es
    → position_of saved e.id ≡ none
unfolding known_points
all_missing saved es none_known e h = elim (Option-cases (position_of saved e.id)) [
  | inl gone ↦ gone
  | inr (p, at) ↦ absurd (rw none_known at (Has-known_points saved es e p h at))
]

-- The positions of a definition's entity types, for every stored layout: the code computes them, no
-- entity is left out, an entity with a saved position keeps it, and the node of one without a saved
-- position overlaps the node of no other entity.
pub entity_positions-IsPlacement :
    (es : List EntityType) (saved : Positions)
    → Distinct (ids es)
    → (ps : Positions) × (entity_positions es saved ≡ some ps) × IsPlacement es saved ps
unfolding entity_positions
entity_positions-IsPlacement es saved d = go (known_points saved es) refl
  where
    go :
        (known : List Point)
        → known_points saved es ≡ known
        → (ps : Positions) × (positions_below known es saved ≡ some ps) × IsPlacement es saved ps
    go [] none_known = (
      arrange_entities es,
      refl,
      record {
        complete = λ e h. let (c, k, at) = arranged_cell es e h in rw at (cc);
        kept = λ e p h s. absurd (cc (all_missing saved es none_known e h));
        apart = λ e f he hf gone ne. arrange_entities-PlacedApart es e f d he hf ne;
      },
    )
    go (p ∷ ps) known = placed_below saved es p ps known d
