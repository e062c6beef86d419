-- ===== src/Layout/Tests.antt =====
-- Runs of the layout of web/src/ontology-graph-layout.ts on the sample entity types.
use context_gate.Base.{◌≡◌, refl, codes, text_eq, List, [], ◌∷◌, some, arith, Distinct, inl, inr}
use context_gate.Base.Int.{pos, negsuc, ◌+ℤ◌, ◌-ℤ◌}
use context_gate.Ontology.{EntityType}
use context_gate.Layout.{
  Positions, position_of, put, from_entries, ceil_sqrt, ceil_sqrt_from, column_count, cell, cells,
  arrange_entities, entity_positions, known_points, missing_entities, lowest, settled,
  read_positions, in_bounds, arrow_delta,
}
use context_gate.Layout.Arrange.{PlacedApart, arrange_entities-PlacedApart, ids}
use context_gate.Layout.Placement.{IsPlacement, entity_positions-IsPlacement}
use context_gate.Samples.{party, customer, order}

abbrev types : List EntityType
types = party ∷ customer ∷ order ∷ []

abbrev saved : Positions
saved = (codes "customer", record { x = negsuc 9; y = pos 5 }) ∷ []

grid_of_three :
    arrange_entities types
    ≡ (codes "party", record { x = pos 0; y = pos 0 })
      ∷ (codes "customer", record { x = pos 438; y = pos 0 })
      ∷ (codes "order", record { x = pos 0; y = pos 370 })
      ∷ []
unfolding arrange_entities from_entries put column_count ceil_sqrt ceil_sqrt_from cells cell text_eq
grid_of_three = refl

-- The two without a saved position stand below the one that has it.
placed_below :
    entity_positions types saved
    ≡ some (
        (codes "party", record { x = pos 0; y = pos 375 })
        ∷ (codes "customer", record { x = negsuc 9; y = pos 5 })
        ∷ (codes "order", record { x = pos 438; y = pos 375 })
        ∷ [])
unfolding entity_positions known_points missing_entities lowest settled position_of arrange_entities
    from_entries put column_count ceil_sqrt ceil_sqrt_from cells cell text_eq ◌+ℤ◌
placed_below = refl

read_positions_far :
    read_positions ((codes "party", record { x = pos 100001; y = pos 0 }) ∷ saved) ≡ saved
unfolding read_positions in_bounds
read_positions_far = refl

arrow_delta_left :
    arrow_delta (codes "ArrowLeft") (pos 20) ≡ some (record { x = negsuc 19; y = pos 0 })
unfolding arrow_delta text_eq ◌-ℤ◌
arrow_delta_left = refl

types-Distinct : Distinct (ids types)
types-Distinct = ground arith

arrange_entities-PlacedApart_example :
    PlacedApart
      (position_of (arrange_entities types) (codes "customer"))
      (position_of (arrange_entities types) (codes "order"))
arrange_entities-PlacedApart_example =
    arrange_entities-PlacedApart types customer order types-Distinct (inr (inl refl))
      (inr (inr (inl refl))) (λ e. cc)

entity_positions-IsPlacement_example :
    (ps : Positions) × (entity_positions types saved ≡ some ps) × IsPlacement types saved ps
entity_positions-IsPlacement_example = entity_positions-IsPlacement types saved types-Distinct
