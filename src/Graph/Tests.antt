-- ===== src/Graph/Tests.antt =====
-- Runs of the gestures of web/src/OntologyGraph.tsx on the sample entity types.
use context_gate.Base.{
  ℕ, ◌≡◌, refl, codes, text_eq, true, false, List, [], ◌∷◌, none, some, arith, Distinct,
}
use context_gate.Base.Int.{ℤ, pos, negsuc, ◌+ℤ◌, ◌-ℤ◌}
use context_gate.Ontology.{EntityType}
use context_gate.Layout.{
  Point, Positions, position_of, put, clamp_coordinate, bounded_point, in_bounds, arrange_entities,
  entity_positions, known_points, missing_entities, lowest, settled, from_entries,
}
use context_gate.Layout.Arrange.{ids}
use context_gate.Graph.{
  node, Gesture, PointerEvent, inspect, Graph, begin, origin_of, move, drag, far, release,
  cancel_gesture, persist,
}
use context_gate.Graph.Drag.{moves, renders, drag_run, PutBack, cancel_gesture-PutBack}
use context_gate.Graph.Guards.{OnlyInspects, release-OnlyInspects, bounded_point-in_bounds}
use context_gate.Samples.{party, customer}

abbrev types : List EntityType
types = party ∷ customer ∷ []

abbrev at : ℤ → ℤ → Point
at x y = record { x = x; y = y }

abbrev places : Positions
places = (codes "party", at (pos 0) (pos 0)) ∷ (codes "customer", at (pos 438) (pos 0)) ∷ []

abbrev event : ℕ → Point → PointerEvent
event pointer client = record { pointer_id = pointer; button = 0; client = client }

abbrev graph : Graph
graph = record {
  disabled = false;
  positions = places;
  saved = places;
  live = places;
  view = at (pos 0) (pos 0);
  gesture = none;
  connecting = [];
  pointer = none;
  stored = none;
  storage_full = false;
  storage_error = false;
  sent = [];
}

abbrev unscaled : ℤ → ℤ
unscaled v = v

abbrev held : Gesture
held = record {
  kind = node;
  id = codes "party";
  pointer = 1;
  start = at (pos 10) (pos 10);
  origin = at (pos 0) (pos 0);
  moved = false;
}

abbrev holding : Graph
holding = record graph { gesture = some held }

abbrev disabled_holding : Graph
disabled_holding = record holding { disabled = true }

-- A press and a release without a move inspects; a drag moves the node and stores the positions.
click :
    Graph.sent (
      release
        (begin graph (event 1 (at (pos 10) (pos 10))) node (codes "party"))
        (event 1 (at (pos 12) (pos 10)))
        none)
    ≡ inspect (codes "party") ∷ []
unfolding release begin origin_of position_of text_eq
click = refl

dragged :
    Graph.stored (
      release
        (move unscaled
          (at (pos 0) (pos 0))
          (begin graph (event 1 (at (pos 10) (pos 10))) node (codes "party"))
          (event 1 (at (pos 15) (pos 3))))
        (event 1 (at (pos 15) (pos 3)))
        none)
    ≡ some ((codes "party", at (pos 5) (negsuc 6)) ∷ (codes "customer", at (pos 438) (pos 0)) ∷ [])
unfolding release begin origin_of position_of text_eq move drag far put bounded_point
    clamp_coordinate persist ◌+ℤ◌ ◌-ℤ◌
dragged = refl

types-apart : Distinct (ids types)
types-apart = ground arith

places_settled : entity_positions types places ≡ some places
unfolding entity_positions known_points missing_entities lowest settled position_of arrange_entities
    from_entries put text_eq
places_settled = refl

cancel_gesture-PutBack_example :
    PutBack unscaled (at (pos 0) (pos 0)) types graph (codes "party") (at (pos 0) (pos 0)) (
      cancel_gesture (
        drag_run unscaled
          (at (pos 0) (pos 0))
          types
          (begin graph (event 1 (at (pos 10) (pos 10))) node (codes "party"))
          (moves (event 1 (at (pos 90) (pos 40))) ∷ renders ∷ [])))
cancel_gesture-PutBack_example =
    cancel_gesture-PutBack unscaled (at (pos 0) (pos 0)) types graph (codes "party")
      (at (pos 0) (pos 0)) (event 1 (at (pos 10) (pos 10)))
      (moves (event 1 (at (pos 90) (pos 40))) ∷ renders ∷ []) types-apart places_settled refl refl
      refl (unfold position_of text_eq in refl)

release-OnlyInspects_example :
    OnlyInspects [] (Graph.sent (release disabled_holding (event 1 (at (pos 0) (pos 0))) none))
release-OnlyInspects_example =
    release-OnlyInspects disabled_holding (event 1 (at (pos 0) (pos 0))) none refl

bounded_point-in_bounds_example : in_bounds (bounded_point (at (pos 200000) (negsuc 4))) ≡ true
bounded_point-in_bounds_example = bounded_point-in_bounds (at (pos 200000) (negsuc 4))
