-- ===== src/Graph.antt =====
-- web/src/OntologyGraph.tsx: the pointer gestures of the graph editor. A handler is a function from
-- the component's state to the next; `sent` is the list of the parent's callbacks so far. The
-- division by the zoom is the argument `shrink`, and the canvas's place on the page is `rect`.
-- Zooming, fitting and drawing are not modelled.
pub mod Drag
pub mod Guards
pub mod Tests
use context_gate.Base.{
  ℕ, ◌+◌, ◌*◌, Text, Bool, true, false, not, ◌&&◌, ◌||◌, List, [], ◌∷◌, ◌++◌, Option, none, some,
  if◌then◌else◌, ltb, ◌==◌, truthy,
}
use context_gate.Base.Int.{ℤ, pos, pos_part, neg_part, ◌+ℤ◌, ◌-ℤ◌}
use context_gate.Ontology.{EntityType}
use context_gate.Layout.{Point, Positions, position_of, put, bounded_point, entity_positions}

pub data GestureKind : Type 0 where
  node pan connect : GestureKind

-- `origin` is the node's position, or the view's.
pub record Gesture : Type 0 where
  pub kind : GestureKind
  pub id : Text
  pub pointer : ℕ
  pub start : Point
  pub origin : Point
  pub moved : Bool

-- The parts of a `PointerEvent` that the handlers read.
pub record PointerEvent : Type 0 where
  pub pointer_id : ℕ
  pub button : ℕ
  pub client : Point

pub data Sent : Type 0 where
  inspect : Text → Sent
  connected : Text → Text → Sent

-- `positions` are those of the last render, `live` the current ones, `view` its offset. `stored`
-- is what `localStorage` holds for this ontology, and `storage_full` says that it refuses writes.
pub record Graph : Type 0 where
  pub disabled : Bool
  pub positions : Positions
  pub saved : Positions
  pub live : Positions
  pub view : Point
  pub gesture : Option Gesture
  pub connecting : Text
  pub pointer : Option Point
  pub stored : Option Positions
  pub storage_full : Bool
  pub storage_error : Bool
  pub sent : List Sent

unfoldable pub persist : Graph → Positions → Graph
persist g next =
    if g.storage_full
    then record g { saved = next; live = next; storage_error = true }
    else record g { saved = next; live = next; stored = some next; storage_error = false }

unfoldable pub cancel_connection : Graph → Graph
cancel_connection g = record g { connecting = []; pointer = none }

is_connect : GestureKind → Bool
is_connect connect = true
is_connect _ = false

-- `kind === "node" ? positions[id] : view`; a node that is on screen has a position.
unfoldable pub origin_of : Graph → GestureKind → Text → Option Point
origin_of g node id = position_of g.positions id
origin_of g pan id = some g.view
origin_of g connect id = some g.view

start_gesture : Graph → PointerEvent → GestureKind → Text → Option Point → Graph
start_gesture g e kind id none = g
start_gesture g e kind id (some origin) = record g {
  gesture = some (record {
    kind = kind;
    id = id;
    pointer = e.pointer_id;
    start = e.client;
    origin = origin;
    moved = false;
  });
}

abbrev pub busy : Option Gesture → Bool
busy none = false
busy (some _) = true

unfoldable pub begin : Graph → PointerEvent → GestureKind → Text → Graph
unfolding start_gesture is_connect
begin g e kind id =
    if not (e.button == 0) || (busy g.gesture || (is_connect kind && g.disabled))
    then g
    else start_gesture g e kind id (origin_of g kind id)

-- The square of an integer.
abbrev square : ℤ → ℕ
square a = (pos_part a + neg_part a) * (pos_part a + neg_part a)

-- `Math.hypot(dx, dy) > 4`
unfoldable pub far : ℤ → ℤ → Bool
far dx dy = ltb 16 (square dx + square dy)

abbrev has_position : Option Point → Bool
has_position none = false
has_position (some _) = true

-- `Object.hasOwn(positions, id)`
abbrev pub shown : Graph → Text → Bool
shown g id = has_position (position_of g.positions id)

-- `connectTo(id, from)`; without `from` the call takes `connecting`.
unfoldable pub connect_to : Graph → Text → Text → Graph
connect_to g id from =
    if g.disabled
    then g
    else if not (shown g id) || (truthy from && not (shown g from))
    then cancel_connection g
    else if truthy from
    then record g { connecting = []; pointer = none; sent = g.sent ++ connected from id ∷ [] }
    else record g { connecting = id; pointer = none }

module _ (shrink : ℤ → ℤ) (rect : Point) where
  -- `worldPoint`
  unfoldable pub world_point : Graph → PointerEvent → Point
  world_point g e = record {
    x = shrink (e.client.x -ℤ rect.x -ℤ g.view.x);
    y = shrink (e.client.y -ℤ rect.y -ℤ g.view.y);
  }

  -- What a gesture that has left its start does.
  unfoldable pub drag : Graph → PointerEvent → Gesture → ℤ → ℤ → Graph
  drag g e c dx dy = elim c.kind [
    | node ↦
        let next =
          put g.live c.id
            (bounded_point (record { x = c.origin.x +ℤ shrink dx; y = c.origin.y +ℤ shrink dy })) in
        record g { live = next; saved = next }
    | pan ↦ record g { view = record { x = c.origin.x +ℤ dx; y = c.origin.y +ℤ dy } }
    | connect ↦ record g { connecting = c.id; pointer = some (world_point g e) }
  ]

  -- The body behind the tests of `move`, on the gesture with `moved` brought up to date.
  move_with : Graph → PointerEvent → Gesture → Graph
  move_with g e c =
      let dx = e.client.x -ℤ c.start.x in
      let dy = e.client.y -ℤ c.start.y in
      let c' = record c { moved = c.moved || far dx dy } in
      let held = record g { gesture = some c' } in
      if c.moved || far dx dy then drag held e c' dx dy else held

  abbrev pointed : Graph → PointerEvent → Graph
  pointed g e = if truthy g.connecting then record g { pointer = some (world_point g e) } else g

  move_gesture : Graph → PointerEvent → Option Gesture → Graph
  move_gesture g e none = g
  move_gesture g e (some c) = if c.pointer == e.pointer_id then move_with g e c else g

  unfoldable pub move : Graph → PointerEvent → Graph
  unfolding move_gesture move_with
  move g e = move_gesture (pointed g e) e g.gesture

-- The entity under the released pointer, if it is inside the canvas.
drop_on : Graph → Gesture → Option Text → Graph
drop_on g c none = g
drop_on g c (some target) =
    if g.disabled then g else record g { sent = g.sent ++ connected c.id target ∷ [] }

finish : Graph → Gesture → Option Text → Graph
finish g c target = elim c.kind [
  | node ↦
      if c.moved
      then persist g g.live
      else if truthy g.connecting
      then connect_to g c.id g.connecting
      else record g { sent = g.sent ++ inspect c.id ∷ [] }
  | pan ↦ g
  | connect ↦
      if c.moved then drop_on (cancel_connection g) c target else connect_to g c.id g.connecting
]

end_gesture : Graph → PointerEvent → Option Text → Option Gesture → Graph
end_gesture g e target none = g
end_gesture g e target (some c) =
    if c.pointer == e.pointer_id then finish (record g { gesture = none }) c target else g

unfoldable pub release : Graph → PointerEvent → Option Text → Graph
unfolding end_gesture finish drop_on
release g e target = end_gesture g e target g.gesture

undo : Graph → Option Gesture → Graph
undo g none = g
undo g (some c) = elim c.kind [
  | node ↦ record g { saved = put g.live c.id c.origin }
  | pan ↦ record g { view = c.origin }
  | connect ↦ g
]

unfoldable pub cancel_gesture : Graph → Graph
unfolding undo
cancel_gesture g = cancel_connection (record (undo g g.gesture) { gesture = none })

abbrev rendered : Graph → Option Positions → Graph
rendered g none = g
rendered g (some ps) = record g { positions = ps; live = ps }

-- The render behind a change of state: the positions follow from the saved ones.
unfoldable pub render : List EntityType → Graph → Graph
render entities g = rendered g (entity_positions entities g.saved)
