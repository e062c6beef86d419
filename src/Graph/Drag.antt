-- ===== src/Graph/Drag.antt =====
-- Dragging a node and taking the drag back.
use mathlib.Core.Path.{subst}
use context_gate.Base.{
  ℕ, ◌≡◌, ◌≢◌, refl, sym, ap, ◌∙◌, ◌⊎◌, inl, inr, Text, Bool, true, false, ◌||◌, List, [], ◌∷◌,
  none, some, ◌==◌, Has, Distinct, text_eq, text_eq_iff, truthy, Bool-cases, Option-cases,
}
use context_gate.Base.Int.{ℤ, ◌-ℤ◌}
use context_gate.Ontology.{EntityType}
use context_gate.Layout.{Point, Positions, position_of, put, entity_positions}
use context_gate.Layout.Arrange.{position_of-put, ids}
use context_gate.Layout.Placement.{IsPlacement, entity_positions-IsPlacement}
use context_gate.Graph.{
  node, Gesture, PointerEvent, Graph, cancel_connection, begin, origin_of, far, drag, move_with,
  pointed, move_gesture, move, undo, cancel_gesture, render,
}

position_of-put_ne :
    (ps : Positions) (k j : Text) (p : Point)
    → k ≢ j
    → position_of (put ps k p) j ≡ position_of ps j
position_of-put_ne ps k j p ne = elim (Bool-cases (text_eq k j)) [
  | inl same ↦ absurd (ne ((text_eq_iff k j).0 same))
  | inr other ↦ position_of-put ps k j p ∙ rw other
]

position_of-put_eq :
    (ps : Positions) (k j : Text) (p : Point) → k ≡ j → position_of (put ps k p) j ≡ some p
position_of-put_eq ps k j p same = position_of-put ps k j p ∙ rw ((text_eq_iff k j).1 same)

-- What can happen while a node is dragged: pointer moves, and renders.
pub data DragEvent : Type 0 where
  moves : PointerEvent → DragEvent
  renders : DragEvent

module _ (shrink : ℤ → ℤ) (rect : Point) (entities : List EntityType) where
  unfoldable pub drag_step : Graph → DragEvent → Graph
  drag_step g (moves e) = move shrink rect g e
  drag_step g renders = render entities g

  unfoldable pub drag_run : Graph → List DragEvent → Graph
  drag_run g [] = g
  drag_run g (e ∷ es) = drag_run (drag_step g e) es

  module _ (g₀ : Graph) (id : Text) (origin : Point) where
    -- The other nodes stand where they stood.
    OthersKept : Graph → Type 0
    OthersKept g =
        (e : EntityType)
        → Has e entities
        → e.id ≢ id
        → (position_of g.saved e.id ≡ position_of g₀.live e.id)
          × (position_of g.live e.id ≡ position_of g₀.live e.id)

    abbrev node_gesture : ℕ → Point → Bool → Gesture
    node_gesture pointer start moved = record {
      kind = node;
      id = id;
      pointer = pointer;
      start = start;
      origin = origin;
      moved = moved;
    }

    record Dragging (g : Graph) : Type 0 where
      held :
          (pointer : ℕ) × (start : Point) × (moved : Bool) × (g.gesture
            ≡ some (node_gesture pointer start moved))
      others : ((g.saved ≡ g₀.saved) × (g.live ≡ g₀.live)) ⊎ OthersKept g
      stored_kept : g.stored ≡ g₀.stored
      sent_kept : g.sent ≡ g₀.sent

    kept_live :
        (g : Graph)
        → Dragging g
        → (e : EntityType) → Has e entities
        → e.id ≢ id
        → position_of g.live e.id ≡ position_of g₀.live e.id
    unfolding OthersKept
    kept_live g d e h ne = elim d.others [
      | inl same ↦ ap (λ ps. position_of ps e.id) same.1
      | inr k ↦ (k e h ne).1
    ]

    moved_node :
        (g : Graph) (pointer : ℕ) (start : Point) (moved : Bool) (p : Point)
        → Dragging g
        → Dragging (record g {
          gesture = some (node_gesture pointer start moved);
          live = put g.live id p;
          saved = put g.live id p;
        })
    unfolding OthersKept
    moved_node g pointer start moved p d = record {
      held = (pointer, start, moved, refl);
      others = inr (λ e h ne.
          let at =
            position_of-put_ne g.live id e.id p (λ same. ne (sym same)) ∙ kept_live g d e h ne in
          (at, at));
      stored_kept = d.stored_kept;
      sent_kept = d.sent_kept;
    }

    with_gesture :
        (g : Graph) (pointer : ℕ) (start : Point) (moved : Bool)
        → Dragging g
        → Dragging (record g { gesture = some (node_gesture pointer start moved) })
    unfolding OthersKept
    with_gesture g pointer start moved d = record {
      held = (pointer, start, moved, refl);
      others = d.others;
      stored_kept = d.stored_kept;
      sent_kept = d.sent_kept;
    }

    move_with-Dragging :
        (g : Graph) (e : PointerEvent) (pointer : ℕ) (start : Point) (moved : Bool)
        → Dragging g
        → Dragging (move_with shrink rect g e (node_gesture pointer start moved))
    unfolding move_with drag
    move_with-Dragging g e pointer start moved d =
        elim (Bool-cases (moved || far (e.client.x -ℤ start.x) (e.client.y -ℤ start.y))) [
          | inl out ↦ rw (out, move_with) (moved_node g pointer start true _ d)
          | inr still ↦ rw (still, move_with) (with_gesture g pointer start false d)
        ]

    pointed-Dragging :
        (g : Graph) (e : PointerEvent) → Dragging g → Dragging (pointed shrink rect g e)
    unfolding OthersKept
    pointed-Dragging g e d = elim (Bool-cases (truthy g.connecting)) [
      | inl t ↦ rw t (record {
        held = d.held;
        others = d.others;
        stored_kept = d.stored_kept;
        sent_kept = d.sent_kept;
      })
      | inr f ↦ rw f d
    ]

    move_gesture-Dragging :
        (g : Graph) (e : PointerEvent) (pointer : ℕ) (start : Point) (moved : Bool)
        → Dragging g
        → Dragging (move_gesture shrink rect g e (some (node_gesture pointer start moved)))
    unfolding move_gesture
    move_gesture-Dragging g e pointer start moved d = elim (Bool-cases (pointer == e.pointer_id)) [
      | inl ours ↦ rw ours (move_with-Dragging g e pointer start moved d)
      | inr theirs ↦ rw theirs d
    ]

    render-Dragging :
        (g : Graph)
        → Distinct (ids entities)
        → entity_positions entities g₀.saved ≡ some g₀.live
        → Dragging g
        → Dragging (render entities g)
    unfolding render OthersKept
    render-Dragging g u fresh d =
        let (ps, at, placed) = entity_positions-IsPlacement entities g.saved u in
        rw at (record {
          held = d.held;
          others = elim d.others [
            | inl same ↦ inl (same.0, unsome (sym at ∙ rw (same.0) fresh))
            | inr k ↦ inr (λ e h ne. ((k e h ne).0, carried g e ps placed h (k e h ne).0))
          ];
          stored_kept = d.stored_kept;
          sent_kept = d.sent_kept;
        })
      where
        unsome : {a b : Positions} → some a ≡ some b → a ≡ b
        unsome h = cc

        present : (e : EntityType) → Has e entities → position_of g₀.live e.id ≢ none
        present e h =
            let (ps, at, placed) = entity_positions-IsPlacement entities g₀.saved u in
            rw (← unsome (sym at ∙ fresh)) (placed.complete e h)

        carried :
            (g : Graph) (e : EntityType) (ps : Positions)
            → IsPlacement entities g.saved ps
            → Has e entities
            → position_of g.saved e.id ≡ position_of g₀.live e.id
            → position_of ps e.id ≡ position_of g₀.live e.id
        carried g e ps placed h same = elim (Option-cases (position_of g₀.live e.id)) [
          | inl gone ↦ absurd (present e h gone)
          | inr (p, at) ↦ placed.kept e p h (same ∙ at) ∙ sym at
        ]

    drag_step-Dragging :
        (g : Graph) (e : DragEvent)
        → Distinct (ids entities)
        → entity_positions entities g₀.saved ≡ some g₀.live
        → Dragging g
        → Dragging (drag_step g e)
    unfolding drag_step move
    drag_step-Dragging g renders u fresh d = render-Dragging g u fresh d
    drag_step-Dragging g (moves e) u fresh d =
        let (pointer, start, moved, at) = d.held in
        subst (λ o. Dragging (move_gesture shrink rect (pointed shrink rect g e) e o)) (sym at)
          (move_gesture-Dragging (pointed shrink rect g e) e pointer start moved
            (pointed-Dragging g e d))

    drag_run-Dragging :
        (es : List DragEvent) (g : Graph)
        → Distinct (ids entities)
        → entity_positions entities g₀.saved ≡ some g₀.live
        → Dragging g
        → Dragging (drag_run g es)
    unfolding drag_run
    drag_run-Dragging [] g u fresh d = d
    drag_run-Dragging (e ∷ es) g u fresh d =
        drag_run-Dragging es (drag_step g e) u fresh (drag_step-Dragging g e u fresh d)

    -- Where the gesture is put back, and what is left alone.
    pub record PutBack (g : Graph) : Type 0 where
      pub places :
          (e : EntityType) → Has e entities → position_of g.saved e.id ≡ position_of g₀.live e.id
      pub idle : g.gesture ≡ none
      pub unconnected : g.connecting ≡ []
      pub same_store : g.stored ≡ g₀.stored
      pub same_sent : g.sent ≡ g₀.sent

    undone :
        (g : Graph) (pointer : ℕ) (start : Point) (moved : Bool)
        → Dragging g
        → position_of g₀.live id ≡ some origin
        → PutBack (
            cancel_connection
              (record (undo g (some (node_gesture pointer start moved))) { gesture = none }))
    unfolding undo cancel_connection
    undone g pointer start moved d at = record {
      places = λ e h. elim (Bool-cases (text_eq e.id id)) [
        | inl same ↦
            let eq = (text_eq_iff e.id id).0 same in
            position_of-put_eq g.live id e.id origin (sym eq) ∙ sym (rw eq at)
        | inr other ↦
            let ne : e.id ≢ id = λ eq. cc ((text_eq_iff e.id id).1 eq) in
            position_of-put_ne g.live id e.id origin (λ eq. ne (sym eq)) ∙ kept_live g d e h ne
      ];
      idle = refl;
      unconnected = refl;
      same_store = d.stored_kept;
      same_sent = d.sent_kept;
    }

    cancel-PutBack :
        (g : Graph) → Dragging g → position_of g₀.live id ≡ some origin → PutBack (cancel_gesture g)
    unfolding cancel_gesture
    cancel-PutBack g d at =
        let (pointer, start, moved, is) = d.held in
        subst (λ o. PutBack (cancel_connection (record (undo g o) { gesture = none }))) (sym is)
          (undone g pointer start moved d at)

    begin-Dragging :
        (e : PointerEvent)
        → e.button ≡ 0
        → g₀.gesture ≡ none
        → position_of g₀.positions id ≡ some origin
        → Dragging (begin g₀ e node id)
    unfolding begin origin_of
    begin-Dragging e b idle at =
        rw (b, idle)
          (rw at (record {
            held = (e.pointer_id, e.client, false, refl);
            others = inl (refl, refl);
            stored_kept = refl;
            sent_kept = refl;
          }))

-- A drag of a node that is cancelled, whatever pointer moves and renders came between, puts every
-- entity's saved position back to where the entity stood, ends the gesture, and neither writes to
-- storage nor calls the parent.
pub cancel_gesture-PutBack :
    (shrink : ℤ → ℤ) (rect : Point) (entities : List EntityType) (g : Graph) (id : Text)
    (origin : Point) (e : PointerEvent) (es : List DragEvent)
    → Distinct (ids entities)
    → entity_positions entities g.saved ≡ some g.live
    → g.positions ≡ g.live
    → g.gesture ≡ none
    → e.button ≡ 0
    → position_of g.positions id ≡ some origin
    → PutBack shrink rect entities g id origin
        (cancel_gesture (drag_run shrink rect entities (begin g e node id) es))
cancel_gesture-PutBack shrink rect entities g id origin e es u fresh same idle b at =
    cancel-PutBack shrink rect entities g id origin _
      (drag_run-Dragging shrink rect entities g id origin es _ u fresh
        (begin-Dragging shrink rect entities g id origin e b idle at))
      (rw (← same) at)
