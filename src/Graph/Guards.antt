-- ===== src/Graph/Guards.antt =====
-- What a disabled editor cannot do, and the bounds of a dragged node.
use context_gate.Base.{
  ◌≡◌, refl, ap, ◌⊎◌, inl, inr, Text, true, false, List, [], ◌∷◌, ◌++◌, Option, none, some, arith,
  ◌==◌, truthy, Bool-cases,
}
use context_gate.Base.Int.{ℤ, pos, negsuc, ltb_ℤ}
use context_gate.Layout.{Point, Positions, in_bounds, clamp_coordinate, bounded_point}
use context_gate.Graph.{
  GestureKind, node, pan, connect, Gesture, PointerEvent, Sent, inspect, Graph, persist,
  cancel_connection, connect_to, drop_on, finish, end_gesture, release,
}

-- At most an inspection was sent.
abbrev pub OnlyInspects : List Sent → List Sent → Type 0
OnlyInspects before after = (after ≡ before) ⊎ ((id : Text) × (after ≡ before ++ inspect id ∷ []))

connect_to_disabled : (g : Graph) (id from : Text) → g.disabled ≡ true → connect_to g id from ≡ g
unfolding connect_to
connect_to_disabled g id from h = rw h

persist-sent : (g : Graph) (next : Positions) → Graph.sent (persist g next) ≡ g.sent
unfolding persist
persist-sent g next = ground arith

drop_on_disabled :
    (g : Graph) (c : Gesture) (t : Option Text)
    → g.disabled ≡ true
    → Graph.sent (drop_on (cancel_connection g) c t) ≡ g.sent
unfolding drop_on cancel_connection
drop_on_disabled g c none h = refl
drop_on_disabled g c (some t) h = rw h

finish_disabled :
    (g : Graph) (c : Gesture) (k : GestureKind) (target : Option Text)
    → c.kind ≡ k
    → g.disabled ≡ true
    → OnlyInspects g.sent (Graph.sent (finish g c target))
unfolding finish
finish_disabled g c node target e h =
    rw (e, finish)
      (elim (Bool-cases c.moved) [
        | inl far' ↦ rw far' (inl (persist-sent g g.live))
        | inr still ↦ rw still (elim (Bool-cases (truthy g.connecting)) [
          | inl on ↦ rw on (inl (ap Graph.sent (connect_to_disabled g c.id g.connecting h)))
          | inr off ↦ rw off (inr (c.id, refl))
        ])
      ])
finish_disabled g c pan target e h = rw (e, finish) (inl refl)
finish_disabled g c connect target e h =
    rw (e, finish)
      (elim (Bool-cases c.moved) [
        | inl far' ↦ rw far' (inl (drop_on_disabled g _ target h))
        | inr still ↦ rw still (inl (ap Graph.sent (connect_to_disabled g c.id g.connecting h)))
      ])

-- In a disabled editor a released pointer connects nothing: the parent hears of one inspection at
-- most.
pub release-OnlyInspects :
    (g : Graph) (e : PointerEvent) (target : Option Text)
    → g.disabled ≡ true
    → OnlyInspects g.sent (Graph.sent (release g e target))
unfolding release
release-OnlyInspects g e target h = go g.gesture
  where
    go : (o : Option Gesture) → OnlyInspects g.sent (Graph.sent (end_gesture g e target o))
    go none = inl refl
    go (some c) = elim (Bool-cases (c.pointer == e.pointer_id)) [
      | inl ours ↦
          rw (ours, end_gesture)
            (finish_disabled (record g { gesture = none }) c c.kind target refl h)
      | inr theirs ↦ rw (theirs, end_gesture) (inl refl)
    ]

clamp_in_bounds :
    (v : ℤ)
    → (ltb_ℤ (pos 100000) (clamp_coordinate v) ≡ false)
      × (ltb_ℤ (clamp_coordinate v) (negsuc 99999) ≡ false)
unfolding clamp_coordinate
clamp_in_bounds v = ground arith

-- Every position that a drag gives a node passes the test by which stored positions are read back.
pub bounded_point-in_bounds : (p : Point) → in_bounds (bounded_point p) ≡ true
unfolding bounded_point in_bounds
bounded_point-in_bounds p =
    let (a, b) = clamp_in_bounds p.x in let (c, d) = clamp_in_bounds p.y in rw (a, b, c, d)
