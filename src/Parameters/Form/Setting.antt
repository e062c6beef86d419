-- ===== src/Parameters/Form/Setting.antt =====
-- The members of the values in which one is set.
use context_gate.Base.{
  ◌≡◌, ◌≢◌, refl, ap, inl, inr, Text, true, false, List, [], ◌∷◌, map, some, arith, if◌then◌else◌,
  Has, Distinct, text_eq, text_eq_iff, Bool-cases, any,
}
use context_gate.Parameters.Values.{comes_before, array_index, put_member, names, value_of}
use context_gate.Parameters.RoundTrip.{IsMember, AllMembers}
use context_gate.Parameters.Form.Assigned.{reassign, is_named, assign_value}

module _ (name raw : Text) where
  names-reassign : (vs : List (Text × Text)) → names (map (reassign name raw) vs) ≡ names vs
  names-reassign [] = refl
  names-reassign ((k, v) ∷ vs) = ap (◌∷◌ k) (names-reassign vs)

  Has-put_member :
      (a : Text) (vs : List (Text × Text))
      → a ≢ name
      → Has a (names (put_member (name, raw) vs))
      → Has a (names vs)
  unfolding put_member
  Has-put_member a [] ne (inl e) = absurd (ne (cc))
  Has-put_member a [] ne (inr z) = z
  Has-put_member a ((k, v) ∷ vs) ne h =
      elim (Bool-cases (comes_before (array_index name) (array_index k))) [
        | inl e ↦ elim (rw e at h) [ inl s ↦ absurd (ne (cc)) | inr later ↦ later ]
        | inr e ↦ elim (rw e at h) [
          | inl s ↦ inl s
          | inr later ↦ inr (Has-put_member a vs ne later)
        ]
      ]

  unnamed : (vs : List (Text × Text)) → any (is_named name) vs ≡ false → ¬ Has name (names vs)
  unnamed [] h z = z
  unnamed ((k, v) ∷ vs) h z = ground (arith, text_eq_iff k name, unnamed vs)

  put_member-Distinct :
      (vs : List (Text × Text))
      → any (is_named name) vs ≡ false
      → Distinct (names vs)
      → Distinct (names (put_member (name, raw) vs))
  unfolding put_member
  put_member-Distinct [] h d = ((λ z. z), tt)
  put_member-Distinct ((k, v) ∷ vs) h (new, d) =
      let none_of = unnamed ((k, v) ∷ vs) h in
      elim (Bool-cases (comes_before (array_index name) (array_index k))) [
        | inl e ↦ rw e (none_of, (new, d))
        | inr e ↦ rw e (
          (λ z. new (Has-put_member k vs (λ s. none_of (inl (cc s))) z)),
          put_member-Distinct vs (ground arith) d,
        )
      ]

  pub assign_value-Distinct :
      (vs : List (Text × Text)) → Distinct (names vs) → Distinct (names (assign_value vs name raw))
  unfolding assign_value
  assign_value-Distinct vs d = elim (Bool-cases (any (is_named name) vs)) [
    | inl old ↦ rw old (rw (names-reassign vs) d)
    | inr new ↦ rw new (put_member-Distinct vs new d)
  ]

  reassign-AllMembers :
      (vs : List (Text × Text))
      → IsMember name raw
      → AllMembers vs
      → AllMembers (map (reassign name raw) vs)
  reassign-AllMembers [] m h = tt
  reassign-AllMembers ((k, v) ∷ vs) m (n, h) = elim (Bool-cases (text_eq k name)) [
    | inl e ↦ rw e (
      record { units = n.units; trimmed = m.trimmed; filled = m.filled; unbroken = m.unbroken },
      reassign-AllMembers vs m h,
    )
    | inr e ↦ rw e (n, reassign-AllMembers vs m h)
  ]

  put_member-AllMembers :
      (vs : List (Text × Text))
      → IsMember name raw
      → AllMembers vs
      → AllMembers (put_member (name, raw) vs)
  unfolding put_member
  put_member-AllMembers [] m h = (m, tt)
  put_member-AllMembers ((k, v) ∷ vs) m (n, h) =
      elim (Bool-cases (comes_before (array_index name) (array_index k))) [
        | inl e ↦ rw e (m, (n, h))
        | inr e ↦ rw e (n, put_member-AllMembers vs m h)
      ]

  pub assign_value-AllMembers :
      (vs : List (Text × Text))
      → IsMember name raw
      → AllMembers vs
      → AllMembers (assign_value vs name raw)
  unfolding assign_value
  assign_value-AllMembers vs m h = elim (Bool-cases (any (is_named name) vs)) [
    | inl old ↦ rw old (reassign-AllMembers vs m h)
    | inr new ↦ rw new (put_member-AllMembers vs m h)
  ]

  value_of-replaced :
      (vs : List (Text × Text))
      → any (is_named name) vs ≡ true
      → value_of (map (reassign name raw) vs) name ≡ some raw
  unfolding value_of
  value_of-replaced [] h = cc
  value_of-replaced ((k, v) ∷ vs) h = elim (Bool-cases (text_eq k name)) [
    | inl e ↦ rw e refl
    | inr e ↦ rw e (value_of-replaced vs (rw e at h))
  ]

  value_of-others :
      (vs : List (Text × Text)) (j : Text)
      → name ≢ j
      → value_of (map (reassign name raw) vs) j ≡ value_of vs j
  unfolding value_of
  value_of-others [] j ne = refl
  value_of-others ((k, v) ∷ vs) j ne =
      ground (arith, value_of-others vs j ne, text_eq_iff k name, text_eq_iff k j)

  value_of-reassign :
      (vs : List (Text × Text)) (j : Text)
      → any (is_named name) vs ≡ true
      → value_of (map (reassign name raw) vs) j
        ≡ (if text_eq name j then some raw else value_of vs j)
  unfolding value_of
  value_of-reassign vs j h = elim (Bool-cases (text_eq name j)) [
    | inl e ↦ rw (e, ← ((text_eq_iff name j).0 e)) (value_of-replaced vs h)
    | inr e ↦ rw e (value_of-others vs j (λ s. cc ((text_eq_iff name j).1 s)))
  ]

  value_of-put_member :
      (vs : List (Text × Text)) (j : Text)
      → any (is_named name) vs ≡ false
      → value_of (put_member (name, raw) vs) j
        ≡ (if text_eq name j then some raw else value_of vs j)
  unfolding put_member value_of
  value_of-put_member [] j h = refl
  value_of-put_member ((k, v) ∷ vs) j h =
      elim (Bool-cases (comes_before (array_index name) (array_index k))) [
        | inl e ↦ rw e refl
        | inr e ↦ rw e (
            ground (
              arith,
              value_of-put_member vs j,
              text_eq_iff k name,
              text_eq_iff k j,
              text_eq_iff name j,
            ))
      ]

  -- The set member has its value, and every other has what it had.
  pub value_of-assign_value :
      (vs : List (Text × Text)) (j : Text)
      → value_of (assign_value vs name raw) j ≡ (if text_eq name j then some raw else value_of vs j)
  unfolding assign_value
  value_of-assign_value vs j = elim (Bool-cases (any (is_named name) vs)) [
    | inl old ↦ rw old (value_of-reassign vs j old)
    | inr new ↦ rw new (value_of-put_member vs j new)
  ]
