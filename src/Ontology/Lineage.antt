-- ===== src/Ontology/Lineage.antt =====
-- `effectiveEntities` ends on every definition, cyclic ones included, and yields the lineage.
use context_gate.Base.{
  ℕ, zero, suc, ◌+◌, ◌≤◌, ◌≡◌, ◌≢◌, refl, ◌⊎◌, inl, inr, Text, List, [], ◌∷◌, ◌++◌, map, some,
  arith, length, All, Has, Distinct, Distinct-concat, length-append, length-map,
  length_le_of_Distinct, Has-map, find-eq-some, text_eq_iff, includes, includes_iff, Bool-cases,
  Option-cases,
}
use context_gate.Ontology.{
  OntologyDefinition, EntityType, find_entity, parent_of, climb, effective_entities,
}

-- Reading `chain` from `x` on, each member is the parent of the one before, up to `next`.
abbrev pub Leads : OntologyDefinition → Text → List Text → Text → Type 0
Leads d x [] next = x ≡ next
Leads d x (y ∷ ys) next = (x ≡ y) × Leads d (parent_of d y) ys next

-- The chain of ancestors of `entity`: itself first, nobody twice, no empty name; it ends at an
-- entity with no parent, or where the parent stands in the chain already.
pub record IsLineage (d : OntologyDefinition) (entity : Text) (chain : List Text) : Type 0 where
  pub next : Text
  pub leads : Leads d entity chain next
  pub distinct : Distinct chain
  pub named : All (λ x. x ≢ []) chain
  pub stops : (next ≡ []) ⊎ Has next chain

Leads-concat :
    (d : OntologyDefinition) (x : Text) (chain : List Text) (next : Text)
    → Leads d x chain next
    → Leads d x (chain ++ next ∷ []) (parent_of d next)
Leads-concat d x [] next h = (h, refl)
Leads-concat d x (y ∷ ys) next (e, h) = (e, Leads-concat d (parent_of d y) ys next h)

All-concat : (P : Text → Type 0) (xs : List Text) (a : Text) → All P xs → P a → All P (xs ++ a ∷ [])
All-concat P [] a h p = (p, tt)
All-concat P (x ∷ xs) a (q, h) p = (q, All-concat P xs a h p)

abbrev ids : OntologyDefinition → List Text
ids d = map (λ e. EntityType.id e) d.entities

-- Only a defined entity type has a parent.
Has-of_parent : (d : OntologyDefinition) (x : Text) → parent_of d x ≢ [] → Has x (ids d)
unfolding parent_of
Has-of_parent d x h = elim (Option-cases (find_entity d x)) [
  | inl e ↦ absurd (h (rw e))
  | inr (en, e) ↦
      let (at, same) = find-eq-some _ d.entities en e in
      rw (← (text_eq_iff en.id x).0 same) (Has-map (λ v. EntityType.id v) d.entities en at)
]

-- `n + 2` rounds are enough: the members that lead on are defined, and distinct.
climb-IsLineage :
    (fuel : ℕ) (d : OntologyDefinition) (x : Text) (chain : List Text) (entity : Text)
    → length d.entities + 2 ≤ fuel + length chain
    → (entity ≢ [] → All (λ y. Has y (ids d)) chain)
    → length chain ≤ length d.entities + 1
    → Leads d x chain entity
    → Distinct chain
    → All (λ y. y ≢ []) chain
    → (r : List Text) × (climb fuel d chain entity ≡ some r) × IsLineage d x r
unfolding climb
climb-IsLineage zero d x chain entity f known small l u nm = absurd (omega arith)
climb-IsLineage (suc fuel) d x chain [] f known small l u nm =
    (chain, refl, record { next = []; leads = l; distinct = u; named = nm; stops = inl refl })
climb-IsLineage (suc fuel) d x chain (c ∷ s) f known small l u nm =
    elim (Bool-cases (includes chain (c ∷ s))) [
      | inl seen ↦ (
        chain,
        rw seen,
        record {
          next = c ∷ s;
          leads = l;
          distinct = u;
          named = nm;
          stops = inr ((includes_iff chain (c ∷ s)).0 seen);
        },
      )
      | inr new ↦
          let bound : length chain ≤ length d.entities = omega (
            arith,
            length_le_of_Distinct chain (ids d) u (known (cc)),
            length-map (λ e. EntityType.id e) d.entities,
          ) in
          let longer : length (chain ++ (c ∷ s) ∷ []) ≡ length chain + 1 =
            omega (arith, length-append chain ((c ∷ s) ∷ [])) in
          rw new (
            climb-IsLineage fuel d x (chain ++ (c ∷ s) ∷ []) (parent_of d (c ∷ s)) (omega arith)
              (λ ne. All-concat _ chain _ (known (cc)) (Has-of_parent d (c ∷ s) ne)) (omega arith)
              (Leads-concat d x chain (c ∷ s) l)
              (Distinct-concat chain (c ∷ s) u (λ m. cc ((includes_iff chain (c ∷ s)).1 m)))
              (All-concat _ chain _ nm (cc)))
    ]

-- `effectiveEntities` returns on every definition and entity, and what it returns is the entity's
-- lineage: the entity first, each further member the parent of the one before it, no member empty
-- or repeated, up to an entity with no parent or whose parent is listed already.
pub effective_entities-IsLineage :
    (d : OntologyDefinition) (entity : Text)
    → (chain : List Text) × (effective_entities d entity ≡ some chain) × IsLineage d entity chain
unfolding effective_entities
effective_entities-IsLineage d entity =
    climb-IsLineage (length d.entities + 2) d entity [] entity (omega arith) (λ _. tt) (omega arith)
      refl tt tt
