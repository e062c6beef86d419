-- ===== src/Concepts/Linking.antt =====
-- `linkQueryConcept`, and the query list of the concept after it.
use mathlib.Core.Path.{subst}
use context_gate.Base.{
  Text, ◌≡◌, refl, ap, ◌≢◌, ◌↔◌, ◌⊎◌, inl, inr, false, List, [], ◌∷◌, ◌++◌, Option, none, some,
  arith, Any, Has, Distinct, Has-append, Has-map_inv, Any-of_Has, text_eq_iff, includes_iff, unique,
  unique-Distinct, Has-unique, get_elem?, Bool-cases, ok, throw, error,
}
use context_gate.Ontology.{
  OntologyDefinition, EntityMapping, PropertyMapping, RelationMapping, OntologyBinding,
  concept_refs, entity_ref, property_ref, relation_ref,
}
use context_gate.Semantics.{QueryTemplate, SemanticEntry, SemanticSnapshot}
use context_gate.Concepts.{
  or_nil, concept_queries, unmapped, not_mapped, link_in, link_template, link_query_concept,
}
use context_gate.Concepts.Queries.{IsQueryOf, concept_queries_iff}

-- What linking does: exactly when the draft's binding is to the ontology and has the reference, and
-- the entry has a template, it returns the entry with the references it had and the new one.
abbrev pub Linked : SemanticEntry → Text → SemanticEntry → Type 0
Linked entry ref linked =
    (t : QueryTemplate) × (refs : List Text) × (entry.template ≡ some t)
    × (linked ≡ record entry { template = some (record t { concept_refs = some refs }) })
    × Distinct refs
    × ((r : Text) → Has r refs ↔ (Has r (or_nil t.concept_refs) ⊎ (ref ≡ r)))

abbrev pub IsMapped : Option OntologyBinding → Text → Text → Type 0
IsMapped none ontology_id ref = ⊥
IsMapped (some b) ontology_id ref = (b.ontology_id ≡ ontology_id) × Has ref (concept_refs (some b))

unmapped_iff :
    (o : Option OntologyBinding) (ontology_id ref : Text)
    → (unmapped o ontology_id ref ≡ false) ↔ IsMapped o ontology_id ref
unmapped_iff none ontology_id ref = ground arith
unmapped_iff (some b) ontology_id ref =
    ground (arith, text_eq_iff b.ontology_id ontology_id, includes_iff (concept_refs (some b)) ref)

link_template_lem :
    (entry : SemanticEntry) (ref : Text) (t : QueryTemplate)
    → entry.template ≡ some t
    → Linked entry ref (record entry {
      template =
          some (record t { concept_refs = some (unique (or_nil t.concept_refs ++ ref ∷ [])) });
    })
link_template_lem entry ref t e =
    let refs = unique (or_nil t.concept_refs ++ ref ∷ []) in
    (
      t,
      refs,
      e,
      refl,
      unique-Distinct _,
      λ r. ground (
        arith,
        Has-unique (or_nil t.concept_refs ++ ref ∷ []) r,
        Has-append (or_nil t.concept_refs) (ref ∷ []) r,
      ),
    )

module _ (s : SemanticSnapshot) (entry : SemanticEntry) (ontology_id ref : Text) where
  link_in-ok :
      (o : Option QueryTemplate)
      → entry.template ≡ o
      → IsMapped s.ontology ontology_id ref × (o ≢ none)
      → (linked : SemanticEntry) × (link_in o s entry ontology_id ref ≡ ok linked)
        × Linked entry ref linked
  unfolding link_in link_template
  link_in-ok none e h = absurd (h.1 refl)
  link_in-ok (some t) e h =
      (_, rw ((unmapped_iff s.ontology ontology_id ref).1 h.0), link_template_lem entry ref t e)

  link_in-throw :
      (o : Option QueryTemplate)
      → (¬ IsMapped s.ontology ontology_id ref) ⊎ (o ≡ none)
      → link_in o s entry ontology_id ref ≡ throw (error not_mapped)
  unfolding link_in
  link_in-throw none h = refl
  link_in-throw (some t) (inr e) = cc
  link_in-throw (some t) (inl h) = elim (Bool-cases (unmapped s.ontology ontology_id ref)) [
    | inl u ↦ rw u
    | inr m ↦ absurd (h ((unmapped_iff s.ontology ontology_id ref).0 m))
  ]

  link_in-IsMapped :
      (o : Option QueryTemplate) (linked : SemanticEntry)
      → entry.template ≡ o
      → link_in o s entry ontology_id ref ≡ ok linked
      → IsMapped s.ontology ontology_id ref × Linked entry ref linked
  unfolding link_in link_template
  link_in-IsMapped none linked e h = cc
  link_in-IsMapped (some t) linked e h = elim (Bool-cases (unmapped s.ontology ontology_id ref)) [
    | inl u ↦ cc (rw (u, link_in) at h)
    | inr m ↦ (
      (unmapped_iff s.ontology ontology_id ref).0 m,
      subst (Linked entry ref) (ok_injective (rw m at h)) (link_template_lem entry ref t e),
    )
  ]
    where
      ok_injective : {A : Type 0} {a b : A} → ok a ≡ ok b → a ≡ b
      ok_injective h = cc

-- Linking succeeds exactly on an entry with a template and a reference that the draft maps under
-- the ontology, and then only the template's references change: they become distinct, those it had
-- and the new one. In every other case it throws.
pub link_query_concept_lem :
    (s : SemanticSnapshot) (entry : SemanticEntry) (ontology_id ref : Text)
    → (IsMapped s.ontology ontology_id ref × (entry.template ≢ none)
        → (linked : SemanticEntry) × (link_query_concept s entry ontology_id ref ≡ ok linked)
          × Linked entry ref linked)
      × ((¬ IsMapped s.ontology ontology_id ref) ⊎ (entry.template ≡ none)
          → link_query_concept s entry ontology_id ref ≡ throw (error not_mapped))
unfolding link_query_concept
link_query_concept_lem s entry ontology_id ref = (
  link_in-ok s entry ontology_id ref entry.template refl,
  link_in-throw s entry ontology_id ref entry.template,
)

-- What linking accepts is mapped.
pub link_query_concept-IsMapped :
    (s : SemanticSnapshot) (entry linked : SemanticEntry) (ontology_id ref : Text)
    → link_query_concept s entry ontology_id ref ≡ ok linked
    → IsMapped s.ontology ontology_id ref × Linked entry ref linked
unfolding link_query_concept
link_query_concept-IsMapped s entry linked ontology_id ref h =
    link_in-IsMapped s entry ontology_id ref entry.template linked refl h

-- The references of the three kinds differ in the letter behind `ontology:`.
property_ref-ne-entity_ref : (a p b : Text) → property_ref a p ≢ entity_ref b
unfolding property_ref entity_ref
property_ref-ne-entity_ref a p b h =
    let letter : some 112 ≡ some 101 = ap (λ (t : Text). get_elem? t 9) h in ground arith

relation_ref-ne-entity_ref : (a b : Text) → relation_ref a ≢ entity_ref b
unfolding relation_ref entity_ref
relation_ref-ne-entity_ref a b h =
    let letter : some 114 ≡ some 101 = ap (λ (t : Text). get_elem? t 9) h in ground arith

entity_ref_of_Has :
    (b : OntologyBinding) (entity : Text)
    → Has (entity_ref entity) (concept_refs (some b))
    → Any (λ m. EntityMapping.entity m ≡ entity) b.entities
unfolding concept_refs
entity_ref_of_Has b entity h = elim ((Has-append _ _ _).0 h) [
  | inl here ↦
      let (m, at, e) =
        Has-map_inv (λ m. entity_ref (EntityMapping.entity m)) b.entities (entity_ref entity)
          here in
      Any-of_Has _ b.entities m (unfold entity_ref in cc) at
  | inr later ↦ elim ((Has-append _ _ _).0 later) [
    | inl p ↦
        let (m, at, e) =
          Has-map_inv (λ m. property_ref (PropertyMapping.entity m) (PropertyMapping.property m))
            b.properties (entity_ref entity) p in
        absurd (property_ref-ne-entity_ref _ _ _ e)
    | inr r ↦
        let (m, at, e) =
          Has-map_inv (λ m. relation_ref (RelationMapping.relation m)) b.relations
            (entity_ref entity) r in
        absurd (relation_ref-ne-entity_ref _ _ e)
  ]
]

IsQueryOf-of_Linked :
    (o : Option OntologyBinding) (entry linked : SemanticEntry) (ontology_id entity : Text)
    (d : Option OntologyDefinition)
    → IsMapped o ontology_id (entity_ref entity)
    → Linked entry (entity_ref entity) linked
    → IsQueryOf o ontology_id entity d linked
IsQueryOf-of_Linked none entry linked ontology_id entity d h l = absurd h
IsQueryOf-of_Linked (some b) entry linked ontology_id entity d (same, at) (t, refs, e, is, _, iff) =
    (
      (same, entity_ref_of_Has b entity at),
      (
        record t { concept_refs = some refs },
        ap (λ v. SemanticEntry.template v) is,
        inr (
            Any-of_Has _ refs (entity_ref entity) (inl refl)
              ((iff (entity_ref entity)).1 (inr refl))),
      ),
    )

-- A query that was linked to an entity is listed under that entity, in every snapshot that holds
-- the linked entry beside the same binding.
pub concept_queries-link_query_concept :
    (s s' : SemanticSnapshot) (entry linked : SemanticEntry) (ontology_id entity : Text)
    (d : Option OntologyDefinition)
    → link_query_concept s entry ontology_id (entity_ref entity) ≡ ok linked
    → s'.ontology ≡ s.ontology
    → Has linked s'.entries
    → Has linked (concept_queries s' ontology_id entity d)
concept_queries-link_query_concept s s' entry linked ontology_id entity d h same at =
    let (mapped, l) =
      link_query_concept-IsMapped s entry linked ontology_id (entity_ref entity) h in
    (concept_queries_iff s' ontology_id entity d linked).1
      (at, rw same (IsQueryOf-of_Linked s.ontology entry linked ontology_id entity d mapped l))
