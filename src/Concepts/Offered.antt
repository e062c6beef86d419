-- ===== src/Concepts/Offered.antt =====
-- The concepts that are offered for linking a query, against those that linking accepts.
use mathlib.Core.Path.{subst}
use context_gate.Base.{
  Text, codes, ◌≡◌, ◌≢◌, refl, sym, ◌↔◌, ◌⊎◌, inl, inr, List, [], ◌∷◌, ◌++◌, map, none, some, arith,
  Any, Has, Has-append, ok,
}
use context_gate.Ontology.{
  OntologyDefinition, EntityMapping, PropertyMapping, RelationMapping, OntologyBinding,
  concept_refs, entity_ref, property_ref, relation_ref,
}
use context_gate.Semantics.{SemanticEntry, SemanticSnapshot}
use context_gate.Concepts.{BusinessConcept, mapped_concepts, link_query_concept}
use context_gate.Concepts.Laws.{map-mapped_concepts}
use context_gate.Concepts.Linking.{IsMapped, link_query_concept_lem, link_query_concept-IsMapped}

-- The binding maps what the reference spells: an entity, a property of an entity, or a relation.
abbrev pub Spells : OntologyBinding → Text → Type 0
Spells b ref =
    Any (λ m. codes "ontology:entity_type:" ++ EntityMapping.entity m ≡ ref) b.entities
    ⊎ (Any
          (λ m.
            codes "ontology:property:"
              ++ (PropertyMapping.entity m ++ (codes ":" ++ PropertyMapping.property m))
            ≡ ref)
          b.properties
        ⊎ Any (λ m. codes "ontology:relation_type:" ++ RelationMapping.relation m ≡ ref)
            b.relations)

module _ {A : Type 0} (f : A → Text) (ref : Text) where
  Has-map_iff : (xs : List A) → Has ref (map f xs) ↔ Any (λ x. f x ≡ ref) xs
  Has-map_iff [] = ((λ h. h), λ h. h)
  Has-map_iff (x ∷ xs) = ground (arith, Has-map_iff xs)

concept_refs-Spells :
    (b : OntologyBinding) (ref : Text) → Has ref (concept_refs (some b)) ↔ Spells b ref
unfolding concept_refs entity_ref property_ref relation_ref
concept_refs-Spells b ref =
    let entities = map (λ m. entity_ref (EntityMapping.entity m)) b.entities in
    let properties =
      map (λ m. property_ref (PropertyMapping.entity m) (PropertyMapping.property m))
        b.properties in
    let relations = map (λ m. relation_ref (RelationMapping.relation m)) b.relations in
    let first = Has-append entities (properties ++ relations) ref in
    let second = Has-append properties relations ref in
    let an_entity = Has-map_iff (λ m. entity_ref (EntityMapping.entity m)) ref b.entities in
    let a_property =
      Has-map_iff (λ m. property_ref (PropertyMapping.entity m) (PropertyMapping.property m)) ref
        b.properties in
    let a_relation = Has-map_iff (λ m. relation_ref (RelationMapping.relation m)) ref b.relations in
    (
      λ h. elim (first.0 h) [
        | inl e ↦ inl (an_entity.0 e)
        | inr later ↦ elim (second.0 later) [
          | inl p ↦ inr (inl (a_property.0 p))
          | inr r ↦ inr (inr (a_relation.0 r))
        ]
      ],
      λ h. elim h [
        | inl e ↦ first.1 (inl (an_entity.1 e))
        | inr (inl p) ↦ first.1 (inr (second.1 (inl (a_property.1 p))))
        | inr (inr r) ↦ first.1 (inr (second.1 (inr (a_relation.1 r))))
      ],
    )

-- A draft has the binding, and an entry has a template. Then a reference is that of a concept shown
-- for the binding, whatever the definition, exactly when the binding spells it; and linking the
-- entry under the binding's ontology accepts a reference exactly when the binding spells it.
pub mapped_concepts-link_query_concept :
    (s : SemanticSnapshot) (entry : SemanticEntry) (b : OntologyBinding) (d : OntologyDefinition)
    (ref : Text)
    → s.ontology ≡ some b
    → entry.template ≢ none
    → (Any (λ c. BusinessConcept.ref c ≡ ref) (mapped_concepts b d) ↔ Spells b ref)
      × (((linked : SemanticEntry) × (link_query_concept s entry b.ontology_id ref ≡ ok linked))
          ↔ Spells b ref)
mapped_concepts-link_query_concept s entry b d ref bound has =
    let spelled = concept_refs-Spells b ref in
    let shown = Has-map_iff BusinessConcept.ref ref (mapped_concepts b d) in
    let linking = link_query_concept_lem s entry b.ontology_id ref in
    (
      (
        λ h. spelled.0 (subst (Has ref) (map-mapped_concepts b d) (shown.1 h)),
        λ h. shown.0 (subst (Has ref) (sym (map-mapped_concepts b d)) (spelled.1 h)),
      ),
      (
        λ (linked, e). spelled.0 (
            (subst (λ o. IsMapped o b.ontology_id ref) bound
              ((link_query_concept-IsMapped s entry linked b.ontology_id ref e).0)).1),
        λ h.
            let (linked, e, _) =
              linking.0
                (subst (λ o. IsMapped o b.ontology_id ref) (sym bound) (refl, spelled.1 h), has) in
            (linked, e),
      ),
    )
