-- ===== src/Ontology/Tests.antt =====
-- Runs of the functions of web/src/ontology-types.ts on the sample ontology.
use context_gate.Base.{◌≡◌, refl, Text, codes, text_eq, includes, List, [], ◌∷◌, some}
use context_gate.Ontology.{
  concept_refs, climb, effective_entities, entity_ref, property_ref, relation_ref, parent_of,
}
use context_gate.Ontology.Lineage.{IsLineage, effective_entities-IsLineage}
use context_gate.Samples.{shop, binding}

-- `customer` is a `party`; `order` is its own parent.
effective_entities_customer :
    effective_entities shop (codes "customer") ≡ some (codes "customer" ∷ codes "party" ∷ [])
unfolding effective_entities climb parent_of includes text_eq
effective_entities_customer = refl

effective_entities_cycle : effective_entities shop (codes "order") ≡ some (codes "order" ∷ [])
unfolding effective_entities climb parent_of includes text_eq
effective_entities_cycle = refl

concept_refs_binding :
    concept_refs (some binding)
    ≡ entity_ref (codes "customer")
      ∷ property_ref (codes "customer") (codes "email")
      ∷ relation_ref (codes "places")
      ∷ []
unfolding concept_refs
concept_refs_binding = refl

effective_entities-IsLineage_example :
    (chain : List Text) × (effective_entities shop (codes "order") ≡ some chain)
    × IsLineage shop (codes "order") chain
effective_entities-IsLineage_example = effective_entities-IsLineage shop (codes "order")
