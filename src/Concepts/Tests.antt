-- ===== src/Concepts/Tests.antt =====
-- Runs of the functions of web/src/query-concepts.ts on the sample ontology.
use context_gate.Base.{
  ◌≡◌, ◌≢◌, refl, ◌↔◌, ◌⊎◌, inl, Text, codes, text_eq, includes, unique, List, [], ◌∷◌, some, none,
  Has, Any, ok, throw, error,
}
use context_gate.Ontology.{OntologyBinding, concept_refs, entity_ref, property_ref, relation_ref}
use context_gate.Ontology.Lineage.{IsLineage}
use context_gate.Semantics.{SemanticEntry}
use context_gate.Concepts.{
  BusinessConcept, mapped_concepts, find_property, concept_queries, queries_in, own_refs, own_ids,
  own_properties, own_relations, touches, selected, given, link_query_concept, not_mapped,
  coverage_label,
}
use context_gate.Concepts.Laws.{IsOwned, find_property-IsOwned}
use context_gate.Concepts.Queries.{IsQueryOf, concept_queries_iff}
use context_gate.Concepts.Linking.{
  IsMapped, Linked, link_query_concept_lem, concept_queries-link_query_concept,
}
use context_gate.Concepts.Offered.{Spells, mapped_concepts-link_query_concept}
use context_gate.Samples.{
  shop, binding, email_mapping, snapshot, linked_snapshot, emails, linked_emails, orders,
}

-- The relation mapping names `orders`; `emails` is not linked to the entity.
concept_queries_customer :
    concept_queries snapshot (codes "shop") (codes "customer") (some shop) ≡ orders ∷ []
unfolding concept_queries queries_in own_refs own_ids own_properties own_relations touches selected
    given includes text_eq entity_ref property_ref relation_ref
concept_queries_customer = refl

linking_emails :
    link_query_concept snapshot emails (codes "shop") (entity_ref (codes "customer"))
    ≡ ok linked_emails
unfolding link_query_concept concept_refs includes text_eq unique entity_ref property_ref
    relation_ref
linking_emails = refl

link_query_concept_unmapped :
    link_query_concept snapshot emails (codes "shop") (entity_ref (codes "order"))
    ≡ throw (error not_mapped)
unfolding link_query_concept concept_refs includes text_eq unique entity_ref property_ref
    relation_ref
link_query_concept_unmapped = refl

coverage_label_unlinked :
    coverage_label
      (some (record { sources = 1; source_ids = none; templates = 2; linked_templates = 0 }))
    ≡ codes "Mapped · no queries"
unfolding coverage_label
coverage_label_unlinked = refl

find_property-IsOwned_example :
    (chain : List Text) × IsLineage shop (codes "customer") chain
    × IsOwned shop email_mapping chain (find_property shop email_mapping)
find_property-IsOwned_example = find_property-IsOwned shop email_mapping

concept_queries_iff_example :
    Has orders (concept_queries snapshot (codes "shop") (codes "customer") (some shop)) ↔ (
      Has orders (emails ∷ orders ∷ [])
      × IsQueryOf (some binding) (codes "shop") (codes "customer") (some shop) orders)
concept_queries_iff_example =
    concept_queries_iff snapshot (codes "shop") (codes "customer") (some shop) orders

link_query_concept_lem_example :
    (IsMapped (some binding) (codes "shop") (entity_ref (codes "customer"))
        × (SemanticEntry.template emails ≢ none)
      → (linked : SemanticEntry) × (link_query_concept snapshot emails
            (codes "shop")
            (entity_ref (codes "customer"))
          ≡ ok linked)
        × Linked emails (entity_ref (codes "customer")) linked)
    × ((¬ IsMapped (some binding) (codes "shop") (entity_ref (codes "customer")))
          ⊎ (SemanticEntry.template emails ≡ none)
        → link_query_concept snapshot emails (codes "shop") (entity_ref (codes "customer"))
          ≡ throw (error not_mapped))
link_query_concept_lem_example =
    link_query_concept_lem snapshot emails (codes "shop") (entity_ref (codes "customer"))

concept_queries-link_query_concept_example :
    Has linked_emails
      (concept_queries linked_snapshot (codes "shop") (codes "customer") (some shop))
concept_queries-link_query_concept_example =
    concept_queries-link_query_concept snapshot linked_snapshot emails linked_emails (codes "shop")
      (codes "customer") (some shop) linking_emails refl (inl refl)

mapped_concepts-link_query_concept_example :
    (Any
        (λ c. BusinessConcept.ref c ≡ codes "ontology:relation_type:places")
        (mapped_concepts binding shop)
      ↔ Spells binding (codes "ontology:relation_type:places"))
    × (((linked : SemanticEntry) × (link_query_concept snapshot emails
              (OntologyBinding.ontology_id binding)
              (codes "ontology:relation_type:places")
            ≡ ok linked))
        ↔ Spells binding (codes "ontology:relation_type:places"))
mapped_concepts-link_query_concept_example =
    mapped_concepts-link_query_concept snapshot emails binding shop
      (codes "ontology:relation_type:places") refl (λ e. cc)
