-- ===== src/Concepts.antt =====
-- web/src/query-concepts.ts: the business concepts that a source maps, and the queries linked to
-- them. The lineage always exists (Ontology/Lineage), so the default in `owners` is not reached.
pub mod Laws
pub mod Queries
pub mod Linking
pub mod Offered
pub mod Tests
use context_gate.Base.{
  ℕ, Text, codes, Bool, true, false, ◌&&◌, ◌||◌, List, [], ◌∷◌, ◌++◌, map, Option, none, some,
  if◌then◌else◌, ◌==◌, any, find, filter, text_eq, truthy, truthy?, or_text, includes, unique,
  Result, ok, throw, error,
}
use context_gate.Ontology.{
  EntityType, Property, RelationType, OntologyDefinition, EntityMapping, PropertyMapping,
  RelationMapping, OntologyBinding, concept_refs, effective_entities, find_entity, entity_ref,
  property_ref, relation_ref,
}
use context_gate.Semantics.{QueryTemplate, SemanticEntry, SemanticSnapshot}

pub record BusinessConcept : Type 0 where
  pub ref : Text
  pub name : Text
  pub kind : Text
  pub description : Text

-- `entity?.description || ""`, and `entity?.name`
abbrev entity_description : Option EntityType → Text
entity_description none = []
entity_description (some e) = or_text e.description []

abbrev entity_label : Option EntityType → Option Text
entity_label none = none
entity_label (some e) = some e.name

unfoldable pub entity_name : OntologyDefinition → Text → Text
entity_name d id = or_text (entity_label (find_entity d id)) id

entity_concept : OntologyDefinition → EntityMapping → BusinessConcept
entity_concept d m = record {
  ref = entity_ref m.entity;
  name = entity_name d m.entity;
  kind = codes "Entity type";
  description = entity_description (find_entity d m.entity);
}

abbrev or_nil {ℓ} : {A : Type ℓ} → Option (List A) → List A
or_nil none = []
or_nil (some xs) = xs

-- The property with the mapped id that the entity or one of its ancestors owns.
pub find_property : OntologyDefinition → PropertyMapping → Option Property
find_property d m =
    let owners = or_nil (effective_entities d m.entity) in
    find (λ p. text_eq (Property.id p) m.property && includes owners (Property.entity p))
      d.properties

abbrev property_label : Option Property → Option Text
property_label none = none
property_label (some p) = some p.name

abbrev property_description : Option Property → Text
property_description none = []
property_description (some p) = or_text p.description []

property_concept : OntologyDefinition → PropertyMapping → BusinessConcept
property_concept d m = record {
  ref = property_ref m.entity m.property;
  name =
      entity_name d m.entity
      ++ (codes " · " ++ or_text (property_label (find_property d m)) m.property);
  kind = codes "Property";
  description = property_description (find_property d m);
}

abbrev relation_label : OntologyDefinition → Text → Option RelationType → Text
relation_label d id none = id
relation_label d id (some r) =
    entity_name d r.from ++ (codes " → " ++ (r.name ++ (codes " → " ++ entity_name d r.to)))

abbrev relation_description : Option RelationType → Text
relation_description none = []
relation_description (some r) = or_text r.description []

relation_concept : OntologyDefinition → RelationMapping → BusinessConcept
relation_concept d m =
    let relation = find (λ r. text_eq (RelationType.id r) m.relation) d.relations in
    record {
      ref = relation_ref m.relation;
      name = relation_label d m.relation relation;
      kind = codes "Relation type";
      description = relation_description relation;
    }

unfoldable pub mapped_concepts : OntologyBinding → OntologyDefinition → List BusinessConcept
unfolding entity_concept property_concept relation_concept find_property
mapped_concepts b d =
    map (entity_concept d) b.entities
    ++ (map (property_concept d) b.properties ++ map (relation_concept d) b.relations)

-- `definition?.relations.some(…)`
unfoldable pub touches : Option OntologyDefinition → Text → RelationMapping → Bool
touches none entity m = false
touches (some d) entity m =
    any
      (λ r.
        text_eq (RelationType.id r) m.relation
        && (text_eq (RelationType.from r) entity || text_eq (RelationType.to r) entity))
      d.relations

-- `.filter(Boolean)` on optional ids
unfoldable pub given : List (Option Text) → List Text
given [] = []
given (none ∷ xs) = given xs
given (some s ∷ xs) = let rest = given xs in if truthy s then s ∷ rest else rest

unfoldable pub selected : List Text → List Text → SemanticEntry → Option QueryTemplate → Bool
selected refs ids entry none = false
selected refs ids entry (some t) =
    includes ids entry.id || any (includes refs) (or_nil t.concept_refs)

module _ (ontology_id entity_id : Text) (definition : Option OntologyDefinition) where
  unfoldable pub own_properties : OntologyBinding → List PropertyMapping
  own_properties b = filter (λ m. text_eq (PropertyMapping.entity m) entity_id) b.properties

  unfoldable pub own_relations : OntologyBinding → List RelationMapping
  own_relations b = filter (touches definition entity_id) b.relations

  -- The set `refs`, and the set `ids`
  unfoldable pub own_refs : OntologyBinding → List Text
  own_refs b =
      entity_ref entity_id
      ∷ (map (λ m. property_ref entity_id (PropertyMapping.property m)) (own_properties b)
          ++ map (λ m. relation_ref (RelationMapping.relation m)) (own_relations b))

  unfoldable pub own_ids : OntologyBinding → List Text
  own_ids b = given (
      map (λ m. PropertyMapping.template_id m) (own_properties b)
      ++ map (λ m. RelationMapping.template_id m) (own_relations b))

  unfoldable pub queries_in : Option OntologyBinding → List SemanticEntry → List SemanticEntry
  queries_in none entries = []
  queries_in (some b) entries =
      if text_eq b.ontology_id ontology_id
        && any (λ m. text_eq (EntityMapping.entity m) entity_id) b.entities
      then filter (λ e. selected (own_refs b) (own_ids b) e (SemanticEntry.template e)) entries
      else []

unfoldable pub concept_queries :
    SemanticSnapshot → Text → Text → Option OntologyDefinition → List SemanticEntry
concept_queries snapshot ontology_id entity_id definition =
    queries_in ontology_id entity_id definition snapshot.ontology snapshot.entries

-- `snapshot.ontology?.ontology_id !== ontologyID || !conceptRefs(snapshot.ontology).includes(ref)`
abbrev pub unmapped : Option OntologyBinding → Text → Text → Bool
unmapped none ontology_id ref = true
unmapped (some b) ontology_id ref =
    if text_eq b.ontology_id ontology_id && includes (concept_refs (some b)) ref
    then false
    else true

abbrev pub not_mapped : Text
not_mapped = codes "The concept is not mapped in this draft. Update the source mapping first."

link_template : SemanticEntry → Text → QueryTemplate → SemanticEntry
link_template entry ref t = record entry {
  template = some (record t { concept_refs = some (unique (or_nil t.concept_refs ++ ref ∷ [])) });
}

link_in :
    Option QueryTemplate → SemanticSnapshot → SemanticEntry → Text → Text → Result SemanticEntry
link_in none snapshot entry ontology_id ref = throw (error not_mapped)
link_in (some t) snapshot entry ontology_id ref =
    if unmapped snapshot.ontology ontology_id ref
    then throw (error not_mapped)
    else ok (link_template entry ref t)

unfoldable pub link_query_concept :
    SemanticSnapshot → SemanticEntry → Text → Text → Result SemanticEntry
unfolding link_in link_template
link_query_concept snapshot entry ontology_id ref =
    link_in entry.template snapshot entry ontology_id ref

pub record ConceptCoverage : Type 0 where
  pub sources : ℕ
  pub source_ids : Option (List Text)
  pub templates : ℕ
  pub linked_templates : ℕ

unfoldable pub coverage_label : Option ConceptCoverage → Text
coverage_label none = codes "Definition only"
coverage_label (some u) =
    if u.sources == 0
    then codes "Definition only"
    else if u.linked_templates == 0
    then codes "Mapped · no queries"
    else if u.templates == 0
    then codes "Queries unavailable"
    else codes "Queries available"
