-- ===== src/Ontology.antt =====
-- web/src/ontology-types.ts: the definition of an ontology, its binding to a data source, and the
-- lineage of an entity type. Optional strings are `Option Text`, other optional members `Option`.
-- `downloadJSON` only drives the browser.
pub mod Lineage
pub mod Tests
use context_gate.Base.{
  ℕ, zero, suc, ◌+◌, Text, codes, Bool, true, false, not, ◌&&◌, List, [], ◌∷◌, ◌++◌, map, Option,
  none, some, if◌then◌else◌, length, find, text_eq, truthy, or_text, includes,
}

-- web/src/semantic-types.ts
pub record ObjectReference : Type 0 where
  pub namespace : Text
  pub object : Text
  pub field : Option Text

pub record EntityType : Type 0 where
  pub id : Text
  pub name : Text
  pub aliases : Option (List Text)
  pub description : Option Text
  pub parent : Option Text
  pub identity : Option (List Text)

pub record Property : Type 0 where
  pub id : Text
  pub entity : Text
  pub name : Text
  pub aliases : Option (List Text)
  pub description : Option Text
  pub type : Text
  pub required : Bool
  pub multiple : Bool
  pub unique : Option Bool
  pub unit : Option Text
  pub enums : Option (List Text)
  pub minimum : Option Text
  pub maximum : Option Text
  pub time_definition : Option Text

-- The anonymous `{ min: number; max: number | null }`; `none` is `null`.
pub record Cardinality : Type 0 where
  pub min : ℕ
  pub max : Option ℕ

pub record RelationType : Type 0 where
  pub id : Text
  pub name : Text
  pub aliases : Option (List Text)
  pub description : Option Text
  pub from : Text
  pub to : Text
  pub directed : Bool
  pub from_cardinality : Cardinality
  pub to_cardinality : Cardinality

pub record OntologyDefinition : Type 0 where
  pub format_version : ℕ
  pub name : Text
  pub description : Option Text
  pub entities : List EntityType
  pub properties : List Property
  pub relations : List RelationType

pub record OntologySummary : Type 0 where
  pub id : Text
  pub name : Text
  pub description : Option Text
  pub revision : Text
  pub latest_version : Text
  pub archived : Bool

-- One element of `usage`.
pub record OntologyUsage : Type 0 where
  pub source_id : Text
  pub phase : Text
  pub version : Text

pub record OntologyState : Type 0 where
  pub id : Text
  pub revision : Text
  pub latest_version : Text
  pub archived : Bool
  pub draft : OntologyDefinition
  pub versions : List Text
  pub usage : List OntologyUsage
  pub changed : Bool

pub record OntologyVersion : Type 0 where
  pub ontology_id : Text
  pub version : Text
  pub published_at : Text
  pub definition : OntologyDefinition

pub record EntityMapping : Type 0 where
  pub entity : Text
  pub objects : List ObjectReference
  pub description : Option Text

pub record PropertyMapping : Type 0 where
  pub entity : Text
  pub property : Text
  pub reference : Option ObjectReference
  pub template_id : Option Text
  pub declared : Option Bool
  pub description : Option Text

-- One element of a relation mapping's `fields`.
pub record FieldLink : Type 0 where
  pub from : ObjectReference
  pub to : ObjectReference
  pub declared : Option Bool

pub record RelationMapping : Type 0 where
  pub relation : Text
  pub fields : Option (List FieldLink)
  pub template_id : Option Text
  pub description : Option Text

pub record OntologyBinding : Type 0 where
  pub ontology_id : Text
  pub version : Text
  pub entities : List EntityMapping
  pub properties : List PropertyMapping
  pub relations : List RelationMapping

abbrev pub empty_ontology : OntologyDefinition
empty_ontology = record {
  format_version = 1;
  name = [];
  description = none;
  entities = [];
  properties = [];
  relations = [];
}

-- The three shapes of a concept reference.
unfoldable pub entity_ref : Text → Text
entity_ref e = codes "ontology:entity_type:" ++ e

unfoldable pub property_ref : Text → Text → Text
property_ref e p = codes "ontology:property:" ++ (e ++ (codes ":" ++ p))

unfoldable pub relation_ref : Text → Text
relation_ref r = codes "ontology:relation_type:" ++ r

unfoldable pub concept_refs : Option OntologyBinding → List Text
concept_refs none = []
concept_refs (some b) =
    map (λ m. entity_ref (EntityMapping.entity m)) b.entities
    ++ (map (λ m. property_ref (PropertyMapping.entity m) (PropertyMapping.property m)) b.properties
        ++ map (λ m. relation_ref (RelationMapping.relation m)) b.relations)

-- `definition.entities.find((e) => e.id === id)`
abbrev pub find_entity : OntologyDefinition → Text → Option EntityType
find_entity d id = find (λ e. text_eq (EntityType.id e) id) d.entities

-- `…?.parent || ""`
abbrev parent_in : Option EntityType → Text
parent_in none = []
parent_in (some e) = or_text e.parent []

unfoldable pub parent_of : OntologyDefinition → Text → Text
parent_of d entity = parent_in (find_entity d entity)

-- The loop of `effectiveEntities`; `none` says that the fuel ran out.
unfoldable pub climb : ℕ → OntologyDefinition → List Text → Text → Option (List Text)
climb zero d chain entity = none
climb (suc fuel) d chain entity =
    let rest = climb fuel d (chain ++ entity ∷ []) (parent_of d entity) in
    if truthy entity && not (includes chain entity) then rest else some chain

unfoldable pub effective_entities : OntologyDefinition → Text → Option (List Text)
effective_entities d entity = climb (length d.entities + 2) d [] entity
