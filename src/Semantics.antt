-- ===== src/Semantics.antt =====
-- web/src/semantic-types.ts: entries, query templates, snapshots and the state of a source's
-- semantics. An optional member is `Option`; an object used as a dictionary is the list of its
-- entries in order. `null` and an absent ontology are both `none`.
use context_gate.Base.{codes, [], ◌∷◌, if◌then◌else◌, text_eq, ℕ, Text, Bool, List, Option}
use context_gate.Ontology.{
  ObjectReference, EntityType, Property, RelationType, EntityMapping, PropertyMapping,
  RelationMapping, OntologyBinding,
}
use native.Mathlib.Decide.{ℕ_discrete}

pub record SemanticParameter : Type 0 where
  pub name : Text
  pub description : Option Text
  pub type : Text
  pub required : Bool
  pub pointers : List Text
  pub default_json : Option Text
  pub enum_json : Option Text
  pub minimum : Option Text
  pub maximum : Option Text

pub record Column : Type 0 where
  pub name : Text
  pub type : Text

pub record Expectation : Type 0 where
  pub pointer : Text
  pub expected_json : Text

pub record RegressionCase : Type 0 where
  pub name : Text
  pub parameters_json : Text
  pub min_rows : Option ℕ
  pub max_rows : Option ℕ
  pub columns : Option (List Column)
  pub values : Option (List Expectation)

pub record QueryTemplate : Type 0 where
  pub tests : Option (List RegressionCase)
  pub concept_refs : Option (List Text)
  pub enabled : Bool
  pub tool : Text
  pub query_json : Text
  pub parameters : List SemanticParameter
  pub example_json : Text
  pub result_description : Option Text
  pub execution_version : Option Text

-- `EntityType | Property | RelationType`
pub data OntologyItem : Type 0 where
  entity_type : EntityType → OntologyItem
  property : Property → OntologyItem
  relation_type : RelationType → OntologyItem

-- `EntityMapping | PropertyMapping | RelationMapping`
pub data MappingItem : Type 0 where
  entity_mapping : EntityMapping → MappingItem
  property_mapping : PropertyMapping → MappingItem
  relation_mapping : RelationMapping → MappingItem

pub record CheckedMapping : Type 0 where
  pub item : MappingItem
  pub verification_status : Option Text
  pub checked_at : Option Text

pub record SemanticEntry : Type 0 where
  pub definition : Option OntologyItem
  pub mapping : Option CheckedMapping
  pub ancestors : Option (List EntityType)
  pub id : Text
  pub kind : Text
  pub name : Text
  pub aliases : Option (List Text)
  pub description : Option Text
  pub reference : Option ObjectReference
  pub data_type : Option Text
  pub unit : Option Text
  pub enums : Option (List (Text × Text))
  pub time_definition : Option Text
  pub grain : Option Text
  pub caveats : Option Text
  pub related : Option (List ObjectReference)
  pub template_id : Option Text
  pub template : Option QueryTemplate

unfoldable pub SemanticEntry-discrete : Discrete SemanticEntry
SemanticEntry-discrete = hlevel ℕ_discrete

pub record SemanticSnapshot : Type 0 where
  pub ontology : Option OntologyBinding
  pub format_version : ℕ
  pub overview : Text
  pub entries : List SemanticEntry

-- One element of `validation`, without its report.
pub record Validation : Type 0 where
  pub id : Text
  pub valid : Bool
  pub status : Text
  pub checked_at : Option Text
  pub server_version : Option Text

-- The state of a source's semantics, without `mapping_validation`.
pub record SemanticState : Type 0 where
  pub revision : Text
  pub published_version : Text
  pub draft : SemanticSnapshot
  pub published : SemanticSnapshot
  pub changed : Bool
  pub validation : List Validation

abbrev pub entry_kinds : List Text
entry_kinds =
    codes "term" ∷ codes "object" ∷ codes "field" ∷ codes "relationship" ∷ codes "metric" ∷ []

-- The labels, by kind.
abbrev pub kind_labels : List (Text × Text)
kind_labels =
    (codes "term", codes "Business term")
    ∷ (codes "object", codes "Data object")
    ∷ (codes "field", codes "Field")
    ∷ (codes "relationship", codes "Relationship")
    ∷ (codes "metric", codes "Metric")
    ∷ (codes "template", codes "Query template")
    ∷ (codes "entity_type", codes "Entity type")
    ∷ (codes "property", codes "Property")
    ∷ (codes "relation_type", codes "Relation type")
    ∷ (codes "overview", codes "Overview")
    ∷ []

unfoldable pub label_or : List (Text × Text) → Text → Text
label_or [] kind = kind
label_or ((k, label) ∷ ls) kind = if text_eq k kind then label else label_or ls kind

unfoldable pub semantic_kind_label : Text → Text
semantic_kind_label kind = label_or kind_labels kind
