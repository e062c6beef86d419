-- ===== src/Samples.antt =====
-- Concrete values for the tests: a small shop ontology, its binding, a query, and its readiness.
use context_gate.Base.{Text, codes, true, [], ◌∷◌, Option, none, some}
use context_gate.Ontology.{
  EntityType, Property, RelationType, OntologyDefinition, PropertyMapping, OntologyBinding,
  entity_ref,
}
use context_gate.Semantics.{QueryTemplate, SemanticEntry, SemanticSnapshot, SemanticState}
use context_gate.Readiness.{Readiness, TemplateActivity}

abbrev pub entity_type : Text → Option Text → EntityType
entity_type id parent = record {
  id = id;
  name = id;
  aliases = none;
  description = none;
  parent = parent;
  identity = none;
}

abbrev pub party : EntityType
party = entity_type (codes "party") none

abbrev pub customer : EntityType
customer = entity_type (codes "customer") (some (codes "party"))

abbrev pub order : EntityType
order = entity_type (codes "order") (some (codes "order"))

abbrev email : Property
email = record {
  id = codes "email";
  entity = codes "party";
  name = codes "Email";
  aliases = none;
  description = none;
  type = codes "string";
  required = true;
  multiple = true;
  unique = none;
  unit = none;
  enums = none;
  minimum = none;
  maximum = none;
  time_definition = none;
}

abbrev places : RelationType
places = record {
  id = codes "places";
  name = codes "places";
  aliases = none;
  description = none;
  from = codes "customer";
  to = codes "order";
  directed = true;
  from_cardinality = record { min = 0; max = some 1 };
  to_cardinality = record { min = 0; max = none };
}

abbrev pub shop : OntologyDefinition
shop = record {
  format_version = 1;
  name = codes "Shop";
  description = none;
  entities = party ∷ customer ∷ order ∷ [];
  properties = email ∷ [];
  relations = places ∷ [];
}

abbrev pub email_mapping : PropertyMapping
email_mapping = record {
  entity = codes "customer";
  property = codes "email";
  reference = none;
  template_id = none;
  declared = none;
  description = none;
}

abbrev pub binding : OntologyBinding
binding = record {
  ontology_id = codes "shop";
  version = codes "1";
  entities = record { entity = codes "customer"; objects = []; description = none } ∷ [];
  properties = email_mapping ∷ [];
  relations =
      record {
        relation = codes "places";
        fields = none;
        template_id = some (codes "orders");
        description = none;
      }
      ∷ [];
}

abbrev pub template : QueryTemplate
template = record {
  tests = none;
  concept_refs = none;
  enabled = true;
  tool = codes "sql";
  query_json = codes "{}";
  parameters = [];
  example_json = codes "{}";
  result_description = none;
  execution_version = some (codes "v2");
}

abbrev pub query_entry : Text → QueryTemplate → SemanticEntry
query_entry id t = record {
  definition = none;
  mapping = none;
  ancestors = none;
  id = id;
  kind = codes "query_template";
  name = id;
  aliases = none;
  description = none;
  reference = none;
  data_type = none;
  unit = none;
  enums = none;
  time_definition = none;
  grain = none;
  caveats = none;
  related = none;
  template_id = none;
  template = some t;
}

abbrev pub emails : SemanticEntry
emails = query_entry (codes "emails") template

-- `emails` behind linking it to the entity `customer`.
abbrev pub linked_emails : SemanticEntry
linked_emails =
    query_entry (codes "emails")
      (record template { concept_refs = some (entity_ref (codes "customer") ∷ []) })

abbrev pub orders : SemanticEntry
orders = query_entry (codes "orders") template

-- `orders` behind a new publication, and under another name.
abbrev pub republished : SemanticEntry
republished =
    query_entry (codes "orders") (record template { execution_version = some (codes "v3") })

abbrev pub renamed_orders : SemanticEntry
renamed_orders = record orders { name = codes "sales" }

abbrev pub snapshot : SemanticSnapshot
snapshot = record {
  ontology = some binding;
  format_version = 1;
  overview = [];
  entries = emails ∷ orders ∷ [];
}

abbrev pub linked_snapshot : SemanticSnapshot
linked_snapshot = record snapshot { entries = linked_emails ∷ orders ∷ [] }

abbrev pub state : SemanticState
state = record {
  revision = codes "r1";
  published_version = codes "p1";
  draft = snapshot;
  published = snapshot;
  changed = true;
  validation = [];
}

abbrev pub activity : TemplateActivity
activity = record {
  template_id = codes "orders";
  execution_version = codes "v2";
  agent_id = codes "claude";
  successful_calls = 1;
  recent_calls =
      record { agent_id = codes "claude"; request_id = codes "q1"; at = codes "2025-01-01" } ∷ [];
}

-- The published query `orders` runs, and `claude` is active.
abbrev pub readiness : Option TemplateActivity → Readiness
readiness called = record {
  source_id = codes "db";
  published_version = codes "p1";
  draft_revision = codes "r1";
  query_revision = codes "q1";
  checked_at = codes "2025-01-01";
  executable_templates = 1;
  active_agents = codes "claude" ∷ [];
  last_query = none;
  activity_since = codes "2024-12-01";
  client_queries = 0;
  template_activity = called;
  ontology = some binding;
  draft_ontology = some binding;
  templates =
      record {
        id = codes "orders";
        name = codes "Orders";
        description = none;
        execution_version = codes "v2";
        status = codes "verified";
        executable = true;
        concept_refs = none;
      }
      ∷ [];
}
