-- ===== src/Readiness.antt =====
-- web/src/readiness.ts: the readiness of a source for client queries, its label, and the hook that
-- keeps the last snapshot. `t` is the identity here: a label is its English text.
pub mod Hook
pub mod Tests
use context_gate.Base.{
  ℕ, Text, codes, Bool, true, false, not, ◌&&◌, List, [], ◌∷◌, Option, none, some, if◌then◌else◌,
  ◌==◌, text_eq, truthy?,
}
use context_gate.Ontology.{OntologyBinding}
use context_gate.Types.{Source, Probe}

pub record RecentCall : Type 0 where
  pub agent_id : Text
  pub request_id : Text
  pub at : Text

pub record TemplateActivity : Type 0 where
  pub template_id : Text
  pub execution_version : Text
  pub agent_id : Text
  pub successful_calls : ℕ
  pub recent_calls : List RecentCall

pub record ReadyTemplate : Type 0 where
  pub id : Text
  pub name : Text
  pub description : Option Text
  pub execution_version : Text
  pub status : Text
  pub executable : Bool
  pub concept_refs : Option (List Text)

pub record Readiness : Type 0 where
  pub source_id : Text
  pub published_version : Text
  pub draft_revision : Text
  pub query_revision : Text
  pub checked_at : Text
  pub executable_templates : ℕ
  pub active_agents : List Text
  pub last_query : Option Text
  pub activity_since : Text
  pub client_queries : ℕ
  pub template_activity : Option TemplateActivity
  pub ontology : Option OntologyBinding
  pub draft_ontology : Option OntologyBinding
  pub templates : List ReadyTemplate

-- `source.probe?.connected`
abbrev pub connected : Option Probe → Bool
connected none = false
connected (some p) = p.connected

-- `list.length` in a condition
abbrev pub non_empty {ℓ} : {A : Type ℓ} → List A → Bool
non_empty [] = false
non_empty (_ ∷ _) = true

abbrev is_templates_only : Option Text → Bool
is_templates_only none = false
is_templates_only (some m) = text_eq m (codes "templates_only")

unfoldable pub readiness_label : Source → Readiness → Text
readiness_label source ready =
    if not source.enabled
    then codes "Source disabled"
    else if not (connected source.probe)
    then codes "Check connection"
    else if is_templates_only source.query_access_mode && ready.executable_templates == 0
    then codes "Publish a verified template"
    else if not (non_empty ready.active_agents)
    then codes "Grant Agent access"
    else if truthy? ready.last_query
    then codes "Client query recorded"
    else codes "Ready for a client query"

unfoldable pub connection_ready : Source → Bool
connection_ready source = source.enabled && connected source.probe
