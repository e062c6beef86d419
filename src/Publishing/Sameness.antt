-- ===== src/Publishing/Sameness.antt =====
-- What `sameQueryEntry` compares of two entries.
use context_gate.Base.{◌≡◌, refl, ap, ◌↔◌, true, Option, none, some}
use context_gate.Semantics.{QueryTemplate, SemanticEntry}
use context_gate.Publishing.{without_version, comparable, same_query_entry}
use context_gate.Publishing.NextStep.{Agree, same_query_entry-Agree}

-- Two templates agree in every member but the execution version.
pub record SameTemplate (a b : QueryTemplate) : Type 0 where
  pub tests : a.tests ≡ b.tests
  pub concept_refs : a.concept_refs ≡ b.concept_refs
  pub enabled : a.enabled ≡ b.enabled
  pub tool : a.tool ≡ b.tool
  pub query_json : a.query_json ≡ b.query_json
  pub parameters : a.parameters ≡ b.parameters
  pub example_json : a.example_json ≡ b.example_json
  pub result_description : a.result_description ≡ b.result_description

abbrev pub SameTemplates : Option QueryTemplate → Option QueryTemplate → Type 0
SameTemplates none none = Unit
SameTemplates (some a) (some b) = SameTemplate a b
SameTemplates none (some _) = ⊥
SameTemplates (some _) none = ⊥

-- Two entries agree in every member, their templates as above.
pub record SameEntry (a b : SemanticEntry) : Type 0 where
  pub definition : a.definition ≡ b.definition
  pub mapping : a.mapping ≡ b.mapping
  pub ancestors : a.ancestors ≡ b.ancestors
  pub id : a.id ≡ b.id
  pub kind : a.kind ≡ b.kind
  pub name : a.name ≡ b.name
  pub aliases : a.aliases ≡ b.aliases
  pub description : a.description ≡ b.description
  pub reference : a.reference ≡ b.reference
  pub data_type : a.data_type ≡ b.data_type
  pub unit : a.unit ≡ b.unit
  pub enums : a.enums ≡ b.enums
  pub time_definition : a.time_definition ≡ b.time_definition
  pub grain : a.grain ≡ b.grain
  pub caveats : a.caveats ≡ b.caveats
  pub related : a.related ≡ b.related
  pub template_id : a.template_id ≡ b.template_id
  pub template : SameTemplates a.template b.template

abbrev pub SameEntries : Option SemanticEntry → Option SemanticEntry → Type 0
SameEntries none none = Unit
SameEntries (some a) (some b) = SameEntry a b
SameEntries none (some _) = ⊥
SameEntries (some _) none = ⊥

without_version_iff :
    (a b : Option QueryTemplate) → (without_version a ≡ without_version b) ↔ SameTemplates a b
without_version_iff none none = ((λ _. tt), λ _. refl)
without_version_iff none (some b) = ((λ e. absurd (cc e)), λ h. absurd h)
without_version_iff (some a) none = ((λ e. absurd (cc e)), λ h. absurd h)
without_version_iff (some a) (some b) = (
  λ e.
      let same : record a { execution_version = none } ≡ record b { execution_version = none } =
        cc e in
      record {
        tests = ap QueryTemplate.tests same;
        concept_refs = ap QueryTemplate.concept_refs same;
        enabled = ap QueryTemplate.enabled same;
        tool = ap QueryTemplate.tool same;
        query_json = ap QueryTemplate.query_json same;
        parameters = ap QueryTemplate.parameters same;
        example_json = ap QueryTemplate.example_json same;
        result_description = ap QueryTemplate.result_description same;
      },
  λ h. cc (
    h.tests, h.concept_refs, h.enabled, h.tool, h.query_json, h.parameters, h.example_json,
    h.result_description,
  ),
)

comparable_iff : (a b : SemanticEntry) → (comparable a ≡ comparable b) ↔ SameEntry a b
comparable_iff a b =
    let templates = without_version_iff a.template b.template in
    (
      λ e. record {
        definition = ap SemanticEntry.definition e;
        mapping = ap SemanticEntry.mapping e;
        ancestors = ap SemanticEntry.ancestors e;
        id = ap SemanticEntry.id e;
        kind = ap SemanticEntry.kind e;
        name = ap SemanticEntry.name e;
        aliases = ap SemanticEntry.aliases e;
        description = ap SemanticEntry.description e;
        reference = ap SemanticEntry.reference e;
        data_type = ap SemanticEntry.data_type e;
        unit = ap SemanticEntry.unit e;
        enums = ap SemanticEntry.enums e;
        time_definition = ap SemanticEntry.time_definition e;
        grain = ap SemanticEntry.grain e;
        caveats = ap SemanticEntry.caveats e;
        related = ap SemanticEntry.related e;
        template_id = ap SemanticEntry.template_id e;
        template = templates.0 (ap SemanticEntry.template e);
      },
      λ h. cc (
        h.definition,
        h.mapping,
        h.ancestors,
        h.id,
        h.kind,
        h.name,
        h.aliases,
        h.description,
        h.reference,
        h.data_type,
        h.unit,
        h.enums,
        h.time_definition,
        h.grain,
        h.caveats,
        h.related,
        h.template_id,
        templates.1 h.template,
      ),
    )

agreed_members : (a b : Option SemanticEntry) → Agree a b ↔ SameEntries a b
agreed_members none none = ((λ h. h), λ h. h)
agreed_members (some a) (some b) = comparable_iff a b
agreed_members none (some b) = ((λ h. h), λ h. h)
agreed_members (some a) none = ((λ h. h), λ h. h)

-- Two entries are the same query exactly when both are missing, or both exist and agree in every
-- member, where two templates agree in every member but the execution version, which may differ, and
-- a template never agrees with none.
pub same_query_entry_iff :
    (a b : Option SemanticEntry) → (same_query_entry a b ≡ true) ↔ SameEntries a b
same_query_entry_iff a b =
    let same = same_query_entry-Agree a b in
    let members = agreed_members a b in (λ e. members.0 (same.0 e), λ h. same.1 (members.1 h))
