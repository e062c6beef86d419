-- ===== src/Publishing/NextStep.antt =====
-- When `queryNextStep` names each step.
use mathlib.Core.Path.{subst}
use context_gate.Base.{
  ◌<◌, ◌≡◌, ◌≢◌, refl, ◌↔◌, ◌⊎◌, inl, inr, Text, Bool, true, false, List, [], ◌∷◌, Option, none,
  some, arith, Has, text_eq, text_eq_iff, includes_iff, Bool-cases,
}
use context_gate.Readiness.{Readiness, TemplateActivity, non_empty}
use context_gate.Semantics.{SemanticEntry, SemanticEntry-discrete, SemanticState}
use context_gate.Publishing.{
  comparable, same_query_entry, Step, query, loading, trial, publish, disabled, access, client,
  done, find_query, enabled_in, version_in, is_text, activity_confirms, client_confirmed,
  executable_now, is_valid, step_of_entries, is_missing, step_of_readiness, query_next_step,
}

-- The draft's entry and the published one agree but for the execution version.
abbrev pub Agree : Option SemanticEntry → Option SemanticEntry → Type 0
Agree none none = Unit
Agree (some a) (some b) = comparable a ≡ comparable b
Agree none (some _) = ⊥
Agree (some _) none = ⊥

pub same_query_entry-Agree :
    (a b : Option SemanticEntry) → (same_query_entry a b ≡ true) ↔ Agree a b
unfolding same_query_entry
same_query_entry-Agree none none = ((λ _. tt), λ _. refl)
same_query_entry-Agree (some a) (some b) =
    elim (SemanticEntry-discrete (comparable a) (comparable b))
      as (λ d. (elim d [ yes _ ↦ true | no _ ↦ false ] ≡ true) ↔ (comparable a ≡ comparable b)) [
        | yes e ↦ ((λ _. e), λ _. refl)
        | no n ↦ ((λ h. cc), λ e. absurd (n e))
      ]
same_query_entry-Agree none (some b) = ((λ h. cc), λ h. absurd h)
same_query_entry-Agree (some a) none = ((λ h. cc), λ h. absurd h)

-- The client of `agent` has called the published version of the query.
abbrev pub Called : Option TemplateActivity → Text → Text → Option Text → Type 0
Called none id agent version = ⊥
Called (some a) id agent version =
    (a.agent_id ≡ agent)
    × (a.template_id ≡ id)
    × (version ≡ some a.execution_version)
    × (0 < a.successful_calls)

abbrev pub Confirmed : Readiness → Text → Text → Option Text → Type 0
Confirmed ready id agent version =
    (agent ≢ []) × Has agent ready.active_agents × Called ready.template_activity id agent version

is_text_iff : (o : Option Text) (s : Text) → (is_text o s ≡ true) ↔ (o ≡ some s)
is_text_iff none s = ground arith
is_text_iff (some v) s = ground (arith, text_eq_iff v s)

activity_confirms_iff :
    (o : Option TemplateActivity) (id agent : Text) (version : Option Text)
    → (activity_confirms o id agent version ≡ true) ↔ Called o id agent version
unfolding activity_confirms
activity_confirms_iff none id agent version = ground arith
activity_confirms_iff (some a) id agent version = ground (
  arith,
  text_eq_iff a.agent_id agent,
  text_eq_iff a.template_id id,
  is_text_iff version a.execution_version,
)

client_confirmed_iff :
    (ready : Readiness) (id agent : Text) (version : Option Text)
    → (client_confirmed ready id agent version ≡ true) ↔ Confirmed ready id agent version
unfolding client_confirmed
client_confirmed_iff ready id [] version = ground arith
client_confirmed_iff ready id (c ∷ s) version = ground (
  arith,
  includes_iff ready.active_agents (c ∷ s),
  activity_confirms_iff ready.template_activity id (c ∷ s) version,
)

-- What is known of the query when a step behind the check of the readiness is named.
module _ (draft published : Option SemanticEntry) (valid : Bool) (ready : Readiness)
    (id agent : Text) where
  -- The published query runs, and the draft has nothing to add.
  abbrev pub Runs : Type 0
  Runs = Agree draft published × (enabled_in published ≡ true) × (executable_now ready id ≡ true)

  -- The meaning of each step.
  abbrev pub Due : Step → Type 0
  Due query = ⊥
  Due loading = ⊥
  Due trial =
      (valid ≡ false)
      × (((¬ Agree draft published) × (enabled_in draft ≡ true))
          ⊎ (Agree draft published
              × (enabled_in published ≡ true)
              × (executable_now ready id ≡ false)))
  Due publish =
      ((¬ Agree draft published) × ((enabled_in draft ≡ false) ⊎ (valid ≡ true)))
      ⊎ (Agree draft published
          × (enabled_in published ≡ true)
          × (executable_now ready id ≡ false)
          × (valid ≡ true))
  Due disabled = Agree draft published × (enabled_in published ≡ false)
  Due access = Runs × (ready.active_agents ≡ [])
  Due client =
      Runs × (ready.active_agents ≢ []) × (¬ Confirmed ready id agent (version_in published))
  Due done = Runs × Confirmed ready id agent (version_in published)

  non_empty_iff : (l : List Text) → (non_empty l ≡ true) ↔ (l ≢ [])
  non_empty_iff [] = ground arith
  non_empty_iff (x ∷ l) = ground arith

  step_of_entries-Due : Due (step_of_entries draft published valid ready id agent)
  unfolding step_of_entries
  step_of_entries-Due = ground (
    arith,
    same_query_entry-Agree draft published,
    non_empty_iff ready.active_agents,
    client_confirmed_iff ready id agent (version_in published),
  )

  step_of_entries_of_Due :
      (s : Step) → Due s → step_of_entries draft published valid ready id agent ≡ s
  unfolding step_of_entries
  step_of_entries_of_Due query h = absurd h
  step_of_entries_of_Due s h = ground (
    arith,
    same_query_entry-Agree draft published,
    non_empty_iff ready.active_agents,
    client_confirmed_iff ready id agent (version_in published),
  )

module _ (state : SemanticState) (id agent : Text) where
  -- The readiness is there, and of the published version.
  abbrev pub Current : Option Readiness → Type 0
  Current none = ⊥
  Current (some r) = r.published_version ≡ state.published_version

  abbrev pub DueNow : Option Readiness → Step → Type 0
  DueNow none s = ⊥
  DueNow (some r) s =
      (r.published_version ≡ state.published_version)
      × Due (find_query state.draft id) (find_query state.published id) (is_valid state id) r id
          agent s

  abbrev pub Missing : Type 0
  Missing = (find_query state.draft id ≡ none) × (find_query state.published id ≡ none)

  -- The meaning of each step for the whole state.
  abbrev pub Stands : Option Readiness → Step → Type 0
  Stands ready query = Missing
  Stands ready loading = (¬ Missing) × (¬ Current ready)
  Stands ready s = (¬ Missing) × DueNow ready s

  is_missing_iff :
      (a b : Option SemanticEntry) → (is_missing a b ≡ true) ↔ ((a ≡ none) × (b ≡ none))
  is_missing_iff none none = ground arith
  is_missing_iff none (some b) = ground arith
  is_missing_iff (some a) b = ground arith

  Stands-of_Due :
      (r : Readiness) (s : Step)
      → ¬ Missing
      → r.published_version ≡ state.published_version
      → Due
          (find_query state.draft id)
          (find_query state.published id)
          (is_valid state id)
          r
          id
          agent
          s
      → Stands (some r) s
  Stands-of_Due r query m e d = absurd d
  Stands-of_Due r loading m e d = absurd d
  Stands-of_Due r s m e d = (m, (e, d))

  step_of_readiness-Stands :
      (ready : Option Readiness) → ¬ Missing → Stands ready (step_of_readiness state ready id agent)
  unfolding step_of_readiness
  step_of_readiness-Stands none m = (m, λ z. z)
  step_of_readiness-Stands (some r) m =
      elim (Bool-cases (text_eq r.published_version state.published_version)) [
        | inl e ↦
            rw (e, step_of_readiness)
              (Stands-of_Due r _ m ((text_eq_iff _ _).0 e) (step_of_entries-Due _ _ _ r id agent))
        | inr e ↦ rw (e, step_of_readiness) (m, λ c. cc ((text_eq_iff _ _).1 c))
      ]

  query_next_step-Stands :
      (ready : Option Readiness) → Stands ready (query_next_step state ready id agent)
  unfolding query_next_step
  query_next_step-Stands ready =
      let iff = is_missing_iff (find_query state.draft id) (find_query state.published id) in
      elim (Bool-cases (is_missing (find_query state.draft id) (find_query state.published id))) [
        | inl m ↦ rw (m, query_next_step) (iff.0 m)
        | inr m ↦ rw (m, query_next_step) (step_of_readiness-Stands ready (λ h. cc (iff.1 h)))
      ]

  is_missing-false :
      ¬ Missing → is_missing (find_query state.draft id) (find_query state.published id) ≡ false
  is_missing-false m =
      let iff = is_missing_iff (find_query state.draft id) (find_query state.published id) in
      elim (Bool-cases (is_missing (find_query state.draft id) (find_query state.published id))) [
        | inl gone ↦ absurd (m (iff.0 gone))
        | inr there ↦ there
      ]

  query_next_step_of_DueNow :
      (ready : Option Readiness) (s : Step)
      → ¬ Missing
      → DueNow ready s
      → query_next_step state ready id agent ≡ s
  unfolding query_next_step step_of_readiness
  query_next_step_of_DueNow none s m d = absurd d
  query_next_step_of_DueNow (some r) s m d =
      rw (is_missing-false m, query_next_step)
        (rw ((text_eq_iff r.published_version state.published_version).1 d.0)
          (step_of_entries_of_Due _ _ _ r id agent s d.1))

  stale :
      (r : Readiness)
      → ¬ Current (some r)
      → text_eq r.published_version state.published_version ≡ false
  stale r h = ground (arith, text_eq_iff r.published_version state.published_version)

  query_next_step_of_Stands :
      (ready : Option Readiness) (s : Step)
      → Stands ready s
      → query_next_step state ready id agent ≡ s
  unfolding query_next_step
  query_next_step_of_Stands ready query h =
      rw ((is_missing_iff (find_query state.draft id) (find_query state.published id)).1 h)
  query_next_step_of_Stands none loading h = rw (is_missing-false h.0)
  query_next_step_of_Stands (some r) loading h = rw (is_missing-false h.0, stale r h.1)
  query_next_step_of_Stands ready s h = query_next_step_of_DueNow ready s h.0 h.1

-- Each step is named exactly when its meaning stands: `query` when neither snapshot has the query;
-- `loading` when one has it and there is no readiness of the published version; and with one,
-- `trial` or `publish` when the draft differs or the published query cannot run, by whether an
-- enabled draft still needs a valid check; `disabled` when the agreed query is not enabled;
-- `access` when it runs and no agent is active; `done` when it runs and the named active agent's
-- client has called this published version; `client` when that call is still missing.
pub query_next_step_iff :
    (state : SemanticState) (ready : Option Readiness) (id agent : Text) (s : Step)
    → (query_next_step state ready id agent ≡ s) ↔ Stands state id agent ready s
query_next_step_iff state ready id agent s = (
  λ e. subst (Stands state id agent ready) e (query_next_step-Stands state id agent ready),
  query_next_step_of_Stands state id agent ready s,
)
