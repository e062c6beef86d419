-- ===== src/Publishing.antt =====
-- web/src/query-publishing.ts: the journeys kept in browser storage, and the next step of a query.
-- The URL builders only serialise `URLSearchParams`.
pub mod References
pub mod Journeys
pub mod Remember
pub mod History
pub mod NextStep
pub mod Sameness
pub mod Tests
use context_gate.Base.{
  ℕ, Text, codes, Bool, true, false, not, ◌&&◌, ◌||◌, List, [], ◌∷◌, ◌++◌, map, Option, none, some,
  if◌then◌else◌, ltb, leb, length, take, any, find, filter, text_eq, truthy, includes,
}
use context_gate.Json.{Json, null, str, arr, obj, end, field, to_list, of_list, member}
use context_gate.Readiness.{Readiness, TemplateActivity, ReadyTemplate, non_empty}
use context_gate.Semantics.{
  QueryTemplate, SemanticEntry, SemanticEntry-discrete, SemanticSnapshot, Validation, SemanticState,
}

pub record QueryJourney : Type 0 where
  pub source_id : Text
  pub template_id : Text
  pub agent_id : Text

-- The browser's `localStorage`: what each key's text parses to, `none` for a text that is not JSON.
-- A browser that denies storage makes every access throw; a full one makes writes throw.
pub record Storage : Type 0 where
  pub denied : Bool
  pub full : Bool
  pub items : List (Text × Option Json)

abbrev pub item_at : List (Text × Option Json) → Text → Option (Option Json)
item_at [] k = none
item_at ((j, v) ∷ m) k = if text_eq j k then some v else item_at m k

abbrev pub put_item : List (Text × Option Json) → Text → Option Json → List (Text × Option Json)
put_item [] k v = (k, v) ∷ []
put_item ((j, w) ∷ m) k v = if text_eq j k then (k, v) ∷ m else (j, w) ∷ put_item m k v

unfoldable pub storage_key : Text → Text
storage_key administrator = codes "contextgate.query-journey." ++ administrator

-- `typeof v === "string" && v.length <= 256`
unfoldable pub short_text : Option Json → Option Text
short_text (some (str s)) = if leb (length s) 256 then some s else none
short_text _ = none

checked : Option Text → Option Text → Option Text → Option QueryJourney
checked (some (s ∷ ss)) (some (t ∷ ts)) (some a) =
    some (record { source_id = s ∷ ss; template_id = t ∷ ts; agent_id = a })
checked _ _ _ = none

unfoldable pub journey_references : Json → Option QueryJourney
unfolding checked short_text member
journey_references v =
    checked (short_text (member v (codes "source_id")))
      (short_text (member v (codes "template_id"))) (short_text (member v (codes "agent_id")))

abbrev pub same_query : QueryJourney → QueryJourney → Bool
same_query a b = text_eq a.source_id b.source_id && text_eq a.template_id b.template_id

-- One round of the loop of `savedJourneys`.
add_ref : List QueryJourney → Option QueryJourney → List QueryJourney
add_ref refs none = refs
add_ref refs (some r) = if any (λ v. same_query v r) refs then refs else refs ++ r ∷ []

collect : List QueryJourney → List Json → List QueryJourney
collect refs [] = refs
collect refs (v ∷ vs) = collect (add_ref refs (journey_references v)) vs

-- `Array.isArray(value) ? value.slice(0, 5) : [value]`
abbrev stored_entries : Json → List Json
stored_entries (arr vs) = take 5 (to_list vs)
stored_entries v = v ∷ []

-- Nothing stored is read as `null`; a text that is not JSON throws, and the list is empty.
stored_journeys : Option (Option Json) → List QueryJourney
stored_journeys none = collect [] (null ∷ [])
stored_journeys (some none) = []
stored_journeys (some (some v)) = collect [] (stored_entries v)

unfoldable pub saved_journeys : Storage → Text → List QueryJourney
unfolding stored_journeys collect add_ref
saved_journeys st administrator =
    if st.denied then [] else stored_journeys (item_at st.items (storage_key administrator))

unfoldable pub saved_journey : Storage → Text → Option QueryJourney
saved_journey st administrator = elim (saved_journeys st administrator) [
  | [] ↦ none
  | r ∷ _ ↦ some r
]

unfoldable pub journey_json : QueryJourney → Json
journey_json r = obj (
    field (codes "source_id") (str r.source_id) (
      field (codes "template_id") (str r.template_id)
        (field (codes "agent_id") (str r.agent_id) end)))

-- The list that `rememberJourney` writes.
unfoldable pub remembered : QueryJourney → List QueryJourney → List QueryJourney
remembered r saved = take 5 (r ∷ filter (λ v. not (same_query v r)) saved)

remember_ref : Storage → Text → Option QueryJourney → Storage
remember_ref st administrator none = st
remember_ref st administrator (some r) =
    if not (truthy administrator) || (st.denied || st.full) then st else record st {
      items = put_item st.items (storage_key administrator) (
          some (arr (of_list (map journey_json (remembered r (saved_journeys st administrator))))));
    }

unfoldable pub remember_journey : Storage → Text → QueryJourney → Storage
unfolding remember_ref
remember_journey st administrator value =
    remember_ref st administrator (journey_references (journey_json value))

-- `comparable`: the entry without its template's execution version.
abbrev without_version : Option QueryTemplate → Option QueryTemplate
without_version none = none
without_version (some t) = some (record t { execution_version = none })

abbrev pub comparable : SemanticEntry → SemanticEntry
comparable e = record e { template = without_version e.template }

-- The comparison of the two JSON texts: equal for equal entries, since the members of both stand in
-- one order, and different for different ones. A missing entry has no text.
unfoldable pub same_query_entry : Option SemanticEntry → Option SemanticEntry → Bool
same_query_entry none none = true
same_query_entry (some a) (some b) = elim (SemanticEntry-discrete (comparable a) (comparable b)) [
  | yes _ ↦ true
  | no _ ↦ false
]
same_query_entry none (some _) = false
same_query_entry (some _) none = false

pub data Step : Type 0 where
  query loading trial publish disabled access client done : Step

abbrev has_template : Option QueryTemplate → Bool
has_template none = false
has_template (some _) = true

-- `snapshot.entries.find((e) => e.id === id && e.template)`
unfoldable pub find_query : SemanticSnapshot → Text → Option SemanticEntry
find_query s id =
    find (λ e. text_eq (SemanticEntry.id e) id && has_template (SemanticEntry.template e)) s.entries

-- `entry?.template?.enabled`, and `published.template.execution_version`
abbrev template_enabled : Option QueryTemplate → Bool
template_enabled none = false
template_enabled (some t) = t.enabled

abbrev template_version : Option QueryTemplate → Option Text
template_version none = none
template_version (some t) = t.execution_version

abbrev pub enabled_in : Option SemanticEntry → Bool
enabled_in none = false
enabled_in (some e) = template_enabled e.template

abbrev pub version_in : Option SemanticEntry → Option Text
version_in none = none
version_in (some e) = template_version e.template

-- `===` between a string and an optional one
abbrev pub is_text : Option Text → Text → Bool
is_text none s = false
is_text (some v) s = text_eq v s

activity_confirms : Option TemplateActivity → Text → Text → Option Text → Bool
activity_confirms none id agent version = false
activity_confirms (some a) id agent version =
    text_eq a.agent_id agent
    && (text_eq a.template_id id
        && (is_text version a.execution_version && ltb 0 a.successful_calls))

unfoldable pub client_confirmed : Readiness → Text → Text → Option Text → Bool
unfolding activity_confirms
client_confirmed ready id agent version =
    truthy agent
    && (includes ready.active_agents agent
        && activity_confirms ready.template_activity id agent version)

unfoldable pub executable_now : Readiness → Text → Bool
executable_now ready id =
    any (λ e. text_eq (ReadyTemplate.id e) id && ReadyTemplate.executable e) ready.templates

unfoldable pub is_valid : SemanticState → Text → Bool
is_valid state id = any (λ v. text_eq (Validation.id v) id && Validation.valid v) state.validation

-- The steps behind the check that the readiness is of the published version.
step_of_entries :
    Option SemanticEntry → Option SemanticEntry → Bool → Readiness → Text → Text → Step
step_of_entries draft published valid ready id agent =
    if not (same_query_entry draft published)
    then (if enabled_in draft && not valid then trial else publish)
    else if not (enabled_in published)
    then disabled
    else if not (executable_now ready id)
    then (if valid then publish else trial)
    else if not (non_empty ready.active_agents)
    then access
    else if client_confirmed ready id agent (version_in published)
    then done
    else client

abbrev is_missing : Option SemanticEntry → Option SemanticEntry → Bool
is_missing none none = true
is_missing _ _ = false

step_of_readiness : SemanticState → Option Readiness → Text → Text → Step
step_of_readiness state none id agent = loading
step_of_readiness state (some ready) id agent =
    if text_eq ready.published_version state.published_version
    then step_of_entries (find_query state.draft id) (find_query state.published id)
        (is_valid state id) ready id agent
    else loading

unfoldable pub query_next_step : SemanticState → Option Readiness → Text → Text → Step
unfolding step_of_readiness step_of_entries
query_next_step state ready id agent =
    if is_missing (find_query state.draft id) (find_query state.published id)
    then query
    else step_of_readiness state ready id agent
