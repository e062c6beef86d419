-- ===== src/Publishing/Tests.antt =====
-- Runs of the functions of web/src/query-publishing.ts.
use context_gate.Base.{
  ◌≡◌, refl, ◌↔◌, inr, take, List, All, Text, codes, text_eq, true, false, [], ◌∷◌, some, arith,
}
use context_gate.Json.{null, str, arr, cons, nil, member}
use context_gate.Publishing.{
  QueryJourney, Storage, storage_key, short_text, journey_references, saved_journeys, journey_json,
  remember_journey, query_next_step, same_query_entry, done,
}
use context_gate.Publishing.References.{IsReference}
use context_gate.Publishing.Journeys.{OnePerQuery, IsClean, saved_journeys-IsClean}
use context_gate.Publishing.Remember.{remember_journey_refused}
use context_gate.Publishing.History.{Call, IsCall, remember_all, history, remember_all-history}
use context_gate.Publishing.NextStep.{Stands, query_next_step_iff}
use context_gate.Publishing.Sameness.{SameEntries, same_query_entry_iff}
use context_gate.Semantics.{SemanticEntry-discrete}
use native.Mathlib.Decide.{ℕ_discrete}
use context_gate.Samples.{state, readiness, activity, orders, republished, renamed_orders}

abbrev journey : Text → QueryJourney
journey template_id = record {
  source_id = codes "db";
  template_id = template_id;
  agent_id = codes "claude";
}

abbrev named_nothing : QueryJourney
named_nothing = journey []

-- What an older version wrote: one object, and what a user may have written.
abbrev kept : Storage
kept = record {
  denied = false;
  full = false;
  items =
      (storage_key (codes "ada"), some (journey_json (journey (codes "orders"))))
      ∷ (storage_key (codes "bob"), some (arr (cons null (cons (str (codes "x")) nil))))
      ∷ [];
}

abbrev full_storage : Storage
full_storage = record kept { full = true }

saved_journeys_old : saved_journeys kept (codes "ada") ≡ journey (codes "orders") ∷ []
unfolding saved_journeys storage_key journey_references journey_json short_text member text_eq
saved_journeys_old = refl

saved_journeys_broken : saved_journeys kept (codes "bob") ≡ []
unfolding saved_journeys storage_key journey_references journey_json short_text member text_eq
saved_journeys_broken = refl

journey-IsReference : IsReference (journey (codes "emails"))
journey-IsReference = record {
  has_source = λ e. cc;
  has_template = λ e. cc;
  short_source = omega arith;
  short_template = omega arith;
  short_agent = omega arith;
}

orders-IsReference : IsReference (journey (codes "orders"))
orders-IsReference = record {
  has_source = λ e. cc;
  has_template = λ e. cc;
  short_source = omega arith;
  short_template = omega arith;
  short_agent = omega arith;
}

named_nothing_refused : ¬ IsReference named_nothing
named_nothing_refused h = h.has_template refl

saved_journeys-IsClean_example : IsClean (saved_journeys kept (codes "bob"))
saved_journeys-IsClean_example = saved_journeys-IsClean kept (codes "bob")

remember_journey_refused_example : remember_journey kept (codes "ada") named_nothing ≡ kept
remember_journey_refused_example =
    remember_journey_refused kept (codes "ada") named_nothing (inr (inr named_nothing_refused))

query_next_step_iff_example :
    (query_next_step state (some (readiness (some activity))) (codes "orders") (codes "claude")
      ≡ done)
    ↔ Stands state (codes "orders") (codes "claude") (some (readiness (some activity))) done
query_next_step_iff_example =
    query_next_step_iff state (some (readiness (some activity))) (codes "orders") (codes "claude")
      done

-- A new execution version leaves the query the same; another name does not.
same_query_republished : same_query_entry (some orders) (some republished) ≡ true
unfolding same_query_entry SemanticEntry-discrete ℕ_discrete
same_query_republished = refl

same_query_renamed : same_query_entry (some orders) (some renamed_orders) ≡ false
unfolding same_query_entry SemanticEntry-discrete ℕ_discrete
same_query_renamed = refl

same_query_entry_iff_example :
    (same_query_entry (some orders) (some republished) ≡ true)
    ↔ SameEntries (some orders) (some republished)
same_query_entry_iff_example = same_query_entry_iff (some orders) (some republished)

abbrev calls : List Call
calls =
    record { administrator = codes "ada"; journey = journey (codes "emails") }
    ∷ record { administrator = codes "bob"; journey = journey (codes "emails") }
    ∷ record { administrator = codes "ada"; journey = journey (codes "orders") }
    ∷ []

calls-IsCall : All IsCall calls
calls-IsCall = (
  record { named = λ e. cc; reference = journey-IsReference },
  (
    record { named = λ e. cc; reference = journey-IsReference },
    (record { named = λ e. cc; reference = orders-IsReference }, tt),
  ),
)

remember_all-history_example :
    (saved_journeys (remember_all calls kept) (codes "ada")
      ≡ take 5 (history (codes "ada") calls (journey (codes "orders") ∷ [])))
    × OnePerQuery (history (codes "ada") calls (journey (codes "orders") ∷ []))
remember_all-history_example =
    remember_all-history (codes "ada") calls kept (journey (codes "orders") ∷ []) refl refl
      calls-IsCall (tt, tt) saved_journeys_old
