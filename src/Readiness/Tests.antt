-- ===== src/Readiness/Tests.antt =====
-- Runs of the hook of web/src/readiness.ts.
use context_gate.Base.{◌≡◌, refl, codes, text_eq, [], ◌∷◌, some, none}
use context_gate.Readiness.Hook.{
  Key, Hook, inputs, refresh, answered, failed, hook_step, hook_run, mounted, ask, key_eq, shown,
  Accepted, shown-Accepted,
}
use context_gate.Samples.{readiness}

abbrev key : Key
key = record {
  source_id = codes "db";
  revision = codes "p1";
  template_id = codes "orders";
  agent_id = codes "claude";
}

abbrev other_key : Key
other_key = record key { source_id = codes "shop" }

-- The answer to the first request comes after the inputs changed, and is dropped.
shown_stale :
    shown (hook_run (mounted key) (inputs other_key ∷ answered 0 (readiness none) ∷ [])) ≡ none
unfolding shown hook_run hook_step mounted ask key_eq text_eq
shown_stale = refl

shown_answer :
    shown (hook_run (mounted key) (inputs other_key ∷ refresh ∷ answered 2 (readiness none) ∷ []))
    ≡ some (readiness none)
unfolding shown hook_run hook_step mounted ask key_eq text_eq
shown_answer = refl

shown_failure :
    shown (
      hook_run
        (mounted key)
        (answered 0 (readiness none) ∷ refresh ∷ failed 1 (codes "offline") ∷ []))
    ≡ none
unfolding shown hook_run hook_step mounted ask key_eq text_eq
shown_failure = refl

shown-Accepted_example :
    Accepted
      (mounted key)
      (inputs other_key ∷ refresh ∷ answered 2 (readiness none) ∷ [])
      (Hook.key
        (hook_run (mounted key) (inputs other_key ∷ refresh ∷ answered 2 (readiness none) ∷ [])))
      (readiness none)
shown-Accepted_example =
    shown-Accepted key (inputs other_key ∷ refresh ∷ answered 2 (readiness none) ∷ [])
      (readiness none) shown_answer
