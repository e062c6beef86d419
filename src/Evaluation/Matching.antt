-- ===== src/Evaluation/Matching.antt =====
-- When two captures may be compared.
use context_gate.Base.{◌≡◌, refl, ◌↔◌, true, false, Option, none, some, arith}
use context_gate.Evaluation.{
  Configuration, EvaluationCapture, Configuration-discrete, same_configuration, Evaluation,
  matching_runs, matching_conditions,
}

-- Both runs exist, neither saw its configuration change, and both had the same one.
abbrev pub Comparable : Option EvaluationCapture → Option EvaluationCapture → Type 0
Comparable (some a) (some b) =
    (a.configuration_changed ≡ false)
    × (b.configuration_changed ≡ false)
    × (a.configuration ≡ b.configuration)
Comparable none b = ⊥
Comparable (some a) none = ⊥

same_configuration_iff : (a b : Configuration) → (same_configuration a b ≡ true) ↔ (a ≡ b)
same_configuration_iff a b =
    elim (Configuration-discrete a b)
      as (λ d. (elim d [ yes _ ↦ true | no _ ↦ false ] ≡ true) ↔ (a ≡ b)) [
        | yes e ↦ ((λ _. e), λ _. refl)
        | no n ↦ ((λ h. cc), λ e. absurd (n e))
      ]

matching_runs_iff : (a b : Option EvaluationCapture) → (matching_runs a b ≡ true) ↔ Comparable a b
matching_runs_iff none b = ground arith
matching_runs_iff (some a) none = ground arith
matching_runs_iff (some a) (some b) =
    ground (arith, same_configuration_iff a.configuration b.configuration)

-- The conditions of an evaluation match exactly when it has both runs, neither of which saw its
-- configuration change, and both had the same configuration.
pub matching_conditions_iff :
    (e : Evaluation)
    → (matching_conditions e ≡ true) ↔ Comparable e.runs.baseline_run e.runs.guided_run
unfolding matching_conditions
matching_conditions_iff e = matching_runs_iff e.runs.baseline_run e.runs.guided_run
