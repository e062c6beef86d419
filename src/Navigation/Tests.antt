-- ===== src/Navigation/Tests.antt =====
-- Runs of the guards of web/src/useNavigationGuard.ts.
use context_gate.Base.{◌≡◌, refl, inl, true, false, List, [], ◌∷◌, arith}
use context_gate.Navigation.{
  Guard, GuardEvent, guard_mounted, guard_rendered, guard_cleared, guard_unmounted, guard_step,
  guard_run, can_navigate, unload_prevented,
}
use context_gate.Navigation.Blocking.{can_navigate_blocked}

abbrev edited : Guard
edited = record { hook = 1; dirty = true; busy = false }

abbrev others : List GuardEvent
others = guard_mounted 2 false false ∷ guard_rendered 2 false true ∷ guard_unmounted 2 ∷ []

cleared_page : can_navigate (guard_run (edited ∷ []) (guard_cleared 1 ∷ [])) ≡ true
unfolding can_navigate guard_run guard_step
cleared_page = refl

can_navigate_blocked_example :
    (can_navigate (guard_run (edited ∷ []) others) ≡ false)
    × (unload_prevented (guard_run (edited ∷ []) others) ≡ true)
can_navigate_blocked_example =
    can_navigate_blocked (edited ∷ []) edited others (inl refl) refl
      ((λ z. z), ((λ e. omega arith), ((λ e. omega arith), tt)))
