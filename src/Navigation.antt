-- ===== src/Navigation.antt =====
-- web/src/useNavigationGuard.ts: the guards of the mounted hooks. A component is known by a number;
-- a render brings its flags, and the function that the hook returns clears them.
pub mod Blocking
pub mod Tests
use context_gate.Base.{
  ℕ, Bool, true, false, not, ◌&&◌, ◌||◌, List, [], ◌∷◌, ◌++◌, map, if◌then◌else◌, ◌==◌, any, all,
  filter,
}

pub record Guard : Type 0 where
  pub hook : ℕ
  pub dirty : Bool
  pub busy : Bool

pub data GuardEvent : Type 0 where
  guard_mounted : ℕ → Bool → Bool → GuardEvent
  guard_rendered : ℕ → Bool → Bool → GuardEvent
  guard_cleared : ℕ → GuardEvent
  guard_unmounted : ℕ → GuardEvent

-- `current.current = { dirty, busy }` of one hook
abbrev pub set_flags : ℕ → Bool → Bool → Guard → Guard
set_flags hook dirty busy g =
    if g.hook == hook then record { hook = g.hook; dirty = dirty; busy = busy } else g

unfoldable pub guard_step : List Guard → GuardEvent → List Guard
guard_step gs (guard_mounted hook dirty busy) =
    gs ++ record { hook = hook; dirty = dirty; busy = busy } ∷ []
guard_step gs (guard_rendered hook dirty busy) = map (set_flags hook dirty busy) gs
guard_step gs (guard_cleared hook) = map (set_flags hook false false) gs
guard_step gs (guard_unmounted hook) = filter (λ g. not (Guard.hook g == hook)) gs

unfoldable pub guard_run : List Guard → List GuardEvent → List Guard
guard_run gs [] = gs
guard_run gs (e ∷ es) = guard_run (guard_step gs e) es

unfoldable pub can_navigate : List Guard → Bool
can_navigate gs = all (λ g. not (Guard.busy g) && not (Guard.dirty g)) gs

-- Some `beforeunload` listener prevents the default.
unfoldable pub unload_prevented : List Guard → Bool
unload_prevented gs = any (λ g. Guard.dirty g || Guard.busy g) gs
