-- ===== src/Navigation/Blocking.antt =====
-- What keeps the administrator on the page.
use context_gate.Base.{
  ℕ, ◌≡◌, ◌≢◌, ap, inl, inr, Bool, true, false, not, ◌&&◌, ◌||◌, List, [], ◌∷◌, arith, ◌==◌, ==_iff,
  all, any, All, Has, Has-append, Has-map, Has-filter,
}
use context_gate.Navigation.{
  Guard, GuardEvent, guard_mounted, guard_rendered, guard_cleared, guard_unmounted, set_flags,
  guard_step, guard_run, can_navigate, unload_prevented,
}

-- The event gives the hook other flags, or takes its guard away.
abbrev pub Touches : ℕ → GuardEvent → Type 0
Touches hook (guard_mounted _ _ _) = ⊥
Touches hook (guard_rendered h _ _) = h ≡ hook
Touches hook (guard_cleared h) = h ≡ hook
Touches hook (guard_unmounted h) = h ≡ hook

set_flags_other : (g : Guard) (h : ℕ) (d b : Bool) → h ≢ g.hook → set_flags h d b g ≡ g
set_flags_other g h d b ne = ground (arith, ==_iff g.hook h)

guard_kept :
    (gs : List Guard) (g : Guard) (e : GuardEvent)
    → Has g gs
    → ¬ Touches g.hook e
    → Has g (guard_step gs e)
unfolding guard_step
guard_kept gs g (guard_mounted h d b) at ne = (Has-append gs _ g).1 (inl at)
guard_kept gs g (guard_rendered h d b) at ne =
    rw (← set_flags_other g h d b ne) (Has-map (set_flags h d b) gs g at)
guard_kept gs g (guard_cleared h) at ne =
    rw (← set_flags_other g h false false ne) (Has-map (set_flags h false false) gs g at)
guard_kept gs g (guard_unmounted h) at ne =
    (Has-filter (λ v. not (Guard.hook v == h)) gs g).1 (at, ground (arith, ==_iff g.hook h))

guard_run-kept :
    (es : List GuardEvent) (gs : List Guard) (g : Guard)
    → Has g gs
    → All (λ e. ¬ Touches g.hook e) es
    → Has g (guard_run gs es)
unfolding guard_run
guard_run-kept [] gs g at h = at
guard_run-kept (e ∷ es) gs g at (ne, h) =
    guard_run-kept es (guard_step gs e) g (guard_kept gs g e at ne) h

refuses :
    (gs : List Guard) (g : Guard)
    → Has g gs
    → (g.dirty || g.busy) ≡ true
    → (all (λ v. not (Guard.busy v) && not (Guard.dirty v)) gs ≡ false)
      × (any (λ v. Guard.dirty v || Guard.busy v) gs ≡ true)
refuses [] g at h = absurd at
refuses (x ∷ gs) g (inl same) h =
    let d : x.dirty ≡ g.dirty = ap (λ v. Guard.dirty v) same in
    let b : x.busy ≡ g.busy = ap (λ v. Guard.busy v) same in ground arith
refuses (x ∷ gs) g (inr at) h = let rest = refuses gs g at h in ground arith

-- A hook whose last render was dirty or busy keeps the page, both within the app and against the
-- browser, whatever other hooks do, until it is rendered again, cleared or unmounted.
pub can_navigate_blocked :
    (gs : List Guard) (g : Guard) (es : List GuardEvent)
    → Has g gs
    → (g.dirty || g.busy) ≡ true
    → All (λ e. ¬ Touches g.hook e) es
    → (can_navigate (guard_run gs es) ≡ false) × (unload_prevented (guard_run gs es) ≡ true)
unfolding can_navigate unload_prevented
can_navigate_blocked gs g es at h ne = refuses (guard_run gs es) g (guard_run-kept es gs g at ne) h
