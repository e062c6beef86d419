-- ===== src/ClientCall/Outcomes.antt =====
-- What each outcome of the wait says of the rounds before it.
use mathlib.Core.Path.{subst}
use context_gate.Base.{
  ◌<◌, ◌≡◌, refl, sym, ◌∙◌, ◌↔◌, ◌⊎◌, inl, inr, Text, true, false, not, ◌&&◌, List, [], ◌∷◌, Option,
  none, some, arith, if◌then◌else◌, All, Has, find, text_eq, text_eq_iff, includes_iff, Bool-cases,
  Option-cases,
}
use context_gate.Readiness.{Readiness, ReadyTemplate, TemplateActivity}
use context_gate.ClientCall.{
  CallIdentity, Flags, aborted, Round, Outcome, confirmed, changed, timeout, rejected, caught,
  template_runs, still_published, call_recorded, verdict, pause, answer, turn, wait_for_client_call,
}

abbrev Runs : Option ReadyTemplate → Text → Type 0
Runs none version = ⊥
Runs (some t) version = (t.executable ≡ true) × (t.execution_version ≡ version)

-- The answer is of the source, the agent is active, and the query runs at the awaited version.
abbrev pub StillPublished : Readiness → CallIdentity → Type 0
StillPublished ready i =
    (ready.source_id ≡ i.source)
    × Has i.agent ready.active_agents
    × Runs (find (λ t. text_eq (ReadyTemplate.id t) i.template) ready.templates) i.version

-- A successful call by the awaited agent, of the awaited query and version.
abbrev pub Recorded : Option TemplateActivity → CallIdentity → Type 0
Recorded none i = ⊥
Recorded (some a) i =
    (a.agent_id ≡ i.agent)
    × (a.template_id ≡ i.template)
    × (a.execution_version ≡ i.version)
    × (0 < a.successful_calls)

runs_iff : (o : Option ReadyTemplate) (v : Text) → (template_runs o v ≡ true) ↔ Runs o v
runs_iff none v = ground arith
runs_iff (some t) v = ground (arith, text_eq_iff t.execution_version v)

still_published_iff :
    (ready : Readiness) (i : CallIdentity)
    → (still_published ready i ≡ true) ↔ StillPublished ready i
unfolding still_published
still_published_iff ready i = ground (
  arith,
  text_eq_iff ready.source_id i.source,
  includes_iff ready.active_agents i.agent,
  runs_iff (find (λ t. text_eq (ReadyTemplate.id t) i.template) ready.templates) i.version,
)

call_recorded_iff :
    (o : Option TemplateActivity) (i : CallIdentity) → (call_recorded o i ≡ true) ↔ Recorded o i
unfolding call_recorded
call_recorded_iff none i = ground arith
call_recorded_iff (some a) i = ground (
  arith,
  text_eq_iff a.agent_id i.agent,
  text_eq_iff a.template_id i.template,
  text_eq_iff a.execution_version i.version,
)

module _ (i : CallIdentity) (r : Round) where
  -- The answer of the round, if both tests around the load pass.
  abbrev pub Answers : Option Readiness → (Readiness → Type 0) → Type 0
  Answers none P = ⊥
  Answers (some ready) P = (aborted r.start ≡ false) × (aborted r.arrived ≡ false) × P ready

  -- The flags that the `catch` sees, where the round throws: at the first test, by the load, at the
  -- second test, or in the pause behind an answer that decides nothing.
  abbrev pub ThrowsAt : Option Readiness → Flags → Type 0
  ThrowsAt none f =
      ((aborted r.start ≡ true) × (f ≡ r.start)) ⊎ ((aborted r.start ≡ false) × (f ≡ r.arrived))
  ThrowsAt (some ready) f =
      ((aborted r.start ≡ true) × (f ≡ r.start))
      ⊎ (((aborted r.start ≡ false) × (aborted r.arrived ≡ true) × (f ≡ r.arrived))
          ⊎ ((aborted r.start ≡ false)
              × (aborted r.arrived ≡ false)
              × (aborted r.resumed ≡ true)
              × StillPublished ready i
              × (¬ Recorded ready.template_activity i)
              × (f ≡ r.resumed)))

  abbrev pub Decides : Option Readiness → Outcome → Type 0
  Decides response confirmed =
      Answers response (λ ready. StillPublished ready i × Recorded ready.template_activity i)
  Decides response changed = Answers response (λ ready. ¬ StillPublished ready i)
  Decides response timeout =
      (f : Flags) × ThrowsAt response f × (f.deadline ≡ true) × (f.signal ≡ false)
  Decides response rejected =
      (f : Flags) × ThrowsAt response f × ((f.deadline ≡ false) ⊎ (f.signal ≡ true))

  -- The round decides nothing: a live answer without the call, and a pause that runs out.
  abbrev pub Undecided : Option Readiness → Type 0
  Undecided response = Answers response (λ ready.
      StillPublished ready i × (¬ Recorded ready.template_activity i) × (aborted r.resumed ≡ false))

  abbrev Means : Option Readiness → Option Outcome → Type 0
  Means response none = Undecided response
  Means response (some o) = Decides response o

  caught-Decides :
      (response : Option Readiness) (f : Flags) → ThrowsAt response f → Decides response (caught f)
  caught-Decides response f h = elim (Bool-cases (f.deadline && not f.signal)) [
    | inl late ↦ rw late (f, h, ground arith, ground arith)
    | inr early ↦ rw early (f, h, ground arith)
  ]

  verdict-Means :
      (ready : Readiness)
      → aborted r.start ≡ false
      → aborted r.arrived ≡ false
      → Means (some ready) (pause r.resumed (verdict ready i))
  unfolding verdict
  verdict-Means ready s a =
      let live = still_published_iff ready i in
      let called = call_recorded_iff ready.template_activity i in
      elim (Bool-cases (still_published ready i)) [
        | inr gone ↦ rw (gone, verdict) (s, a, λ h. cc (live.1 h))
        | inl here ↦ elim (Bool-cases (call_recorded ready.template_activity i)) [
          | inl yes' ↦ rw (here, yes', verdict) (s, a, (live.0 here, called.0 yes'))
          | inr no' ↦ elim (Bool-cases (aborted r.resumed)) [
            | inl z ↦
                rw (here, no', verdict)
                  (rw z (
                    caught-Decides (some ready) r.resumed
                      (inr (inr (s, a, z, live.0 here, (λ h. cc (called.1 h)), refl)))))
            | inr go ↦
                rw (here, no', verdict) (rw go (s, a, (live.0 here, (λ h. cc (called.1 h)), go)))
          ]
        ]
      ]

  turn-Means :
      (response : Option Readiness)
      → Means response (if aborted r.start then some (caught r.start) else answer i r response)
  turn-Means none = elim (Bool-cases (aborted r.start)) [
    | inl z ↦ rw z (caught-Decides none r.start (inl (z, refl)))
    | inr go ↦ rw go (caught-Decides none r.arrived (inr (go, refl)))
  ]
  turn-Means (some ready) = elim (Bool-cases (aborted r.start)) [
    | inl z ↦ rw z (caught-Decides (some ready) r.start (inl (z, refl)))
    | inr go ↦ elim (Bool-cases (aborted r.arrived)) [
      | inl z ↦ rw go (rw z (caught-Decides (some ready) r.arrived (inr (inl (go, z, refl)))))
      | inr on ↦ rw go (rw on (verdict-Means ready go on))
    ]
  ]

  throw_unique :
      (response : Option Readiness) (f g : Flags)
      → ThrowsAt response f
      → ThrowsAt response g
      → f ≡ g
  throw_unique none f g h k = ground arith
  throw_unique (some ready) f g h k = ground arith

  -- The meanings exclude one another.
  Means-unique :
      (response : Option Readiness) (x y : Option Outcome)
      → Means response x
      → Means response y
      → x ≡ y
  Means-unique none (some timeout) (some rejected) (f, h, p, p') (g, k, q) =
      let e = throw_unique none f g h k in ground arith
  Means-unique none (some rejected) (some timeout) (f, h, p) (g, k, q, q') =
      let e = throw_unique none f g h k in ground arith
  Means-unique (some v) (some timeout) (some rejected) (f, h, p, p') (g, k, q) =
      let e = throw_unique (some v) f g h k in ground arith
  Means-unique (some v) (some rejected) (some timeout) (f, h, p) (g, k, q, q') =
      let e = throw_unique (some v) f g h k in ground arith
  Means-unique none x y h k = ground arith
  Means-unique (some v) x y h k = ground arith

module _ (i : CallIdentity) where
  turn_iff : (r : Round) (x : Option Outcome) → (turn i r ≡ x) ↔ Means i r r.response x
  unfolding turn
  turn_iff r x = (
    λ e. subst (Means i r r.response) e (turn-Means i r r.response),
    λ h. Means-unique i r r.response _ x (turn-Means i r r.response) h,
  )

  -- The wait ends in the first round that decides, behind rounds that decide nothing.
  abbrev pub EndsWith : List Round → Outcome → Type 0
  EndsWith [] o = ⊥
  EndsWith (r ∷ rs) o = Decides i r r.response o ⊎ (Undecided i r r.response × EndsWith rs o)

  ends_iff : (rs : List Round) (o : Outcome) → (wait_for_client_call i rs ≡ some o) ↔ EndsWith rs o
  unfolding wait_for_client_call
  ends_iff [] o = ((λ h. cc), λ h. absurd h)
  ends_iff (r ∷ rs) o = elim (Option-cases (turn i r)) [
    | inl e ↦
        rw (e, wait_for_client_call)
          (
            (λ h. inr ((turn_iff r none).0 e, (ends_iff rs o).0 h)),
            λ h. elim h [
              | inl d ↦ absurd (cc ((turn_iff r (some o)).1 d))
              | inr (_, later) ↦ (ends_iff rs o).1 later
            ],
          )
    | inr (found, e) ↦
        rw (e, wait_for_client_call)
          (
            (λ h. inl ((turn_iff r (some o)).0 (e ∙ h))),
            λ h. elim h [
              | inl d ↦ sym e ∙ (turn_iff r (some o)).1 d
              | inr (u, _) ↦ absurd (cc ((turn_iff r none).1 u))
            ],
          )
  ]

  waits_iff :
      (rs : List Round)
      → (wait_for_client_call i rs ≡ none) ↔ All (λ r. Undecided i r (Round.response r)) rs
  unfolding wait_for_client_call
  waits_iff [] = ((λ _. tt), λ _. refl)
  waits_iff (r ∷ rs) = elim (Option-cases (turn i r)) [
    | inl e ↦
        rw (e, wait_for_client_call)
          ((λ h. ((turn_iff r none).0 e, (waits_iff rs).0 h)), λ h. (waits_iff rs).1 h.1)
    | inr (found, e) ↦
        rw (e, wait_for_client_call) ((λ h. cc), λ h. absurd (cc ((turn_iff r none).1 h.0)))
  ]

-- The wait ends with an outcome exactly when some round decides it behind rounds that decide
-- nothing, and goes on exactly while no round decides. A round decides `confirmed` by an unaborted
-- answer that still publishes the query and records the awaited agent's successful call of the
-- awaited version, `changed` by one that no longer publishes it, `timeout` where it throws with the
-- deadline passed and the caller's signal not aborted, and `rejected` where it throws otherwise.
pub wait_for_client_call_iff :
    (i : CallIdentity) (rs : List Round)
    → ((o : Outcome) → (wait_for_client_call i rs ≡ some o) ↔ EndsWith i rs o)
      × ((wait_for_client_call i rs ≡ none) ↔ All (λ r. Undecided i r (Round.response r)) rs)
wait_for_client_call_iff i rs = (ends_iff i rs, waits_iff i rs)
