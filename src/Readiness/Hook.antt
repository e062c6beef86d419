-- ===== src/Readiness/Hook.antt =====
-- `useReadiness`: a state machine over renders, refreshes and the answers of requests. A change of
-- the inputs or of `refreshKey` runs the effect again, whose cleanup aborts the request before.
use context_gate.Base.{
  ℕ, ◌+◌, ◌≡◌, ◌⊎◌, inl, inr, Text, Bool, true, ◌&&◌, List, [], ◌∷◌, Option, none, some, arith,
  if◌then◌else◌, ◌==◌, ==_iff, text_eq, text_eq_iff, truthy,
}
use context_gate.Readiness.{Readiness}

-- The members of the JSON array that is the key.
pub record Key : Type 0 where
  pub source_id : Text
  pub revision : Text
  pub template_id : Text
  pub agent_id : Text

unfoldable pub key_eq : Key → Key → Bool
key_eq a b =
    text_eq a.source_id b.source_id
    && (text_eq a.revision b.revision
        && (text_eq a.template_id b.template_id && text_eq a.agent_id b.agent_id))

-- `request` is the unaborted request, with the key that its callbacks close over.
pub record Hook : Type 0 where
  pub key : Key
  pub snapshot : Option (Key × Readiness)
  pub error : Text
  pub request : Option (ℕ × Key)
  pub next : ℕ

pub data HookEvent : Type 0 where
  inputs : Key → HookEvent
  refresh : HookEvent
  answered : ℕ → Readiness → HookEvent
  failed : ℕ → Text → HookEvent

-- The effect, for the key of this render.
unfoldable pub ask : Hook → Key → Hook
ask h k = record h {
  key = k;
  error = [];
  request = if truthy k.source_id then some (h.next, k) else none;
  next = h.next + 1;
}

take_answer : Hook → ℕ → Readiness → Option (ℕ × Key) → Hook
take_answer h n d none = h
take_answer h n d (some (m, k)) =
    if m == n then record h { snapshot = some (k, d); request = none } else h

take_failure : Hook → ℕ → Text → Option (ℕ × Key) → Hook
take_failure h n e none = h
take_failure h n e (some (m, k)) =
    if m == n then record h { snapshot = none; error = e; request = none } else h

unfoldable pub hook_step : Hook → HookEvent → Hook
unfolding take_answer take_failure ask
hook_step h (inputs k) = if key_eq h.key k then h else ask h k
hook_step h refresh = ask h h.key
hook_step h (answered n d) = take_answer h n d h.request
hook_step h (failed n e) = take_failure h n e h.request

unfoldable pub hook_run : Hook → List HookEvent → Hook
hook_run h [] = h
hook_run h (e ∷ es) = hook_run (hook_step h e) es

-- The first render, and its effect.
unfoldable pub mounted : Key → Hook
mounted k = ask (record { key = k; snapshot = none; error = []; request = none; next = 0 }) k

shown_of : Key → Option (Key × Readiness) → Option Readiness
shown_of key none = none
shown_of key (some (k, d)) = if key_eq k key then some d else none

-- `snapshot?.key === key ? snapshot.data : null`
unfoldable pub shown : Hook → Option Readiness
unfolding shown_of
shown h = shown_of h.key h.snapshot

-- The event is the answer `d` to the request for `k` that was not aborted.
abbrev pub Accepts : Hook → HookEvent → Key → Readiness → Type 0
Accepts h (inputs _) k d = ⊥
Accepts h refresh k d = ⊥
Accepts h (answered n d') k d = (h.request ≡ some (n, k)) × (d' ≡ d)
Accepts h (failed _ _) k d = ⊥

abbrev pub Accepted : Hook → List HookEvent → Key → Readiness → Type 0
Accepted h [] k d = ⊥
Accepted h (e ∷ es) k d = Accepts h e k d ⊎ Accepted (hook_step h e) es k d

take_answer-snapshot :
    (h : Hook) (n : ℕ) (d' : Readiness) (o : Option (ℕ × Key)) (k : Key) (d : Readiness)
    → Hook.snapshot (take_answer h n d' o) ≡ some (k, d)
    → (h.snapshot ≡ some (k, d)) ⊎ ((o ≡ some (n, k)) × (d' ≡ d))
unfolding take_answer
take_answer-snapshot h n d' none k d e = inl e
take_answer-snapshot h n d' (some (m, j)) k d e = ground (arith, ==_iff m n)

take_failure-snapshot :
    (h : Hook) (n : ℕ) (t : Text) (o : Option (ℕ × Key)) (k : Key) (d : Readiness)
    → Hook.snapshot (take_failure h n t o) ≡ some (k, d)
    → h.snapshot ≡ some (k, d)
unfolding take_failure
take_failure-snapshot h n t none k d e = e
take_failure-snapshot h n t (some (m, j)) k d e = ground arith

hook_step-snapshot :
    (h : Hook) (v : HookEvent) (k : Key) (d : Readiness)
    → Hook.snapshot (hook_step h v) ≡ some (k, d)
    → (h.snapshot ≡ some (k, d)) ⊎ Accepts h v k d
unfolding hook_step
hook_step-snapshot h (inputs j) k d e = inl (ground arith)
hook_step-snapshot h refresh k d e = inl e
hook_step-snapshot h (answered n d') k d e = take_answer-snapshot h n d' h.request k d e
hook_step-snapshot h (failed n t) k d e = inl (take_failure-snapshot h n t h.request k d e)

hook_run-snapshot :
    (es : List HookEvent) (h : Hook) (k : Key) (d : Readiness)
    → Hook.snapshot (hook_run h es) ≡ some (k, d)
    → (h.snapshot ≡ some (k, d)) ⊎ Accepted h es k d
unfolding hook_run
hook_run-snapshot [] h k d e = inl e
hook_run-snapshot (v ∷ es) h k d e = elim (hook_run-snapshot es (hook_step h v) k d e) [
  | inr later ↦ inr (inr later)
  | inl before ↦ elim (hook_step-snapshot h v k d before) [
    | inl old ↦ inl old
    | inr here ↦ inr (inl here)
  ]
]

key_eq→eq : (a b : Key) → key_eq a b ≡ true → a ≡ b
unfolding key_eq
key_eq→eq a b h = ground (
  arith,
  text_eq_iff a.source_id b.source_id,
  text_eq_iff a.revision b.revision,
  text_eq_iff a.template_id b.template_id,
  text_eq_iff a.agent_id b.agent_id,
)

shown_of-key :
    (key : Key) (o : Option (Key × Readiness)) (d : Readiness)
    → shown_of key o ≡ some d
    → o ≡ some (key, d)
unfolding shown_of
shown_of-key key none d h = cc
shown_of-key key (some (k, v)) d h = ground (arith, key_eq→eq k key)

-- Whatever order answers come in, the data shown is the answer to a request for the inputs of this
-- very render, taken while that request was not aborted: an answer for other inputs never shows.
pub shown-Accepted :
    (k : Key) (es : List HookEvent) (d : Readiness)
    → shown (hook_run (mounted k) es) ≡ some d
    → Accepted (mounted k) es (Hook.key (hook_run (mounted k) es)) d
unfolding shown mounted
shown-Accepted k es d e = elim (hook_run-snapshot es (mounted k) _ d (shown_of-key _ _ d e)) [
  | inl old ↦ absurd (unfold ask in cc)
  | inr came ↦ came
]
