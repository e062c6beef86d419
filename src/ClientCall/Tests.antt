-- ===== src/ClientCall/Tests.antt =====
-- Runs of the wait of web/src/client-call.ts.
use context_gate.Base.{
  ◌≡◌, refl, ◌↔◌, codes, text_eq, includes, true, false, List, [], ◌∷◌, Option, none, some, All,
}
use context_gate.ClientCall.{
  CallIdentity, Flags, Round, Outcome, confirmed, timeout, changed, wait_for_client_call, turn,
  verdict, still_published, call_recorded,
}
use context_gate.ClientCall.Outcomes.{Undecided, EndsWith, wait_for_client_call_iff}
use context_gate.Readiness.{Readiness}
use context_gate.Samples.{readiness, activity}

abbrev identity : CallIdentity
identity = record {
  source = codes "db";
  template = codes "orders";
  version = codes "v2";
  agent = codes "claude";
}

abbrev clear : Flags
clear = record { signal = false; deadline = false }

abbrev late : Flags
late = record { signal = false; deadline = true }

abbrev round : Flags → Option Readiness → Round
round start response = record {
  start = start;
  response = response;
  arrived = clear;
  resumed = clear;
}

-- The first answer has no call yet; then it comes, or the deadline.
abbrev called_rounds : List Round
called_rounds =
    round clear (some (readiness none)) ∷ round clear (some (readiness (some activity))) ∷ []

abbrev late_rounds : List Round
late_rounds = round clear (some (readiness none)) ∷ round late none ∷ []

wait_for_client_call_called : wait_for_client_call identity called_rounds ≡ some confirmed
unfolding wait_for_client_call turn verdict still_published call_recorded includes text_eq
wait_for_client_call_called = refl

wait_for_client_call_late : wait_for_client_call identity late_rounds ≡ some timeout
unfolding wait_for_client_call turn verdict still_published call_recorded includes text_eq
wait_for_client_call_late = refl

wait_for_client_call_moved :
    wait_for_client_call (record identity { version = codes "v1" }) called_rounds ≡ some changed
unfolding wait_for_client_call turn verdict still_published call_recorded includes text_eq
wait_for_client_call_moved = refl

wait_for_client_call_iff_example :
    ((o : Outcome)
      → (wait_for_client_call identity called_rounds ≡ some o) ↔ EndsWith identity called_rounds o)
    × ((wait_for_client_call identity called_rounds ≡ none)
        ↔ All (λ r. Undecided identity r (Round.response r)) called_rounds)
wait_for_client_call_iff_example = wait_for_client_call_iff identity called_rounds
