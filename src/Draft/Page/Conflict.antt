-- ===== src/Draft/Page/Conflict.antt =====
-- In a conflict nothing is saved until the administrator keeps the edits for the server's revision.
use context_gate.Base.{
  ◌≡◌, refl, ◌∙◌, arith, Bool, true, false, not, ◌&&◌, List, [], ◌∷◌, Option, none, some,
  if◌then◌else◌, All,
}
use context_gate.Draft.Page.{
  DraftPage, Pending, finding, saving, reviewing, Answer, saved_state, found_slots, refused,
  answer_to, draft_answered, submit, save, ask_review, Event, edited, changed, parameter_added,
  slots_sought, submitted, save_pressed, review_pressed, keep_pressed, tab_pressed, answer_came,
  draft_event, step_by, draft_step, draft_run,
}
use context_gate.Draft.Page.Quiet.{
  Quiet, NotSaving, still, change_parameter-Quiet, add_parameter-Quiet, find_parameters-Quiet,
  take_slots-Quiet, move_to-Quiet,
}

-- Any event but the one that keeps the edits.
abbrev pub LeavesConflict : Event → Type 0
LeavesConflict keep_pressed = ⊥
LeavesConflict _ = Unit

draft_answered-Quiet :
    (answer : Answer) (page : DraftPage)
    → NotSaving page.pending
    → Quiet page (draft_answered answer page)
unfolding draft_answered answer_to
draft_answered-Quiet answer page = go page.pending answer
  where
    go : (o : Option Pending) (answer : Answer) → NotSaving o → Quiet page (answer_to o answer page)
    go none answer h = still page
    go (some (saving finish value)) answer h = absurd h
    go (some (finding query template)) (found_slots slots) h =
        take_slots-Quiet query template slots page
    go (some (finding query template)) (refused code text) h = record {
      expected = refl;
      sent = refl;
      conflict = refl;
      waits = λ h. tt;
    }
    go (some (finding query template)) (saved_state state) h = still page
    go (some reviewing) (saved_state state) h = record {
      expected = refl;
      sent = refl;
      conflict = refl;
      waits = λ h. tt;
    }
    go (some reviewing) (refused code text) h = record {
      expected = refl;
      sent = refl;
      conflict = refl;
      waits = λ h. tt;
    }
    go (some reviewing) (found_slots slots) h = still page

draft_event-Quiet :
    (event : Event) (page : DraftPage)
    → LeavesConflict event
    → page.conflict ≡ true
    → NotSaving page.pending
    → Quiet page (draft_event event page)
unfolding draft_event ask_review
draft_event-Quiet (edited form) page l c w = record {
  expected = refl;
  sent = refl;
  conflict = refl;
  waits = λ h. h;
}
draft_event-Quiet (changed index value) page l c w = change_parameter-Quiet index value page
draft_event-Quiet parameter_added page l c w = add_parameter-Quiet page
draft_event-Quiet slots_sought page l c w = find_parameters-Quiet page
draft_event-Quiet submitted page l c w = go page.conflict c
  where
    go : (b : Bool) → b ≡ true → Quiet page (if b then page else submit page)
    go true e = still page
    go false e = absurd (ground arith)
draft_event-Quiet save_pressed page l c w = go page.creating page.conflict c
  where
    go : (a b : Bool) → b ≡ true → Quiet page (if a && not b then save false page else page)
    go true true e = still page
    go true false e = absurd (ground arith)
    go false b e = still page
draft_event-Quiet review_pressed page l c w = go page.conflict
  where
    go : (b : Bool) → Quiet page (if b then record page { pending = some reviewing } else page)
    go true = record { expected = refl; sent = refl; conflict = refl; waits = λ h. tt }
    go false = still page
draft_event-Quiet (tab_pressed next) page l c w = move_to-Quiet next page
draft_event-Quiet keep_pressed page l c w = absurd l
draft_event-Quiet (answer_came answer) page l c w = draft_answered-Quiet answer page w

draft_step-Quiet :
    (event : Event) (page : DraftPage)
    → LeavesConflict event
    → page.conflict ≡ true
    → NotSaving page.pending
    → Quiet page (draft_step event page)
unfolding draft_step
draft_step-Quiet event page l c w = go page.pending event l
  where
    go :
        (o : Option Pending) (event : Event)
        → LeavesConflict event
        → Quiet page (step_by o event page)
    go none event l = draft_event-Quiet event page l c w
    go (some p) (edited form) l = still page
    go (some p) (changed index value) l = still page
    go (some p) parameter_added l = still page
    go (some p) slots_sought l = still page
    go (some p) submitted l = still page
    go (some p) save_pressed l = still page
    go (some p) review_pressed l = still page
    go (some p) keep_pressed l = absurd l
    go (some p) (tab_pressed next) l = still page
    go (some p) (answer_came answer) l = draft_answered-Quiet answer page w

-- From a conflict with no save open, whatever is edited, sought, answered or pressed, but for keeping the edits: nothing is
-- sent to be saved, the page stays in the conflict, and it expects the revision that it expected.
pub draft_run-Quiet :
    (events : List Event) (page : DraftPage)
    → All LeavesConflict events
    → page.conflict ≡ true
    → NotSaving page.pending
    → Quiet page (draft_run events page)
unfolding draft_run
draft_run-Quiet [] page ls c w = still page
draft_run-Quiet (e ∷ es) page (l, ls) c w =
    let one = draft_step-Quiet e page l c w in
    let more = draft_run-Quiet es (draft_step e page) ls (one.conflict ∙ c) (one.waits w) in
    record {
      expected = more.expected ∙ one.expected;
      sent = more.sent ∙ one.sent;
      conflict = more.conflict ∙ one.conflict;
      waits = λ h. more.waits (one.waits h);
    }
