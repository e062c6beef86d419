-- ===== src/Evaluation/Page/Saved.antt =====
-- What the form of the evaluation page shows is saved, or the page says that it is not.
use mathlib.Core.Path.{subst}
use context_gate.Base.{
  Text, codes, ◌≡◌, refl, sym, ◌∙◌, ◌⊎◌, inl, inr, Bool, true, false, ◌||◌, List, [], ◌∷◌, Option,
  none, some, arith, if◌then◌else◌, Bool-cases, Option-cases,
}
use context_gate.Evaluation.{
  SavedQuestion, EvaluationKind, Evaluation, EvaluationForm, empty_form, question_form,
  evaluation_form, EvaluationMode,
}
use context_gate.Evaluation.Page.{
  Tab, FormField, CaptureAction, Review, Request, open_record, save_form, capture_record,
  create_record, save_reviews, Page, first_page, put_field, change, select_tab, use_question,
  ask_server, save_question, capture, capture_request, review_record, save_review, reset_form,
  reset, patch_record, review, Reply, evaluation_reply, question_reply, error_reply, replied,
  PageEvent, typed, tab_chosen, question_used, record_opened, question_saved, run_captured,
  run_reviewed, review_saved, new_pressed, repeat_pressed, keep_pressed, discard_pressed,
  discard_asked, mode_chosen, agent_chosen, server_replied, offered, discard, receive, handle,
  page_step, page_run, has_record, Confirm, clear_new, clear_review,
}

-- The form is the empty one or the saved question's.
abbrev pub IsSaved : EvaluationForm → Option SavedQuestion → Type 0
IsSaved f q = (f ≡ empty_form) ⊎ ((v : SavedQuestion) × (q ≡ some v) × (f ≡ question_form v))

-- What the page shows: an evaluation, whose form it shows unedited, or a form without a review,
-- which is saved or marked as edited.
abbrev pub Shows : Option Evaluation → EvaluationForm → Option SavedQuestion → Bool → Bool → Type 0
Shows none f q dirty review_dirty = (review_dirty ≡ false) × (dirty ≡ false → IsSaved f q)
Shows (some e) f q dirty review_dirty = (dirty ≡ false) × (f ≡ evaluation_form e)

-- A pending request saves what the page shows.
abbrev Asked : Option Request → Option Evaluation → EvaluationForm → Bool → Type 0
Asked none c f busy = Unit
Asked (some (save_form _ g)) c f busy = (busy ≡ true) × (c ≡ none) × (g ≡ f)
Asked (some (save_reviews e _)) c f busy = (busy ≡ true) × (c ≡ some e)
Asked (some _) c f busy = busy ≡ true

record Sound (p : Page) : Type 0 where
  shows : Shows p.current p.form p.saved_question p.dirty p.review_dirty
  asked : Asked p.pending p.current p.form p.busy

-- The server answers a request to save with the members that the request holds.
abbrev pub Echoes : Option Request → Reply → Type 0
Echoes (some (save_form _ f)) (question_reply v) = question_form v ≡ f
Echoes (some (save_reviews e _)) (evaluation_reply v) = evaluation_form v ≡ evaluation_form e
Echoes _ _ = Unit

abbrev pub EchoesAt : Page → PageEvent → Type 0
EchoesAt p (server_replied r) = Echoes p.pending r
EchoesAt p _ = Unit

abbrev pub AllEcho : Page → List PageEvent → Type 0
AllEcho p [] = Unit
AllEcho p (e ∷ es) = EchoesAt p e × AllEcho (page_step p e) es

idle :
    (o : Option Request) (c : Option Evaluation) (f : EvaluationForm) (busy : Bool)
    → Asked o c f busy
    → busy ≡ false
    → o ≡ none
idle none c f busy a h = refl
idle (some (open_record _)) c f busy a h = cc
idle (some (save_form _ _)) c f busy a h = cc
idle (some (capture_record _ _ _ _)) c f busy a h = cc
idle (some (create_record _ _ _ _ _ _)) c f busy a h = cc
idle (some (save_reviews _ _)) c f busy a h = cc

replied-Sound :
    (p : Page) (q : Request) (r : Reply)
    → p.pending ≡ some q
    → Sound p
    → Echoes (some q) r
    → Sound (replied p q r)
unfolding replied
replied-Sound p q (error_reply e) at s echo = record { shows = s.shows; asked = tt }
replied-Sound p (open_record i) (evaluation_reply v) at s echo = record {
  shows = (refl, refl);
  asked = tt;
}
replied-Sound p (capture_record i w k a) (evaluation_reply v) at s echo = record {
  shows = (refl, refl);
  asked = tt;
}
replied-Sound p (create_record f a k m c w) (evaluation_reply v) at s echo = record {
  shows = (refl, refl);
  asked = tt;
}
replied-Sound p (save_form prior f) (evaluation_reply v) at s echo = s
replied-Sound p (save_reviews e vs) (evaluation_reply v) at s echo =
    let asked : (p.busy ≡ true) × (p.current ≡ some e) =
      subst (λ o. Asked o p.current p.form p.busy) at s.asked in
    let shows : (p.dirty ≡ false) × (p.form ≡ evaluation_form e) =
      subst (λ c. Shows c p.form p.saved_question p.dirty p.review_dirty) asked.1 s.shows in
    record { shows = (shows.0, shows.1 ∙ sym echo); asked = tt }
replied-Sound p (save_form prior f) (question_reply v) at s echo =
    let (still, no_record, sent) : (p.busy ≡ true) × (p.current ≡ none) × (f ≡ p.form) =
      subst (λ o. Asked o p.current p.form p.busy) at s.asked in
    let clean =
      subst (λ c. Shows c p.form p.saved_question p.dirty p.review_dirty) no_record s.shows in
    record {
      shows =
          subst (λ c. Shows c p.form (some v) false p.review_dirty) (sym no_record)
            (clean.0, λ _. inr (v, refl, sym sent ∙ sym echo));
      asked = tt;
    }
replied-Sound p (open_record i) (question_reply v) at s echo = s
replied-Sound p (capture_record i w k a) (question_reply v) at s echo = s
replied-Sound p (create_record f a k m c w) (question_reply v) at s echo = s
replied-Sound p (save_reviews e vs) (question_reply v) at s echo = s

reset-Sound : (p : Page) (repeat : Bool) → p.pending ≡ none → Sound (reset p repeat)
unfolding reset reset_form
reset-Sound p repeat at = go repeat p.current
  where
    go :
        (b : Bool) (c : Option Evaluation)
        → Sound (record (reset_form p b c) {
          current = none;
          saved_question = none;
          review_dirty = false;
          confirm_clear = none;
          error = [];
          tab = Tab.evaluation_tab;
        })
    go false c = record { shows = (refl, λ _. inl refl); asked = rw at tt }
    go true none = record { shows = (refl, λ _. inl refl); asked = rw at tt }
    go true (some e) = record { shows = (refl, λ h. cc); asked = rw at tt }

-- A page that is not busy has no request pending, and a page whose state stays keeps what it shows.
not_pending : (p : Page) → Sound p → p.busy ≡ false → p.pending ≡ none
not_pending p s h = idle p.pending p.current p.form p.busy s.asked h

same-Sound :
    (p : Page) (m : EvaluationMode) (t : Tab) (a error : Text) (c : Option Confirm)
    → Sound p
    → Sound (record p { mode = m; tab = t; agent_id = a; error = error; confirm_clear = c })
same-Sound p m t a error c s = record { shows = s.shows; asked = s.asked }

change-Sound :
    (p : Page) (k : FormField) (v : Text)
    → Sound p
    → p.current ≡ none
    → p.busy ≡ false
    → Sound (change p k v)
unfolding change
change-Sound p k v s no_record still =
    let clean =
      subst (λ c. Shows c p.form p.saved_question p.dirty p.review_dirty) no_record s.shows in
    record {
      shows =
          subst (λ c. Shows c (put_field p.form k v) p.saved_question true p.review_dirty)
            (sym no_record) (clean.0, λ h. cc);
      asked = rw (not_pending p s still) tt;
    }

select_tab-Sound : (p : Page) (t : Tab) → Sound p → Sound (select_tab p t)
unfolding select_tab
select_tab-Sound p t s = elim (Bool-cases (p.dirty || (p.review_dirty || p.busy))) [
  | inl stay ↦ rw stay (same-Sound p p.mode p.tab p.agent_id _ p.confirm_clear s)
  | inr go ↦ rw go (same-Sound p p.mode t p.agent_id _ p.confirm_clear s)
]

use_question-Sound : (p : Page) (q : SavedQuestion) → p.pending ≡ none → Sound (use_question p q)
unfolding use_question
use_question-Sound p q at = record { shows = (refl, λ _. inr (q, refl, refl)); asked = rw at tt }

ask_server-Sound :
    (p : Page) (q : Request)
    → Sound p
    → Asked (some q) p.current p.form true
    → Sound (ask_server p q)
unfolding ask_server
ask_server-Sound p q s a = record { shows = s.shows; asked = a }

capture-Sound :
    (p : Page) (agent : Text) (k : EvaluationKind) (a : CaptureAction)
    → Sound p
    → Sound (capture p agent k a)
unfolding capture
capture-Sound p agent k a s = go p.review_dirty
  where
    asks :
        (c : Option Evaluation) → Asked (some (capture_request p c agent k a)) p.current p.form true
    asks none = refl
    asks (some e) = refl

    go :
        (b : Bool)
        → Sound (
            if b
            then record p { error = codes "Save your review before collecting another capture." }
            else ask_server p (capture_request p p.current agent k a))
    go true = same-Sound p p.mode p.tab p.agent_id _ p.confirm_clear s
    go false = ask_server-Sound p _ s (asks p.current)

save_review-Sound : (p : Page) → Sound p → Sound (save_review p)
unfolding save_review review_record
save_review-Sound p s = elim (Option-cases p.current) [
  | inl gone ↦ rw (gone, review_record) s
  | inr (e, at) ↦ rw (at, review_record) (record { shows = s.shows; asked = (refl, at) })
]

review-Sound :
    (p : Page) (e : Evaluation) (k : EvaluationKind) (v : Review)
    → Sound p
    → p.current ≡ some e
    → p.busy ≡ false
    → Sound (review p k v)
unfolding review
review-Sound p e k v s at still =
    let (clean, same) : (p.dirty ≡ false) × (p.form ≡ evaluation_form e) =
      subst (λ c. Shows c p.form p.saved_question p.dirty p.review_dirty) at s.shows in
    record {
      shows =
          subst (λ c. Shows (patch_record c k v) p.form p.saved_question p.dirty true) (sym at)
            (clean, same);
      asked = rw (not_pending p s still) tt;
    }

discard-Sound :
    (p : Page) (c : Option Confirm) (e : Option Evaluation)
    → Sound p
    → p.busy ≡ false
    → Sound (discard p c e)
unfolding discard
discard-Sound p none e s h = reset-Sound p false (not_pending p s h)
discard-Sound p (some clear_new) e s h = reset-Sound p false (not_pending p s h)
discard-Sound p (some clear_review) none s h = reset-Sound p false (not_pending p s h)
discard-Sound p (some clear_review) (some e) s h = ask_server-Sound p (open_record e.id) s refl

receive-Sound :
    (p : Page) (o : Option Request) (r : Reply)
    → p.pending ≡ o
    → Sound p
    → Echoes o r
    → Sound (receive p o r)
unfolding receive
receive-Sound p none r at s echo = s
receive-Sound p (some q) r at s echo = replied-Sound p q r at s echo

no_record : (c : Option Evaluation) → has_record c ≡ false → c ≡ none
no_record none h = refl
no_record (some e) h = cc

a_record : (c : Option Evaluation) → has_record c ≡ true → (e : Evaluation) × (c ≡ some e)
a_record none h = cc
a_record (some e) h = (e, refl)

handle-Sound :
    (p : Page) (e : PageEvent) → Sound p → EchoesAt p e → offered p e ≡ true → Sound (handle p e)
unfolding handle offered save_question
handle-Sound p (typed k v) s echo h =
    change-Sound p k v s (no_record p.current (ground arith)) (ground arith)
handle-Sound p (tab_chosen t) s echo h = select_tab-Sound p t s
handle-Sound p (question_used q) s echo h = use_question-Sound p q (not_pending p s (ground arith))
handle-Sound p (record_opened e) s echo h = ask_server-Sound p (open_record e.id) s refl
handle-Sound p (question_saved as_new) s echo h =
    ask_server-Sound p _ s (refl, no_record p.current (ground arith), refl)
handle-Sound p (run_captured agent k a) s echo h = capture-Sound p agent k a s
handle-Sound p (run_reviewed k v) s echo h =
    let (e, at) = a_record p.current (ground arith) in review-Sound p e k v s at (ground arith)
handle-Sound p review_saved s echo h = save_review-Sound p s
handle-Sound p new_pressed s echo h = elim (Bool-cases (p.dirty || p.review_dirty)) [
  | inl edited ↦ rw edited (same-Sound p p.mode p.tab p.agent_id p.error _ s)
  | inr clean ↦ rw clean (reset-Sound p false (not_pending p s (ground arith)))
]
handle-Sound p repeat_pressed s echo h = reset-Sound p true (not_pending p s (ground arith))
handle-Sound p keep_pressed s echo h = same-Sound p p.mode p.tab p.agent_id p.error none s
handle-Sound p discard_pressed s echo h = discard-Sound p p.confirm_clear p.current s (ground arith)
handle-Sound p (discard_asked c) s echo h = same-Sound p p.mode p.tab p.agent_id p.error (some c) s
handle-Sound p (mode_chosen m) s echo h = same-Sound p m p.tab p.agent_id p.error p.confirm_clear s
handle-Sound p (agent_chosen a) s echo h = same-Sound p p.mode p.tab a p.error p.confirm_clear s
handle-Sound p (server_replied r) s echo h = receive-Sound p p.pending r refl s echo

page_run-Sound : (es : List PageEvent) (p : Page) → Sound p → AllEcho p es → Sound (page_run p es)
unfolding page_run page_step
page_run-Sound [] p s echo = s
page_run-Sound (e ∷ es) p s (here, later) = page_run-Sound es (page_step p e) (step) later
  where
    step : Sound (page_step p e)
    step = elim (Bool-cases (offered p e)) [
      | inl on ↦ rw on (handle-Sound p e s here on)
      | inr off ↦ rw off s
    ]

-- Whatever the administrator does and the server replies, as long as it answers a request to save
-- with what was sent: an evaluation that is shown is shown with its own form and no form edits, and
-- without one there is no review, and a form not marked as edited is empty or the saved question's.
pub page_run-Shows :
    (es : List PageEvent)
    → AllEcho first_page es
    → Shows
        (Page.current (page_run first_page es))
        (Page.form (page_run first_page es))
        (Page.saved_question (page_run first_page es))
        (Page.dirty (page_run first_page es))
        (Page.review_dirty (page_run first_page es))
page_run-Shows es echo =
    Sound.shows
      (page_run-Sound es first_page (record { shows = (refl, λ _. inl refl); asked = tt }) echo)
