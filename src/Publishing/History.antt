-- ===== src/Publishing/History.antt =====
-- The journeys in storage, against the history of all that was ever remembered.
use context_gate.Base.{
  ℕ, zero, suc, Option, none, some, map, truthy, ◌||◌, ◌≡◌, ◌≢◌, refl, sym, ap, ◌∙◌, inl, inr,
  arith, Text, Bool, true, false, not, List, [], ◌∷◌, if◌then◌else◌, take, filter, All, text_eq,
  text_eq_iff, Bool-cases,
}
use mathlib.Core.Path.{subst}
use context_gate.Json.{arr, of_list}
use context_gate.Publishing.{
  put_item, storage_key, QueryJourney, Storage, same_query, saved_journeys, remembered,
  remember_ref, remember_journey, journey_references, journey_json,
}
use context_gate.Publishing.References.{IsReference}
use context_gate.Publishing.Journeys.{SameQuery, OnePerQuery, same_query_iff}
use context_gate.Publishing.Remember.{
  others_differ, OnePerQuery-filter, saved_journeys-remember_journey,
}

-- One call of rememberJourney.
pub record Call : Type 0 where
  pub administrator : Text
  pub journey : QueryJourney

unfoldable pub remember_all : List Call → Storage → Storage
remember_all [] st = st
remember_all (c ∷ calls) st = remember_all calls (remember_journey st c.administrator c.journey)

-- An administrator's history holds every query ever remembered for them, the last one first.
unfoldable pub history : Text → List Call → List QueryJourney → List QueryJourney
history administrator [] h = h
history administrator (c ∷ calls) h = history administrator calls (
    if text_eq c.administrator administrator
    then c.journey ∷ filter (λ v. not (same_query v c.journey)) h
    else h)

pub record IsCall (c : Call) : Type 0 where
  pub named : c.administrator ≢ []
  pub reference : IsReference c.journey

module _ (p : QueryJourney → Bool) where
  -- At most one element fails the test.
  abbrev FailsOnce : List QueryJourney → Type 0
  FailsOnce [] = Unit
  FailsOnce (x ∷ xs) = if p x then FailsOnce xs else All (λ v. p v ≡ true) xs

  filter-All : (xs : List QueryJourney) → All (λ v. p v ≡ true) xs → filter p xs ≡ xs
  filter-All [] h = refl
  filter-All (x ∷ xs) (e, h) = rw e (ap (◌∷◌ x) (filter-All xs h))

  All-take :
      (n : ℕ) (xs : List QueryJourney)
      → All (λ v. p v ≡ true) xs
      → All (λ v. p v ≡ true) (take n xs)
  All-take zero xs h = tt
  All-take (suc n) [] h = tt
  All-take (suc n) (x ∷ xs) (e, h) = (e, All-take n xs h)

  take-take : (n : ℕ) (xs : List QueryJourney) → take n (take n xs) ≡ take n xs
  take-take zero xs = refl
  take-take (suc n) [] = refl
  take-take (suc n) (x ∷ xs) = ap (◌∷◌ x) (take-take n xs)

  -- One place more is enough for the filter to lose one.
  take-filter :
      (n : ℕ) (xs : List QueryJourney)
      → FailsOnce xs
      → take n (filter p (take (suc n) xs)) ≡ take n (filter p xs)
  take-filter zero xs h = refl
  take-filter (suc n) [] h = refl
  take-filter (suc n) (x ∷ xs) h = go (p x) (take-filter n xs) h
    where
      go :
          (b : Bool)
          → (FailsOnce xs → take n (filter p (take (suc n) xs)) ≡ take n (filter p xs))
          → (if b then FailsOnce xs else All (λ v. p v ≡ true) xs)
          → take (suc n) (if b then x ∷ filter p (take (suc n) xs) else filter p (take (suc n) xs))
            ≡ take (suc n) (if b then x ∷ filter p xs else filter p xs)
      go true later h = ap (◌∷◌ x) (later h)
      go false later h =
          ap (take (suc n)) (filter-All (take (suc n) xs) (All-take (suc n) xs h))
          ∙ take-take (suc n) xs
          ∙ ap (take (suc n)) (sym (filter-All xs h))

FailsOnce-same_query :
    (r : QueryJourney) (xs : List QueryJourney)
    → OnePerQuery xs
    → FailsOnce (λ v. not (same_query v r)) xs
FailsOnce-same_query r [] o = tt
FailsOnce-same_query r (x ∷ xs) (new, o) = elim (Bool-cases (same_query x r)) [
  | inr other ↦ rw other (FailsOnce-same_query r xs o)
  | inl same ↦ rw same (all_others xs new ((same_query_iff x r).0 same))
]
  where
    all_others :
        (ys : List QueryJourney)
        → All (λ v. ¬ SameQuery v x) ys
        → SameQuery x r
        → All (λ v. not (same_query v r) ≡ true) ys
    all_others [] h s = tt
    all_others (y ∷ ys) (h, hs) s = (one (same_query y r) refl, all_others ys hs s)
      where
        one : (b : Bool) → same_query y r ≡ b → not b ≡ true
        one false e = refl
        one true e =
            let t = (same_query_iff y r).0 e in absurd (h (t.0 ∙ sym (s.0), t.1 ∙ sym (s.1)))

module _ (administrator : Text) where
  remember_flags :
      (st : Storage) (c : Call)
      → ((remember_journey st c.administrator c.journey).denied ≡ st.denied)
        × ((remember_journey st c.administrator c.journey).full ≡ st.full)
  unfolding remember_journey remember_ref
  remember_flags st c = go (journey_references (journey_json c.journey))
    where
      go :
          (o : Option QueryJourney)
          → ((remember_ref st c.administrator o).denied ≡ st.denied)
            × ((remember_ref st c.administrator o).full ≡ st.full)
      go none = (refl, refl)
      go (some r) = with_room (not (truthy c.administrator) || (st.denied || st.full))
        where
          with_room :
              (b : Bool)
              → (Storage.denied (
                    if b then st else record st {
                      items = put_item st.items (storage_key c.administrator) (
                          some (
                            arr (
                              of_list (
                                map journey_json
                                  (remembered r (saved_journeys st c.administrator))))));
                    })
                  ≡ st.denied)
                × (Storage.full (
                      if b then st else record st {
                        items = put_item st.items (storage_key c.administrator) (
                            some (
                              arr (
                                of_list (
                                  map journey_json
                                    (remembered r (saved_journeys st c.administrator))))));
                      })
                    ≡ st.full)
          with_room true = (refl, refl)
          with_room false = (refl, refl)

  saved_journeys-step :
      (st : Storage) (c : Call) (h : List QueryJourney)
      → st.denied ≡ false
      → st.full ≡ false
      → IsCall c
      → OnePerQuery h
      → saved_journeys st administrator ≡ take 5 h
      → saved_journeys (remember_journey st c.administrator c.journey) administrator
        ≡ take 5 (
            if text_eq c.administrator administrator
            then c.journey ∷ filter (λ v. not (same_query v c.journey)) h
            else h)
  unfolding remembered
  saved_journeys-step st c h works room call one at =
      let (own, others) =
        saved_journeys-remember_journey st c.administrator c.journey call.named works room
          call.reference in
      elim (Bool-cases (text_eq c.administrator administrator)) [
        | inr e ↦ rw e (others administrator (λ same. apart same e) ∙ at)
        | inl e ↦ rw e (
            subst
              (λ a.
                saved_journeys (remember_journey st c.administrator c.journey) a
                ≡ remembered c.journey (saved_journeys st a))
              ((text_eq_iff c.administrator administrator).0 e) own
            ∙ ap (remembered c.journey) at
            ∙ ap (◌∷◌ c.journey) (
                take-filter (λ v. not (same_query v c.journey)) 4 h
                  (FailsOnce-same_query c.journey h one)))
      ]
    where
      clash : true ≡ false → ⊥
      clash e = ground arith

      apart : c.administrator ≡ administrator → text_eq c.administrator administrator ≡ false → ⊥
      apart same e = clash (sym ((text_eq_iff c.administrator administrator).1 same) ∙ e)

  OnePerQuery-history :
      (r : QueryJourney) (h : List QueryJourney) (b : Bool)
      → OnePerQuery h
      → OnePerQuery (if b then r ∷ filter (λ v. not (same_query v r)) h else h)
  OnePerQuery-history r h true o =
      (others_differ r h, OnePerQuery-filter (λ v. not (same_query v r)) h o)
  OnePerQuery-history r h false o = o

  -- While storage works, whatever administrators remember, in whatever order: what is stored for one of them
  -- is the five queries last remembered in the history of all that were, no query twice, however much was forgotten in storage
  -- on the way.
  pub remember_all-history :
      (calls : List Call) (st : Storage) (h : List QueryJourney)
      → st.denied ≡ false
      → st.full ≡ false
      → All IsCall calls
      → OnePerQuery h
      → saved_journeys st administrator ≡ take 5 h
      → (saved_journeys (remember_all calls st) administrator
          ≡ take 5 (history administrator calls h))
        × OnePerQuery (history administrator calls h)
  unfolding remember_all history
  remember_all-history [] st h works room valid one at = (at, one)
  remember_all-history (c ∷ calls) st h works room (call, valid) one at =
      let (denied, full) = remember_flags st c in
      remember_all-history calls (remember_journey st c.administrator c.journey) _ (denied ∙ works)
        (full ∙ room) valid
        (OnePerQuery-history c.journey h (text_eq c.administrator administrator) one)
        (saved_journeys-step st c h works room call one at)
