-- ===== src/Publishing/Remember.antt =====
-- What remembering a journey does to the journeys of each administrator.
use context_gate.Base.{
  ℕ, zero, suc, ◌≤◌, ◌≡◌, ◌≢◌, refl, sym, ap, ◌∙◌, ◌⊎◌, inl, inr, Text, codes, Bool, true, false,
  not, ◌||◌, List, [], ◌∷◌, ◌++◌, append-nil, append_assoc, map, Option, none, some, arith,
  if◌then◌else◌, length, take, filter, All, length-take-le, text_eq, text_eq_iff, Bool-cases,
  length-map,
}
use context_gate.Json.{Json, arr, to_list, of_list}
use context_gate.Publishing.{
  QueryJourney, Storage, item_at, put_item, storage_key, journey_references, same_query, add_ref,
  collect, stored_journeys, saved_journeys, journey_json, remembered, remember_ref,
  remember_journey,
}
use context_gate.Publishing.References.{
  IsReference, journey_references_refused, journey_references-journey_json,
}
use context_gate.Publishing.Journeys.{
  SameQuery, OnePerQuery, IsClean, same_query_iff, same_none, saved_journeys-IsClean,
}

add_ref-fresh :
    (refs : List QueryJourney) (r : QueryJourney)
    → All (λ v. ¬ SameQuery r v) refs
    → add_ref refs (some r) ≡ refs ++ r ∷ []
unfolding add_ref
add_ref-fresh refs r h = rw (same_none refs r h)

earlier_differ :
    (refs rs : List QueryJourney) (r : QueryJourney)
    → OnePerQuery (refs ++ r ∷ rs)
    → All (λ v. ¬ SameQuery r v) refs
earlier_differ [] rs r o = tt
earlier_differ (x ∷ refs) rs r (new, o) = (at refs new, earlier_differ refs rs r o)
  where
    at : (xs : List QueryJourney) → All (λ v. ¬ SameQuery v x) (xs ++ r ∷ rs) → ¬ SameQuery r x
    at [] h = h.0
    at (y ∷ ys) h = at ys h.1

-- The loop takes a clean list back as it was written.
collect-journey_json :
    (rs refs : List QueryJourney)
    → All IsReference rs
    → OnePerQuery (refs ++ rs)
    → collect refs (map journey_json rs) ≡ refs ++ rs
unfolding collect
collect-journey_json [] refs h o = sym (append-nil refs)
collect-journey_json (r ∷ rs) refs (h, hs) o =
    let added : add_ref refs (journey_references (journey_json r)) ≡ refs ++ r ∷ [] =
      rw (journey_references-journey_json r h)
        (add_ref-fresh refs r (earlier_differ refs rs r o)) in
    ap (λ w. collect w (map journey_json rs)) added
    ∙ collect-journey_json rs (refs ++ r ∷ []) hs (rw append_assoc o)
    ∙ append_assoc refs (r ∷ []) rs

to_list-of_list : (vs : List Json) → to_list (of_list vs) ≡ vs
to_list-of_list [] = refl
to_list-of_list (v ∷ vs) = ap (◌∷◌ v) (to_list-of_list vs)

take-length_le : {A : Type 0} (n : ℕ) (xs : List A) → length xs ≤ n → take n xs ≡ xs
take-length_le zero [] h = refl
take-length_le zero (x ∷ xs) h = absurd (omega arith)
take-length_le (suc n) [] h = refl
take-length_le (suc n) (x ∷ xs) h = ap (◌∷◌ x) (take-length_le n xs (omega arith))

stored_journeys-journey_json :
    (rs : List QueryJourney)
    → IsClean rs
    → stored_journeys (some (some (arr (of_list (map journey_json rs))))) ≡ rs
unfolding stored_journeys
stored_journeys-journey_json rs c =
    rw
      (
        to_list-of_list (map journey_json rs),
        take-length_le 5 (map journey_json rs) (omega (arith, length-map journey_json rs, c.few)),
      )
      (collect-journey_json rs [] c.references c.one_per_query)

module _ (P : QueryJourney → Type 0) where
  All-take : (n : ℕ) (xs : List QueryJourney) → All P xs → All P (take n xs)
  All-take zero xs h = tt
  All-take (suc n) [] h = tt
  All-take (suc n) (x ∷ xs) (p, h) = (p, All-take n xs h)

  All-filter : (p : QueryJourney → Bool) (xs : List QueryJourney) → All P xs → All P (filter p xs)
  All-filter p [] h = tt
  All-filter p (x ∷ xs) (q, h) = ground (arith, All-filter p xs h)

OnePerQuery-take : (n : ℕ) (xs : List QueryJourney) → OnePerQuery xs → OnePerQuery (take n xs)
OnePerQuery-take zero xs h = tt
OnePerQuery-take (suc n) [] h = tt
OnePerQuery-take (suc n) (x ∷ xs) (new, h) = (All-take _ n xs new, OnePerQuery-take n xs h)

pub OnePerQuery-filter :
    (p : QueryJourney → Bool) (xs : List QueryJourney) → OnePerQuery xs → OnePerQuery (filter p xs)
OnePerQuery-filter p [] h = tt
OnePerQuery-filter p (x ∷ xs) (new, h) = elim (Bool-cases (p x)) [
  | inl keep ↦ rw keep (All-filter _ p xs new, OnePerQuery-filter p xs h)
  | inr drop ↦ rw drop (OnePerQuery-filter p xs h)
]

pub others_differ :
    (r : QueryJourney) (xs : List QueryJourney)
    → All (λ v. ¬ SameQuery v r) (filter (λ v. not (same_query v r)) xs)
others_differ r [] = tt
others_differ r (x ∷ xs) = elim (Bool-cases (same_query x r)) [
  | inl same ↦ rw same (others_differ r xs)
  | inr other ↦ rw other ((λ s. cc ((same_query_iff x r).1 s)), others_differ r xs)
]

remembered-IsClean :
    (r : QueryJourney) (saved : List QueryJourney)
    → IsReference r
    → IsClean saved
    → IsClean (remembered r saved)
unfolding remembered
remembered-IsClean r saved h c =
    let kept = filter (λ v. not (same_query v r)) saved in
    record {
      few = length-take-le 5 (r ∷ kept);
      references = All-take _ 5 (r ∷ kept) (h, All-filter _ _ saved c.references);
      one_per_query =
          OnePerQuery-take 5 (r ∷ kept)
            (others_differ r saved, OnePerQuery-filter _ saved c.one_per_query);
    }

item_at-put_item :
    (m : List (Text × Option Json)) (k j : Text) (v : Option Json)
    → item_at (put_item m k v) j ≡ (if text_eq k j then some v else item_at m j)
item_at-put_item [] k j v = refl
item_at-put_item ((i, w) ∷ m) k j v =
    ground (arith, text_eq_iff k j, text_eq_iff i k, text_eq_iff i j, item_at-put_item m k j v)

text_eq_refl : (a : Text) → text_eq a a ≡ true
text_eq_refl a = (text_eq_iff a a).1 refl

append_cancel : (p a b : Text) → p ++ a ≡ p ++ b → a ≡ b
append_cancel [] a b h = h
append_cancel (c ∷ p) a b h = append_cancel p a b (cc)

storage_key_apart : (a b : Text) → a ≢ b → text_eq (storage_key a) (storage_key b) ≡ false
storage_key_apart a b h = elim (Bool-cases (text_eq (storage_key a) (storage_key b))) [
  | inl same ↦ absurd (
      h (
        append_cancel (codes "contextgate.query-journey.") a b
          (unfold storage_key in (text_eq_iff (storage_key a) (storage_key b)).0 same)))
  | inr other ↦ other
]

module _ (st : Storage) (working : st.denied ≡ false) (room : st.full ≡ false) where
  saved_journeys_lem :
      (administrator : Text)
      → saved_journeys st administrator
        ≡ stored_journeys (item_at st.items (storage_key administrator))
  unfolding saved_journeys
  saved_journeys_lem administrator = rw working

  -- The write, and what each key holds behind it.
  saved_journeys-remember_ref :
      (administrator other : Text) (r : QueryJourney)
      → administrator ≢ []
      → saved_journeys (remember_ref st administrator (some r)) other
        ≡ stored_journeys (
            if text_eq (storage_key administrator) (storage_key other)
            then some (
                some (
                  arr
                    (of_list (map journey_json (remembered r (saved_journeys st administrator))))))
            else item_at st.items (storage_key other))
  unfolding remember_ref saved_journeys
  saved_journeys-remember_ref [] other r named = absurd (named refl)
  saved_journeys-remember_ref (c ∷ a) other r named =
      rw (working, room)
        (ap stored_journeys (item_at-put_item st.items (storage_key (c ∷ a)) (storage_key other) _))

-- Where storage works and the administrator is named, what is read back behind a call is the list
-- that the call wrote, and the journeys of every other administrator stay as they are.
pub saved_journeys-remember_journey :
    (st : Storage) (administrator : Text) (r : QueryJourney)
    → administrator ≢ []
    → st.denied ≡ false
    → st.full ≡ false
    → IsReference r
    → (saved_journeys (remember_journey st administrator r) administrator
        ≡ remembered r (saved_journeys st administrator))
      × ((other : Text)
          → administrator ≢ other
          → saved_journeys (remember_journey st administrator r) other ≡ saved_journeys st other)
unfolding remember_journey
saved_journeys-remember_journey st administrator r named d f h =
    rw (journey_references-journey_json r h) (
      rw
          (
            saved_journeys-remember_ref st d f administrator administrator r named,
            text_eq_refl (storage_key administrator),
          )
          (stored_journeys-journey_json _
            (remembered-IsClean r _ h (saved_journeys-IsClean st administrator))),
      λ other ne.
          rw
            (
              saved_journeys-remember_ref st d f administrator other r named,
              storage_key_apart administrator other ne,
            )
            (sym (saved_journeys_lem st d f other)),
    )

remember_ref_refused :
    (st : Storage) (administrator : Text) (o : Option QueryJourney)
    → ((administrator ≡ []) ⊎ (st.denied ≡ true)) ⊎ ((st.full ≡ true) ⊎ (o ≡ none))
    → remember_ref st administrator o ≡ st
unfolding remember_ref
remember_ref_refused st [] none h = refl
remember_ref_refused st (c ∷ a) none h = refl
remember_ref_refused st [] (some r) h = refl
remember_ref_refused st (c ∷ a) (some r) h = elim (Bool-cases (st.denied || st.full)) [
  | inl e ↦ rw e
  | inr e ↦ absurd (ground arith)
]

-- A value that is no reference, an unnamed administrator or storage that fails leaves all as it is.
pub remember_journey_refused :
    (st : Storage) (administrator : Text) (r : QueryJourney)
    → ((administrator ≡ []) ⊎ (st.denied ≡ true)) ⊎ ((st.full ≡ true) ⊎ (¬ IsReference r))
    → remember_journey st administrator r ≡ st
unfolding remember_journey
remember_journey_refused st administrator r h =
    remember_ref_refused st administrator (journey_references (journey_json r)) (elim h [
      | inl a ↦ inl a
      | inr (inl f) ↦ inr (inl f)
      | inr (inr n) ↦ inr (inr (journey_references_refused r n))
    ])
