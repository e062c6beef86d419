-- ===== src/Publishing/Journeys.antt =====
-- What browser storage can make of the list of journeys.
use context_gate.Base.{
  ◌+◌, ◌≤◌, ◌≡◌, refl, sym, ◌↔◌, inl, inr, Text, Bool, true, false, ◌||◌, List, [], ◌∷◌, ◌++◌,
  Option, none, some, arith, length, any, All, length-append, length-take-le, text_eq_iff,
  Bool-cases, Option-cases,
}
use context_gate.Json.{Json, null, bool, num, str, arr, obj, to_list}
use context_gate.Publishing.{
  QueryJourney, Storage, item_at, storage_key, journey_references, same_query, add_ref, collect,
  stored_entries, stored_journeys, saved_journeys,
}
use context_gate.Publishing.References.{IsReference, journey_references-IsReference}

abbrev pub SameQuery : QueryJourney → QueryJourney → Type 0
SameQuery a b = (a.source_id ≡ b.source_id) × (a.template_id ≡ b.template_id)

-- No two references are to one query of one source.
abbrev pub OnePerQuery : List QueryJourney → Type 0
OnePerQuery [] = Unit
OnePerQuery (r ∷ rs) = All (λ v. ¬ SameQuery v r) rs × OnePerQuery rs

pub record IsClean (refs : List QueryJourney) : Type 0 where
  pub few : length refs ≤ 5
  pub references : All IsReference refs
  pub one_per_query : OnePerQuery refs

pub same_query_iff : (a b : QueryJourney) → (same_query a b ≡ true) ↔ SameQuery a b
same_query_iff a b =
    ground (arith, text_eq_iff a.source_id b.source_id, text_eq_iff a.template_id b.template_id)

OnePerQuery-concat :
    (refs : List QueryJourney) (r : QueryJourney)
    → OnePerQuery refs
    → All (λ v. ¬ SameQuery r v) refs
    → OnePerQuery (refs ++ r ∷ [])
OnePerQuery-concat [] r o h = (tt, tt)
OnePerQuery-concat (x ∷ refs) r (new, o) (h, hs) =
    (All-concat refs new h, OnePerQuery-concat refs r o hs)
  where
    All-concat :
        (xs : List QueryJourney)
        → All (λ v. ¬ SameQuery v x) xs
        → ¬ SameQuery r x
        → All (λ v. ¬ SameQuery v x) (xs ++ r ∷ [])
    All-concat [] a b = (b, tt)
    All-concat (y ∷ ys) (a, as') b = (a, All-concat ys as' b)

not_same :
    (x r : QueryJourney) (rest : Bool)
    → (same_query x r || rest) ≡ false
    → (¬ SameQuery r x) × (rest ≡ false)
not_same x r rest h =
    let iff = same_query_iff x r in
    elim (Bool-cases (same_query x r)) [
      | inl same ↦ absurd (cc (rw same at h))
      | inr other ↦ ((λ s. cc (iff.1 (sym s.0, sym s.1))), rw other at h)
    ]

none_same :
    (refs : List QueryJourney) (r : QueryJourney)
    → any (λ v. same_query v r) refs ≡ false
    → All (λ v. ¬ SameQuery r v) refs
none_same [] r h = tt
none_same (x ∷ refs) r h = let (here, rest) = not_same x r _ h in (here, none_same refs r rest)

pub same_none :
    (refs : List QueryJourney) (r : QueryJourney)
    → All (λ v. ¬ SameQuery r v) refs
    → any (λ v. same_query v r) refs ≡ false
same_none [] r h = refl
same_none (x ∷ refs) r (h, hs) = elim (Bool-cases (same_query x r)) [
  | inl same ↦ let s = (same_query_iff x r).0 same in absurd (h (sym s.0, sym s.1))
  | inr other ↦ rw other (same_none refs r hs)
]

pub All-append :
    (P : QueryJourney → Type 0) (xs ys : List QueryJourney) → All P xs → All P ys → All P (xs ++ ys)
All-append P [] ys h k = k
All-append P (x ∷ xs) ys (p, h) k = (p, All-append P xs ys h k)

-- What the loop keeps of its list.
pub record Sound (refs : List QueryJourney) : Type 0 where
  pub all_references : All IsReference refs
  pub unrepeated : OnePerQuery refs

add_ref-Sound :
    (refs : List QueryJourney) (v : Json)
    → Sound refs
    → Sound (add_ref refs (journey_references v))
      × (length (add_ref refs (journey_references v)) ≤ length refs + 1)
unfolding add_ref
add_ref-Sound refs v s = elim (Option-cases (journey_references v)) [
  | inl e ↦ rw (e, add_ref) (s, omega arith)
  | inr (r, e) ↦ elim (Bool-cases (any (λ w. same_query w r) refs)) [
    | inl seen ↦ rw (e, add_ref) (rw seen (s, omega arith))
    | inr new ↦
        rw (e, add_ref)
          (rw new (
            record {
              all_references =
                  All-append IsReference refs (r ∷ []) s.all_references
                    (journey_references-IsReference v r e, tt);
              unrepeated = OnePerQuery-concat refs r s.unrepeated (none_same refs r new);
            },
            omega (arith, length-append refs (r ∷ [])),
          ))
  ]
]

collect-Sound :
    (vs : List Json) (refs : List QueryJourney)
    → Sound refs
    → Sound (collect refs vs) × (length (collect refs vs) ≤ length refs + length vs)
unfolding collect
collect-Sound [] refs s = (s, omega arith)
collect-Sound (v ∷ vs) refs s =
    let (s', small) = add_ref-Sound refs v s in
    let (s'', more) = collect-Sound vs (add_ref refs (journey_references v)) s' in
    (s'', omega arith)

length-stored_entries : (v : Json) → length (stored_entries v) ≤ 5
length-stored_entries (arr vs) = length-take-le 5 (to_list vs)
length-stored_entries null = omega arith
length-stored_entries (bool b) = omega arith
length-stored_entries (num t) = omega arith
length-stored_entries (str t) = omega arith
length-stored_entries (obj f) = omega arith

IsClean-of_Sound : (refs : List QueryJourney) → Sound refs → length refs ≤ 5 → IsClean refs
IsClean-of_Sound refs s h = record {
  few = h;
  references = s.all_references;
  one_per_query = s.unrepeated;
}

IsClean-nil : IsClean []
IsClean-nil = record { few = omega arith; references = tt; one_per_query = tt }

-- Whatever browser storage holds, a missing or broken text included, the journeys read from it are
-- at most five, each names a source and a query by ids of at most 256 code units, and no two are
-- for one query of one source.
pub saved_journeys-IsClean :
    (st : Storage) (administrator : Text) → IsClean (saved_journeys st administrator)
unfolding saved_journeys stored_journeys
saved_journeys-IsClean st administrator = elim (Bool-cases st.denied) [
  | inl d ↦ rw d IsClean-nil
  | inr a ↦ rw a (stored (item_at st.items (storage_key administrator)))
]
  where
    stored : (o : Option (Option Json)) → IsClean (stored_journeys o)
    stored none =
        let (s, h) =
          collect-Sound (null ∷ []) [] (record { all_references = tt; unrepeated = tt }) in
        IsClean-of_Sound _ s (omega arith)
    stored (some none) = IsClean-nil
    stored (some (some v)) =
        let (s, h) =
          collect-Sound (stored_entries v) [] (record { all_references = tt; unrepeated = tt }) in
        IsClean-of_Sound _ s (omega (arith, length-stored_entries v))
