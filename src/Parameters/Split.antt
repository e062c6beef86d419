-- ===== src/Parameters/Split.antt =====
-- Trimming, slicing, and cutting a text at its top commas.
use context_gate.Base.{
  ℕ, ◌≡◌, ◌≢◌, refl, ap, ◌∙◌, inl, inr, Text, true, false, List, [], ◌∷◌, ◌++◌, Option, none, some,
  Option-cases,
}
use context_gate.Base.Int.{pos}
use context_gate.Parameters.{
  is_space, trim_start, put_unless_space, trim_end, drop_last, Scan, bare, scan_move, put_slice,
  cut_from,
}

-- No white space at either end.
pub record IsTrimmed (s : Text) : Type 0 where
  pub at_start : trim_start s ≡ s
  pub at_end : trim_end s ≡ s

pub trim_end-concat : (s : Text) (c : ℕ) → is_space c ≡ false → trim_end (s ++ c ∷ []) ≡ s ++ c ∷ []
unfolding trim_end
trim_end-concat [] c h = rw h
trim_end-concat (d ∷ s) c h = ap (put_unless_space d) (trim_end-concat s c h) ∙ kept s
  where
    kept : (t : Text) → put_unless_space d (t ++ c ∷ []) ≡ d ∷ (t ++ c ∷ [])
    kept [] = refl
    kept (x ∷ t) = refl

pub drop_last-concat : (s : Text) (c : ℕ) → drop_last (s ++ c ∷ []) ≡ s
unfolding drop_last
drop_last-concat [] c = refl
drop_last-concat (d ∷ []) c = refl
drop_last-concat (d ∷ e ∷ s) c = ap (◌∷◌ d) (drop_last-concat (e ∷ s) c)

-- White space behind a text is trimmed away with the rest of its end.
pub trim_end-space : (s : Text) (c : ℕ) → is_space c ≡ true → trim_end (s ++ c ∷ []) ≡ trim_end s
unfolding trim_end
trim_end-space [] c h = rw h
trim_end-space (d ∷ s) c h = ap (put_unless_space d) (trim_end-space s c h)

-- Text in front of a text whose end is trimmed stays.
pub trim_end-append : (s t : Text) → trim_end t ≡ t → t ≢ [] → trim_end (s ++ t) ≡ s ++ t
unfolding trim_end
trim_end-append [] t h ne = h
trim_end-append (c ∷ s) t h ne = ap (put_unless_space c) (trim_end-append s t h ne) ∙ kept s t ne
  where
    kept : (u v : Text) → v ≢ [] → put_unless_space c (u ++ v) ≡ c ∷ (u ++ v)
    kept [] [] e = absurd (e refl)
    kept [] (x ∷ v) e = refl
    kept (x ∷ u) v e = refl

pub trim_start-solid : (c : ℕ) (s : Text) → is_space c ≡ false → trim_start (c ∷ s) ≡ c ∷ s
unfolding trim_start
trim_start-solid c s h = rw h

pub trim_start-space : (c : ℕ) (s : Text) → is_space c ≡ true → trim_start (c ∷ s) ≡ trim_start s
unfolding trim_start
trim_start-space c s h = rw h

-- The state behind a text that is not cut.
unfoldable pub scan_run : Scan → Text → Option Scan
scan_run q [] = some q
scan_run q (c ∷ s) = elim (scan_move q c) [ none ↦ none | some q' ↦ scan_run q' s ]

pub scan_run-append :
    (q q' : Scan) (s t : Text) → scan_run q s ≡ some q' → scan_run q (s ++ t) ≡ scan_run q' t
unfolding scan_run
scan_run-append q q' [] t h = ap (λ o. scan_run o t) (some_injective h)
  where
    some_injective : {a b : Scan} → some a ≡ some b → a ≡ b
    some_injective h = cc
scan_run-append q q' (c ∷ s) t h = elim (Option-cases (scan_move q c)) [
  | inl e ↦ cc (rw (e, scan_run) at h)
  | inr (p, e) ↦ rw (e, scan_run) (scan_run-append p q' s t (rw (e, scan_run) at h))
]

abbrev pub put_slices : Text → Text × List Text → Text × List Text
put_slices [] r = r
put_slices (c ∷ s) r = put_slice c (put_slices s r)

-- A text that is not cut stands in one slice, whatever follows it.
pub cut_from-append :
    (q q' : Scan) (s t : Text)
    → scan_run q s ≡ some q'
    → cut_from q (s ++ t) ≡ put_slices s (cut_from q' t)
unfolding scan_run cut_from
cut_from-append q q' [] t h = ap (λ o. cut_from o t) (some_injective h)
  where
    some_injective : {a b : Scan} → some a ≡ some b → a ≡ b
    some_injective h = cc
cut_from-append q q' (c ∷ s) t h = elim (Option-cases (scan_move q c)) [
  | inl e ↦ cc (rw (e, scan_run) at h)
  | inr (p, e) ↦
      rw (e, cut_from) (ap (put_slice c) (cut_from-append p q' s t (rw (e, scan_run) at h)))
]

pub put_slices_lem : (s p : Text) (ps : List Text) → put_slices s (p, ps) ≡ (s ++ p, ps)
put_slices_lem [] p ps = refl
put_slices_lem (c ∷ s) p ps = ap (put_slice c) (put_slices_lem s p ps)

-- A text that stands in one part of an object: no comma cuts it, and its brackets and quotes match.
abbrev pub IsWhole : Text → Type 0
IsWhole s = scan_run (bare (pos 0)) s ≡ some (bare (pos 0))
