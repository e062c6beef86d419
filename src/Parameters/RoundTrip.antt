-- ===== src/Parameters/RoundTrip.antt =====
-- What `parameterJSON` writes is read back by `parameterValues`.
use context_gate.Base.{
  ℕ, suc, ◌+◌, ◌*◌, ◌<◌, ◌≡◌, ◌≢◌, refl, sym, ap, ◌∙◌, inl, inr, Text, codes, List, [], ◌∷◌, ◌++◌,
  append_assoc, append-nil, map, none, some, arith, ==_iff, length, All, Has, Distinct, unique,
  unique-Distinct, Has-unique, length_le_of_Distinct, Option-cases, ok,
}
use context_gate.Base.Int.{pos}
use context_gate.Json.{Json, str}
use context_gate.JsonText.{
  parse_json, read_value, read_string, plain, skip_space, whole, quote_text,
}
use context_gate.JsonText.Strings.{read_string-quote_text}
use context_gate.Parameters.{
  trim, trim_start, trim_end, put_unless_space, drop_last, behind_first, bare, scan_move, put_slice,
  begin_slice, cut_from, slices, trimmed_slices, parts_of, parts, match_key, opening, name_in,
  entry_of, put_entry, entries,
}
use context_gate.Parameters.Split.{
  IsTrimmed, trim_end-concat, drop_last-concat, trim_end-space, trim_end-append, trim_start-solid,
  trim_start-space, cut_from-append, put_slices, put_slices_lem, IsWhole,
}
use context_gate.Parameters.Lines.{member_line-IsWhole, match_key-quote_text}
use context_gate.Parameters.Values.{
  names, ordered_from, member_line, join, join_behind, parameter_json, parameter_values,
  starts_with,
}

-- A member that can be written: a text of code units, and a value with no blank ends that stands in
-- one part.
pub record IsMember (name value : Text) : Type 0 where
  pub units : All (λ c. c < 65536) name
  pub trimmed : IsTrimmed value
  pub filled : value ≢ []
  pub unbroken : IsWhole value

abbrev pub AllMembers : List (Text × Text) → Type 0
AllMembers [] = Unit
AllMembers ((k, v) ∷ vs) = IsMember k v × AllMembers vs

parse_quoted :
    (f : ℕ) (r v : Text)
    → read_string plain r ≡ some (v, [])
    → whole (read_value (suc f) (34 ∷ r)) ≡ some (str v)
unfolding read_value skip_space
parse_quoted f r v at = rw at

pub parse_json-quote_text :
    (k : Text) → All (λ c. c < 65536) k → parse_json (quote_text k) ≡ some (str k)
unfolding parse_json
parse_json-quote_text k h =
    let (r, e, at) = read_string-quote_text k [] h in
    ap parse_json (sym (append-nil (quote_text k)) ∙ e)
    ∙ ap (λ f. whole (read_value f (34 ∷ r))) (omega arith)
    ∙ parse_quoted (2 * length (34 ∷ r) + 1) r k at

-- What stands between a line and the next cut.
abbrev end_of : List (Text × Text) → Text
end_of [] = codes "\n"
end_of (v ∷ vs) = []

abbrev pieces : List (Text × Text) → List Text
pieces [] = []
pieces ((k, v) ∷ vs) = (10 ∷ (member_line (k, v) ++ end_of vs)) ∷ pieces vs

cut_line :
    (k v rest : Text) (vs : List (Text × Text))
    → IsMember k v
    → cut_from (bare (pos 0)) (rest ++ codes "\n") ≡ (end_of vs, pieces vs)
    → cut_from (bare (pos 0)) (10 ∷ ((member_line (k, v) ++ rest) ++ codes "\n"))
      ≡ (10 ∷ (member_line (k, v) ++ end_of vs), pieces vs)
unfolding cut_from scan_move
cut_line k v rest vs m h = ap (put_slice 10) (
    ap (cut_from (bare (pos 0))) (append_assoc (member_line (k, v)) rest (codes "\n"))
    ∙ cut_from-append (bare (pos 0)) (bare (pos 0)) (member_line (k, v)) (rest ++ codes "\n")
        (member_line-IsWhole k v m.units m.unbroken)
    ∙ ap (put_slices (member_line (k, v))) h
    ∙ put_slices_lem (member_line (k, v)) (end_of vs) (pieces vs))

cut_lines :
    (vs : List (Text × Text))
    → AllMembers vs
    → cut_from (bare (pos 0)) (join_behind (codes ",\n") (map member_line vs) ++ codes "\n")
      ≡ (end_of vs, pieces vs)
unfolding join_behind cut_from scan_move
cut_lines [] h = refl
cut_lines ((k, v) ∷ vs) (m, h) =
    ap begin_slice
      (cut_line k v (join_behind (codes ",\n") (map member_line vs)) vs m (cut_lines vs h))

trim-piece :
    (k v : Text) (vs : List (Text × Text))
    → IsMember k v
    → trim (10 ∷ (member_line (k, v) ++ end_of vs)) ≡ quote_text k ++ 58 ∷ 32 ∷ v
unfolding trim trim_start member_line quote_text
trim-piece k v vs m =
    ending (quote_text k ++ (codes ": " ++ v)) vs
    ∙ ap trim_end (sym (append_assoc (quote_text k) (codes ": ") v))
    ∙ trim_end-append (quote_text k ++ codes ": ") v m.trimmed.at_end m.filled
    ∙ append_assoc (quote_text k) (codes ": ") v
  where
    ending : (t : Text) (ws : List (Text × Text)) → trim_end (t ++ end_of ws) ≡ trim_end t
    ending t [] = trim_end-space t 10 refl
    ending t (w ∷ ws) = ap trim_end (append-nil t)

entry_of-line :
    (k v : Text)
    → IsMember k v
    → entry_of (match_key opening (quote_text k ++ 58 ∷ 32 ∷ v)) ≡ ok (k, v)
unfolding entry_of name_in trim
entry_of-line k v m = rw (match_key-quote_text k (32 ∷ v) m.units) (
    rw (parse_json-quote_text k m.units) (
      rw (
        trim_start-space 32 v refl,
        IsTrimmed.at_start (IsMember.trimmed m),
        IsTrimmed.at_end (IsMember.trimmed m),
      )))

entries-pieces : (vs : List (Text × Text)) → AllMembers vs → entries (map trim (pieces vs)) ≡ ok vs
unfolding entries put_entry
entries-pieces [] h = refl
entries-pieces ((k, v) ∷ vs) (m, h) =
    rw (trim-piece k v vs m, entry_of-line k v m, entries-pieces vs h)

length-names : (vs : List (Text × Text)) → length (names vs) ≡ length vs
length-names [] = refl
length-names ((k, v) ∷ vs) = omega (arith, length-names vs)

All-unique : (xs : List Text) → All (λ x. Has x (unique xs)) xs
All-unique xs = go xs (λ a at. (Has-unique xs a).1 at)
  where
    go :
        (ys : List Text)
        → ((a : Text) → Has a ys → Has a (unique xs))
        → All (λ x. Has x (unique xs)) ys
    go [] h = tt
    go (y ∷ ys) h = (h y (inl refl), go ys (λ a at. h a (inr at)))

All-of_unique : (xs : List Text) → All (λ x. Has x xs) (unique xs)
All-of_unique xs = go (unique xs) (λ a at. (Has-unique xs a).0 at)
  where
    go : (ys : List Text) → ((a : Text) → Has a ys → Has a xs) → All (λ x. Has x xs) ys
    go [] h = tt
    go (y ∷ ys) h = (h y (inl refl), go ys (λ a at. h a (inr at)))

-- A set of different names has as many.
length-unique : (xs : List Text) → Distinct xs → length (unique xs) ≡ length xs
length-unique xs d = omega (
  arith,
  length_le_of_Distinct xs (unique xs) d (All-unique xs),
  length_le_of_Distinct (unique xs) xs (unique-Distinct xs) (All-of_unique xs),
)

-- The text without its braces.
abbrev inner_of : List (Text × Text) → Text
inner_of vs = 10 ∷ (join (codes ",\n") (map member_line vs) ++ codes "\n")

trim-parameter_json :
    (vs : List (Text × Text)) → trim (parameter_json vs) ≡ 123 ∷ inner_of vs ++ 125 ∷ []
unfolding trim parameter_json
trim-parameter_json vs =
    ap trim_end (
      trim_start-solid 123 (10 ∷ (join (codes ",\n") (map member_line vs) ++ codes "\n}")) refl
      ∙ ap (λ t. 123 ∷ 10 ∷ t)
          (sym (append_assoc (join (codes ",\n") (map member_line vs)) (codes "\n") (codes "}"))))
    ∙ trim_end-concat (123 ∷ inner_of vs) 125 refl

slices-inner :
    (vs : List (Text × Text))
    → AllMembers vs
    → slices (inner_of vs) (trim (inner_of vs)) ≡ map trim (pieces vs)
unfolding slices join
slices-inner [] h = unfold trim trim_start trim_end in refl
slices-inner ((k, v) ∷ vs) (m, h) =
    blank
    ∙ ap trimmed_slices
        (cut_line k v (join_behind (codes ",\n") (map member_line vs)) vs m (cut_lines vs h))
  where
    filled :
        (t u : Text) → slices t (put_unless_space 34 u) ≡ trimmed_slices (cut_from (bare (pos 0)) t)
    filled t [] = refl
    filled t (c ∷ u) = refl

    blank :
        slices (inner_of ((k, v) ∷ vs)) (trim (inner_of ((k, v) ∷ vs)))
        ≡ trimmed_slices (cut_from (bare (pos 0)) (inner_of ((k, v) ∷ vs)))
    blank = unfold trim trim_start trim_end member_line quote_text in filled _ _

parts-parameter_json :
    (vs : List (Text × Text)) (j : Json)
    → AllMembers vs
    → parse_json (parameter_json vs) ≡ some j
    → parts (parameter_json vs) ≡ ok (map trim (pieces vs))
unfolding parts parts_of
parts-parameter_json vs j h e =
    ap (parts_of (parameter_json vs)) e
    ∙ ap (λ t. ok (slices (drop_last (behind_first t)) (trim (drop_last (behind_first t)))))
        (trim-parameter_json vs)
    ∙ ap (λ t. ok (slices t (trim t))) (drop_last-concat (inner_of vs) 125)
    ∙ ap ok (slices-inner vs h)

-- The members that `parameterJSON` writes are the members that `parameterValues` reads, in order and
-- with the texts of their values as they were, so that no number is rounded. The members are those
-- of a JavaScript object (different names, in its order), and what is written is JSON.
pub parameter_values-parameter_json :
    (vs : List (Text × Text))
    → AllMembers vs
    → Distinct (names vs)
    → ordered_from [] vs ≡ vs
    → parse_json (parameter_json vs) ≢ none
    → parameter_values (parameter_json vs) ≡ ok vs
unfolding parameter_values starts_with
parameter_values-parameter_json vs h d o valid =
    elim (Option-cases (parse_json (parameter_json vs))) [
      | inl e ↦ absurd (valid e)
      | inr (j, e) ↦
          rw (trim-parameter_json vs, parts-parameter_json vs j h e, entries-pieces vs h)
            (rw ((==_iff _ _).1 (length-unique (names vs) d ∙ length-names vs)) (ap ok o))
    ]
