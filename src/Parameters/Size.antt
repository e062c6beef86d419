-- ===== src/Parameters/Size.antt =====
-- The parts of a text and the values of its members are shorter than the text.
use context_gate.Base.{
  ℕ, suc, ◌<◌, ◌≤◌, arith, Text, Bool, true, false, List, [], ◌∷◌, map, Option, none, some,
  if◌then◌else◌, ◌==◌, length, All, unique, error, Result, ok, throw,
}
use context_gate.Base.Int.{pos}
use context_gate.Json.{Json, null, bool, num, str, arr, obj}
use context_gate.JsonText.{parse_json}
use context_gate.Parameters.{
  trim_start, put_unless_space, trim_end, trim, drop_last, behind_first, Scan, bare, scan_move,
  begin_slice, put_slice, cut_from, slices, parts_of, parts, key_move, KeyState, KeyMove, opening,
  found, refused, onward, put_key, match_key, name_in, entry_of, put_entry, entries,
}
use context_gate.Parameters.Values.{
  put_member, comes_before, array_index, ordered_from, object_of, entries_of, parameter_values,
  names, repeated_name, not_an_object, starts_with,
}

length-trim_start : (s : Text) → length (trim_start s) ≤ length s
unfolding trim_start
length-trim_start [] = omega arith
length-trim_start (c ∷ s) = ground (arith, length-trim_start s)

length-put_unless_space : (c : ℕ) (s : Text) → length (put_unless_space c s) ≤ suc (length s)
length-put_unless_space c [] = ground arith
length-put_unless_space c (d ∷ s) = omega arith

length-trim_end : (s : Text) → length (trim_end s) ≤ length s
unfolding trim_end
length-trim_end [] = omega arith
length-trim_end (c ∷ s) = omega (arith, length-put_unless_space c (trim_end s), length-trim_end s)

pub length-trim : (s : Text) → length (trim s) ≤ length s
unfolding trim
length-trim s = omega (arith, length-trim_end (trim_start s), length-trim_start s)

length-drop_last : (s : Text) → length (drop_last s) ≤ length s
unfolding drop_last
length-drop_last [] = omega arith
length-drop_last (c ∷ []) = omega arith
length-drop_last (c ∷ d ∷ s) = omega (arith, length-drop_last (d ∷ s))

-- The texts are at most that long.
abbrev AtMost : ℕ → List Text → Type 0
AtMost n ps = All (λ p. length p ≤ n) ps

abbrev pub AllShorter : ℕ → List Text → Type 0
AllShorter n ps = All (λ p. length p < n) ps

abbrev pub ValuesShorter : ℕ → List (Text × Text) → Type 0
ValuesShorter n [] = Unit
ValuesShorter n ((k, v) ∷ vs) = (length v < n) × ValuesShorter n vs

AtMost-suc : (n : ℕ) (ps : List Text) → AtMost n ps → AtMost (suc n) ps
AtMost-suc n [] h = tt
AtMost-suc n (p ∷ ps) (h, hs) = (omega arith, AtMost-suc n ps hs)

-- The slices of a text that long.
abbrev Fits : ℕ → Text × List Text → Type 0
Fits n (p, ps) = (length p ≤ n) × AtMost n ps

begin_slice-Fits : (n : ℕ) (r : Text × List Text) → Fits n r → Fits (suc n) (begin_slice r)
begin_slice-Fits n (p, ps) (h, hs) = (omega arith, (omega arith, AtMost-suc n ps hs))

put_slice-Fits : (n c : ℕ) (r : Text × List Text) → Fits n r → Fits (suc n) (put_slice c r)
put_slice-Fits n c (p, ps) (h, hs) = (omega arith, AtMost-suc n ps hs)

cut_from-Fits : (q : Scan) (s : Text) → Fits (length s) (cut_from q s)
unfolding cut_from
cut_from-Fits q [] = (omega arith, tt)
cut_from-Fits q (c ∷ s) = go (scan_move q c) (λ q. cut_from-Fits q s)
  where
    go :
        (o : Option Scan)
        → ((q : Scan) → Fits (length s) (cut_from q s))
        → Fits (suc (length s)) (elim o as (λ _. Text × List Text) [
          | none ↦ begin_slice (cut_from q s)
          | some q' ↦ put_slice c (cut_from q' s)
        ])
    go none h = begin_slice-Fits (length s) (cut_from q s) (h q)
    go (some q') h = put_slice-Fits (length s) c (cut_from q' s) (h q')

AllShorter-trim : (n : ℕ) (ps : List Text) → AtMost n ps → AllShorter (suc n) (map trim ps)
AllShorter-trim n [] h = tt
AllShorter-trim n (p ∷ ps) (h, hs) = (omega (arith, length-trim p), AllShorter-trim n ps hs)

AllShorter-le : (m n : ℕ) (ps : List Text) → m ≤ n → AllShorter m ps → AllShorter n ps
AllShorter-le m n [] le h = tt
AllShorter-le m n (p ∷ ps) le (h, hs) = (omega arith, AllShorter-le m n ps le hs)

slices-AllShorter : (inner t : Text) → AllShorter (suc (length inner)) (slices inner t)
unfolding slices
slices-AllShorter inner [] = tt
slices-AllShorter inner (c ∷ t) =
    AllShorter-trim (length inner)
      ((cut_from (bare (pos 0)) inner).0 ∷ (cut_from (bare (pos 0)) inner).1)
      (split (cut_from (bare (pos 0)) inner) (cut_from-Fits (bare (pos 0)) inner))
  where
    split : (r : Text × List Text) → Fits (length inner) r → AtMost (length inner) (r.0 ∷ r.1)
    split (p, ps) h = h

-- The parts of a text, where it is JSON, are shorter than it.
abbrev pub PartsShorter : ℕ → Result (List Text) → Type 0
PartsShorter n (throw e) = Unit
PartsShorter n (ok ps) = AllShorter n ps

inner-AllShorter :
    (n : ℕ) (t : Text)
    → length t ≤ n
    → AllShorter n (slices (drop_last (behind_first t)) (trim (drop_last (behind_first t))))
inner-AllShorter n [] le = unfold drop_last slices trim trim_start trim_end in tt
inner-AllShorter n (c ∷ t) le =
    AllShorter-le (suc (length (drop_last t))) n _ (omega (arith, length-drop_last t))
      (slices-AllShorter (drop_last t) (trim (drop_last t)))

pub parts-PartsShorter : (text : Text) → PartsShorter (length text) (parts text)
unfolding parts parts_of
parts-PartsShorter text = go (parse_json text)
  where
    go : (o : Option Json) → PartsShorter (length text) (parts_of text o)
    go none = tt
    go (some v) = inner-AllShorter (length text) (trim text) (length-trim text)

-- The text behind the key is at most that long.
abbrev RestAtMost : ℕ → Option (Text × Text) → Type 0
RestAtMost n none = Unit
RestAtMost n (some (k, r)) = length r ≤ n

put_key-RestAtMost :
    (n c : ℕ) (o : Option (Text × Text)) → RestAtMost n o → RestAtMost (suc n) (put_key c o)
put_key-RestAtMost n c none h = tt
put_key-RestAtMost n c (some (k, r)) h = omega arith

match_key-RestAtMost : (q : KeyState) (s : Text) → RestAtMost (length s) (match_key q s)
unfolding match_key
match_key-RestAtMost q [] = tt
match_key-RestAtMost q (c ∷ s) = go (key_move q c) (λ q. match_key-RestAtMost q s)
  where
    go :
        (m : KeyMove)
        → ((q : KeyState) → RestAtMost (length s) (match_key q s))
        → RestAtMost (suc (length s)) (elim m as (λ _. Option (Text × Text)) [
          | found ↦ some ([], s)
          | refused ↦ none
          | onward q' ↦ put_key c (match_key q' s)
        ])
    go found h = omega arith
    go refused h = tt
    go (onward q') h = put_key-RestAtMost (length s) c (match_key q' s) (h q')

-- The value of a member is shorter.
abbrev ValueShorter : ℕ → Result (Text × Text) → Type 0
ValueShorter n (throw e) = Unit
ValueShorter n (ok (k, v)) = length v < n

entry_of-ValueShorter :
    (n : ℕ) (o : Option (Text × Text)) → RestAtMost n o → ValueShorter (suc n) (entry_of o)
unfolding entry_of name_in
entry_of-ValueShorter n none h = tt
entry_of-ValueShorter n (some (k, r)) h = go (parse_json k)
  where
    short : length (trim r) < suc n
    short = omega (arith, length-trim r)

    go : (o : Option Json) → ValueShorter (suc n) (name_in o (trim r))
    go none = tt
    go (some null) = tt
    go (some (bool b)) = tt
    go (some (num m)) = tt
    go (some (str s)) = short
    go (some (arr vs)) = tt
    go (some (obj vs)) = tt

abbrev pub MembersShorter : ℕ → Result (List (Text × Text)) → Type 0
MembersShorter n (throw e) = Unit
MembersShorter n (ok vs) = ValuesShorter n vs

ValueShorter-le : (m n : ℕ) (r : Result (Text × Text)) → m ≤ n → ValueShorter m r → ValueShorter n r
ValueShorter-le m n (throw e) le h = tt
ValueShorter-le m n (ok (k, v)) le h = omega arith

put_entry-MembersShorter :
    (n : ℕ) (v : Result (Text × Text)) (vs : Result (List (Text × Text)))
    → ValueShorter n v
    → MembersShorter n vs
    → MembersShorter n (put_entry v vs)
unfolding put_entry
put_entry-MembersShorter n (throw e) vs h hs = tt
put_entry-MembersShorter n (ok v) (throw e) h hs = tt
put_entry-MembersShorter n (ok (k, v)) (ok vs) h hs = (h, hs)

entries-MembersShorter : (n : ℕ) (ps : List Text) → AllShorter n ps → MembersShorter n (entries ps)
unfolding entries
entries-MembersShorter n [] h = tt
entries-MembersShorter n (p ∷ ps) (h, hs) =
    put_entry-MembersShorter n _ _
      (ValueShorter-le (suc (length p)) n _ (omega arith)
        (entry_of-ValueShorter (length p) (match_key opening p) (match_key-RestAtMost opening p)))
      (entries-MembersShorter n ps hs)

put_member-ValuesShorter :
    (n : ℕ) (k v : Text) (vs : List (Text × Text))
    → length v < n
    → ValuesShorter n vs
    → ValuesShorter n (put_member (k, v) vs)
unfolding put_member
put_member-ValuesShorter n k v [] h hs = (h, tt)
put_member-ValuesShorter n k v ((j, w) ∷ vs) h (hw, hs) =
    go (comes_before (array_index k) (array_index j)) (put_member-ValuesShorter n k v vs h hs)
  where
    go :
        (b : Bool)
        → ValuesShorter n (put_member (k, v) vs)
        → ValuesShorter n (if b then (k, v) ∷ (j, w) ∷ vs else (j, w) ∷ put_member (k, v) vs)
    go true rest = (h, (hw, hs))
    go false rest = (hw, rest)

ordered_from-ValuesShorter :
    (n : ℕ) (vs ws : List (Text × Text))
    → ValuesShorter n vs
    → ValuesShorter n ws
    → ValuesShorter n (ordered_from vs ws)
unfolding ordered_from
ordered_from-ValuesShorter n vs [] h k = h
ordered_from-ValuesShorter n vs ((j, w) ∷ ws) h (kw, ks) =
    ordered_from-ValuesShorter n (put_member (j, w) vs) ws (put_member-ValuesShorter n j w vs kw h)
      ks

object_of-MembersShorter :
    (n : ℕ) (r : Result (List (Text × Text))) → MembersShorter n r → MembersShorter n (object_of r)
unfolding object_of
object_of-MembersShorter n (throw e) h = tt
object_of-MembersShorter n (ok vs) h = go (length (unique (names vs)) == length vs)
  where
    go :
        (b : Bool)
        → MembersShorter n (if b then ok (ordered_from [] vs) else throw (error repeated_name))
    go true = ordered_from-ValuesShorter n [] vs tt h
    go false = tt

pub parameter_values-MembersShorter :
    (text : Text) → MembersShorter (length text) (parameter_values text)
unfolding parameter_values entries_of
parameter_values-MembersShorter text =
    go (starts_with 123 (trim text)) (parts text) (parts-PartsShorter text)
  where
    go :
        (b : Bool) (r : Result (List Text))
        → PartsShorter (length text) r
        → MembersShorter (length text) (if b then entries_of r else throw (error not_an_object))
    go false r h = tt
    go true (throw e) h = tt
    go true (ok ps) h =
        object_of-MembersShorter (length text) (entries ps)
          (entries-MembersShorter (length text) ps h)
