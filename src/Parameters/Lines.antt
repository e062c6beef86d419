-- ===== src/Parameters/Lines.antt =====
-- A line of `parameterJSON` is one part, and its key is found in it.
use context_gate.Base.{
  ℕ, ◌/◌, ◌%◌, ◌<◌, ◌≡◌, ◌≢◌, refl, sym, ap, ◌∙◌, Text, codes, Bool, true, false, not, ◌&&◌, ◌||◌,
  [], ◌∷◌, ◌++◌, append_assoc, append-nil, Option, some, arith, ◌==◌, ltb, All,
}
use context_gate.Base.Int.{ℤ, pos}
use context_gate.JsonText.{
  hex_digit, hex_escape, escape_code, unit_text, escape_from, starts_low, is_high, is_low,
  quote_text,
}
use context_gate.JsonText.Strings.{if_intro}
use context_gate.Parameters.{
  bare, quoted, scan_move, opening, inside, inside_escape, key_move, onward, put_key, match_key,
}
use context_gate.Parameters.Split.{scan_run, scan_run-append, IsWhole}
use context_gate.Parameters.Values.{member_line}

hex_digit_solid : (d : ℕ) → d < 16 → (hex_digit d ≢ 34) × (hex_digit d ≢ 92)
hex_digit_solid d h = (ground arith, ground arith)

abbrev put_keys : Text → Option (Text × Text) → Option (Text × Text)
put_keys [] o = o
put_keys (c ∷ s) o = put_key c (put_keys s o)

-- A machine that goes through the text of a string, over plain units and escapes alike.
record Passes (P : Text → Type 0) : Type 0 where
  nothing : P []
  unit : (c : ℕ) (s : Text) → c ≢ 34 → c ≢ 92 → P s → P (c ∷ s)
  escape : (e : ℕ) (s : Text) → 33 < e → e < 128 → P s → P (92 ∷ e ∷ s)

module _ (P : Text → Type 0) (p : Passes P) where
  passes_hex : (c : ℕ) → c < 65536 → P (hex_escape c)
  passes_hex c h =
      let digit : (d : ℕ) (s : Text) → d < 16 → P s → P (hex_digit d ∷ s) = λ d s k t.
        Passes.unit p (hex_digit d) s ((hex_digit_solid d k).0) ((hex_digit_solid d k).1) t in
      Passes.escape p 117 _ (omega arith) (omega arith) (
        digit (c / 4096) _ (omega arith) (
          digit (c / 256 % 16) _ (omega arith) (
            digit (c / 16 % 16) _ (omega arith)
              (digit (c % 16) _ (omega arith) (Passes.nothing p)))))

  passes_short : (e : ℕ) → 33 < e → e < 128 → P (92 ∷ e ∷ [])
  passes_short e h k = Passes.escape p e [] h k (Passes.nothing p)

  passes_raw : (c : ℕ) → c ≢ 34 → c ≢ 92 → P (c ∷ [])
  passes_raw c h k = Passes.unit p c [] h k (Passes.nothing p)

  passes_code : (c : ℕ) → c < 65536 → P (escape_code c)
  unfolding escape_code
  passes_code c h =
      if_intro P (c == 34) _ _ (λ _. passes_short 34 (omega arith) (omega arith))
        λ quote.
          if_intro P (c == 92) _ _ (λ _. passes_short 92 (omega arith) (omega arith))
            λ backslash.
              if_intro P (c == 8) _ _ (λ _. passes_short 98 (omega arith) (omega arith))
                λ _.
                  if_intro P (c == 12) _ _ (λ _. passes_short 102 (omega arith) (omega arith))
                    λ _.
                      if_intro P (c == 10) _ _ (λ _. passes_short 110 (omega arith) (omega arith))
                        λ _.
                          if_intro P (c == 13) _ _
                            (λ _. passes_short 114 (omega arith) (omega arith))
                            λ _.
                              if_intro P (c == 9) _ _
                                (λ _. passes_short 116 (omega arith) (omega arith))
                                λ _.
                                  if_intro P (ltb c 32) _ _ (λ _. passes_hex c h)
                                    λ _. passes_raw c (ground arith) (ground arith)

  passes_unit :
      (paired : Bool) (c : ℕ) (low : Bool)
      → c < 65536
      → (paired ≡ true → is_low c ≡ true)
      → P (unit_text paired c low)
  unfolding unit_text
  passes_unit true c low h is_second =
      let second = is_second refl in passes_raw c (ground arith) (ground arith)
  passes_unit false c low h is_second =
      if_intro P (is_high c && low) _ _ (λ high. passes_raw c (ground arith) (ground arith))
        λ _. if_intro P (is_high c || is_low c) _ _ (λ _. passes_hex c h) λ _. passes_code c h

-- The scan stays inside the quotes.
scan_Passes : (d : ℤ) → Passes (λ s. scan_run (quoted d) s ≡ some (quoted d))
unfolding scan_run scan_move
scan_Passes d = record {
  nothing = refl;
  unit = λ c s h k t. rw (unit_move c h k, scan_run) t;
  escape = λ e s h k t. t;
}
  where
    unit_move : (c : ℕ) → c ≢ 34 → c ≢ 92 → scan_move (quoted d) c ≡ some (quoted d)
    unit_move c h k = ground arith

-- The key's expression goes on inside the quotes.
key_Passes :
    (rest : Text) → Passes (λ s. match_key inside (s ++ rest) ≡ put_keys s (match_key inside rest))
unfolding match_key key_move
key_Passes rest = record {
  nothing = refl;
  unit = λ c s h k t. rw (unit_move c h k, match_key) (ap (put_key c) t);
  escape = λ e s h k t. rw (escape_move e h k, match_key) (ap (λ o. put_key 92 (put_key e o)) t);
}
  where
    unit_move : (c : ℕ) → c ≢ 34 → c ≢ 92 → key_move inside c ≡ onward inside
    unit_move c h k = ground arith

    escape_move : (e : ℕ) → 33 < e → e < 128 → key_move inside_escape e ≡ onward inside
    escape_move e h k = ground arith

put_keys-append :
    (s t : Text) (o : Option (Text × Text)) → put_keys (s ++ t) o ≡ put_keys s (put_keys t o)
put_keys-append [] t o = refl
put_keys-append (c ∷ s) t o = ap (put_key c) (put_keys-append s t o)

put_keys_lem : (s k r : Text) → put_keys s (some (k, r)) ≡ some (s ++ k, r)
put_keys_lem [] k r = refl
put_keys_lem (c ∷ s) k r = ap (put_key c) (put_keys_lem s k r)

scan_run-escape_from :
    (d : ℤ) (paired : Bool) (s : Text)
    → All (λ c. c < 65536) s
    → (paired ≡ true → starts_low s ≡ true)
    → scan_run (quoted d) (escape_from paired s) ≡ some (quoted d)
unfolding escape_from scan_run
scan_run-escape_from d paired [] h second = refl
scan_run-escape_from d paired (c ∷ s) (small, h) second =
    let later = not paired && (is_high c && starts_low s) in
    scan_run-append (quoted d) (quoted d) (unit_text paired c (starts_low s)) (escape_from later s)
      (passes_unit _ (scan_Passes d) paired c (starts_low s) small second)
    ∙ scan_run-escape_from d later s h (λ e. ground arith)

scan_run-quote_text :
    (k t : Text)
    → All (λ c. c < 65536) k
    → scan_run (bare (pos 0)) (quote_text k ++ t) ≡ scan_run (bare (pos 0)) t
unfolding quote_text scan_run scan_move
scan_run-quote_text k t h =
    ap (scan_run (quoted (pos 0))) (append_assoc (escape_from false k) (34 ∷ []) t)
    ∙ scan_run-append (quoted (pos 0)) (quoted (pos 0)) (escape_from false k) (34 ∷ t)
        (scan_run-escape_from (pos 0) false k h (λ e. cc))

pub quote_text-IsWhole : (k : Text) → All (λ c. c < 65536) k → IsWhole (quote_text k)
quote_text-IsWhole k h =
    ap (scan_run (bare (pos 0))) (sym (append-nil (quote_text k)))
    ∙ (unfold scan_run in scan_run-quote_text k [] h)

pub member_line-IsWhole :
    (k v : Text) → All (λ c. c < 65536) k → IsWhole v → IsWhole (member_line (k, v))
unfolding member_line scan_run scan_move
member_line-IsWhole k v h w = scan_run-quote_text k (codes ": " ++ v) h ∙ w

match_key-escape_from :
    (paired : Bool) (s rest : Text)
    → All (λ c. c < 65536) s
    → (paired ≡ true → starts_low s ≡ true)
    → match_key inside (escape_from paired s ++ rest)
      ≡ put_keys (escape_from paired s) (match_key inside rest)
unfolding escape_from
match_key-escape_from paired [] rest h second = refl
match_key-escape_from paired (c ∷ s) rest (small, h) second =
    let later = not paired && (is_high c && starts_low s) in
    let unit = unit_text paired c (starts_low s) in
    ap (match_key inside) (append_assoc unit (escape_from later s) rest)
    ∙ passes_unit _ (key_Passes (escape_from later s ++ rest)) paired c (starts_low s) small second
    ∙ ap (put_keys unit) (match_key-escape_from later s rest h (λ e. ground arith))
    ∙ sym (put_keys-append unit (escape_from later s) (match_key inside rest))

-- The key of a line is found, and what is behind its colon.
pub match_key-quote_text :
    (k rest : Text)
    → All (λ c. c < 65536) k
    → match_key opening (quote_text k ++ 58 ∷ rest) ≡ some (quote_text k, rest)
unfolding quote_text match_key key_move
match_key-quote_text k rest h = ap (put_key 34) (
    ap (match_key inside) (append_assoc (escape_from false k) (34 ∷ []) (58 ∷ rest))
    ∙ match_key-escape_from false k (34 ∷ 58 ∷ rest) h (λ e. cc)
    ∙ put_keys_lem (escape_from false k) (34 ∷ []) rest)
