-- ===== src/JsonText/Strings.antt =====
-- What `JSON.stringify` writes for a string is read back by `JSON.parse`.
use context_gate.Base.{
  ℕ, suc, ◌+◌, ◌*◌, ◌/◌, ◌%◌, ◌<◌, ◌≤◌, ◌≡◌, ◌≢◌, refl, sym, ap, ◌∙◌, Text, Bool, true, false, not,
  ◌&&◌, ◌||◌, [], ◌∷◌, ◌++◌, append_assoc, some, if◌then◌else◌, ◌==◌, ltb, arith, All, ==_iff,
}
use context_gate.JsonText.{
  StringState, plain, escaped, hex, string_move, go, emit, hex_move, hex_value, hex_digit,
  hex_escape, put_first, read_string, escape_code, unit_text, escape_from, starts_low, is_high,
  is_low, quote_text,
}

hex_value-hex_digit : (d : ℕ) → d < 16 → hex_value (hex_digit d) ≡ some d
hex_value-hex_digit d h = ground arith

move_go :
    (q q' : StringState) (c : ℕ) (s : Text)
    → string_move q c ≡ go q'
    → read_string q (c ∷ s) ≡ read_string q' s
unfolding read_string
move_go q q' c s h = rw (h, read_string)

move_emit :
    (q : StringState) (c d : ℕ) (s : Text)
    → string_move q c ≡ emit d
    → read_string q (c ∷ s) ≡ put_first d (read_string plain s)
unfolding read_string
move_emit q c d s h = rw (h, read_string)

hex_step :
    (n v d : ℕ) (s : Text)
    → d < 16
    → read_string (hex (suc n) v) (hex_digit d ∷ s) ≡ read_string (hex n (v * 16 + d)) s
unfolding string_move hex_move
hex_step n v d s h =
    move_go (hex (suc n) v) (hex n (v * 16 + d)) (hex_digit d) s
      (ap (hex_move (suc n) v) (hex_value-hex_digit d h))

hex_last :
    (v d : ℕ) (s : Text)
    → d < 16
    → read_string (hex 0 v) (hex_digit d ∷ s) ≡ put_first (v * 16 + d) (read_string plain s)
unfolding string_move hex_move
hex_last v d s h =
    move_emit (hex 0 v) (hex_digit d) (v * 16 + d) s (ap (hex_move 0 v) (hex_value-hex_digit d h))

read_string-hex_escape :
    (c : ℕ) (s : Text)
    → c < 65536
    → read_string plain (hex_escape c ++ s) ≡ put_first c (read_string plain s)
unfolding read_string string_move
read_string-hex_escape c s h =
    hex_step 2 0 (c / 4096) _ (omega arith)
    ∙ hex_step 1 (0 * 16 + c / 4096) (c / 256 % 16) _ (omega arith)
    ∙ hex_step 0 ((0 * 16 + c / 4096) * 16 + c / 256 % 16) (c / 16 % 16) _ (omega arith)
    ∙ hex_last (((0 * 16 + c / 4096) * 16 + c / 256 % 16) * 16 + c / 16 % 16) (c % 16) s
        (omega arith)
    ∙ ap (λ v. put_first v (read_string plain s)) (omega arith)

-- A unit that needs no escape stands for itself.
read_string-raw :
    (c : ℕ) (s : Text)
    → c ≢ 34
    → c ≢ 92
    → 32 ≤ c
    → read_string plain (c ∷ s) ≡ put_first c (read_string plain s)
unfolding string_move
read_string-raw c s a b h = move_emit plain c c s (ground arith)

-- A short escape, `\` and a letter.
read_string-short :
    (e c : ℕ) (s : Text)
    → string_move escaped e ≡ emit c
    → read_string plain (92 ∷ e ∷ s) ≡ put_first c (read_string plain s)
unfolding string_move
read_string-short e c s h = move_go plain escaped 92 (e ∷ s) refl ∙ move_emit escaped e c s h

pub if_intro :
    (P : Text → Type 0) (b : Bool) (x y : Text)
    → (b ≡ true → P x)
    → (b ≡ false → P y)
    → P (if b then x else y)
if_intro P true x y h k = h refl
if_intro P false x y h k = k refl

module _ (c : ℕ) (s : Text) where
  abbrev Reads : Text → Type 0
  Reads t = read_string plain (t ++ s) ≡ put_first c (read_string plain s)

  short_Reads : (e k : ℕ) → string_move escaped e ≡ emit k → (c == k) ≡ true → Reads (92 ∷ e ∷ [])
  short_Reads e k h same =
      read_string-short e k s h
      ∙ ap (λ v. put_first v (read_string plain s)) (sym ((==_iff c k).0 same))

  escape_code-Reads : c < 65536 → Reads (escape_code c)
  unfolding escape_code string_move
  escape_code-Reads h = if_intro Reads (c == 34) _ _ (short_Reads 34 34 refl) λ quote.
      if_intro Reads (c == 92) _ _ (short_Reads 92 92 refl) λ backslash.
        if_intro Reads (c == 8) _ _ (short_Reads 98 8 refl) λ _.
          if_intro Reads (c == 12) _ _ (short_Reads 102 12 refl) λ _.
            if_intro Reads (c == 10) _ _ (short_Reads 110 10 refl) λ _.
              if_intro Reads (c == 13) _ _ (short_Reads 114 13 refl) λ _.
                if_intro Reads (c == 9) _ _ (short_Reads 116 9 refl) λ _.
                  if_intro Reads (ltb c 32) _ _ (λ _. read_string-hex_escape c s h)
                    λ printed. read_string-raw c s (ground arith) (ground arith) (ground arith)

  unit_text-Reads :
      (paired low : Bool)
      → c < 65536
      → (paired ≡ true → is_low c ≡ true)
      → Reads (unit_text paired c low)
  unfolding unit_text
  unit_text-Reads true low h is_second =
      let second = is_second refl in
      read_string-raw c s (ground arith) (ground arith) (ground arith)
  unit_text-Reads false low h is_second =
      if_intro Reads (is_high c && low) _ _
        (λ high. read_string-raw c s (ground arith) (ground arith) (ground arith))
        λ _.
          if_intro Reads (is_high c || is_low c) _ _ (λ _. read_string-hex_escape c s h)
            λ _. escape_code-Reads h

-- Behind a high surrogate whose low one comes, the low one comes.
escape_from-read :
    (paired : Bool) (s rest : Text)
    → All (λ c. c < 65536) s
    → (paired ≡ true → starts_low s ≡ true)
    → read_string plain (escape_from paired s ++ 34 ∷ rest) ≡ some (s, rest)
unfolding escape_from
escape_from-read paired [] rest h second = unfold read_string string_move in refl
escape_from-read paired (c ∷ s) rest (small, h) second =
    let later = not paired && (is_high c && starts_low s) in
    ap (read_string plain) (append_assoc (unit_text paired c (starts_low s)) _ _)
    ∙ unit_text-Reads c _ paired (starts_low s) small second
    ∙ ap (put_first c) (escape_from-read later s rest h (λ e. ground arith))

-- A quoted string is read back, whatever text follows it: the text of a string is never cut short,
-- and no code unit of it is lost.
pub read_string-quote_text :
    (s rest : Text)
    → All (λ c. c < 65536) s
    → (r : Text) × (quote_text s ++ rest ≡ 34 ∷ r) × (read_string plain r ≡ some (s, rest))
unfolding quote_text
read_string-quote_text s rest h = (
  (escape_from false s ++ 34 ∷ []) ++ rest,
  refl,
  ap (read_string plain) (append_assoc (escape_from false s) (34 ∷ []) rest)
      ∙ escape_from-read false s rest h (λ e. cc),
)
