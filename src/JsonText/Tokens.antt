-- ===== src/JsonText/Tokens.antt =====
-- What the readers of strings, numbers and words leave is shorter than what they were given.
use context_gate.Base.{
  ℕ, suc, ◌<◌, ◌≤◌, arith, Text, Bool, true, false, [], ◌∷◌, Option, none, some, if◌then◌else◌,
  ◌==◌, length,
}
use context_gate.Json.{Json, num}
use context_gate.JsonText.{
  skip_space, StringState, StringMove, close, refuse, go, emit, plain, string_move, put_first,
  read_string, NumberState, first, number_ends, number_move, read_number, behind, Read, mapped,
  worded, read_word, expect,
}

-- What is left is shorter.
abbrev pub RestBelow : {A : Type 0} → ℕ → Read A → Type 0
RestBelow n none = Unit
RestBelow n (some (v, r)) = length r < n

pub RestBelow-le : {A : Type 0} (m n : ℕ) (o : Read A) → m ≤ n → RestBelow m o → RestBelow n o
RestBelow-le m n none le h = tt
RestBelow-le m n (some (v, r)) le h = omega arith

pub mapped-RestBelow :
    {A B : Type 0} (f : A → B) (n : ℕ) (o : Read A) → RestBelow n o → RestBelow n (mapped f o)
mapped-RestBelow f n none h = tt
mapped-RestBelow f n (some (v, r)) h = h

pub length-skip_space : (s : Text) → length (skip_space s) ≤ length s
unfolding skip_space
length-skip_space [] = omega arith
length-skip_space (c ∷ s) = ground (arith, length-skip_space s)

pub put_first-RestBelow : (c n : ℕ) (o : Read Text) → RestBelow n o → RestBelow n (put_first c o)
put_first-RestBelow c n none h = tt
put_first-RestBelow c n (some (v, r)) h = h

pub read_string-RestBelow : (q : StringState) (s : Text) → RestBelow (length s) (read_string q s)
unfolding read_string
read_string-RestBelow q [] = tt
read_string-RestBelow q (c ∷ s) = go' (string_move q c) (λ q. read_string-RestBelow q s)
  where
    go' :
        (m : StringMove)
        → ((q : StringState) → RestBelow (length s) (read_string q s))
        → RestBelow (suc (length s)) (elim m as (λ _. Read Text) [
          | close ↦ some ([], s)
          | refuse ↦ none
          | go q' ↦ read_string q' s
          | emit d ↦ put_first d (read_string plain s)
        ])
    go' close h = omega arith
    go' refuse h = tt
    go' (go q') h = RestBelow-le (length s) (suc (length s)) (read_string q' s) (omega arith) (h q')
    go' (emit d) h =
        put_first-RestBelow d (suc (length s)) (read_string plain s)
          (RestBelow-le (length s) (suc (length s)) (read_string plain s) (omega arith) (h plain))

pub read_number-RestBelow :
    (q : NumberState) (s : Text) → RestBelow (suc (length s)) (read_number q s)
unfolding read_number
read_number-RestBelow q [] = ended (number_ends q)
  where
    ended : (b : Bool) → RestBelow {A = Text} 1 (if b then some ([], []) else none)
    ended true = omega arith
    ended false = tt
read_number-RestBelow q (c ∷ s) = moved (number_move q c) (λ q. read_number-RestBelow q s)
  where
    ended :
        (b : Bool)
        → RestBelow {A = Text} (suc (suc (length s))) (if b then some ([], c ∷ s) else none)
    ended true = omega arith
    ended false = tt

    moved :
        (m : Option NumberState)
        → ((q : NumberState) → RestBelow (suc (length s)) (read_number q s))
        → RestBelow (suc (suc (length s))) (elim m as (λ _. Read Text) [
          | none ↦ if number_ends q then some ([], c ∷ s) else none
          | some q' ↦ put_first c (read_number q' s)
        ])
    moved none h = ended (number_ends q)
    moved (some q') h = put_first-RestBelow c (suc (suc (length s))) (read_number q' s) (
        RestBelow-le (suc (length s)) (suc (suc (length s))) (read_number q' s) (omega arith)
          (h q'))

pub read_number-first : (s : Text) → RestBelow (length s) (read_number first s)
unfolding read_number
read_number-first [] = tt
read_number-first (c ∷ s) = moved (number_move first c)
  where
    moved :
        (m : Option NumberState)
        → RestBelow (suc (length s)) (elim m as (λ _. Read Text) [
          | none ↦ if number_ends first then some ([], c ∷ s) else none
          | some q' ↦ put_first c (read_number q' s)
        ])
    moved none = tt
    moved (some q') =
        put_first-RestBelow c (suc (length s)) (read_number q' s) (read_number-RestBelow q' s)

-- What is left behind a word.
abbrev pub WordBelow : ℕ → Option Text → Type 0
WordBelow n none = Unit
WordBelow n (some r) = length r < n

pub behind-WordBelow : (w s : Text) → WordBelow (suc (length s)) (behind w s)
unfolding behind
behind-WordBelow [] s = omega arith
behind-WordBelow (c ∷ w) [] = tt
behind-WordBelow (c ∷ w) (d ∷ s) = read (c == d) (behind w s) (behind-WordBelow w s)
  where
    read :
        (b : Bool) (o : Option Text)
        → WordBelow (suc (length s)) o
        → WordBelow (suc (suc (length s))) (if b then o else none)
    read true none h = tt
    read true (some r) h = omega arith
    read false o h = tt

pub behind-word : (c : ℕ) (w s : Text) → WordBelow (length s) (behind (c ∷ w) s)
unfolding behind
behind-word c w [] = tt
behind-word c w (d ∷ s) = read (c == d) (behind w s) (behind-WordBelow w s)
  where
    read :
        (b : Bool) (o : Option Text)
        → WordBelow (suc (length s)) o
        → WordBelow (suc (length s)) (if b then o else none)
    read true o h = h
    read false o h = tt

pub worded-RestBelow :
    (n : ℕ) (v : Json) (o : Option Text) (other : Read Json)
    → WordBelow n o
    → RestBelow n other
    → RestBelow n (worded v o other)
worded-RestBelow n v none other h k = k
worded-RestBelow n v (some r) other h k = h

pub read_word-RestBelow : (s : Text) → RestBelow (length s) (read_word s)
unfolding read_word
read_word-RestBelow s = worded-RestBelow (length s) _ _ _ (behind-word _ _ s) (
    worded-RestBelow (length s) _ _ _ (behind-word _ _ s) (
      worded-RestBelow (length s) _ _ _ (behind-word _ _ s)
        (mapped-RestBelow num (length s) (read_number first s) (read_number-first s))))

pub expect-WordBelow : (c : ℕ) (s : Text) → WordBelow (length s) (expect c s)
unfolding expect
expect-WordBelow c s = read (skip_space s) (length-skip_space s)
  where
    read :
        (t : Text)
        → length t ≤ length s
        → WordBelow
            (length s)
            (elim t as (λ _. Option Text) [ [] ↦ none | d ∷ r ↦ if d == c then some r else none ])
    read [] le = tt
    read (d ∷ r) le = found (d == c)
      where
        found : (b : Bool) → WordBelow (length s) (if b then some r else none)
        found true = omega arith
        found false = tt
