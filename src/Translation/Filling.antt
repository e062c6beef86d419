-- ===== src/Translation/Filling.antt =====
-- What is not supplied stays as it is written.
use context_gate.Base.{
  ◌≡◌, refl, sym, ap, ◌∙◌, ◌⊎◌, inl, inr, arith, Text, Bool, true, false, ◌&&◌, List, [], ◌∷◌, ◌++◌,
  append-nil, append_assoc, Option, none, some, ◌==◌, ==_iff,
}
use context_gate.Parameters.Values.{value_of}
use context_gate.Translation.{
  Locale, fill, fill_word, is_word, ends_word, supplied, translate, translated, format_of,
  leading_space, trailing_space,
}

-- Neither a text nor an open brace and the word behind it changes where no value is supplied.
fill_nothing :
    (s : Text) → (fill [] s ≡ s) × ((word : Text) → fill_word [] word s ≡ 123 ∷ (word ++ s))
unfolding fill fill_word value_of
fill_nothing [] = (refl, λ word. ap (◌∷◌ 123) (sym (append-nil word)))
fill_nothing (c ∷ s) =
    let (plain, open_word) = fill_nothing s in
    (
      outside (c == 123) refl plain (open_word []),
      λ word.
          inside word (is_word c) ((c == 125) && ends_word word) (c == 123) refl refl refl plain
            open_word,
    )
  where
    outside :
        (b : Bool)
        → (c == 123) ≡ b
        → fill [] s ≡ s
        → fill_word [] [] s ≡ 123 ∷ s
        → (elim b as (λ _. Text) [ true ↦ fill_word [] [] s | false ↦ c ∷ fill [] s ]) ≡ c ∷ s
    outside true e plain word = word ∙ ap (λ d. d ∷ s) (sym ((==_iff c 123).0 e))
    outside false e plain word = ap (◌∷◌ c) plain

    inside :
        (word : Text) (a b d : Bool)
        → is_word c ≡ a
        → (c == 125) && ends_word word ≡ b
        → (c == 123) ≡ d
        → fill [] s ≡ s
        → ((w : Text) → fill_word [] w s ≡ 123 ∷ (w ++ s))
        → (elim a as (λ _. Text) [
          | true ↦ fill_word [] (word ++ c ∷ []) s
          | false ↦ elim b as (λ _. Text) [
            | true ↦ supplied [] word ++ fill [] s
            | false ↦ elim d as (λ _. Text) [
              | true ↦ 123 ∷ (word ++ fill_word [] [] s)
              | false ↦ 123 ∷ (word ++ c ∷ fill [] s)
            ]
          ]
        ])
          ≡ 123 ∷ (word ++ c ∷ s)
    inside word true b d ea eb ed plain later =
        later (word ++ c ∷ []) ∙ ap (◌∷◌ 123) (append_assoc word (c ∷ []) s)
    inside word false true d ea eb ed plain later =
        ap (λ t. 123 ∷ ((word ++ 125 ∷ []) ++ t)) plain
        ∙ ap (◌∷◌ 123) (append_assoc word (125 ∷ []) s)
        ∙ ap (λ e. 123 ∷ (word ++ e ∷ s))
            (sym ((==_iff c 125).0 (left (c == 125) (ends_word word) eb)))
      where
        left : (x y : Bool) → x && y ≡ true → x ≡ true
        left x y h = ground arith
    inside word false false true ea eb ed plain later =
        ap (λ t. 123 ∷ (word ++ t)) (later [] ∙ ap (λ e. e ∷ s) (sym ((==_iff c 123).0 ed)))
    inside word false false false ea eb ed plain later = ap (λ t. 123 ∷ (word ++ c ∷ t)) plain

-- The translation of a text, where the dictionary of the language has one: the text itself otherwise.
abbrev pub Translates : List (Text × Text) → Locale → Text → Text → Type 0
Translates dictionary language text result =
    ((translated dictionary language text ≡ none) × (result ≡ text))
    ⊎ ((translation : Text) × (translated dictionary language text ≡ some translation)
        × (result ≡ leading_space text ++ (translation ++ trailing_space text)))

-- Without values, a message is the text itself, every brace and word in it included, or its translation
-- between the text's own white space.
pub translate-Translates :
    (dictionary : List (Text × Text)) (language : Locale) (text : Text)
    → Translates dictionary language text (translate dictionary language text [])
unfolding translate format_of
translate-Translates dictionary language text = go (translated dictionary language text) refl
  where
    go :
        (o : Option Text)
        → translated dictionary language text ≡ o
        → ((translated dictionary language text ≡ none) × (fill [] (format_of text o) ≡ text))
          ⊎ ((translation : Text) × (translated dictionary language text ≡ some translation)
              × (fill [] (format_of text o)
                  ≡ leading_space text ++ (translation ++ trailing_space text)))
    go none e = inl (e, (fill_nothing text).0)
    go (some translation) e =
        inr (translation, e, (fill_nothing (format_of text (some translation))).0)
