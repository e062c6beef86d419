-- ===== src/Translation.antt =====
-- web/src/i18n.ts: the language of a page, and the text of a message in it. The dictionary of
-- web/src/locales/zh-CN.json is the argument `dictionary`.
pub mod Filling
pub mod Pages
pub mod Tests
use context_gate.Base.{
  ℕ, suc, Text, codes, Bool, true, false, not, ◌&&◌, ◌||◌, List, [], ◌∷◌, ◌++◌, Option, none, some,
  if◌then◌else◌, ◌==◌, leb, text_eq,
}
use context_gate.Parameters.{is_space, trim}
use context_gate.Parameters.Values.{value_of}

pub data Locale : Type 0 where
  en zh_cn : Locale

abbrev pub locale_text : Locale → Text
locale_text en = codes "en"
locale_text zh_cn = codes "zh-CN"

abbrev pub same_locale : Locale → Locale → Bool
same_locale en en = true
same_locale zh_cn zh_cn = true
same_locale _ _ = false

-- `none` is the `null` of a key that is not stored.
abbrev pub valid_locale : Option Text → Locale
valid_locale none = en
valid_locale (some value) = if text_eq value (codes "zh-CN") then zh_cn else en

-- The browser's storage, which the pages share: what is stored for the language, and whether it is
-- denied.
pub record Shared : Type 0 where
  pub denied : Bool
  pub stored : Option Text

-- A page: its language, and how often its listeners were called.
pub record LocalePage : Type 0 where
  pub locale : Locale
  pub notified : ℕ

unfoldable pub saved_locale : Shared → Locale
saved_locale shared = if shared.denied then en else valid_locale shared.stored

unfoldable pub update_locale : Locale → LocalePage → LocalePage
update_locale next page =
    if same_locale page.locale next
    then page
    else record { locale = next; notified = suc page.notified }

-- `setLocale` on a page, and what it leaves in storage.
unfoldable pub set_locale : Locale → LocalePage × Shared → LocalePage × Shared
set_locale next (page, shared) = (
  update_locale next page,
  (if shared.denied
      then shared
      else record shared { stored = some (locale_text ((update_locale next page).locale)) }),
)

-- The handler of the event `storage`; `none` is the key of a cleared storage.
unfoldable pub storage_changed : Option Text → Shared → LocalePage → LocalePage
storage_changed none shared page = update_locale (saved_locale shared) page
storage_changed (some key) shared page =
    if text_eq key (codes "mcpdbhub.locale.v1")
    then update_locale (saved_locale shared) page
    else page

-- `\w`
abbrev pub is_word : ℕ → Bool
is_word c =
    (leb 48 c && leb c 57) || ((leb 65 c && leb c 90) || ((leb 97 c && leb c 122) || (c == 95)))

-- The placeholder with its braces, or the value that is supplied for it.
abbrev supplied : List (Text × Text) → Text → Text
supplied values key = elim (value_of values key) [
  | none ↦ 123 ∷ (key ++ 125 ∷ [])
  | some value ↦ value
]

abbrev ends_word : Text → Bool
ends_word [] = false
ends_word (c ∷ s) = true

-- `format.replace(/\{(\w+)\}/g, …)`, outside a brace, and behind one and the word that follows it.
unfoldable mutual
  pub fill : List (Text × Text) → Text → Text
  fill values [] = []
  fill values (c ∷ s) = elim (c == 123) [ true ↦ fill_word values [] s | false ↦ c ∷ fill values s ]

  pub fill_word : List (Text × Text) → Text → Text → Text
  fill_word values word [] = 123 ∷ word
  fill_word values word (c ∷ s) = elim (is_word c) [
    | true ↦ fill_word values (word ++ c ∷ []) s
    | false ↦ elim ((c == 125) && ends_word word) [
      | true ↦ supplied values word ++ fill values s
      | false ↦ elim (c == 123) [
        | true ↦ 123 ∷ (word ++ fill_word values [] s)
        | false ↦ 123 ∷ (word ++ c ∷ fill values s)
      ]
    ]
  ]

-- `text.match(/^\s*/)` and `text.match(/\s*$/)`
unfoldable pub leading_space : Text → Text
leading_space [] = []
leading_space (c ∷ s) = let more = c ∷ leading_space s in if is_space c then more else []

unfoldable pub all_space : Text → Bool
all_space [] = true
all_space (c ∷ s) = is_space c && all_space s

unfoldable pub trailing_space : Text → Text
trailing_space [] = []
trailing_space (c ∷ s) = let later = trailing_space s in if all_space (c ∷ s) then c ∷ s else later

pub translated : List (Text × Text) → Locale → Text → Option Text
translated dictionary en text = none
translated dictionary zh_cn text = value_of dictionary (trim text)

format_of : Text → Option Text → Text
format_of text none = text
format_of text (some translation) = leading_space text ++ (translation ++ trailing_space text)

unfoldable pub translate : List (Text × Text) → Locale → Text → List (Text × Text) → Text
unfolding translated format_of
translate dictionary language text values =
    fill values (format_of text (translated dictionary language text))
