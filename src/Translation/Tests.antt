-- ===== src/Translation/Tests.antt =====
-- Runs of the messages and of the language of two pages.
use context_gate.Base.{◌≡◌, refl, Text, codes, text_eq, false, List, [], ◌∷◌, none, some}
use context_gate.Parameters.{trim, trim_start, trim_end}
use context_gate.Parameters.Values.{value_of}
use context_gate.Translation.{
  en, zh_cn, LocalePage, Shared, saved_locale, set_locale, storage_changed, fill, fill_word,
  leading_space, all_space, trailing_space, translate,
}
use context_gate.Translation.Filling.{Translates, translate-Translates}
use context_gate.Translation.Pages.{set_locale_shared}

abbrev words : List (Text × Text)
words = (codes "Case {number}", codes "No {number}") ∷ []

-- A value is not read again for placeholders.
filled_case :
    translate words zh_cn (codes " Case {number} ") ((codes "number", codes "{number}") ∷ [])
    ≡ codes " No {number} "
unfolding translate fill fill_word trim trim_start trim_end value_of text_eq leading_space all_space
    trailing_space
filled_case = refl

translate-Translates_example :
    Translates words zh_cn (codes "{a}{") (translate words zh_cn (codes "{a}{") [])
translate-Translates_example = translate-Translates words zh_cn (codes "{a}{")

abbrev english_page : LocalePage
english_page = record { locale = en; notified = 0 }

abbrev shared : Shared
shared = record { denied = false; stored = none }

set_locale_shared_example :
    (((set_locale zh_cn (english_page, shared)).0).locale ≡ zh_cn)
    × (shared.denied ≡ false
        → (saved_locale ((set_locale zh_cn (english_page, shared)).1) ≡ zh_cn)
          × ((storage_changed
                (some (codes "mcpdbhub.locale.v1"))
                ((set_locale zh_cn (english_page, shared)).1)
                english_page).locale
              ≡ zh_cn)
          × ((storage_changed none
                ((set_locale zh_cn (english_page, shared)).1)
                english_page).locale
              ≡ zh_cn))
set_locale_shared_example = set_locale_shared zh_cn english_page english_page shared
