-- ===== src/Translation/Pages.antt =====
-- The language of the pages that share one storage.
use context_gate.Base.{suc, ◌≡◌, refl, ◌∙◌, codes, false, none, some, if◌then◌else◌, text_eq}
use context_gate.Translation.{
  Locale, en, zh_cn, locale_text, same_locale, valid_locale, Shared, LocalePage, saved_locale,
  update_locale, set_locale, storage_changed,
}

update_locale_lem : (next : Locale) (page : LocalePage) → (update_locale next page).locale ≡ next
unfolding update_locale
update_locale_lem en page = go page.locale refl
  where
    go :
        (l : Locale)
        → page.locale ≡ l
        → LocalePage.locale (
            if same_locale l en then page else record { locale = en; notified = suc page.notified })
          ≡ en
    go en e = e
    go zh_cn e = refl
update_locale_lem zh_cn page = go page.locale refl
  where
    go :
        (l : Locale)
        → page.locale ≡ l
        → LocalePage.locale (
            if same_locale l zh_cn
            then page
            else record { locale = zh_cn; notified = suc page.notified })
          ≡ zh_cn
    go zh_cn e = e
    go en e = refl

valid_locale-locale_text : (l : Locale) → valid_locale (some (locale_text l)) ≡ l
unfolding text_eq
valid_locale-locale_text en = refl
valid_locale-locale_text zh_cn = refl

-- Whatever a page's language was, it is the one that was set, and where storage works, it is the one that a
-- page opened later reads, and the one that every other page has behind its event, of the key or of all.
pub set_locale_shared :
    (next : Locale) (page other : LocalePage) (shared : Shared)
    → (((set_locale next (page, shared)).0).locale ≡ next)
      × (shared.denied ≡ false
          → (saved_locale ((set_locale next (page, shared)).1) ≡ next)
            × ((storage_changed
                  (some (codes "mcpdbhub.locale.v1"))
                  ((set_locale next (page, shared)).1)
                  other).locale
                ≡ next)
            × ((storage_changed none ((set_locale next (page, shared)).1) other).locale ≡ next))
unfolding set_locale saved_locale storage_changed text_eq
set_locale_shared next page other shared = (
  update_locale_lem next page,
  λ works.
      let kept = saved works in
      (kept, update_locale_lem _ other ∙ kept, update_locale_lem _ other ∙ kept),
)
  where
    saved : shared.denied ≡ false → saved_locale ((set_locale next (page, shared)).1) ≡ next
    saved works = rw works (rw (update_locale_lem next page) (valid_locale-locale_text next))
