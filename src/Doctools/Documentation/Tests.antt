-- ===== src/Doctools/Documentation/Tests.antt =====
-- Pages of the documentation.
use pyfix.Base.{◌≡◌, refl, true, false, [], ◌∷◌, ◌++◌, none, some, codes, ◌↔◌}
use pyfix.Doctools.{split}
use pyfix.Doctools.Translations.{
  one, forms, Translations, no_translations, gettext, ngettext, add_translations, message,
  first_form,
}
use pyfix.Doctools.Translations.Catalogs.{or_else, gettext-add_translations}
use pyfix.Doctools.Documentation.{drop_last, get_current_url, make_url, highlight_terms}
use pyfix.Doctools.Documentation.Togglers.{toggler, clicked, clicked-toggler}
use pyfix.Doctools.Documentation.Addresses.{get_current_url-local}

-- The extension of the page loses its last character.
get_current_url_runs :
    (get_current_url (codes "./") (codes "/docs/index.html") ≡ codes "index.htm")
    × (get_current_url (codes "../") (codes "/docs/api/index.html") ≡ codes "api/index.htm")
    × (make_url (codes "..") (codes "index.html") ≡ codes "../index.html")
    × (highlight_terms ((codes "highlight", codes "fix  session" ∷ []) ∷ [])
        ≡ codes "fix" ∷ codes "session" ∷ [])
unfolding get_current_url make_url highlight_terms drop_last
get_current_url_runs = (refl, refl, refl, refl)

get_current_url-local_example :
    get_current_url (codes "./") (codes "/docs" ++ b'/' ∷ (codes "index.htm" ++ b'l' ∷ []))
    ≡ codes "index.htm"
unfolding split
get_current_url-local_example =
    get_current_url-local (codes "./") (codes "/docs") (codes "index.htm") b'l' (refl, (refl, tt))
      refl

clicked-toggler_runs :
    clicked 3 (toggler (codes "_static/") true) ≡ toggler (codes "_static/") false
clicked-toggler_runs = clicked-toggler 3 (codes "_static/") true

abbrev german : Translations
german = record {
  messages =
      (codes "Searching", one (codes "Suche"))
      ∷ (codes "page", forms (codes "Seite" ∷ codes "Seiten" ∷ []))
      ∷ [];
  plural_expr = λ n. n;
  locale = codes "de";
}

gettext-add_translations_runs :
    (gettext (add_translations german no_translations) (codes "page") ≡ some (codes "Seite"))
    × ((ngettext (add_translations german no_translations) (codes "page") (codes "pages") 2 ≡ none)
        ↔ ¬ (
            or_else
              (message (codes "page") german.messages)
              (message (codes "page") no_translations.messages)
            ≡ none))
unfolding message first_form
gettext-add_translations_runs =
    gettext-add_translations german no_translations (codes "page") (codes "pages") 2
      (refl, (refl, tt))
