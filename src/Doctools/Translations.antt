-- ===== src/Doctools/Translations.antt =====
-- The translations of `Documentation` in doc/build/html/_static/doctools.js. The names that every
-- JavaScript object inherits, such as "constructor", are left out.
pub mod Catalogs
use pyfix.Base.{ℕ, List, [], ◌∷◌, Option, none, some, Text, text_eq, codes, ◌==◌, if◌then◌else◌}

-- A translated text, or the array of its forms.
pub data Translation : Type 0 where
  one : Text → Translation
  forms : List Text → Translation

abbrev pub Messages : Type 0
Messages = List (Text × Translation)

pub record Translations : Type 0 where
  pub messages : Messages
  pub plural_expr : ℕ → ℕ
  pub locale : Text

-- `catalog`: the messages, and what its expression computes.
abbrev pub Catalog : Type 0
Catalog = Translations

unfoldable pub default_plural : ℕ → ℕ
default_plural n = if n == 1 then 0 else 1

unfoldable pub no_translations : Translations
unfolding default_plural
no_translations = record { messages = []; plural_expr = default_plural; locale = codes "unknown" }

-- `TRANSLATIONS[string]`
unfoldable pub message : Text → Messages → Option Translation
message string [] = none
message string ((k, t) ∷ messages) =
    let rest = message string messages in if text_eq k string then some t else rest

-- `translated[0]`, undefined for an empty array.
unfoldable pub first_form : Translation → Option Text
first_form (one t) = some t
first_form (forms []) = none
first_form (forms (t ∷ ts)) = some t

unfoldable pub gettext : Translations → Text → Option Text
unfolding message first_form
gettext d string = elim (message string d.messages) [ none ↦ some string | some t ↦ first_form t ]

-- An exception is `none`: there is no `PLURALEXPR` to call.
unfoldable pub ngettext : Translations → Text → Text → ℕ → Option Text
unfolding message
ngettext d singular plural n = elim (message singular d.messages) [
  | none ↦ some (if n == 1 then singular else plural)
  | some t ↦ none
]

-- `TRANSLATIONS[key] = value`
unfoldable pub set_message : Text → Translation → Messages → Messages
set_message key t [] = (key, t) ∷ []
set_message key t ((k, u) ∷ messages) =
    let rest = set_message key t messages in
    if text_eq k key then (k, t) ∷ messages else (k, u) ∷ rest

unfoldable pub add_messages : Messages → Messages → Messages
add_messages [] messages = messages
add_messages ((k, t) ∷ more) messages = add_messages more (set_message k t messages)

unfoldable pub add_translations : Catalog → Translations → Translations
add_translations catalog d = record {
  messages = add_messages catalog.messages d.messages;
  plural_expr = catalog.plural_expr;
  locale = catalog.locale;
}
