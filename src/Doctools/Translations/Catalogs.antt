-- ===== src/Doctools/Translations/Catalogs.antt =====
-- A catalog that is added to the translations.
use pyfix.Base.{
  ℕ, ◌≡◌, ◌↔◌, refl, [], ◌∷◌, Option, none, some, Text, text_eq, text_eq_iff, arith, if◌then◌else◌,
}
use pyfix.Doctools.Translations.{
  Translation, Messages, Translations, message, first_form, gettext, ngettext, set_message,
  add_messages, add_translations,
}

message-set_message :
    (key k : Text) (t : Translation) (messages : Messages)
    → message key (set_message k t messages)
      ≡ (if text_eq k key then some t else message key messages)
unfolding message set_message
message-set_message key k t [] = ground arith
message-set_message key k t ((x, u) ∷ messages) = ground (
  arith,
  message-set_message key k t messages,
  text_eq_iff x k,
  text_eq_iff k key,
  text_eq_iff x key,
)

-- No message of a catalog has its key twice.
abbrev pub AreDistinct : Messages → Type 0
AreDistinct [] = Unit
AreDistinct ((k, t) ∷ messages) = (message k messages ≡ none) × AreDistinct messages

abbrev pub or_else : Option Translation → Option Translation → Option Translation
or_else none other = other
or_else (some t) other = some t

message-add_messages :
    (key : Text) (more messages : Messages)
    → AreDistinct more
    → message key (add_messages more messages) ≡ or_else (message key more) (message key messages)
unfolding add_messages message
message-add_messages key [] messages h = refl
message-add_messages key ((k, t) ∷ more) messages (h, hs) = ground (
  arith,
  message-add_messages key more (set_message k t messages) hs,
  message-set_message key k t messages,
  text_eq_iff k key,
  h,
)

-- With a catalog that is added, a text that the catalog has is translated as there, and any other
-- text as before; a plural form is found exactly for the texts without a translation.
pub gettext-add_translations :
    (catalog d : Translations) (string plural : Text) (n : ℕ)
    → AreDistinct catalog.messages
    → (gettext (add_translations catalog d) string ≡ elim (message string catalog.messages) [
      | none ↦ gettext d string
      | some t ↦ first_form t
    ])
      × ((ngettext (add_translations catalog d) string plural n ≡ none)
          ↔ ¬ (or_else (message string catalog.messages) (message string d.messages) ≡ none))
unfolding gettext ngettext add_translations
gettext-add_translations catalog d string plural n h = (
  ground (arith, message-add_messages string catalog.messages d.messages h),
  ground (arith, message-add_messages string catalog.messages d.messages h),
)
