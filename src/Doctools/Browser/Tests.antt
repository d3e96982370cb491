-- ===== src/Doctools/Browser/Tests.antt =====
-- Some browsers.
use pyfix.Base.{◌≡◌, refl, Text, codes, []}
use pyfix.Comments.Template.{word_at}
use pyfix.Doctools.Browser.{
  ua_match, named_or, named_version, first_match, opera_version, msie_version, mozilla_version,
  first_revision, ends_line, some_word, separated_word, last_version,
}

abbrev same : Text → Text
same s = s

ua_match_runs :
    (ua_match same (codes "mozilla/5.0 (x11; rv:40.0) gecko/2010 firefox/40.0")
      ≡ record { browser = codes "mozilla"; version = codes "40.0" })
    × (ua_match same (codes "mozilla/5.0 applewebkit/537.36 chrome/41.0.2 safari/537")
        ≡ record { browser = codes "chrome"; version = codes "41.0.2" })
    × (ua_match same (codes "opera/9.80 (x11) presto/2.12 version/12.16")
        ≡ record { browser = codes "opera"; version = codes "12.16" })
    × (ua_match same (codes "mozilla/4.0 (compatible; msie 8.0)")
        ≡ record { browser = codes "msie"; version = codes "8.0" })
    × (ua_match same (codes "lynx") ≡ record { browser = []; version = codes "0" })
unfolding ua_match named_or named_version first_match opera_version msie_version mozilla_version
    first_revision ends_line some_word word_at separated_word last_version
ua_match_runs = (refl, refl, refl, refl, refl)
