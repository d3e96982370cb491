-- ===== src/SearchTools/Stemmer/Tests.antt =====
-- Runs of the stemmer, and its theorems at words.
use pyfix.Base.{◌≡◌, refl, [], ◌∷◌, codes}
use pyfix.SearchTools.Regex.{test, mgr0, mgr1, s_v, in_aeiouy, not_aeiou}
use pyfix.SearchTools.Stemmer.{stem_word}
use pyfix.SearchTools.Stemmer.Splits.{Trims}
use pyfix.SearchTools.Stemmer.Bounds.{stem_word-Trims}
use pyfix.SearchTools.Stemmer.Measure.{in_order, test-s_v, test-mgr0, test-mgr1}

stem_runs :
    (stem_word (codes "caresses") ≡ codes "caress")
    × (stem_word (codes "ponies") ≡ codes "poni")
    × (stem_word (codes "relational") ≡ codes "relat")
    × (stem_word (codes "hopping") ≡ codes "hop")
    × (stem_word (codes "filing") ≡ codes "file")
    × (stem_word (codes "controll") ≡ codes "control")
    × (stem_word (codes "yelling") ≡ codes "yell")
    × (stem_word (codes "-messages") ≡ codes "-messag")
unfolding stem_word
stem_runs = (refl, refl, refl, refl, refl, refl, refl, refl)

stem_word-Trims_example : Trims (codes "relational") (stem_word (codes "relational"))
stem_word-Trims_example = stem_word-Trims (codes "relational")

test-s_v_runs : test s_v (codes "fly") ≡ in_order (in_aeiouy ∷ []) (codes "fly")
test-s_v_runs = test-s_v (codes "fly")

test-mgr0_runs :
    test mgr0 (codes "trouble") ≡ in_order (in_aeiouy ∷ not_aeiou ∷ []) (codes "trouble")
test-mgr0_runs = test-mgr0 (codes "trouble")

test-mgr1_runs :
    test mgr1 (codes "troubles")
    ≡ in_order (in_aeiouy ∷ not_aeiou ∷ in_aeiouy ∷ not_aeiou ∷ []) (codes "troubles")
test-mgr1_runs = test-mgr1 (codes "troubles")
