-- ===== src/Sidebar/Tests.antt =====
-- A page with a side bar, and its cookies.
use pyfix.Base.{◌≡◌, refl, true, false, [], ◌∷◌, some, Text, codes, text_eq}
use pyfix.Sidebar.{Measures, Jar, load, toggle_sidebar}
use pyfix.Sidebar.Clicks.{sidebar, cookie, clicks, laid_out, clicks-laid_out}
use pyfix.Sidebar.Position.{load-first, load-toggle_sidebar}

abbrev page : Measures
page = record {
  bw_margin_expanded = codes "230px";
  ssb_width_expanded = 230;
  height = 800;
  dark_color = codes "#234";
  button_color = codes "#eee";
  inner_height = 600;
  window_height = 610;
  sidebar_top = 30;
}

abbrev narrow : Measures
narrow = record {
  bw_margin_expanded = codes "120px";
  ssb_width_expanded = 120;
  height = 90;
  dark_color = codes "#234";
  button_color = codes "#eee";
  inner_height = 0;
  window_height = 400;
  sidebar_top = 30;
}

-- A cookie of another script came first.
abbrev mixed : Jar
mixed = (codes "sortBy", codes "rating") ∷ (sidebar, codes "collapsed") ∷ []

load-mixed : load page mixed ≡ laid_out page true mixed
unfolding load toggle_sidebar
load-mixed = refl

clicks-laid_out_runs :
    (after : Jar) × (clicks page 3 (laid_out page true mixed) ≡ laid_out page false after)
    × (cookie sidebar after ≡ some (codes "collapsed"))
    × ((other : Text) → text_eq sidebar other ≡ false → cookie other after ≡ cookie other mixed)
clicks-laid_out_runs = clicks-laid_out page 2 true mixed

load-first_runs : (load page mixed).wrapper_shown ≡ true
load-first_runs =
    load-first page (codes "sortBy") (codes "rating") ((sidebar, codes "collapsed") ∷ [])
      ((refl, refl), ((refl, refl), tt)) refl refl

load-toggle_sidebar_example :
    (load narrow
      (toggle_sidebar page (
        laid_out page true
          ((sidebar, codes "expanded") ∷ (codes "id", codes "7") ∷ []))).jar).wrapper_shown
    ≡ (toggle_sidebar page (
        laid_out page true
          ((sidebar, codes "expanded") ∷ (codes "id", codes "7") ∷ []))).wrapper_shown
load-toggle_sidebar_example =
    load-toggle_sidebar page narrow true
      ((sidebar, codes "expanded") ∷ (codes "id", codes "7") ∷ []) refl
      ((refl, refl), ((refl, refl), tt))
