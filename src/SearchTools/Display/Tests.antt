-- ===== src/SearchTools/Display/Tests.antt =====
-- A search from its words to the page.
use pyfix.Base.{
  ℕ, zero, suc, ◌+◌, ◌≤◌, get_elem?, List, length, ◌≡◌, refl, ◌∷◌, [], ◌++◌, map, Bool, true, ◌&&◌,
  leb, Option, none, some, Text, codes, text_eq, arith, if◌then◌else◌,
}
use pyfix.Base.Int.{◌+ℤ◌}
use pyfix.Underscore.{underscore}
use pyfix.SearchTools.Index.{Posting, one, files_of, Index, Result}
use pyfix.SearchTools.Query.{read_query}
use pyfix.SearchTools.Terms.Counts.{IsDisjoint}
use pyfix.Doctools.Highlight.{Nodes, nil, text}
use pyfix.SearchTools.Terms.{perform_terms_search}
use pyfix.SearchTools.Objects.{search_objects}
use pyfix.SearchTools.Display.Summary.{excerpt, trim}
use pyfix.SearchTools.Display.{
  sort_results, place_result, compare_results, display_items, display_next_item, list_item,
  finish_search, start_display, pop_last, Paths, summary, bare, Display,
}
use pyfix.SearchTools.Display.Sorting.{IsSorted, count}
use pyfix.SearchTools.Display.Query.{query, find_results, join_words, display_all}
use pyfix.SearchTools.Display.Excerpt.{excerpt-short, length-excerpt}
use pyfix.SearchTools.Display.Finished.{AreTitled, page_of, finished_page, query-finished}

abbrev lower : Text → Text
lower s = map (λ c. if leb 65 c && leb c 90 then c + 32 else c) s

abbrev in_text : Text
in_text = codes ", in "

abbrev terms : Text → Option Posting
terms w = if text_eq w (codes "order") then some (one 0) else none

abbrev titles : Text → Option Posting
titles w = if text_eq w (codes "order") then some (one 1) else none

abbrev pages : Index
pages = record {
  filenames = codes "intro" ∷ codes "orders" ∷ [];
  titles = codes "Introduction" ∷ codes "Orders" ∷ [];
  terms = terms;
  titleterms = titles;
  objects =
      (codes "pyfix", (codes "order_id", record { file = 1; kind = 0; prio = 1; anchor = [] }) ∷ [])
      ∷ [];
  objnames = λ k. record { short = codes "py"; name = codes "Python class" };
}

abbrev paths : Paths
paths = record { url_root = codes "./"; file_suffix = codes ".html"; has_source = true }

abbrev fetch : Text → Option Text
fetch url =
    if text_eq url (codes "./_sources/orders.txt") then some (codes "An order is kept.") else none

abbrev digit : ℕ → Text
digit n = (b'0' + n) ∷ []

abbrev orders : Text
orders = codes "orders"

abbrev shown_page : Option Display
shown_page = query underscore lower in_text pages some paths fetch digit orders

abbrev summarised : Nodes
summarised = text (codes "An order is kept....") nil

-- The word is "orders", its stem "order": the page with the stem in its title comes first. Its summary
-- ends in dots although nothing of the text is missing, and has no mark, since "orders" is not in it.
query_runs :
    shown_page
    ≡ some (record {
      results = [];
      result_count = 2;
      output =
          record {
            link = codes "orders.html?highlight=orders";
            title = some (codes "Orders");
            detail = summary summarised;
          }
          ∷ record {
            link = codes "intro.html?highlight=orders";
            title = some (codes "Introduction");
            detail = bare;
          }
          ∷ [];
      title = codes "Search Results";
      status = codes "Search finished, found 2 page(s) matching the search query.";
      status_shown = true;
      is_stopped = true;
    })
unfolding query find_results read_query display_all search_objects perform_terms_search sort_results
    place_result compare_results display_items display_next_item list_item finish_search
    start_display pop_last ◌+ℤ◌ join_words trim
query_runs = refl

pages-IsDisjoint : IsDisjoint pages
unfolding files_of
pages-IsDisjoint w = ground arith

few : (f : ℕ) → f ≤ 1 → (t : Text) × (get_elem? pages.titles f ≡ some t)
few zero h = (codes "Introduction", refl)
few (suc zero) h = (codes "Orders", refl)
few (suc (suc f)) h = absurd (omega (arith, h))

pages-AreTitled : AreTitled pages
unfolding files_of
pages-AreTitled w f h = few f (ground arith)

query-finished_example :
    (results : List Result) × (page_of underscore lower in_text pages some paths fetch digit orders
      ≡ some (
          finished_page underscore lower in_text pages some paths fetch digit
            (codes "?highlight=orders")
            (read_query underscore lower orders)
            results))
    × IsSorted lower results
    × ((p : Result → Bool)
        → count p results
          ≡ count p (
              find_results underscore lower in_text pages some paths fetch digit
                (read_query underscore lower orders)))
unfolding read_query join_words
query-finished_example =
    query-finished underscore lower in_text pages some paths fetch digit orders orders
      pages-IsDisjoint pages-AreTitled refl

abbrev note : Text
note = codes " An order is kept.  "

excerpt-short_runs : excerpt note 4 ≡ trim note ++ codes "..."
excerpt-short_runs = excerpt-short note 4 (omega arith) (omega arith)

length-excerpt_runs : length (excerpt note 4) ≤ 246
length-excerpt_runs = length-excerpt note 4
