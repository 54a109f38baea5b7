-- ===== src/Examples/Pages.antt =====
-- A future that has its pages in a list and delivers each at once.
use cassandra_dtest.Base.{
  ℕ, ◌<◌, ◌≡◌, refl, Bool, true, false, List, [], ◌∷◌, ◌++◌, none, some, arith, length,
}
use cassandra_dtest.Paging.{
  Delivery, Arrivals, page, failed, PageFetcher, new_fetcher, handle_all, all_data, Future,
  Fetching, request_all,
}
use cassandra_dtest.Paging.Laws.{rows_of, all_data-handle_all, AllEnds, request_all-Ends}

abbrev has_more : List (List ℕ) → Bool
has_more [] = false
has_more (p ∷ ps) = true

abbrev fetch : List (List ℕ) → Arrivals ℕ ℕ × List (List ℕ)
fetch [] = (record { turns = []; late = [] }, [])
fetch (p ∷ ps) = (record { turns = [] ∷ (page p ∷ []) ∷ []; late = [] }, ps)

abbrev listed : Future ℕ ℕ
listed = record {
  State = List (List ℕ);
  has_more_pages = has_more;
  start_fetching_next_page = fetch;
}

abbrev arrivals : List (Delivery ℕ ℕ)
arrivals = page (1 ∷ 2 ∷ []) ∷ failed 9 ∷ page [] ∷ page (3 ∷ []) ∷ []

abbrev fresh : PageFetcher ℕ ℕ
fresh = new_fetcher

all_data-handle_all_example :
    all_data (handle_all arrivals fresh) ≡ all_data fresh ++ rows_of arrivals
all_data-handle_all_example = all_data-handle_all arrivals fresh

-- The first page has arrived.
abbrev first_page : PageFetcher ℕ ℕ
first_page = record {
  pages = (1 ∷ 2 ∷ []) ∷ [];
  error = none;
  requested_pages = 1;
  retrieved_pages = 1;
  retrieved_empty_pages = 0;
}

shorter : (ps : List (List ℕ)) → has_more ps ≡ true → length (fetch ps).1 < length ps
shorter [] h = absurd (false_ne_true h)
  where
    false_ne_true : false ≡ true → ⊥
    false_ne_true e = cc
shorter (p ∷ ps) h = omega arith

request_all-Ends_example :
    (r : Fetching listed) × (request_all listed 4 first_page ((3 ∷ []) ∷ [] ∷ []) ≡ some r)
    × AllEnds listed r
request_all-Ends_example =
    request_all-Ends listed (λ ps. length ps) shorter 4 first_page ((3 ∷ []) ∷ [] ∷ [])
      ((refl, ((λ e. cc), tt)), refl) (omega arith)
