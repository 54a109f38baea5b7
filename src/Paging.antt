-- ===== src/Paging.antt =====
-- `PageFetcher` of paging_test.py: it asks a driver's future for pages, counts what arrives and
-- gives the rows out. Pages arrive on the driver's thread while the fetcher waits.
pub mod Laws
use cassandra_dtest.Base.{
  ℕ, zero, suc, ◌+◌, Bool, true, false, List, [], ◌∷◌, ◌++◌, Option, none, some, Outcome, returned,
  raised, ◌==◌, length, map, get_elem?,
}

-- What the driver calls back with: `handle_page` or `handle_error`.
pub data Delivery (Row E : Type 0) : Type 0 where
  page : List Row → Delivery Row E
  failed : E → Delivery Row E

pub record PageFetcher (Row E : Type 0) : Type 0 where
  pub pages : List (List Row)
  pub error : Option E
  pub requested_pages : ℕ
  pub retrieved_pages : ℕ
  pub retrieved_empty_pages : ℕ

-- The `RuntimeError` of `wait`, with the three counts of its message.
pub data TimedOut : Type 0 where
  not_delivered : ℕ → ℕ → ℕ → TimedOut

-- What arrives while the fetcher waits: one list of deliveries for each turn of the loop before the
-- expiry, with what arrived since the turn before; and what arrives after the last turn, in its sleep.
pub record Arrivals (Row E : Type 0) : Type 0 where
  pub turns : List (List (Delivery Row E))
  pub late : List (Delivery Row E)

-- The rows of all pages, by `extend` on a list that starts empty.
unfoldable pub combine : {Row : Type 0} → List (List Row) → List Row
combine [] = []
combine (q ∷ rest) = q ++ combine rest

module _ {Row E : Type 0} where
  -- The attributes that `__init__` sets before it waits.
  unfoldable pub new_fetcher : PageFetcher Row E
  new_fetcher = record {
    pages = [];
    error = none;
    requested_pages = 1;
    retrieved_pages = 0;
    retrieved_empty_pages = 0;
  }

  -- `handle_page`
  unfoldable pub handle_page : List Row → PageFetcher Row E → PageFetcher Row E
  handle_page [] p = record p { retrieved_empty_pages = p.retrieved_empty_pages + 1 }
  handle_page (r ∷ rows) p = record p {
    pages = p.pages ++ ((r ∷ rows) ∷ []);
    retrieved_pages = p.retrieved_pages + 1;
  }

  -- `handle_error`: the exception that it raises ends in the driver's thread.
  unfoldable pub handle_error : E → PageFetcher Row E → PageFetcher Row E
  handle_error e p = record p { error = some e }

  unfoldable pub handle : Delivery Row E → PageFetcher Row E → PageFetcher Row E
  unfolding handle_page handle_error
  handle (page rows) p = handle_page rows p
  handle (failed e) p = handle_error e p

  unfoldable pub handle_all : List (Delivery Row E) → PageFetcher Row E → PageFetcher Row E
  unfolding handle
  handle_all [] p = p
  handle_all (d ∷ ds) p = handle_all ds (handle d p)

  abbrev pub all_retrieved : PageFetcher Row E → Bool
  all_retrieved p = p.requested_pages == p.retrieved_pages + p.retrieved_empty_pages

  -- The `RuntimeError` with the counts as they are when it is made.
  abbrev pub timed_out : PageFetcher Row E → TimedOut
  timed_out p = not_delivered p.requested_pages p.retrieved_pages p.retrieved_empty_pages

  -- The loop of `wait` and the exception behind it.
  unfoldable pub wait_turns :
      List (List (Delivery Row E))
      → List (Delivery Row E)
      → PageFetcher Row E
      → Outcome TimedOut (PageFetcher Row E)
  unfolding handle_all
  wait_turns [] late p = raised (timed_out (handle_all late p))
  wait_turns (ds ∷ turns) late p = elim (all_retrieved (handle_all ds p)) [
    | true ↦ returned (handle_all ds p)
    | false ↦ wait_turns turns late (handle_all ds p)
  ]

  -- `wait`
  unfoldable pub wait : Arrivals Row E → PageFetcher Row E → Outcome TimedOut (PageFetcher Row E)
  unfolding wait_turns
  wait w p = wait_turns w.turns w.late p

  -- `pagecount`
  unfoldable pub pagecount : PageFetcher Row E → ℕ
  pagecount p = length p.pages

  -- `page_data`; `none` is the `IndexError`. Page 0 is the last one, as `pages[-1]` is.
  unfoldable pub page_data : ℕ → PageFetcher Row E → Option (List Row)
  page_data zero p = last_of p.pages
    where
      last_of : List (List Row) → Option (List Row)
      last_of [] = none
      last_of (q ∷ []) = some q
      last_of (q ∷ r ∷ rest) = last_of (r ∷ rest)
  page_data (suc i) p = get_elem? p.pages i

  -- `num_results`
  unfoldable pub num_results : ℕ → PageFetcher Row E → Option ℕ
  unfolding page_data
  num_results n p = elim (page_data n p) [ none ↦ none | some rows ↦ some (length rows) ]

  -- `num_results_all`
  unfoldable pub num_results_all : PageFetcher Row E → List ℕ
  num_results_all p = map (λ q. length q) p.pages

  -- `all_data`
  unfoldable pub all_data : PageFetcher Row E → List Row
  unfolding combine
  all_data p = combine p.pages

-- The driver's future: whether it has more pages, and what arrives in the wait after the next page
-- was asked for.
pub record Future (Row E : Type 0) : Type 1 where
  pub State : Type 0
  pub has_more_pages : State → Bool
  pub start_fetching_next_page : State → Arrivals Row E × State

module _ {Row E : Type 0} (F : Future Row E) where
  abbrev pub Fetching : Type 0
  Fetching = Outcome TimedOut (PageFetcher Row E) × F.State

  -- `PageFetcher(future)`, with what arrives in the first wait.
  unfoldable pub open_fetcher : Arrivals Row E → F.State → Fetching
  unfolding new_fetcher wait
  open_fetcher w s = (wait w new_fetcher, s)

  -- The body that `request_one` and `request_all` share.
  unfoldable pub request_next : PageFetcher Row E → F.State → Fetching
  unfolding wait
  request_next p s =
      let (w, t) = F.start_fetching_next_page s in
      (wait w (record p { requested_pages = p.requested_pages + 1 }), t)

  -- `request_one`
  unfoldable pub request_one : PageFetcher Row E → F.State → Fetching
  unfolding request_next
  request_one p s = elim (F.has_more_pages s) [ true ↦ request_next p s | false ↦ (returned p, s) ]

  -- What follows the body in the loop: its exception, or the next turn.
  unfoldable pub after_page :
      (PageFetcher Row E → F.State → Option Fetching) → Fetching → Option Fetching
  after_page again (returned p, s) = again p s
  after_page again (raised e, s) = some (raised e, s)

  -- `request_all`; `none` is the end of the fuel.
  unfoldable pub request_all : ℕ → PageFetcher Row E → F.State → Option Fetching
  unfolding request_next after_page
  request_all zero p s = none
  request_all (suc fuel) p s = elim (F.has_more_pages s) [
    | true ↦ after_page (request_all fuel) (request_next p s)
    | false ↦ some (returned p, s)
  ]
