-- ===== src/Paging/Laws.antt =====
-- What the fetcher of paging_test.py keeps true, and how `request_all` ends.
use cassandra_dtest.Base.{
  ℕ, zero, suc, ◌+◌, ◌<◌, ◌≡◌, ◌≢◌, refl, true, false, List, [], ◌∷◌, ◌++◌, some, Outcome, returned,
  raised, ◌==◌, length, All, arith, ap, ◌∙◌, sym, Bool-cases, inl, inr, ==_iff, length-append,
}
use cassandra_dtest.Paging.{
  Delivery, page, failed, PageFetcher, TimedOut, timed_out, wait_turns, handle_page, handle_error,
  handle, handle_all, all_retrieved, wait, combine, all_data, Future, Fetching, request_next,
  after_page, request_all,
}
use mathlib.Core.List.{append-nil, append_assoc}

All-snoc :
    {Row : Type 0} (qs : List (List Row)) (q : List Row)
    → All (λ p. p ≢ []) qs
    → q ≢ []
    → All (λ p. p ≢ []) (qs ++ (q ∷ []))
All-snoc [] q h k = (k, tt)
All-snoc (p ∷ qs) q h k = (h.0, All-snoc qs q h.1 k)

combine-append :
    {Row : Type 0} (qs rs : List (List Row)) → combine (qs ++ rs) ≡ combine qs ++ combine rs
unfolding combine
combine-append [] rs = refl
combine-append (q ∷ qs) rs =
    rw (combine-append qs rs) (sym (append_assoc q (combine qs) (combine rs)))

module _ {Row E : Type 0} where
  -- The pages are counted, and none of them is empty.
  abbrev pub IsValid : PageFetcher Row E → Type 0
  IsValid p = (p.retrieved_pages ≡ length p.pages) × All (λ q. q ≢ []) p.pages

  -- The rows that arrived, and the answers that were pages.
  unfoldable pub rows_of : List (Delivery Row E) → List Row
  rows_of [] = []
  rows_of (page rows ∷ ds) = rows ++ rows_of ds
  rows_of (failed e ∷ ds) = rows_of ds

  handle-IsValid : (d : Delivery Row E) (p : PageFetcher Row E) → IsValid p → IsValid (handle d p)
  unfolding handle handle_page handle_error
  handle-IsValid (page []) p h = h
  handle-IsValid (page (r ∷ rows)) p h = (
    omega (arith, h.0, length-append p.pages ((r ∷ rows) ∷ [])),
    All-snoc p.pages (r ∷ rows) h.1 (λ e. cc),
  )
  handle-IsValid (failed e) p h = h

  handle_all-IsValid :
      (ds : List (Delivery Row E)) (p : PageFetcher Row E) → IsValid p → IsValid (handle_all ds p)
  unfolding handle_all
  handle_all-IsValid [] p h = h
  handle_all-IsValid (d ∷ ds) p h = handle_all-IsValid ds (handle d p) (handle-IsValid d p h)

  all_data-handle :
      (d : Delivery Row E) (p : PageFetcher Row E)
      → all_data (handle d p) ≡ all_data p ++ rows_of (d ∷ [])
  unfolding all_data handle handle_page handle_error rows_of combine
  all_data-handle (page []) p = sym (append-nil _)
  all_data-handle (page (r ∷ rows)) p = combine-append p.pages ((r ∷ rows) ∷ [])
  all_data-handle (failed e) p = sym (append-nil _)

  rows_of-cons :
      (d : Delivery Row E) (ds : List (Delivery Row E))
      → rows_of (d ∷ ds) ≡ rows_of (d ∷ []) ++ rows_of ds
  unfolding rows_of
  rows_of-cons (page rows) ds = ap (λ l. l ++ rows_of ds) (sym (append-nil rows))
  rows_of-cons (failed e) ds = refl

  -- After any deliveries, in any order and with errors among them, the data is what was there
  -- before and then the rows that arrived, in the order of their arrival.
  pub all_data-handle_all :
      (ds : List (Delivery Row E)) (p : PageFetcher Row E)
      → all_data (handle_all ds p) ≡ all_data p ++ rows_of ds
  unfolding handle_all rows_of
  all_data-handle_all [] p = sym (append-nil (all_data p))
  all_data-handle_all (d ∷ ds) p =
      all_data-handle_all ds (handle d p)
      ∙ ap (λ l. l ++ rows_of ds) (all_data-handle d p)
      ∙ append_assoc (all_data p) (rows_of (d ∷ [])) (rows_of ds)
      ∙ ap (λ l. all_data p ++ l) (sym (rows_of-cons d ds))

  -- The state in which a wait that did not time out leaves the fetcher.
  abbrev pub Settled : PageFetcher Row E → Type 0
  Settled p = IsValid p × (p.requested_pages ≡ p.retrieved_pages + p.retrieved_empty_pages)

  -- Pages are missing when the fetcher looks after each of the turns.
  abbrev pub Misses : List (List (Delivery Row E)) → PageFetcher Row E → Type 0
  Misses [] p = Unit
  Misses (ds ∷ turns) p =
      ((handle_all ds p).requested_pages
        ≢ (handle_all ds p).retrieved_pages + (handle_all ds p).retrieved_empty_pages)
      × Misses turns (handle_all ds p)

  -- Everything that arrives, in the turns and after them.
  unfoldable pub everything :
      List (List (Delivery Row E)) → List (Delivery Row E) → List (Delivery Row E)
  everything [] late = late
  everything (ds ∷ turns) late = ds ++ everything turns late

  -- How a wait ends: settled; or with the `RuntimeError`, when pages were missing at each look, with
  -- the counts of everything that arrived.
  abbrev pub WaitEnds :
      List (List (Delivery Row E))
      → List (Delivery Row E)
      → PageFetcher Row E
      → Outcome TimedOut (PageFetcher Row E)
      → Type 0
  WaitEnds turns late p (returned q) = Settled q
  WaitEnds turns late p (raised e) =
      Misses turns p × (e ≡ timed_out (handle_all (everything turns late) p))

  handle_all-append :
      (ds es : List (Delivery Row E)) (p : PageFetcher Row E)
      → handle_all (ds ++ es) p ≡ handle_all es (handle_all ds p)
  unfolding handle_all
  handle_all-append [] es p = refl
  handle_all-append (d ∷ ds) es p = handle_all-append ds es (handle d p)

  wait_turns-Ends :
      (turns : List (List (Delivery Row E))) (late : List (Delivery Row E)) (p : PageFetcher Row E)
      → IsValid p
      → WaitEnds turns late p (wait_turns turns late p)
  unfolding wait_turns everything
  wait_turns-Ends [] late p h = (tt, refl)
  wait_turns-Ends (ds ∷ turns) late p h = elim (Bool-cases (all_retrieved (handle_all ds p))) [
    | inl full ↦ rw (full, WaitEnds) (handle_all-IsValid ds p h, (==_iff _ _).0 full)
    | inr short ↦
        rw (short, WaitEnds)
          (later (wait_turns turns late (handle_all ds p)) (λ e. differs short e)
            (wait_turns-Ends turns late (handle_all ds p) (handle_all-IsValid ds p h)))
  ]
    where
      later :
          (o : Outcome TimedOut (PageFetcher Row E))
          → ((handle_all ds p).requested_pages
              ≢ (handle_all ds p).retrieved_pages + (handle_all ds p).retrieved_empty_pages)
          → WaitEnds turns late (handle_all ds p) o
          → WaitEnds (ds ∷ turns) late p o
      later (returned q) missing k = k
      later (raised e) missing (k, m) =
          ((missing, k), m ∙ ap timed_out (sym (handle_all-append ds (everything turns late) p)))

      differs : {a b : ℕ} → (a == b) ≡ false → a ≡ b → ⊥
      differs q e = ground arith

-- How `request_all` ends: with no page left and everything that was asked for there, or with the
-- `RuntimeError` of the last wait, for a page that a settled fetcher asked for.
module _ {Row E : Type 0} (F : Future Row E) where
  abbrev pub asked : PageFetcher Row E → PageFetcher Row E
  asked p = record p { requested_pages = p.requested_pages + 1 }

  abbrev pub AllEnds : Fetching F → Type 0
  AllEnds (returned p, s) = Settled p × (F.has_more_pages s ≡ false)
  AllEnds (raised e, s) =
      (p : PageFetcher Row E) × (t : F.State) × (Settled p
        × (F.has_more_pages t ≡ true)
        × (s ≡ (F.start_fetching_next_page t).1)
        × WaitEnds (F.start_fetching_next_page t).0.turns (F.start_fetching_next_page t).0.late
            (asked p) (raised e))

  module _ (remaining : F.State → ℕ) where
    after_page-Ends :
        (fuel : ℕ)
        → ((q : PageFetcher Row E) (t : F.State)
            → Settled q
            → remaining t < fuel
            → (r : Fetching F) × (request_all F fuel q t ≡ some r) × AllEnds r)
        → (p : PageFetcher Row E) (s : F.State) → Settled p
        → F.has_more_pages s ≡ true
        → remaining (F.start_fetching_next_page s).1 < fuel
        → (o : Outcome TimedOut (PageFetcher Row E))
        → WaitEnds
            (F.start_fetching_next_page s).0.turns
            (F.start_fetching_next_page s).0.late
            (asked p)
            o
        → (r : Fetching F) × (after_page F
              (request_all F fuel)
              (o, (F.start_fetching_next_page s).1)
            ≡ some r)
          × AllEnds r
    unfolding after_page
    after_page-Ends fuel again p s settled more k (returned q) v =
        again q (F.start_fetching_next_page s).1 v k
    after_page-Ends fuel again p s settled more k (raised e) v =
        ((raised e, (F.start_fetching_next_page s).1), refl, (p, s, (settled, more, refl, v)))

    -- `request_all` ends, with fuel for the pages that remain, when each fetch leaves fewer of them.
    -- A fetcher whose pages are counted and settled is so again at the end, and the future has no
    -- more pages; or the last wait timed out: pages were missing each time it looked, and its
    -- exception has the counts of everything that had arrived by then, after the last look too.
    pub request_all-Ends :
        ((s : F.State)
          → F.has_more_pages s ≡ true
          → remaining (F.start_fetching_next_page s).1 < remaining s)
        → (fuel : ℕ) (p : PageFetcher Row E) (s : F.State) → Settled p
        → remaining s < fuel
        → (r : Fetching F) × (request_all F fuel p s ≡ some r) × AllEnds r
    unfolding request_all request_next wait
    request_all-Ends fewer zero p s settled h = absurd (omega arith)
    request_all-Ends fewer (suc fuel) p s settled h = elim (Bool-cases (F.has_more_pages s)) [
      | inr over ↦ ((returned p, s), rw (over, request_all) refl, (settled, over))
      | inl more ↦
          let w = (F.start_fetching_next_page s).0 in
          let (r, e, ends) =
            after_page-Ends fuel (λ u v k l. request_all-Ends fewer fuel u v k l) p s settled more
              (omega (arith, fewer s more)) (wait_turns w.turns w.late (asked p))
              (wait_turns-Ends w.turns w.late (asked p) settled.0) in
          (r, rw (more, request_all) e, ends)
    ]
