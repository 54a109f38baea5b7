-- ===== src/Dtest/Runner/Stop.antt =====
-- `Runner.stop` of dtest.py, against the thread that it stops.
use cassandra_dtest.Base.{
  ℕ, ◌+◌, ◌≡◌, ◌≢◌, ◌⊎◌, refl, Bool, true, List, [], ◌∷◌, ◌++◌, if◌then◌else◌, ap, inl, inr, sym,
  subst,
}
use cassandra_dtest.Dtest.Runner.{
  Place, fresh, leaving, ended, escaped, top, calling, inside, CallEnd, returns, raises, escapes,
  Runner, start_at, start, run_at, run_step, request_stop, Step, starts, runs, stops, Reach, here,
  next,
}

-- A thread that stands between the test and the call stood there from the beginning.
abbrev Still : Place → Place → Type 0
Still from (calling i) = from ≡ calling i
Still from fresh = Unit
Still from leaving = Unit
Still from ended = Unit
Still from escaped = Unit
Still from (top i) = Unit
Still from (inside i) = Unit

abbrev Past : Place → Type 0
Past (calling i) = ⊥
Past fresh = Unit
Past leaving = Unit
Past ended = Unit
Past escaped = Unit
Past (top i) = Unit
Past (inside i) = Unit

-- The thread is over, and a `join` on it returns.
abbrev pub HasEnded : Place → Type 0
HasEnded p = (p ≡ ended) ⊎ (p ≡ escaped)

module _ {E : Type 0} where
  -- What a thread that was told to stop has begun since: nothing, or the call it stood before.
  abbrev Since : Runner E → Place → Bool → List ℕ → Type 0
  Since r p stopped calls =
      (stopped ≡ true)
      × (((calls ≡ r.calls) × Still r.place p)
          ⊎ ((i : ℕ) × (r.place ≡ calling i) × (calls ≡ r.calls ++ (i ∷ [])) × Past p))

  Since-moved :
      (r : Runner E) (p q : Place) (stopped : Bool) (calls : List ℕ)
      → Still r.place q
      → Past q
      → Since r p stopped calls
      → Since r q stopped calls
  Since-moved r p q stopped calls still past (h, inl (c, _)) = (h, inl (c, still))
  Since-moved r p q stopped calls still past (h, inr (i, e, c, _)) = (h, inr (i, e, c, past))

  run_at-Since :
      (r : Runner E) (p : Place) (answer : CallEnd E) (s : Runner E)
      → Since r p s.stopped s.calls
      → s.place ≡ p
      → Since r (run_at p answer s).place (run_at p answer s).stopped (run_at p answer s).calls
  unfolding run_at
  run_at-Since r fresh answer s h e = rw e h
  run_at-Since r leaving answer s h e = Since-moved r leaving ended s.stopped s.calls tt tt h
  run_at-Since r ended answer s h e = rw e h
  run_at-Since r escaped answer s h e = rw e h
  run_at-Since r (top i) answer s h e =
      subst (λ b. Since r (if b then ended else calling i) s.stopped s.calls) (sym h.0)
        (Since-moved r (top i) ended s.stopped s.calls tt tt h)
  run_at-Since r (calling i) answer s (h, inl (c, q)) e =
      (h, inr (i, q, ap (λ l. l ++ (i ∷ [])) c, tt))
  run_at-Since r (calling i) answer s (h, inr (j, q, c, z)) e = absurd z
  run_at-Since r (inside i) returns s h e =
      Since-moved r (inside i) (top (i + 1)) s.stopped s.calls tt tt h
  run_at-Since r (inside i) (raises x) s h e =
      Since-moved r (inside i) leaving s.stopped s.calls tt tt h
  run_at-Since r (inside i) escapes s h e =
      Since-moved r (inside i) escaped s.stopped s.calls tt tt h

  start_at-Since :
      (r : Runner E) (p : Place) (s : Runner E)
      → Since r p s.stopped s.calls
      → s.place ≡ p
      → Since r (start_at p s).place (start_at p s).stopped (start_at p s).calls
  unfolding start_at
  start_at-Since r fresh s h e = Since-moved r fresh (top 0) s.stopped s.calls tt tt h
  start_at-Since r leaving s h e = rw e h
  start_at-Since r ended s h e = rw e h
  start_at-Since r escaped s h e = rw e h
  start_at-Since r (top i) s h e = rw e h
  start_at-Since r (calling i) s h e = rw e h
  start_at-Since r (inside i) s h e = rw e h

  Step-Since :
      (r : Runner E) {s t : Runner E}
      → Step s t
      → Since r s.place s.stopped s.calls
      → Since r t.place t.stopped t.calls
  unfolding start run_step request_stop
  Step-Since r (starts s) h = start_at-Since r s.place s h refl
  Step-Since r (runs s answer) h = run_at-Since r s.place answer s h refl
  Step-Since r (stops s) h = (refl, h.1)

  Since-own : (r : Runner E) → Since r r.place true r.calls
  Since-own r = (refl, inl (refl, own r.place refl))
    where
      own : (p : Place) → r.place ≡ p → Still r.place p
      own (calling i) e = e
      own fresh e = tt
      own leaving e = tt
      own ended e = tt
      own escaped e = tt
      own (top i) e = tt
      own (inside i) e = tt

  Reach-Since :
      (r : Runner E) {s : Runner E} → Reach (request_stop r) s → Since r s.place s.stopped s.calls
  unfolding request_stop
  Reach-Since r here = Since-own r
  Reach-Since r (next h st) = Step-Since r st (Reach-Since r h)

  -- Once `stop` has set the flag, the flag stays set, and at most one more call of the function is
  -- begun, however the threads go on: the one that the thread stood before, when it was past its test
  -- of the flag.
  pub stop_begins_one_call :
      (r : Runner E) {s : Runner E}
      → Reach (request_stop r) s
      → (s.stopped ≡ true)
        × ((s.calls ≡ r.calls)
            ⊎ ((i : ℕ) × (r.place ≡ calling i) × (s.calls ≡ r.calls ++ (i ∷ []))))
  stop_begins_one_call r h = go _ _ _ (Reach-Since r h)
    where
      go :
          (p : Place) (stopped : Bool) (calls : List ℕ)
          → Since r p stopped calls
          → (stopped ≡ true)
            × ((calls ≡ r.calls)
                ⊎ ((i : ℕ) × (r.place ≡ calling i) × (calls ≡ r.calls ++ (i ∷ []))))
      go p stopped calls (h, inl (c, _)) = (h, inl c)
      go p stopped calls (h, inr (i, e, c, _)) = (h, inr (i, e, c))

  three_steps :
      (p : Place) (first second third : CallEnd E) (r : Runner E)
      → r.stopped ≡ true
      → r.place ≡ p
      → p ≢ fresh
      → HasEnded (run_step third (run_step second (run_at p first r))).place
  unfolding run_step run_at
  three_steps fresh first second third r h e started = absurd (started refl)
  three_steps leaving first second third r h e started = inl refl
  three_steps ended first second third r h e started = inl (rw e)
  three_steps escaped first second third r h e started = inr (rw e)
  three_steps (top i) first second third r h e started = rw h (inl refl)
  three_steps (calling i) first returns third r h e started = rw h (inl refl)
  three_steps (calling i) first (raises x) third r h e started = inl refl
  three_steps (calling i) first escapes third r h e started = inr refl
  three_steps (inside i) returns second third r h e started = rw h (inl refl)
  three_steps (inside i) (raises x) second third r h e started = inl refl
  three_steps (inside i) escapes second third r h e started = inr refl

  -- A started thread that was told to stop is over after three of its steps, wherever it stood and
  -- however the calls end that are then under way or begun; so the `join` of `stop` returns if they
  -- end.
  pub stopped_thread_ends :
      (r : Runner E) (first second third : CallEnd E)
      → r.place ≢ fresh
      → HasEnded (run_step third (run_step second (run_step first (request_stop r)))).place
  unfolding run_step request_stop
  stopped_thread_ends r first second third h =
      three_steps r.place first second third (record r { stopped = true }) refl refl h
