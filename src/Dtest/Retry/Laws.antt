-- ===== src/Dtest/Retry/Laws.antt =====
-- How the waiting loops end.
use cassandra_dtest.Base.{
  ℕ, zero, suc, ◌+◌, ◌-◌, ◌≤◌, ◌<◌, ◌≡◌, refl, inl, inr, Bool, true, false, List, [], ◌∷◌, ◌++◌,
  Option, none, some, arith, ltb, Outcome, returned, raised, Action, Bool-cases, Option-cases, All,
  ap, ltb→lt, ◌∙◌,
}
use cassandra_dtest.Dtest.Retry.{
  after_attempt, retry_until, retry_till_success, retry, rethrow, Failure, read_timeout,
  write_timeout, unavailable, on_read_timeout, on_write_timeout, on_unavailable, decide_on,
  first_match, wait_rounds, wait_for_any_log,
}

module _ {S E A : Type 0} (fun : Action S E A) (bypassed : E → Bool) (now : S → ℕ)
    (sleep : S → S) where
  -- The runs of the loop, one rule for each way an attempt can end.
  pub data Run (deadline : ℕ) : S → Outcome E A × S → Type 0 where
    succeeds : {s s' : S} {a : A} → fun s ≡ (returned a, s') → Run deadline s (returned a, s')
    passes_on :
        {s s' : S} {e : E}
        → fun s ≡ (raised e, s')
        → bypassed e ≡ false
        → Run deadline s (raised e, s')
    gives_up :
        {s s' : S} {e : E}
        → fun s ≡ (raised e, s')
        → bypassed e ≡ true
        → deadline < now s'
        → Run deadline s (raised e, s')
    tries_again :
        {s s' : S} {e : E} {r : Outcome E A × S}
        → fun s ≡ (raised e, s')
        → bypassed e ≡ true
        → now s' ≤ deadline
        → Run deadline (sleep s') r
        → Run deadline s r

  -- An attempt that ends at `p` is followed by a run, if the loop's next turn is.
  after_attempt-Run :
      (deadline : ℕ) (again : S → Option (Outcome E A × S)) (s : S) (p : Outcome E A × S)
      → fun s ≡ p
      → (now p.1 ≤ deadline
          → (r : Outcome E A × S) × (again (sleep p.1) ≡ some r) × Run deadline (sleep p.1) r)
      → (r : Outcome E A × S) × (after_attempt fun bypassed now sleep deadline again p ≡ some r)
        × Run deadline s r
  unfolding after_attempt
  after_attempt-Run deadline again s (returned a, s') e k = ((returned a, s'), refl, succeeds e)
  after_attempt-Run deadline again s (raised x, s') e k = elim (Bool-cases (bypassed x)) [
    | inl yes' ↦ elim (Bool-cases (ltb deadline (now s'))) [
      | inl late ↦ ((raised x, s'), ground arith, gives_up e yes' (ltb→lt _ _ late))
      | inr early ↦
          let (r, q, run) = k (ground arith) in
          (r, ground arith, tries_again e yes' (ground arith) run)
    ]
    | inr no' ↦ ((raised x, s'), ground arith, passes_on e no')
  ]

  retry_until-Run :
      ((s : S) → now s ≤ now (fun s).1)
      → ((s : S) → now s < now (sleep s))
      → (deadline fuel : ℕ) (s : S) → 0 < fuel
      → deadline + 2 ≤ now s + fuel
      → (r : Outcome E A × S) × (retry_until fun bypassed now sleep deadline fuel s ≡ some r)
        × Run deadline s r
  unfolding retry_until
  retry_until-Run forth tick deadline zero s pos h = elim pos [ ]
  retry_until-Run forth tick deadline (suc fuel) s pos h =
      after_attempt-Run deadline (retry_until fun bypassed now sleep deadline fuel) s (fun s) refl
        λ early.
          retry_until-Run forth tick deadline fuel (sleep (fun s).1) (omega (arith, forth s))
            (omega (arith, forth s, tick (fun s).1))

  -- The loop ends, whatever the retried call does, when neither the call nor the sleep turns the
  -- clock back and a sleep lasts at least one unit: `timeout + 2` turns are enough. It ends with
  -- the first result, or with an exception that is not bypassed, or with a bypassed one that was
  -- raised after the deadline; every attempt before that one failed with a bypassed exception
  -- no later than the deadline.
  pub retry_till_success-Run :
      ((s : S) → now s ≤ now (fun s).1)
      → ((s : S) → now s < now (sleep s))
      → (timeout : ℕ) (s : S)
      → (r : Outcome E A × S) × (retry_till_success fun bypassed now sleep timeout (timeout + 2) s
          ≡ some r)
        × Run (now s + timeout) s r
  unfolding retry_till_success
  retry_till_success-Run forth tick timeout s =
      retry_until-Run forth tick (now s + timeout) (timeout + 2) s (omega arith) (omega arith)

-- The turns of a driver that asks the policy after each failure and counts its retries, for an
-- operation that always fails: `none` stands for more than the fuel.
unfoldable pub driver_attempts : (ℕ → Failure) → ℕ → ℕ → Option ℕ
driver_attempts failure retry_num zero = none
driver_attempts failure retry_num (suc fuel) = elim (decide_on (failure retry_num) retry_num) [
  | rethrow ↦ some (retry_num + 1)
  | retry ↦ driver_attempts failure (suc retry_num) fuel
]

decide_below : (f : Failure) (n : ℕ) → n < 5 → decide_on f n ≡ retry
unfolding on_read_timeout on_write_timeout on_unavailable
decide_below read_timeout n h = ground arith
decide_below write_timeout n h = ground arith
decide_below unavailable n h = ground arith

decide_at : (f : Failure) → decide_on f 5 ≡ rethrow
unfolding on_read_timeout on_write_timeout on_unavailable
decide_at read_timeout = refl
decide_at write_timeout = refl
decide_at unavailable = refl

driver_step :
    (failure : ℕ → Failure) (n fuel : ℕ)
    → n < 5
    → driver_attempts failure n (suc fuel) ≡ driver_attempts failure (suc n) fuel
unfolding driver_attempts
driver_step failure n fuel h = rw (decide_below (failure n) n h, driver_attempts)

driver_last : (failure : ℕ → Failure) (fuel : ℕ) → driver_attempts failure 5 (suc fuel) ≡ some 6
unfolding driver_attempts
driver_last failure fuel = rw (decide_at (failure 5), driver_attempts)

-- An operation that keeps failing, in any mixture of the three ways, is tried six times: once, and
-- five times more.
pub driver_attempts-six :
    (failure : ℕ → Failure) (fuel : ℕ) → 6 ≤ fuel → driver_attempts failure 0 fuel ≡ some 6
driver_attempts-six failure fuel h =
    let e : fuel ≡ suc (suc (suc (suc (suc (suc (fuel - 6)))))) = omega arith in
    rw e (
      driver_step failure 0 _ (omega arith)
      ∙ driver_step failure 1 _ (omega arith)
      ∙ driver_step failure 2 _ (omega arith)
      ∙ driver_step failure 3 _ (omega arith)
      ∙ driver_step failure 4 _ (omega arith)
      ∙ driver_last failure _)

module _ {Node : Type 0} (matches : ℕ → Node → Bool) where
  -- No node of the list matches in the round.
  abbrev pub NoneMatch : ℕ → List Node → Type 0
  NoneMatch round nodes = All (λ n. matches round n ≡ false) nodes

  first_match_found :
      (round : ℕ) (nodes : List Node) (n : Node)
      → first_match matches round nodes ≡ some n
      → (before after : List Node) × (nodes ≡ before ++ (n ∷ after))
        × NoneMatch round before
        × (matches round n ≡ true)
  unfolding first_match
  first_match_found round [] n h = cc
  first_match_found round (x ∷ nodes) n h = elim (Bool-cases (matches round x)) [
    | inl hit ↦ let e : x ≡ n = ground arith in ([], nodes, rw e, tt, rw e at hit)
    | inr miss ↦
        let (before, after, e, clear, hit) = first_match_found round nodes n (ground arith) in
        (x ∷ before, after, ap (λ l. x ∷ l) e, (miss, clear), hit)
  ]

  first_match-none :
      (round : ℕ) (nodes : List Node)
      → first_match matches round nodes ≡ none
      → NoneMatch round nodes
  unfolding first_match
  first_match-none round [] h = tt
  first_match-none round (x ∷ nodes) h = elim (Bool-cases (matches round x)) [
    | inl hit ↦ absurd (ground arith)
    | inr miss ↦ (miss, first_match-none round nodes (ground arith))
  ]

  -- How the wait ends: at the first node of the list that matches in the first round in which one
  -- does, after a sleep for each round before it; or, after `left` rounds without a match, with
  -- the `TimeoutError`.
  pub data Waits : ℕ → ℕ → List Node → Option Node × ℕ → Type 0 where
    times_out : {round : ℕ} {nodes : List Node} → Waits round 0 nodes (none, 0)
    finds :
        {round left : ℕ} {n : Node} (before after : List Node)
        → NoneMatch round before
        → matches round n ≡ true
        → Waits round (suc left) (before ++ (n ∷ after)) (some n, 0)
    sleeps :
        {round left slept : ℕ} {r : Option Node} (nodes : List Node)
        → NoneMatch round nodes
        → Waits (suc round) left nodes (r, slept)
        → Waits round (suc left) nodes (r, slept + 1)

  wait_rounds-Waits :
      (round left : ℕ) (nodes : List Node)
      → Waits round left nodes (wait_rounds matches round left nodes)
  unfolding wait_rounds
  wait_rounds-Waits round zero nodes = times_out
  wait_rounds-Waits round (suc left) nodes = elim (Option-cases (first_match matches round nodes)) [
    | inl miss ↦
        rw (miss, wait_rounds)
          (sleeps nodes (first_match-none round nodes miss)
            (wait_rounds-Waits (suc round) left nodes))
    | inr (n, hit) ↦
        let (before, after, e, clear, m) = first_match_found round nodes n hit in
        rw (hit, wait_rounds) (rw e (finds before after clear m))
  ]

  -- `wait_for_any_log` goes through at most `timeout` rounds over the nodes, and returns the first
  -- node in whose log the pattern is found, in the first round in which it is found in any.
  pub wait_for_any_log-Waits :
      (nodes : List Node) (timeout : ℕ)
      → Waits 0 timeout nodes (wait_for_any_log matches nodes timeout)
  unfolding wait_for_any_log
  wait_for_any_log-Waits nodes timeout = wait_rounds-Waits 0 timeout nodes
