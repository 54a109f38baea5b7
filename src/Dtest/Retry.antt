-- ===== src/Dtest/Retry.antt =====
-- Waiting loops: `retry_till_success` (dtest.py, and again in tools.py), the driver's retry policy
-- `FlakyRetryPolicy`, and `Tester.wait_for_any_log`.
pub mod Laws
use cassandra_dtest.Base.{
  ℕ, zero, suc, ◌+◌, ◌-◌, Bool, true, false, List, [], ◌∷◌, Option, none, some, ltb, if◌then◌else◌,
  Outcome, returned, raised, Action,
}

-- The call that is retried and the clock, on a state that holds both.
module _ {S E A : Type 0} (fun : Action S E A) (bypassed : E → Bool) (now : S → ℕ)
    (sleep : S → S) where
  -- What follows an attempt: its result, its exception, or the next turn of the loop.
  unfoldable pub after_attempt :
      ℕ → (S → Option (Outcome E A × S)) → Outcome E A × S → Option (Outcome E A × S)
  after_attempt deadline again (returned a, s) = some (returned a, s)
  after_attempt deadline again (raised e, s) = elim (bypassed e) [
    | false ↦ some (raised e, s)
    | true ↦ elim (ltb deadline (now s)) [ true ↦ some (raised e, s) | false ↦ again (sleep s) ]
  ]

  -- The `while True` loop; `none` is the end of the fuel.
  unfoldable pub retry_until : ℕ → ℕ → S → Option (Outcome E A × S)
  unfolding after_attempt
  retry_until deadline zero s = none
  retry_until deadline (suc fuel) s = after_attempt deadline (retry_until deadline fuel) (fun s)

  -- `retry_till_success`, with `timeout` in the clock's unit.
  unfoldable pub retry_till_success : ℕ → ℕ → S → Option (Outcome E A × S)
  unfolding retry_until
  retry_till_success timeout fuel s = retry_until (now s + timeout) fuel s

-- What the driver is told: `(self.RETRY, None)` or `(self.RETHROW, None)`.
pub data Decision : Type 0 where
  retry rethrow : Decision

pub data Failure : Type 0 where
  read_timeout write_timeout unavailable : Failure

-- `on_read_timeout`
unfoldable pub on_read_timeout : ℕ → Decision
on_read_timeout retry_num = if ltb retry_num 5 then retry else rethrow

-- `on_write_timeout`
unfoldable pub on_write_timeout : ℕ → Decision
on_write_timeout retry_num = if ltb retry_num 5 then retry else rethrow

-- `on_unavailable`
unfoldable pub on_unavailable : ℕ → Decision
on_unavailable retry_num = if ltb retry_num 5 then retry else rethrow

-- The handler that the driver calls for a failure.
abbrev pub decide_on : Failure → ℕ → Decision
decide_on read_timeout retry_num = on_read_timeout retry_num
decide_on write_timeout retry_num = on_write_timeout retry_num
decide_on unavailable retry_num = on_unavailable retry_num

-- `wait_for_any_log`: `matches round node` is what `node.grep_log(pattern)` finds in that round.
module _ {Node : Type 0} (matches : ℕ → Node → Bool) where
  -- `for node in nodes`
  unfoldable pub first_match : ℕ → List Node → Option Node
  first_match round [] = none
  first_match round (n ∷ ns) =
      let rest = first_match round ns in if matches round n then some n else rest

  -- The rounds from `round` on; `none` is the `TimeoutError`. The second part counts the sleeps.
  unfoldable pub wait_rounds : ℕ → ℕ → List Node → Option Node × ℕ
  unfolding first_match
  wait_rounds round zero nodes = (none, 0)
  wait_rounds round (suc left) nodes = elim (first_match round nodes) [
    | some n ↦ (some n, 0)
    | none ↦ let (r, slept) = wait_rounds (suc round) left nodes in (r, slept + 1)
  ]

  unfoldable pub wait_for_any_log : List Node → ℕ → Option Node × ℕ
  unfolding wait_rounds
  wait_for_any_log nodes timeout = wait_rounds 0 timeout nodes
