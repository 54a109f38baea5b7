-- ===== src/Consistency/Parallel.antt =====
-- `_run_test_function_in_parallel` of consistency_test.py: eight threads take combinations off a queue
-- and validate them; the threads' steps are interleaved, and the test waits for an exception or the end
-- of all of them.
mod Held
pub mod Kept
use cassandra_dtest.Base.{
  ℕ, zero, suc, ◌+◌, ◌≡◌, ◌≢◌, refl, Bool, true, false, ◌&&◌, List, [], ◌∷◌, ◌++◌, Option, none,
  some, All, map, all, replicate, ap, ap₂, ◌∙◌, sym, subst, true-ne-false, none-ne-some, arith,
  if◌then◌else◌,
}

-- The keys of a combination, from `start` to before `end`, and its levels.
pub record Item (C : Type 0) : Type 0 where
  pub start : ℕ
  pub end_key : ℕ
  pub combination : C

abbrev pub num_keys : ℕ
num_keys = 50

-- `input_queue.put((start, start + num_keys) + combination)` for each combination.
unfoldable pub enqueue : {C : Type 0} → ℕ → List C → List (Item C)
enqueue start [] = []
enqueue start (c ∷ combinations) =
    record { start = start; end_key = start + num_keys; combination = c }
    ∷ enqueue (start + num_keys) combinations

-- Where a thread stands: at the test of the loop, before `get`, in the validation, or at its end.
pub data Worker (I : Type 0) : Type 0 where
  at_loop at_get at_end : Worker I
  validating : I → Worker I

module _ {I : Type 0} where
  abbrev pub is_alive : Worker I → Bool
  is_alive at_end = false
  is_alive at_loop = true
  is_alive at_get = true
  is_alive (validating i) = true

  abbrev pub ended : List (Worker I) → Bool
  ended ws = all (λ w. if is_alive w then false else true) ws

-- The two queues, the items whose validation returned, newest first, and the threads.
pub record Pool (I E : Type 0) : Type 0 where
  pub input_queue : List I
  pub exceptions : List (I × E)
  pub validated : List I
  pub workers : List (Worker I)

module _ {I E : Type 0} where
  -- A step of `run`: what becomes of the thread, and of the queues; `answer` is how a validation ends,
  -- where one does. `Queue.Empty` leads back to the loop.
  unfoldable pub work : Worker I → Option E → Pool I E → Worker I × Pool I E
  work at_end answer p = (at_end, p)
  work at_loop answer p = elim p.input_queue [ [] ↦ (at_end, p) | i ∷ is ↦ (at_get, p) ]
  work at_get answer p = elim p.input_queue [
    | [] ↦ (at_loop, p)
    | i ∷ is ↦ (validating i, record p { input_queue = is })
  ]
  work (validating i) none p = (at_loop, record p { validated = i ∷ p.validated })
  work (validating i) (some e) p = (at_loop, record p { exceptions = (i, e) ∷ p.exceptions })

  -- The threads with one of them replaced.
  abbrev pub put : List (Worker I) → List (Worker I) → Worker I × Pool I E → Pool I E
  put before after (w, p) = record p { workers = before ++ (w ∷ after) }

  -- A step of one of the threads.
  pub data Step : Pool I E → Pool I E → Type 0 where
    works :
        (p : Pool I E) (before after : List (Worker I)) (w : Worker I) (answer : Option E)
        → p.workers ≡ before ++ (w ∷ after)
        → Step p (put before after (work w answer p))

  pub data Reach (p : Pool I E) : Pool I E → Type 0 where
    here : Reach p p
    next : {q r : Pool I E} → Reach p q → Step q r → Reach p r

  -- The threads are started when the queue is full.
  unfoldable pub start_workers : ℕ → List I → Pool I E
  start_workers n items = record {
    input_queue = items;
    exceptions = [];
    validated = [];
    workers = replicate n at_loop;
  }

  -- The wait for the threads and the assertion behind it: whether the test goes on, fails or passes.
  unfoldable pub verdict : Pool I E → Option Bool
  verdict p = elim p.exceptions [
    | [] ↦ if ended p.workers then some true else none
    | e ∷ es ↦ some false
  ]
