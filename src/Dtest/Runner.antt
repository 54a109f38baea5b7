-- ===== src/Dtest/Runner.antt =====
-- `Runner` of dtest.py: a thread that calls a function with 0, 1, 2, … until it is told to stop or
-- the function raises. The thread's loop and the test that holds it are interleaved.
pub mod Stop
use cassandra_dtest.Base.{
  ℕ, zero, suc, ◌+◌, ◌≡◌, ◌≢◌, refl, Bool, true, false, List, [], ◌∷◌, ◌++◌, Option, none, some,
  Outcome, returned, raised, length, range, range_from, arith, if◌then◌else◌, ap, ◌∙◌,
  length-range_from, Bool-cases, inl, inr, sym, subst, ◌⊎◌,
}

-- Where the thread stands: not started; at `if self.__stopped` with the counter `i`; past that test,
-- before the call `self.__func(i)`; in the call; behind `self.__error = e`; returned; or left by an
-- exception, like `SystemExit`, that `except Exception` does not catch.
pub data Place : Type 0 where
  fresh leaving ended escaped : Place
  top calling inside : ℕ → Place

-- How a call of the function ends: it returns, or raises an `Exception` or another exception.
pub data CallEnd (E : Type 0) : Type 0 where
  returns escapes : CallEnd E
  raises : E → CallEnd E

pub record Runner (E : Type 0) : Type 0 where
  pub place : Place
  pub stopped : Bool
  pub error : Option E
  -- The arguments of the calls that were begun, oldest first.
  pub calls : List ℕ

module _ {E : Type 0} where
  -- `Runner.__init__`
  unfoldable pub new_runner : Runner E
  new_runner = record { place = fresh; stopped = false; error = none; calls = [] }

  -- `start()`, inherited from `threading.Thread`: the loop begins with the counter at 0.
  unfoldable pub start_at : Place → Runner E → Runner E
  start_at fresh r = record r { place = top 0 }
  start_at leaving r = r
  start_at ended r = r
  start_at escaped r = r
  start_at (top i) r = r
  start_at (calling i) r = r
  start_at (inside i) r = r

  unfoldable pub start : Runner E → Runner E
  unfolding start_at
  start r = start_at r.place r

  -- One step of `run` from a place, which reads the flag, begins a call, or ends one; `answer` is how
  -- the call of the function ends, where one does.
  unfoldable pub run_at : Place → CallEnd E → Runner E → Runner E
  run_at fresh answer r = r
  run_at leaving answer r = record r { place = ended }
  run_at ended answer r = r
  run_at escaped answer r = r
  run_at (top i) answer r = record r { place = if r.stopped then ended else calling i }
  run_at (calling i) answer r = record r { place = inside i; calls = r.calls ++ (i ∷ []) }
  run_at (inside i) returns r = record r { place = top (i + 1) }
  run_at (inside i) (raises e) r = record r { place = leaving; error = some e }
  run_at (inside i) escapes r = record r { place = escaped }

  unfoldable pub run_step : CallEnd E → Runner E → Runner E
  unfolding run_at
  run_step answer r = run_at r.place answer r

  -- The first line of `stop`; `self.join()` then waits for the end of the thread.
  unfoldable pub request_stop : Runner E → Runner E
  request_stop r = record r { stopped = true }

  -- `if self.__error is not None: raise self.__error`, which ends `stop` and is all of `check`.
  unfoldable pub check : Runner E → Outcome E (Unit {0})
  check r = elim r.error [ none ↦ returned tt | some e ↦ raised e ]

  -- `Tester.go`: a new thread, last among the runners of the test, which is started.
  unfoldable pub go : List (Runner E) → List (Runner E)
  unfolding new_runner start_at start
  go runners = runners ++ (start new_runner ∷ [])

  -- A step of either thread.
  pub data Step : Runner E → Runner E → Type 0 where
    starts : (r : Runner E) → Step r (start r)
    runs : (r : Runner E) (answer : CallEnd E) → Step r (run_step answer r)
    stops : (r : Runner E) → Step r (request_stop r)

  pub data Reach (r : Runner E) : Runner E → Type 0 where
    here : Reach r r
    next : {s t : Runner E} → Reach r s → Step s t → Reach r t

  -- The calls that a thread at a place has begun, and what its end means.
  abbrev pub Fits : Place → Bool → Option E → List ℕ → Type 0
  Fits fresh stopped error calls = (error ≡ none) × (calls ≡ [])
  Fits (top i) stopped error calls = (error ≡ none) × (calls ≡ range i)
  Fits (calling i) stopped error calls = (error ≡ none) × (calls ≡ range i)
  Fits (inside i) stopped error calls = (error ≡ none) × (calls ≡ range (suc i))
  Fits leaving stopped error calls = (error ≢ none) × (calls ≡ range (length calls))
  Fits ended stopped error calls = (error ≡ none → stopped ≡ true) × (calls ≡ range (length calls))
  Fits escaped stopped error calls = (error ≡ none) × (calls ≡ range (length calls))

  abbrev pub IsValid : Runner E → Type 0
  IsValid r = Fits r.place r.stopped r.error r.calls

range_from_snoc : (a n : ℕ) → range_from a n ++ ((a + n) ∷ []) ≡ range_from a (suc n)
range_from_snoc a zero = ground arith
range_from_snoc a (suc n) =
    let e : a + suc n ≡ a + 1 + n = omega arith in
    ap (λ l. a ∷ l) (ap (λ k. range_from (a + 1) n ++ (k ∷ [])) e ∙ range_from_snoc (a + 1) n)

range_snoc : (n : ℕ) → range n ++ (n ∷ []) ≡ range (suc n)
range_snoc n =
    let e : n ≡ 0 + n = omega arith in ap (λ k. range n ++ (k ∷ [])) e ∙ range_from_snoc 0 n

length-range : (n : ℕ) → length (range n) ≡ n
length-range n = length-range_from 0 n

counted : (n : ℕ) {calls : List ℕ} → calls ≡ range n → calls ≡ range (length calls)
counted n h = h ∙ ap range (sym (ap length h ∙ length-range n))

module _ {E : Type 0} where
  start_at-IsValid :
      (p : Place) (r : Runner E)
      → Fits p r.stopped r.error r.calls
      → r.place ≡ p
      → IsValid (start_at p r)
  unfolding start_at
  start_at-IsValid fresh r v e = v
  start_at-IsValid leaving r v e = rw e v
  start_at-IsValid ended r v e = rw e v
  start_at-IsValid escaped r v e = rw e v
  start_at-IsValid (top i) r v e = rw e v
  start_at-IsValid (calling i) r v e = rw e v
  start_at-IsValid (inside i) r v e = rw e v

  run_at-IsValid :
      (p : Place) (answer : CallEnd E) (r : Runner E)
      → Fits p r.stopped r.error r.calls
      → r.place ≡ p
      → IsValid (run_at p answer r)
  unfolding run_at
  run_at-IsValid fresh answer r v e = rw e v
  run_at-IsValid leaving answer r v e = (λ h. absurd (v.0 h), v.1)
  run_at-IsValid ended answer r v e = rw e v
  run_at-IsValid escaped answer r v e = rw e v
  run_at-IsValid (top i) answer r v e = elim (Bool-cases r.stopped) [
    | inl stop ↦ rw stop (λ h. refl, counted i v.1)
    | inr on ↦ rw on v
  ]
  run_at-IsValid (calling i) answer r v e = (v.0, ap (λ l. l ++ (i ∷ [])) v.1 ∙ range_snoc i)
  run_at-IsValid (inside i) returns r v e = (v.0, v.1 ∙ ap range {x = suc i} (omega arith))
  run_at-IsValid (inside i) (raises x) r v e = (λ h. cc, counted (suc i) v.1)
  run_at-IsValid (inside i) escapes r v e = (v.0, counted (suc i) v.1)

  request_stop-IsValid : (r : Runner E) → IsValid r → IsValid (request_stop r)
  unfolding request_stop
  request_stop-IsValid r v = keep r.place v
    where
      keep : (p : Place) → Fits p r.stopped r.error r.calls → Fits p true r.error r.calls
      keep fresh h = h
      keep leaving h = h
      keep (top i) h = h
      keep (calling i) h = h
      keep (inside i) h = h
      keep escaped h = h
      keep ended h = (λ e. refl, h.1)

  Step-IsValid : {r s : Runner E} → Step r s → IsValid r → IsValid s
  unfolding start run_step
  Step-IsValid (starts r) v = start_at-IsValid r.place r v refl
  Step-IsValid (runs r answer) v = run_at-IsValid r.place answer r v refl
  Step-IsValid (stops r) v = request_stop-IsValid r v

  -- However the thread and the test are interleaved, the function has been called with 0, 1, 2, …,
  -- each once and in order; no exception is kept before a call has raised it, and none when the thread
  -- is left by an exception that is not an `Exception`; and a thread that has returned without an
  -- exception was told to stop.
  pub Reach-IsValid : {r : Runner E} → Reach new_runner r → IsValid r
  unfolding new_runner
  Reach-IsValid here = (refl, refl)
  Reach-IsValid (next h st) = Step-IsValid st (Reach-IsValid h)
