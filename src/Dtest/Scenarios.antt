-- ===== src/Dtest/Scenarios.antt =====
-- `run_scenarios` and `MultiError` of dtest.py: mini-tests that share a state, whose exceptions are
-- gathered into one.
use cassandra_dtest.Base.{
  Bool, true, false, List, [], ◌∷◌, ◌++◌, Outcome, returned, raised, Action, map, ◌≡◌, refl,
}
use cassandra_dtest.Text.{Text, text}
use mathlib.Core.List.{append_assoc}

module _ {S E Scenario Traceback : Type 0} (handler : Scenario → Action S E (Unit {0}))
    (deferrable : E → Bool) (annotate : Scenario → E → E) (format_exc : E → Traceback) where
  -- `MultiError(errors, tracebacks)`
  pub record MultiError : Type 0 where
    pub exceptions : List E
    pub tracebacks : List Traceback

  -- The two `append`s of a handler: the exception is raised anew with the scenario in its message.
  unfoldable pub note_failure : MultiError → Scenario → E → MultiError
  note_failure m x e = record {
    exceptions = m.exceptions ++ (annotate x e ∷ []);
    tracebacks = m.tracebacks ++ (format_exc e ∷ []);
  }

  -- `if errors: raise MultiError(errors, tracebacks)`
  unfoldable pub finish : MultiError → S → Outcome MultiError (Unit {0}) × S
  finish m s = elim m.exceptions [ [] ↦ (returned tt, s) | e ∷ es ↦ (raised m, s) ]

  -- The `try` statement of one turn; `rest` is the remainder of the loop.
  unfoldable pub after_scenario :
      (MultiError → Action S MultiError (Unit {0}))
      → MultiError
      → Scenario
      → Outcome E (Unit {0}) × S
      → Outcome MultiError (Unit {0}) × S
  unfolding note_failure
  after_scenario rest m x (returned _, s) = rest m s
  after_scenario rest m x (raised e, s) = elim (deferrable e) [
    | true ↦ rest (note_failure m x e) s
    | false ↦ (raised (note_failure m x e), s)
  ]

  unfoldable pub scenario_loop : List Scenario → MultiError → Action S MultiError (Unit {0})
  unfolding after_scenario finish
  scenario_loop [] m s = finish m s
  scenario_loop (x ∷ xs) m s = after_scenario (scenario_loop xs) m x (handler x s)

  unfoldable pub run_scenarios : List Scenario → Action S MultiError (Unit {0})
  unfolding scenario_loop
  run_scenarios scenarios s =
      scenario_loop scenarios (record { exceptions = []; tracebacks = [] }) s

  -- A failed scenario, with the exception of its handler.
  abbrev pub Failed : Type 0
  Failed = Scenario × E

  -- What happened, written down apart from how it is reported: the scenarios run in order from a
  -- state to a state, and the failures among them; the flag says that the last of them aborted.
  pub data Trace : S → List Scenario → List Failed → Bool → S → Type 0 where
    done : {s : S} → Trace s [] [] false s
    passes :
        {s t u : S} {x : Scenario} {xs : List Scenario} {fs : List Failed} {b : Bool}
        → handler x s ≡ (returned tt, t)
        → Trace t xs fs b u
        → Trace s (x ∷ xs) fs b u
    defers :
        {s t u : S} {x : Scenario} {xs : List Scenario} {fs : List Failed} {b : Bool} {e : E}
        → handler x s ≡ (raised e, t)
        → deferrable e ≡ true
        → Trace t xs fs b u
        → Trace s (x ∷ xs) ((x, e) ∷ fs) b u
    aborts :
        {s t : S} {x : Scenario} {xs : List Scenario} {e : E}
        → handler x s ≡ (raised e, t)
        → deferrable e ≡ false
        → Trace s (x ∷ xs) ((x, e) ∷ []) true t

  abbrev pub report : List Failed → MultiError
  report fs = record {
    exceptions = map (λ f. annotate f.0 f.1) fs;
    tracebacks = map (λ f. format_exc f.1) fs;
  }

  -- The outcome that goes with the failures.
  abbrev pub verdict : List Failed → Outcome MultiError (Unit {0})
  verdict [] = returned tt
  verdict (f ∷ fs) = raised (report (f ∷ fs))

  abbrev Traced : List Scenario → List Failed → S → Outcome MultiError (Unit {0}) × S → Type 0
  Traced xs before s r =
      (fs : List Failed) × (b : Bool) × (u : S) × Trace s xs fs b u
      × (r ≡ (verdict (before ++ fs), u))

  module _ (str : E → Text) (tb : Traceback → Text) where
    -- `MultiError.__str__`: the loop is over `zip(self.exceptions, self.tracebacks)`.
    unfoldable pub entries : List E → List Traceback → Text
    entries [] ts = []
    entries (e ∷ es) [] = []
    entries (e ∷ es) (t ∷ ts) = str e ++ (tb t ++ (text "\n" ++ entries es ts))

    unfoldable pub multi_error_str : MultiError → Text
    unfolding entries
    multi_error_str m =
        text "\n****************************** BEGIN MultiError ******************************\n"
        ++ (entries m.exceptions m.tracebacks
            ++ text "****************************** END MultiError ******************************")

    -- The text of one failure.
    abbrev pub entry : Failed → Text
    entry f = str (annotate f.0 f.1) ++ (tb (format_exc f.1) ++ text "\n")

    abbrev pub entries_of : List Failed → Text
    entries_of [] = []
    entries_of (f ∷ fs) = entry f ++ entries_of fs

    entries-report :
        (fs : List Failed)
        → entries (map (λ f. annotate f.0 f.1) fs) (map (λ f. format_exc f.1) fs) ≡ entries_of fs
    unfolding entries
    entries-report [] = refl
    entries-report (f ∷ fs) = simp (entries-report fs, append_assoc)

    -- The text of a `MultiError` that `run_scenarios` raises holds every failure once, in order,
    -- between the two banner lines.
    pub multi_error_str-report :
        (fs : List Failed)
        → multi_error_str (report fs)
          ≡ text
              "\n****************************** BEGIN MultiError ******************************\n"
            ++ (entries_of fs
                ++ text
                    "****************************** END MultiError ******************************")
    unfolding multi_error_str
    multi_error_str-report fs = rw (entries-report fs)
