-- ===== src/Dtest/Lifecycle/Laws.antt =====
-- What the end of a test leaves behind.
use cassandra_dtest.Base.{
  ℕ, ◌≡◌, ◌↔◌, inl, inr, refl, Bool, true, false, ◌||◌, not, List, [], ◌∷◌, Option, none, some,
  Outcome, returned, raised, when, for_each, ◌>>◌, if◌then◌else◌, any, All, Bool-cases, arith,
  subst, sym,
}
use cassandra_dtest.Text.{Text, text}
use cassandra_dtest.Dtest.Lifecycle.{
  Exc, Call, shutdown_connection, remove_cluster, remove_test_dir, remove_last_test_dir,
  remove_store, last_test_dir, Settings, File, Calls, filter_errors, call, if_exists, ended,
  remove_store_file, remove_all, cleanup_cluster, stop_runners, check_node, marks, save_and_clean,
  check_and_clean, tear_down, is_missing,
}

-- The log check passes exactly when every error holds one of the patterns to be ignored.
pub filter_errors_iff :
    (search : Text → Text → Bool) (patterns errors : List Text)
    → (filter_errors search patterns errors ≡ [])
      ↔ All (λ e. any (λ p. search p e) patterns ≡ true) errors
unfolding filter_errors
filter_errors_iff search patterns [] = (λ h. tt, λ h. refl)
filter_errors_iff search patterns (e ∷ es) = elim (Bool-cases (any (λ p. search p e) patterns)) [
  | inl hit ↦
      let ih = filter_errors_iff search patterns es in rw hit (λ h. (refl, ih.0 h), λ h. ih.1 h.1)
  | inr miss ↦ rw miss (λ h. absurd (cons_ne_nil h), λ h. absurd (clash h.0))
]
  where
    cons_ne_nil : {t : Text} {ts : List Text} → t ∷ ts ≡ [] → ⊥
    cons_ne_nil h = cc

    clash : false ≡ true → ⊥
    clash h = cc

-- A call stands among those made.
pub data Called (c : Call) : List Call → Type 0 where
  latest : {cs : List Call} → Called c (c ∷ cs)
  earlier : {d : Call} {cs : List Call} → Called c cs → Called c (d ∷ cs)

-- What was called stays called.
abbrev pub Keeps : Call → Calls (Unit {0}) → Type 0
Keeps c m = (calls : List Call) → Called c calls → Called c (m calls).1

module _ (c : Call) where
  then-Keeps : (m k : Calls (Unit {0})) → Keeps c m → Keeps c k → Keeps c (m >> k)
  then-Keeps m k hm hk calls h = go (m calls) (hm calls h)
    where
      go :
          (p : Outcome Exc (Unit {0}) × List Call)
          → Called c p.1
          → Called c
              (elim p.0 as (λ o. Outcome Exc (Unit {0}) × List Call) [
                | returned a ↦ k p.1
                | raised e ↦ (raised e, p.1)
              ]).1
      go (returned _, cs) q = hk cs q
      go (raised e, cs) q = q

  when-Keeps : (b : Bool) (m : Calls (Unit {0})) → Keeps c m → Keeps c (when b m)
  when-Keeps true m hm calls h = hm calls h
  when-Keeps false m hm calls h = h

  for_each-Keeps :
      {X : Type 0} (xs : List X) (m : X → Calls (Unit {0}))
      → ((x : X) → Keeps c (m x))
      → Keeps c (for_each xs m)
  for_each-Keeps [] m hm calls h = h
  for_each-Keeps (x ∷ xs) m hm calls h = go (for_each-Keeps xs m hm) (m x calls) (hm x calls h)
    where
      go :
          Keeps c (for_each xs m)
          → (p : Outcome Exc (Unit {0}) × List Call) → Called c p.1
          → Called c
              (elim p.0 as (λ o. Outcome Exc (Unit {0}) × List Call) [
                | returned _ ↦ for_each xs m p.1
                | raised e ↦ (raised e, p.1)
              ]).1
      go rest (returned _, cs) q = rest cs q
      go rest (raised e, cs) q = q

abbrev Result : Type 0
Result = Outcome Exc (Unit {0}) × List Call

abbrev instead_of : Outcome Exc (Unit {0}) → Result → Result
instead_of r q = elim q.0 as (λ o. Result) [ returned _ ↦ (r, q.1) | raised e ↦ (raised e, q.1) ]

abbrev and_then : (List Call → Result) → Result → Result
and_then k p = elim p.0 as (λ o. Result) [ returned _ ↦ k p.1 | raised e ↦ (raised e, p.1) ]

abbrev caught_or : Result → Result → Bool → Result
caught_or x y b = if b then x else y

module _ (fails : List Call → Call → Option Exc) (exists : List Call → File → Bool)
    (search : Text → Text → Bool) (log_errors : ℕ → List Text) (s : Settings) where
  call-Keeps : (c d : Call) → Keeps c (call fails exists search log_errors s d)
  call-Keeps c d calls h = earlier h

  remove_store_file-Keeps :
      (c : Call) (f : Text) → Keeps c (remove_store_file fails exists search log_errors s f)
  unfolding remove_store_file
  remove_store_file-Keeps c f calls h = go (fails calls (remove_store f))
    where
      caught :
          (b : Bool) (e : Exc)
          → Called c
              (caught_or
                (returned tt, remove_store f ∷ calls)
                (raised e, remove_store f ∷ calls)
                b).1
      caught true e = earlier h
      caught false e = earlier h

      go :
          (o : Option Exc)
          → Called c
              (elim (ended fails exists search log_errors s o)
                as (λ q. Outcome Exc (Unit {0}) × List Call) [
                  | returned a ↦ (returned a, remove_store f ∷ calls)
                  | raised e ↦
                      caught_or
                        (returned tt, remove_store f ∷ calls)
                        (raised e, remove_store f ∷ calls)
                        (is_missing fails exists search log_errors s e)
                ]).1
      go none = earlier h
      go (some e) = caught (is_missing fails exists search log_errors s e) e

  -- `self.cluster.remove()` is called, whatever fails after it.
  remove_all-Called :
      (calls : List Call)
      → s.record_coverage ≡ false
      → Called remove_cluster (remove_all fails exists search log_errors s calls).1
  unfolding remove_all
  remove_all-Called calls plain = rw plain (go (fails calls remove_cluster))
    where
      rest : Keeps remove_cluster (
          for_each
            (text "keystore.jks" ∷ text "truststore.jks" ∷ text "ccm_node.cer" ∷ [])
            (remove_store_file fails exists search log_errors s)
          >> call fails exists search log_errors s remove_test_dir)
      rest =
          then-Keeps remove_cluster
            (for_each (text "keystore.jks" ∷ text "truststore.jks" ∷ text "ccm_node.cer" ∷ [])
              (remove_store_file fails exists search log_errors s))
            (call fails exists search log_errors s remove_test_dir)
            (for_each-Keeps remove_cluster
              (text "keystore.jks" ∷ text "truststore.jks" ∷ text "ccm_node.cer" ∷ [])
              (remove_store_file fails exists search log_errors s)
              (remove_store_file-Keeps remove_cluster))
            (call-Keeps remove_cluster remove_test_dir)

      go :
          (o : Option Exc)
          → Called remove_cluster
              (elim (ended fails exists search log_errors s o)
                as (λ q. Outcome Exc (Unit {0}) × List Call) [
                  | returned a ↦
                      (for_each
                            (text "keystore.jks" ∷ text "truststore.jks" ∷ text "ccm_node.cer" ∷ [])
                            (remove_store_file fails exists search log_errors s)
                          >> call fails exists search log_errors s remove_test_dir)
                        (remove_cluster ∷ calls)
                  | raised e ↦ (raised e, remove_cluster ∷ calls)
                ]).1
      go none = rest (remove_cluster ∷ calls) latest
      go (some e) = latest

  -- A cluster that is not to be kept is removed by `_cleanup_cluster`.
  cleanup_cluster-Called :
      (calls : List Call)
      → s.keep_test_dir ≡ false
      → s.record_coverage ≡ false
      → Called remove_cluster (cleanup_cluster fails exists search log_errors s calls).1
  unfolding cleanup_cluster
  cleanup_cluster-Called calls gone plain =
      rw gone
        (go (remove_all fails exists search log_errors s calls) (remove_all-Called calls plain))
    where
      go :
          (p : Result)
          → Called remove_cluster p.1
          → Called remove_cluster
              (elim p.0 as (λ q. Result) [
                | returned a ↦
                    if_exists fails exists search log_errors s last_test_dir
                      (call fails exists search log_errors s remove_last_test_dir)
                      p.1
                | raised e ↦ (raised e, p.1)
              ]).1
      go (returned _, cs) h =
          when-Keeps remove_cluster (exists cs last_test_dir)
            (call fails exists search log_errors s remove_last_test_dir)
            (call-Keeps remove_cluster remove_last_test_dir) cs h
      go (raised e, cs) h = h

  abbrev NotKept : Bool → Type 0
  NotKept failed = (not s.preserve_cluster || failed) ≡ true

  -- Whatever copying the logs comes to, the cleaning follows.
  save_and_clean-Called :
      (failed : Bool) (calls : List Call)
      → NotKept failed
      → s.keep_test_dir ≡ false
      → s.record_coverage ≡ false
      → Called remove_cluster (save_and_clean fails exists search log_errors s failed calls).1
  unfolding save_and_clean
  save_and_clean-Called failed calls due gone plain = rw due (
      last _ (cleanup_cluster fails exists search log_errors s _)
        (cleanup_cluster-Called _ gone plain))
    where
      last :
          (r : Outcome Exc (Unit {0})) (q : Result)
          → Called remove_cluster q.1
          → Called remove_cluster (instead_of r q).1
      last r (returned _, cs) h = h
      last r (raised e, cs) h = h

  check_and_clean-Called :
      (failed : Bool) (calls : List Call)
      → NotKept failed
      → s.keep_test_dir ≡ false
      → s.record_coverage ≡ false
      → Called remove_cluster (check_and_clean fails exists search log_errors s failed calls).1
  unfolding check_and_clean
  check_and_clean-Called failed calls due gone plain =
      go (for_each s.nodes (check_node fails exists search log_errors s) calls)
    where
      still : (b : Bool) → NotKept (failed || b)
      still b = ground (arith, due)

      last :
          (r : Outcome Exc (Unit {0})) (q : Result)
          → Called remove_cluster q.1
          → Called remove_cluster (instead_of r q).1
      last r (returned _, cs) h = h
      last r (raised e, cs) h = h

      go :
          (p : Result)
          → Called remove_cluster
              (instead_of p.0 (
                save_and_clean fails exists search log_errors s
                  (failed || marks fails exists search log_errors s p.0)
                  p.1)).1
      go (r, cs) =
          last r
            (save_and_clean fails exists search log_errors s
              (failed || marks fails exists search log_errors s r) cs)
            (save_and_clean-Called (failed || marks fails exists search log_errors s r) cs
              (still (marks fails exists search log_errors s r)) gone plain)

  -- When the driver's connections can be shut down, `tearDown` removes the cluster, whatever else
  -- raises: stopping the runners, reading or judging the logs, copying them. This is for a cluster
  -- that is not preserved, or a test that failed, without `KEEP_TEST_DIR` and `RECORD_COVERAGE`.
  pub tear_down-Called :
      (handling : Bool) (calls shut : List Call)
      → for_each s.connections
          (λ c. call fails exists search log_errors s (shutdown_connection c))
          calls
        ≡ (returned tt, shut)
      → NotKept handling
      → s.keep_test_dir ≡ false
      → s.record_coverage ≡ false
      → Called remove_cluster (tear_down fails exists search log_errors s handling calls).1
  unfolding tear_down
  tear_down-Called handling calls shut e due gone plain =
      subst (λ p. Called remove_cluster (and_then rest p).1) (sym e)
        (go (stop_runners fails exists search log_errors s s.runners shut))
    where
      rest : List Call → Result
      rest cs =
          let (raised_one, after) = stop_runners fails exists search log_errors s s.runners cs in
          check_and_clean fails exists search log_errors s (handling || raised_one) after

      still : (b : Bool) → NotKept (handling || b)
      still b = ground (arith, due)

      go :
          (p : Bool × List Call)
          → Called remove_cluster
              (check_and_clean fails exists search log_errors s (handling || p.0) p.1).1
      go (b, cs) = check_and_clean-Called (handling || b) cs (still b) gone plain
