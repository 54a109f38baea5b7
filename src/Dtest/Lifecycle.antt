-- ===== src/Dtest/Lifecycle.antt =====
-- The end of a test in dtest.py: `tearDown`, `_cleanup_cluster`, `copy_logs` and `__filter_errors`,
-- as calls of ccm, the driver and the file system that may each raise.
pub mod Laws
use cassandra_dtest.Base.{
  ℕ, Bool, true, false, ◌&&◌, ◌||◌, not, List, [], ◌∷◌, ◌++◌, Option, none, some, Outcome, returned,
  raised, Action, pure, raise, ◌>>=◌, ◌>>◌, try_except, try_finally, when, for_each, if◌then◌else◌,
  any,
}
use cassandra_dtest.Text.{Text, text}

-- The exceptions: an `OSError` for a missing file, any other `OSError` or exception, and the
-- `AssertionError` about a node's log.
pub data Exc : Type 0 where
  no_such_file os_error other : Exc
  unexpected_errors : ℕ → List Text → Exc

-- What the code does outside of itself, by number of connection, runner or node.
pub data Call : Type 0 where
  shutdown_connection stop_runner grep_log : ℕ → Call
  stop_cluster : Bool → Call
  remove_cluster remove_test_dir remove_last_test_dir : Call
  remove_store : Text → Call
  make_log_root make_log_dir unlink_last link_last : Call
  copy_log copy_debug_log : ℕ → Call

-- The module's constants and the test's attributes.
pub record Settings : Type 0 where
  pub keep_test_dir : Bool
  pub record_coverage : Bool
  pub keep_logs : Bool
  pub on_windows : Bool
  pub preserve_cluster : Bool
  pub allow_log_errors : Bool
  pub ignore_log_patterns : List Text
  pub connections : List ℕ
  pub runners : List ℕ
  pub nodes : List ℕ

-- The files whose presence is looked at.
pub data File : Type 0 where
  last_test_dir log_root last_log : File
  log_of debug_log_of : ℕ → File

-- The calls that were made, newest first.
abbrev pub Calls : Type 0 → Type 0
Calls A = Action (List Call) Exc A

-- `__filter_errors`: an error is given on when no pattern is found in it.
module _ (search : Text → Text → Bool) where
  unfoldable pub filter_errors : List Text → List Text → List Text
  filter_errors patterns [] = []
  filter_errors patterns (e ∷ es) =
      let rest = filter_errors patterns es in
      if any (λ p. search p e) patterns then rest else e ∷ rest

-- The surroundings: how a call ends, which files are there, and what the log of a node holds.
module _ (fails : List Call → Call → Option Exc) (exists : List Call → File → Bool)
    (search : Text → Text → Bool) (log_errors : ℕ → List Text) (s : Settings) where
  abbrev pub ended : Option Exc → Outcome Exc (Unit {0})
  ended none = returned tt
  ended (some e) = raised e

  abbrev pub call : Call → Calls (Unit {0})
  call c calls = (ended (fails calls c), c ∷ calls)

  abbrev pub if_exists : File → Calls (Unit {0}) → Calls (Unit {0})
  if_exists f m calls = when (exists calls f) m calls

  abbrev pub is_missing : Exc → Bool
  is_missing no_such_file = true
  is_missing os_error = false
  is_missing other = false
  is_missing (unexpected_errors n es) = false

  -- `os.remove`, where the file need not be there.
  unfoldable pub remove_store_file : Text → Calls (Unit {0})
  remove_store_file f = try_except is_missing (call (remove_store f)) (λ e. pure tt)

  -- What `_cleanup_cluster` does without `KEEP_TEST_DIR`.
  unfoldable pub remove_all : Calls (Unit {0})
  unfolding remove_store_file
  remove_all =
      when s.record_coverage (call (stop_cluster true))
      >> (call remove_cluster
          >> (for_each (text "keystore.jks" ∷ text "truststore.jks" ∷ text "ccm_node.cer" ∷ [])
                remove_store_file
              >> call remove_test_dir))

  -- `_cleanup_cluster`
  unfoldable pub cleanup_cluster : Calls (Unit {0})
  unfolding remove_all
  cleanup_cluster =
      (λ calls.
        if s.keep_test_dir then call (stop_cluster s.record_coverage) calls else remove_all calls)
      >> if_exists last_test_dir (call remove_last_test_dir)

  -- The logs of one node.
  unfoldable pub copy_node_logs : ℕ → Calls (Unit {0})
  copy_node_logs n =
      if_exists (log_of n) (call (copy_log n))
      >> if_exists (debug_log_of n) (call (copy_debug_log n))

  abbrev pub is_empty : List ℕ → Bool
  is_empty [] = true
  is_empty (n ∷ ns) = false

  -- `copy_logs`, with the default directory and name.
  unfoldable pub copy_logs : Calls (Unit {0})
  unfolding copy_node_logs
  copy_logs =
      (λ calls. when (not (exists calls log_root)) (call make_log_root) calls)
      >> when (not (is_empty s.nodes)) (
          call make_log_dir
          >> (for_each s.nodes copy_node_logs
              >> (if_exists last_log (call unlink_last)
                  >> when (not s.on_windows) (call link_last))))

  -- `runner.stop()` with its exception dropped. Python 2 keeps an exception that was handled in
  -- `sys.exc_info()` until the function returns, so the flag comes back.
  unfoldable pub stop_runners : List ℕ → List Call → Bool × List Call
  stop_runners [] calls = (false, calls)
  stop_runners (r ∷ rs) calls =
      let (b, after) = stop_runners rs (call (stop_runner r) calls).1 in
      (elim (call (stop_runner r) calls).0 [ returned _ ↦ b | raised e ↦ true ], after)

  -- `if len(errors) is not 0`: the test fails for what is left of the log's errors.
  abbrev pub expect_none : ℕ → List Text → Calls (Unit {0})
  expect_none n [] = pure tt
  expect_none n (e ∷ es) = raise (unexpected_errors n (e ∷ es))

  unfoldable pub check_node : ℕ → Calls (Unit {0})
  unfolding filter_errors
  check_node n = when (not s.allow_log_errors) (
      call (grep_log n)
      >> expect_none n (filter_errors search s.ignore_log_patterns (log_errors n)))

  -- `failed = True` stands before the `AssertionError`; an exception of the log's search leaves it.
  abbrev pub marks : Outcome Exc (Unit {0}) → Bool
  marks (returned _) = false
  marks (raised no_such_file) = false
  marks (raised os_error) = false
  marks (raised other) = false
  marks (raised (unexpected_errors n es)) = true

  -- The statement behind the outer `finally`.
  unfoldable pub save_and_clean : Bool → Calls (Unit {0})
  unfolding copy_logs cleanup_cluster
  save_and_clean failed =
      try_finally (try_except (λ e. true) (when (failed || s.keep_logs) copy_logs) (λ e. pure tt))
        (when (not s.preserve_cluster || failed) cleanup_cluster)

  -- From `failed = …` on: the check of the logs with both `finally` blocks.
  unfoldable pub check_and_clean : Bool → Calls (Unit {0})
  unfolding check_node save_and_clean
  check_and_clean failed calls =
      let (r, after) = for_each s.nodes check_node calls in
      let (q, last) = save_and_clean (failed || marks r) after in
      elim q [ returned _ ↦ (r, last) | raised e ↦ (raised e, last) ]

  -- `tearDown`; the flag is whether an exception of the test is being handled.
  unfoldable pub tear_down : Bool → Calls (Unit {0})
  unfolding stop_runners check_and_clean
  tear_down handling = for_each s.connections (λ c. call (shutdown_connection c)) >> (λ calls.
      let (raised_one, after) = stop_runners s.runners calls in
      check_and_clean (handling || raised_one) after)
