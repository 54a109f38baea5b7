-- ===== src/Dtest/Environment.antt =====
-- What dtest.py reads from the environment, and the helpers around it: the module's settings,
-- `reset_environment_vars`, `warning`, `debug`, `set_node_to_current_version`, the scan for leftover
-- processes on Windows and `__setup_jacoco`. Environments are association lists; which files exist,
-- the processes and what becomes of a kill are parameters.
use cassandra_dtest.Base.{
  ℕ, ◌≡◌, refl, Bool, true, false, ◌&&◌, List, [], ◌∷◌, ◌++◌, Option, none, some, Outcome, returned,
  raised, any, arith, ap, ap₂, ◌∙◌, sym, if◌then◌else◌,
}
use cassandra_dtest.Text.{Text, text, text_eq, lower, lower_code}
use mathlib.Core.List.{append-nil, append_assoc}

abbrev pub Environ : Type 0
Environ = List (Text × Text)

-- `os.environ.get(name, default)`
unfoldable pub get : Text → Text → Environ → Text
unfolding text_eq
get name default [] = default
get name default ((k, v) ∷ env) =
    let rest = get name default env in if text_eq k name then v else rest

-- `value.lower() in words`
unfoldable pub says : List Text → Text → Bool
unfolding text_eq lower
says words value = any (text_eq (lower value)) words

abbrev pub yes_words : List Text
yes_words = text "yes" ∷ text "true" ∷ []

abbrev pub no_words : List Text
no_words = text "no" ∷ text "false" ∷ []

-- `os.environ.get(name, default).lower() in ('yes', 'true')`
unfoldable pub enabled : Text → Text → Environ → Bool
unfolding get says
enabled name default env = says yes_words (get name default env)

-- The settings at the top of the module.
pub record ModuleSettings : Type 0 where
  pub cassandra_dir : Text
  pub no_skip : Bool
  pub debugging : Bool
  pub tracing : Bool
  pub keep_logs : Bool
  pub keep_test_dir : Bool
  pub print_debug : Bool
  pub disable_vnodes : Bool
  pub offheap_memtables : Bool
  pub num_tokens : Text
  pub record_coverage : Bool
  pub reuse_cluster : Bool
  pub silence_driver_on_shutdown : Bool
  pub ignore_require : Bool

-- `DEFAULT_DIR`: the option of the user's configuration file, if there is one, with `~` expanded.
unfoldable pub default_dir : (Text → Text) → Option Text → Text
default_dir expanduser none = text "./"
default_dir expanduser (some dir) = expanduser dir

unfoldable pub module_settings : (Text → Text) → Option Text → Environ → ModuleSettings
unfolding get says enabled default_dir
module_settings expanduser configured env = record {
  cassandra_dir = get (text "CASSANDRA_DIR") (default_dir expanduser configured) env;
  no_skip = says no_words (get (text "SKIP") [] env);
  debugging = enabled (text "DEBUG") [] env;
  tracing = enabled (text "TRACE") [] env;
  keep_logs = enabled (text "KEEP_LOGS") [] env;
  keep_test_dir = enabled (text "KEEP_TEST_DIR") [] env;
  print_debug = enabled (text "PRINT_DEBUG") [] env;
  disable_vnodes = enabled (text "DISABLE_VNODES") [] env;
  offheap_memtables = enabled (text "OFFHEAP_MEMTABLES") [] env;
  num_tokens = get (text "NUM_TOKENS") (text "256") env;
  record_coverage = enabled (text "RECORD_COVERAGE") [] env;
  reuse_cluster = enabled (text "REUSE_CLUSTER") [] env;
  silence_driver_on_shutdown = enabled (text "SILENCE_DRIVER_ON_SHUTDOWN") (text "true") env;
  ignore_require = enabled (text "IGNORE_REQUIRE") [] env;
}

-- `reset_environment_vars`: `os.environ.clear()`, then `update` with the copy from the start.
unfoldable pub reset_environment_vars : Environ → Environ → Environ
reset_environment_vars initial_environment env = [] ++ initial_environment

-- What has been logged, with its level and the running test, and printed.
pub record Output : Type 0 where
  pub logged : List (Text × Text × Text)
  pub printed : List Text

-- `warning`
unfoldable pub warning : Bool → Text → Text → Output → Output
warning print_debug current_test msg o = record {
  logged = o.logged ++ ((text "WARNING", msg, current_test) ∷ []);
  printed = if print_debug then o.printed ++ ((text "WARN: " ++ msg) ∷ []) else o.printed;
}

-- `debug`
unfoldable pub debug : Bool → Text → Text → Output → Output
debug print_debug current_test msg o = record {
  logged = o.logged ++ ((text "DEBUG", msg, current_test) ∷ []);
  printed = if print_debug then o.printed ++ (msg ∷ []) else o.printed;
}

-- `node.set_install_dir(version=…)` or `(install_dir=…)`.
pub data InstallFrom : Type 0 where
  by_version by_dir : Text → InstallFrom

-- `set_node_to_current_version`: a version that is not there or empty gives way to `CASSANDRA_DIR`.
unfoldable pub set_node_to_current_version : ModuleSettings → Environ → InstallFrom
unfolding get
set_node_to_current_version s env = elim (get (text "CASSANDRA_VERSION") [] env) [
  | [] ↦ by_dir s.cassandra_dir
  | c ∷ version ↦ by_version (c ∷ version)
]

-- A process of `psutil.process_iter()`, as `as_dict` shows it; the arguments are a list.
pub record Process : Type 0 where
  pub pid : ℕ
  pub name : Text
  pub cmdline : List Text

-- `pinfo['name'] == 'java.exe' and '-Dcassandra' in pinfo['cmdline']`
unfoldable pub is_leftover : Process → Bool
unfolding text_eq
is_leftover p = text_eq p.name (text "java.exe") && any (text_eq (text "-Dcassandra")) p.cmdline

-- An exception of `kill`, of the process with the number.
pub data KillError : Type 0 where
  not_killed : ℕ → KillError

-- The loop over the processes; `none` is one that is gone when it is looked at. The result has the
-- numbers of those that were killed before, newest last.
unfoldable pub kill_leftovers :
    (ℕ → Bool) → List (Option Process) → List ℕ → Outcome KillError (Unit {0}) × List ℕ
unfolding is_leftover
kill_leftovers kill [] killed = (returned tt, killed)
kill_leftovers kill (none ∷ ps) killed = kill_leftovers kill ps killed
kill_leftovers kill (some p ∷ ps) killed = elim (is_leftover p) [
  | false ↦ kill_leftovers kill ps killed
  | true ↦ elim (kill p.pid) [
    | true ↦ kill_leftovers kill ps (killed ++ (p.pid ∷ []))
    | false ↦ (raised (not_killed p.pid), killed)
  ]
]

-- The start of `setUp`: nothing is looked for elsewhere than on Windows, or without `psutil`.
unfoldable pub terminate_leftovers :
    Bool → Bool → (ℕ → Bool) → List (Option Process) → Outcome KillError (Unit {0}) × List ℕ
unfolding kill_leftovers
terminate_leftovers on_windows has_psutil kill processes =
    if on_windows && has_psutil then kill_leftovers kill processes [] else (returned tt, [])

-- `os.path.join` for a directory without a slash at its end.
abbrev below : Text → Text → Text
below dir path = dir ++ (text "/" ++ path)

-- `__setup_jacoco`: the file that is written, with what is written to it.
unfoldable pub setup_jacoco :
    (Text → Bool) → ModuleSettings → Environ → Text → Text → Option (Text × Text)
unfolding get
setup_jacoco is_file s env test_path cluster_name =
    let agent_location =
      get (text "JACOCO_AGENT_JAR") (below s.cassandra_dir (text "build/lib/jars/jacocoagent.jar"))
        env in
    let jacoco_execfile =
      get (text "JACOCO_EXECFILE") (below s.cassandra_dir (text "build/jacoco/jacoco.exec")) env in
    if is_file agent_location
    then some (
      below (below test_path cluster_name) (text "cassandra.in.sh"),
      text "JVM_OPTS=\"$JVM_OPTS -javaagent:"
          ++ (agent_location ++ (text "=destfile=" ++ (jacoco_execfile ++ text "\""))),
    )
    else none

-- The attributes that `Tester.__init__` sets; a class may have `_preserve_cluster` already.
pub record TesterState (Options : Type 0) : Type 0 where
  pub preserve_cluster : Bool
  pub allow_log_errors : Bool
  pub cluster_options : Option Options

-- `Tester.__init__`, from the class's attribute and the keyword argument.
unfoldable pub new_tester : {Options : Type 0} → Option Bool → Option Options → TesterState Options
new_tester none options = record {
  preserve_cluster = false;
  allow_log_errors = false;
  cluster_options = options;
}
new_tester (some preserved) options = record {
  preserve_cluster = preserved;
  allow_log_errors = false;
  cluster_options = options;
}

-- `make_auth`: the credentials for a node, whichever it is.
unfoldable pub make_auth : Text → Text → Text → List (Text × Text)
make_auth user password node_ip = (text "username", user) ∷ (text "password", password) ∷ []

-- The leftovers among the processes, in their order.
abbrev pub leftovers : List (Option Process) → List ℕ
leftovers [] = []
leftovers (none ∷ ps) = leftovers ps
leftovers (some p ∷ ps) = if is_leftover p then p.pid ∷ leftovers ps else leftovers ps

kill_leftovers-all :
    (kill : ℕ → Bool) (ps : List (Option Process)) (killed : List ℕ)
    → ((pid : ℕ) → kill pid ≡ true)
    → kill_leftovers kill ps killed ≡ (returned tt, killed ++ leftovers ps)
unfolding kill_leftovers
kill_leftovers-all kill [] killed h = ap (λ ks. (returned tt, ks)) (sym (append-nil killed))
kill_leftovers-all kill (none ∷ ps) killed h = kill_leftovers-all kill ps killed h
kill_leftovers-all kill (some p ∷ ps) killed h =
    go (is_leftover p) (kill_leftovers-all kill ps killed h) (
      ap killing (h p.pid)
      ∙ kill_leftovers-all kill ps (killed ++ (p.pid ∷ [])) h
      ∙ ap (λ ks. (returned tt, ks)) (append_assoc killed (p.pid ∷ []) (leftovers ps)))
  where
    killing : Bool → Outcome KillError (Unit {0}) × List ℕ
    killing ok = elim ok [
      | true ↦ kill_leftovers kill ps (killed ++ (p.pid ∷ []))
      | false ↦ (raised (not_killed p.pid), killed)
    ]

    go :
        (b : Bool)
        → kill_leftovers kill ps killed ≡ (returned tt, killed ++ leftovers ps)
        → killing (kill p.pid) ≡ (returned tt, killed ++ (p.pid ∷ leftovers ps))
        → (elim b [ false ↦ kill_leftovers kill ps killed | true ↦ killing (kill p.pid) ])
          ≡ (returned tt, killed ++ (if b then p.pid ∷ leftovers ps else leftovers ps))
    go true keep kills = kills
    go false keep kills = keep

-- On Windows with `psutil`, when every kill works, exactly the leftover processes are killed, once each
-- and in the order in which they are listed; processes that vanish during the scan are passed over.
pub terminate_leftovers-all :
    (kill : ℕ → Bool) (ps : List (Option Process))
    → ((pid : ℕ) → kill pid ≡ true)
    → terminate_leftovers true true kill ps ≡ (returned tt, leftovers ps)
unfolding terminate_leftovers
terminate_leftovers-all kill ps h = kill_leftovers-all kill ps [] h

lower_code_again : (c : ℕ) → lower_code (lower_code c) ≡ lower_code c
lower_code_again c = ground arith

lower_again : (s : Text) → lower (lower s) ≡ lower s
unfolding lower
lower_again [] = refl
lower_again (c ∷ s) = ap₂ (λ d t. d ∷ t) (lower_code_again c) (lower_again s)

-- A setting does not depend on the case in which its value is written.
says-lower : (words : List Text) (value : Text) → says words (lower value) ≡ says words value
unfolding says
says-lower words value = ap (λ v. any (text_eq v) words) (lower_again value)
