-- ===== src/Dtest/Setup.antt =====
-- The start of a test in dtest.py: `setUp` with `_get_cluster` and `modify_log`, `tearDownClass`, and
-- what a reused or fresh cluster means. The directories and the file that names the last cluster are
-- kept as far as these functions look at them.
pub mod CleanUp
use cassandra_dtest.Base.{
  ℕ, ◌+◌, ◌≡◌, ◌≢◌, refl, Bool, true, false, ◌&&◌, ◌||◌, not, List, [], ◌∷◌, ◌++◌, Option, none,
  some, if◌then◌else◌, returned, raised, Action, ◌>>◌, when, try_except, pure, modify, Bool-cases,
  inl, inr,
}
use cassandra_dtest.Text.{Text, text, text_eq, split, lower}
use cassandra_dtest.Text.Laws.{text_eq_iff}

-- The value of a configuration option.
pub data Value : Type 0 where
  unset : Value
  number : ℕ → Value
  word : Text → Value

abbrev pub Config : Type 0
Config = List (Text × Value)

-- The module's constants and the attributes of the test.
pub record Settings : Type 0 where
  pub disable_vnodes : Bool
  pub num_tokens : ℕ
  pub offheap_memtables : Bool
  pub keep_test_dir : Bool
  pub record_coverage : Bool
  pub preserve_cluster : Bool
  pub cluster_options : Option Config
  pub debug_on : Bool
  pub trace_on : Bool
  pub debug_variable : Option Text
  pub trace_variable : Option Text

-- The directories of clusters, how many were ever made, LAST_TEST_DIR with the path and the name, the
-- path of `self.cluster`, and the options set on it, oldest first.
pub record World : Type 0 where
  pub dirs : List Text
  pub made : ℕ
  pub last : Option (Text × Text)
  pub cluster : Option Text
  pub options : Config

unfoldable pub remove_dir : Text → List Text → List Text
remove_dir p [] = []
remove_dir p (d ∷ ds) = let rest = remove_dir p ds in if text_eq d p then rest else d ∷ rest

unfoldable pub has_dir : Text → List Text → Bool
has_dir p [] = false
has_dir p (d ∷ ds) = text_eq d p || has_dir p ds

-- The calls that load the last cluster and clean it up: ccm's, those on the files in the directory, which
-- ignore a file that is missing, and those on the directory and on LAST_TEST_DIR.
pub data CleanCall : Type 0 where
  load_cluster stop_cluster remove_cluster clear_stores remove_path forget_last : CleanCall

-- What they raise.
pub data SetupError : Type 0 where
  io_error other_error : SetupError

abbrev pub Setting : Type 0
Setting = Action World SetupError (Unit {0})

-- A call by how it ends, where `none` is that it returns; and what it does when it returns.
unfoldable pub step : (CleanCall → Option SetupError) → CleanCall → (World → World) → Setting
step answer c f w = elim (answer c) [ none ↦ (returned tt, f w) | some e ↦ (raised e, w) ]

-- `if os.path.exists(LAST_TEST_DIR): os.remove(LAST_TEST_DIR)`
unfoldable pub forget : (CleanCall → Option SetupError) → Setting
unfolding step
forget answer w = elim w.last [
  | none ↦ (returned tt, w)
  | some l ↦ step answer forget_last (λ u. record u { last = none }) w
]

-- `_cleanup_cluster`, on the directories: the first call that fails ends it.
unfoldable pub cleanup : (CleanCall → Option SetupError) → Bool → Bool → Text → Setting
unfolding remove_dir step forget
cleanup answer keep record_coverage path =
    if keep
    then step answer stop_cluster (λ w. w) >> forget answer
    else when record_coverage (step answer stop_cluster (λ w. w))
      >> (step answer remove_cluster (λ w. w)
          >> (step answer clear_stores (λ w. w)
              >> (step answer remove_path (λ w. record w { dirs = remove_dir path w.dirs })
                  >> forget answer)))

-- The options that `_get_cluster` sets on a new cluster.
unfoldable pub first_options : Settings → Config
first_options s =
    (if s.disable_vnodes
      then (text "num_tokens", unset) ∷ []
      else (text "initial_token", unset) ∷ (text "num_tokens", number s.num_tokens) ∷ [])
    ++ (if s.offheap_memtables
        then (text "memtable_allocation_type", word (text "offheap_objects")) ∷ []
        else [])

-- `os.environ.get('DEBUG', 'no').lower() not in ('no', 'false', 'yes', 'true')`
abbrev pub names_classes : Text → Bool
names_classes v = not (
    text_eq (lower v) (text "no")
    || text_eq (lower v) (text "false")
    || text_eq (lower v) (text "yes")
    || text_eq (lower v) (text "true"))

-- `var_debug` and `var_trace`: the level for the classes that the variable names.
unfoldable pub var_level : Text → Option Text → List (Text × Option (List Text))
unfolding split lower text_eq
var_level level none = []
var_level level (some v) = if names_classes v then (level, some (split 58 v)) ∷ [] else []

-- `modify_log`: the calls of `set_log_level`, with the classes where there are some.
unfoldable pub modify_log : Settings → List (Text × Option (List Text))
unfolding var_level
modify_log s =
    (if s.debug_on then (text "DEBUG", none) ∷ [] else [])
    ++ ((if s.trace_on then (text "TRACE", none) ∷ [] else [])
        ++ (var_level (text "DEBUG") s.debug_variable ++ var_level (text "TRACE") s.trace_variable))

-- `canReuseCluster`
unfoldable pub can_reuse_cluster : Bool → Settings → Settings
can_reuse_cluster reuse_cluster s = record s { preserve_cluster = reuse_cluster }

-- `except IOError: pass`
abbrev pub is_io_error : SetupError → Bool
is_io_error io_error = true
is_io_error other_error = false

-- The part of `setUp` about a run that was cut off: the cluster is loaded if its directory is still
-- there, and cleaned up unless it is to be kept. An `IOError` of either is dropped: ccm's for a
-- directory that is gone, and also one of the clean-up, as far as that got.
unfoldable pub load_last : (CleanCall → Option SetupError) → Settings → Setting
unfolding cleanup has_dir
load_last answer s w = elim w.last [
  | none ↦ (returned tt, w)
  | some (path, name) ↦
      if has_dir path w.dirs
      then try_except is_io_error
          (step answer load_cluster (λ u. record u { cluster = some path })
            >> when (not s.preserve_cluster)
                (cleanup answer s.keep_test_dir s.record_coverage path))
          (λ e. pure tt) w
      else (returned tt, w)
]

-- `tearDownClass`, after its reset of the environment: what the file names is removed, or only stopped,
-- and then the file. An `IOError` of either part is dropped.
unfoldable pub tear_down_class : (CleanCall → Option SetupError) → Bool → Setting
unfolding remove_dir has_dir step
tear_down_class answer keep w = elim w.last [
  | none ↦ (returned tt, w)
  | some (path, name) ↦
      (try_except is_io_error
            (λ u.
              if has_dir path u.dirs
              then (step answer load_cluster (λ x. x)
                    >> (if keep
                        then step answer stop_cluster (λ x. x)
                        else step answer remove_cluster (λ x. x)
                          >> step answer remove_path
                              (λ x. record x { dirs = remove_dir path x.dirs })))
                  u
              else (returned tt, u))
            (λ e. pure tt)
          >> try_except is_io_error (step answer forget_last (λ u. record u { last = none }))
              (λ e. pure tt))
        w
]

-- `tempfile.mkdtemp`, by how many directories were made; and how the calls on the last cluster end.
module _ (mkdtemp : ℕ → Text) (answer : CleanCall → Option SetupError) where
  -- `_get_cluster` without a cluster to keep.
  unfoldable pub new_cluster : Settings → World → World
  unfolding first_options
  new_cluster s w = record w {
    dirs = mkdtemp w.made ∷ w.dirs;
    made = w.made + 1;
    cluster = some (mkdtemp w.made);
    options = first_options s;
  }

  -- `_get_cluster`
  unfoldable pub get_cluster : Settings → World → World
  unfolding new_cluster
  get_cluster s w = elim w.cluster [
    | none ↦ new_cluster s w
    | some p ↦ if s.preserve_cluster then w else new_cluster s w
  ]

  -- The options that `setUp` sets when the test has none of its own.
  abbrev pub timeouts : Config
  timeouts =
      (text "read_request_timeout_in_ms", number 10000)
      ∷ (text "range_request_timeout_in_ms", number 10000)
      ∷ (text "write_request_timeout_in_ms", number 10000)
      ∷ (text "truncate_request_timeout_in_ms", number 10000)
      ∷ (text "request_timeout_in_ms", number 10000)
      ∷ []

  unfoldable pub configure : Settings → World → World
  configure s w = record w {
    options =
        w.options
        ++ ((text "phi_convict_threshold", number 5)
            ∷ elim s.cluster_options [ some o ↦ o | none ↦ timeouts ]);
  }

  -- LAST_TEST_DIR gets the path and the name.
  abbrev pub record_last : World → World
  record_last w = elim w.cluster [ none ↦ w | some p ↦ record w { last = some (p, text "test") } ]

  -- `setUp`
  unfoldable pub set_up : Settings → Setting
  unfolding load_last get_cluster configure
  set_up s = load_last answer s >> modify (λ w. record_last (configure s (get_cluster s w)))

  -- `freshCluster`: the test gets a cluster of its own, with the settings that it runs on.
  unfoldable pub fresh_cluster :
      {A : Type 0} → (Settings → Action World SetupError A) → Settings → Action World SetupError A
  unfolding set_up
  fresh_cluster f s =
      set_up (record s { preserve_cluster = false }) >> f (record s { preserve_cluster = false })
