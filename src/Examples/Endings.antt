-- ===== src/Examples/Endings.antt =====
-- A test that failed in surroundings where everything but the driver's shutdown raises.
use cassandra_dtest.Base.{ℕ, refl, Bool, true, false, List, [], ◌∷◌, Option, none, some}
use cassandra_dtest.Text.{Text, text, contains}
use cassandra_dtest.Dtest.Lifecycle.{
  Exc, other, Call, shutdown_connection, remove_cluster, Settings, File, tear_down,
}
use cassandra_dtest.Dtest.Lifecycle.Laws.{Called, tear_down-Called}

abbrev is_shutdown : Call → Bool
is_shutdown (shutdown_connection n) = true
is_shutdown c = false

abbrev all_but_shutdown : List Call → Call → Option Exc
all_but_shutdown calls c = elim (is_shutdown c) [ true ↦ none | false ↦ some other ]

abbrev nothing_exists : List Call → File → Bool
nothing_exists calls f = false

abbrev search : Text → Text → Bool
search p e = contains e p

abbrev one_error : ℕ → List Text
one_error n = text "ERROR" ∷ []

abbrev a_test : Settings
a_test = record {
  keep_test_dir = false;
  record_coverage = false;
  keep_logs = false;
  on_windows = false;
  preserve_cluster = true;
  allow_log_errors = false;
  ignore_log_patterns = [];
  connections = 1 ∷ 2 ∷ [];
  runners = 1 ∷ [];
  nodes = 1 ∷ [];
}

tear_down-Called_example :
    Called remove_cluster
      (tear_down all_but_shutdown nothing_exists search one_error a_test true []).1
tear_down-Called_example =
    tear_down-Called all_but_shutdown nothing_exists search one_error a_test true []
      (shutdown_connection 2 ∷ shutdown_connection 1 ∷ []) refl refl refl refl
