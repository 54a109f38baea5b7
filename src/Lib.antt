-- ===== src/Lib.antt =====
-- Cassandra distributed tests: a verification library for the test framework.
--
-- The framework starts a Cassandra cluster with ccm, runs statements against it and checks what
-- comes back. The library is about the framework's own code; the cluster, the driver, ccm, git and
-- the clock are parameters, with what the code relies on as hypotheses.
--
-- Shared parts:
--   Base, Base/Tests, Base/Lists, Base/Calls, Base/Int: the names of the standard library that the
--     others use, Boolean tests, list functions, calls that return or raise on a state, and signed
--     integers.
--   Text, Text/Laws, Text/Decimal, Text/Strip: Python's strings as lists of code points.
--   Order, Order/Sorting, LooseVersion: comparison and `sorted` of Python 2, and
--     `distutils.version.LooseVersion` as its documentation has it: a version is a list of numbers
--     and words, compared in order as Python 2 compares lists.
--
-- The parts of the program:
--   Dtest/Retry, Dtest/Retry/Laws: `retry_till_success`, `FlakyRetryPolicy` and
--     `Tester.wait_for_any_log` of dtest.py. The clock is read from the state; fuel bounds the
--     turns of the loop, and `timeout + 2` turns are enough.
--   Dtest/Scenarios: `run_scenarios` and `MultiError` of dtest.py.
--   Dtest/Runner, Dtest/Runner/Stop: the thread `Runner` of dtest.py, one step at a time, interleaved
--     with the test.
--   Dtest/Setup, Dtest/Setup/CleanUp: `setUp`, `_get_cluster`, `modify_log`, `tearDownClass`, `canReuseCluster` and
--     `freshCluster` of dtest.py, on the directories and the file that names the last cluster.
--   Dtest/Environment: the settings of dtest.py, `reset_environment_vars`, `warning`, `debug`,
--     `set_node_to_current_version`, the scan for leftover processes on Windows and
--     `__setup_jacoco`.
--   Dtest/Schema: the statements of `create_ks` and `create_cf` of dtest.py.
--   Dtest/Session, Dtest/Session/Opened: `get_eager_protocol_version`, `_create_session` and the connection helpers of
--     dtest.py. The driver is a pair of functions of the arguments and the time.
--   Dtest/Lifecycle, Dtest/Lifecycle/Laws: `tearDown`, `_cleanup_cluster`, `copy_logs` and
--     `__filter_errors` of dtest.py. The state is the list of calls made so far, newest first, and
--     a parameter says which call raises what.
--   Paging, Paging/Laws: `Page` and `PageFetcher` of paging_test.py. The driver's future is a
--     parameter; fuel bounds the turns of `request_all`, and the pages that remain are enough.
--   Jmx: jmxutils.py. The agent's process and its web server are parameters.
--   UpgradeBase/Path, UpgradeBase/Upgrade: `get_default_upgrade_path` and `do_upgrade` of
--     upgrade_tests/upgrade_base.py. The calls on the nodes are events; UpgradeBase/Replay describes
--     which call a node can take when.
--   UpgradeBase/Prepare, UpgradeBase/Prepared, UpgradeBase/Versions: `UpgradeTester.prepare`, the
--     settings of upgrade_base.py, the tests on the versions of the nodes, and `tearDown`.
--   DataHelp/Rows, DataHelp/Flatten: `create_rows`, `flatten` and `flatten_into_set` of datahelp.py.
--   DataHelp/Table: the parser of datahelp.py, function by function; the other files of DataHelp prove the round
--     trip, with the format's description in DataHelp/RoundTrip. Fuel bounds the multipliers in
--     front of one another, and the row's length with one more is enough.
--   Tools/Database: the session that tools.py talks to, with its laws.
--   Tools/Columns, Tools/PutGet, Tools/PutGetLaws: `insert_columns`, `query_columns`, `putget` and
--     `range_putget` of tools.py, which use those laws.
--   Tools/C1C2: `create_c1c2_table`, `insert_c1c2` and `query_c1c2` of tools.py on a table with its
--     laws; the keys are written in one order.
--   Tools/Files, Tools/SslStores: `replace_in_file`, `safe_mkdtemp` and `generate_ssl_stores` of
--     tools.py.
--   Tools/NewNode, Tools/Interrupts: `new_node` and the threads of tools.py, as steps beside those of
--     the node that they stop.
--   Tools/Skipping, Tools/GitBranch: `since`, `require` and `cassandra_git_branch` of tools.py.
--   Consistency and its children: the helpers of consistency_test.py that say which operation must
--     succeed and which pairs of levels are strongly consistent, and the drivers that stop the
--     nodes one after another.
--   Consistency/Parallel and its children: `_run_test_function_in_parallel` of consistency_test.py: the
--     queues and the threads, whose steps are interleaved.
--   Consistency/Accuracy, Consistency/Accuracy/Passes: `validate_users` and `validate_counters` of
--     consistency_test.py; the cluster's statements are functions on its state.
--   Assertions: assertions.py, by how the statement ends; floating-point comparison is left out.
--   TokenGenerator and its children: token_generator.py: the reading of the tool's output, which
--     TokenGenerator/Lines and TokenGenerator/Output describe, and the checks of the tokens in
--     TokenGenerator/Checks, TokenGenerator/MultiDc, TokenGenerator/Filled, TokenGenerator/Cluster and
--     TokenGenerator/Started.
--   Cqlsh: cqlsh_tests/cqlsh_tools.py; unittest's assertItemsEqual is a parameter.
--   Examples and its children: inputs at which the theorems with hypotheses apply.
--
-- Not modelled: the statements of the single test cases, the logging set-up and the generated bindings
-- of thrift_bindings, which hold no logic of the framework; `assert_almost_equal`, which compares
-- floating-point numbers; and upgrade_through_versions_test.py.
pub mod Base
pub mod Text
pub mod Order
pub mod LooseVersion
pub mod Consistency
pub mod Dtest
pub mod UpgradeBase
pub mod DataHelp
pub mod Tools
pub mod Examples
pub mod Paging
pub mod Jmx
pub mod Assertions
pub mod Cqlsh
pub mod TokenGenerator
