-- ===== src/Examples/Starts.antt =====
-- A run that was cut off, and keyspaces.
use cassandra_dtest.Base.{ℕ, ◌≡◌, refl, true, false, [], ◌∷◌, Option, none, some, returned}
use cassandra_dtest.Text.{Text, text}
use cassandra_dtest.Dtest.Setup.{Settings, World, CleanCall, remove_cluster, SetupError, io_error}
use cassandra_dtest.Dtest.Schema.{simple, create_ks, create_cf}
use cassandra_dtest.Text.Decimal.{str}

abbrev mkdtemp : ℕ → Text
mkdtemp n = 100 ∷ n ∷ []

abbrev plain_settings : Settings
plain_settings = record {
  disable_vnodes = false;
  num_tokens = 256;
  offheap_memtables = false;
  keep_test_dir = false;
  record_coverage = false;
  preserve_cluster = false;
  cluster_options = none;
  debug_on = false;
  trace_on = false;
  debug_variable = none;
  trace_variable = none;
}

abbrev cut_off : World
cut_off = record {
  dirs = text "old" ∷ [];
  made = 1;
  last = some (text "old", text "test");
  cluster = none;
  options = [];
}

-- The cluster's files cannot be removed.
abbrev unremovable : CleanCall → Option SetupError
unremovable remove_cluster = some io_error
unremovable c = none

create_ks_test :
    create_ks (text "ks") (simple 3)
    ≡ returned (
        text
          "CREATE KEYSPACE ks WITH replication={'class':'SimpleStrategy', 'replication_factor':3}"
        ∷ text "USE ks"
        ∷ [])
unfolding create_ks str
create_ks_test = refl

create_cf_test :
    create_cf (text "cf") (record {
      key_type = text "int";
      speculative_retry = none;
      read_repair = none;
      compression = none;
      gc_grace = some 0;
      columns = (text "c1", text "text") ∷ [];
      compact_storage = true;
    })
    ≡ text
        "CREATE COLUMNFAMILY cf (key int PRIMARY KEY, c1 text) WITH comment='test cf' AND compression = {} AND gc_grace_seconds=0 AND COMPACT STORAGE"
unfolding create_cf
create_cf_test = refl
