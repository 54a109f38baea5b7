-- ===== src/Examples/Sessions.antt =====
-- Concrete connections for the theorems about sessions.
use cassandra_dtest.Base.{ℕ, ◌≡◌, Bool, true, [], none, some, returned, raised, if◌then◌else◌, ltb}
use cassandra_dtest.Text.{Text, text}
use cassandra_dtest.LooseVersion.{no_newer, no_newer_trans}
use cassandra_dtest.Dtest.Session.{Node, no_host_available, Options, ClusterArgs, World, Driver}

abbrev at_least : Text → Text → Bool
at_least v w = no_newer w v

at_least_trans : (u v w : Text) → at_least u v ≡ true → at_least v w ≡ true → at_least u w ≡ true
at_least_trans u v w h k = no_newer_trans w v u k h

abbrev local_node : Node
local_node = record { binary = some (text "127.0.0.1", 9042); thrift = (text "127.0.0.1", 9160) }

abbrev plain_options : Options
plain_options = record {
  keyspace = some (text "ks");
  user = none;
  compression = true;
  protocol_version = none;
  port = none;
  ssl_opts = none;
}

-- The node takes connections from the clock's fifth unit on.
abbrev connect : ClusterArgs → ℕ → Driver
connect a now = (if ltb now 5 then raised no_host_available else returned tt, 3)

abbrev set_keyspace : ClusterArgs → Text → ℕ → Driver
set_keyspace a k now = (returned tt, 1)

abbrev at_start : World
at_start = record { clock = 5; open_sessions = []; connections = [] }
