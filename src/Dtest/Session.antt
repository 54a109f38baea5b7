-- ===== src/Dtest/Session.antt =====
-- Connections of dtest.py: the protocol version that goes with a release, where a node listens, and
-- `_create_session` behind the four connection helpers, with their waiting.
pub mod Opened
use cassandra_dtest.Base.{
  ℕ, zero, suc, ◌+◌, ◌*◌, ◌≤◌, ◌≡◌, refl, Bool, true, false, List, [], ◌∷◌, ◌++◌, Option, none,
  some, Outcome, returned, raised, Action, if◌then◌else◌, arith, ◌⊎◌, inl, inr, sym, ◌∙◌,
}
use cassandra_dtest.Text.{Text, text}
use cassandra_dtest.Dtest.Retry.{retry_till_success}

-- `get_eager_protocol_version`; the comparison is that of the value that ccm gives as the version.
unfoldable pub get_eager_protocol_version : (Text → Text → Bool) → Text → ℕ
get_eager_protocol_version at_least v =
    if at_least v (text "2.2")
    then 4
    else if at_least v (text "2.1")
    then 3
    else if at_least v (text "2.0")
    then 2
    else 1

-- A newer release never gets a lower protocol version, if the comparison is transitive.
pub get_eager_protocol_version_mono :
    (at_least : Text → Text → Bool)
    → ((u v w : Text) → at_least u v ≡ true → at_least v w ≡ true → at_least u w ≡ true)
    → (v w : Text) → at_least w v ≡ true
    → get_eager_protocol_version at_least v ≤ get_eager_protocol_version at_least w
unfolding get_eager_protocol_version
get_eager_protocol_version_mono at_least trans v w h =
    ground (arith, trans w v (text "2.2") h, trans w v (text "2.1") h, trans w v (text "2.0") h)

-- `node.network_interfaces`: address and port, where there is such an interface.
pub record Node : Type 0 where
  pub binary : Option (Text × ℕ)
  pub thrift : Text × ℕ

-- `get_ip_from_node`
unfoldable pub get_ip_from_node : Node → Text
get_ip_from_node n = elim n.binary [ some i ↦ i.0 | none ↦ n.thrift.0 ]

-- What a connection ends with: no interface on the node, a host that is not available yet, or
-- another exception of the driver.
pub data ConnectError : Type 0 where
  no_interface no_host_available : ConnectError
  driver_error : ℕ → ConnectError

-- `get_port_from_node`
unfoldable pub get_port_from_node : Node → Outcome ConnectError ℕ
get_port_from_node n = elim n.binary [ some i ↦ returned i.1 | none ↦ raised no_interface ]

-- The parameters of the connection helpers.
pub record Options : Type 0 where
  pub keyspace : Option Text
  pub user : Option (Text × Text)
  pub compression : Bool
  pub protocol_version : Option ℕ
  pub port : Option ℕ
  pub ssl_opts : Option Text

-- The arguments of `PyCluster`.
pub record ClusterArgs : Type 0 where
  pub contact_point : Text
  pub auth_provider : Option (Text × Text)
  pub compression : Bool
  pub protocol_version : ℕ
  pub white_list : Option (List Text)
  pub port : ℕ
  pub ssl_options : Option Text

-- A session as the helpers leave it.
pub record Session : Type 0 where
  pub args : ClusterArgs
  pub keyspace : Option Text
  pub default_timeout : ℕ
  pub at_consistency_one : Bool

-- What is set on a session that was opened.
abbrev pub opened : ClusterArgs → Option Text → Session
opened a keyspace = record {
  args = a;
  keyspace = keyspace;
  default_timeout = 60;
  at_consistency_one = true;
}

-- `if not port`: a port of 0 counts as none.
abbrev pub given_port : Option ℕ → Option ℕ
given_port none = none
given_port (some zero) = none
given_port (some (suc p)) = some (suc p)

unfoldable pub choose_port : Options → Node → Outcome ConnectError ℕ
unfolding get_port_from_node
choose_port o n = elim (given_port o.port) [ some p ↦ returned p | none ↦ get_port_from_node n ]

unfoldable pub choose_protocol : (Text → Text → Bool) → Text → Options → ℕ
unfolding get_eager_protocol_version
choose_protocol at_least version o = elim o.protocol_version [
  | some p ↦ p
  | none ↦ get_eager_protocol_version at_least version
]

-- A clock, the sessions that were opened with the driver, oldest first, and `self.connections`.
pub record World : Type 0 where
  pub clock : ℕ
  pub open_sessions : List ClusterArgs
  pub connections : List Session

-- A call of the driver: how it ends, and how long it takes.
abbrev pub Driver : Type 0
Driver = Outcome ConnectError (Unit {0}) × ℕ

abbrev pub spend : ℕ → World → World
spend d w = record w { clock = w.clock + d }

-- The driver: `cluster.connect()` and `session.set_keyspace`, at a time.
module _ (at_least : Text → Text → Bool) (version : Text) (connect : ClusterArgs → ℕ → Driver)
    (set_keyspace : ClusterArgs → Text → ℕ → Driver) where
  abbrev pub cluster_args : Node → Options → Option (List Text) → ℕ → ClusterArgs
  cluster_args n o white p = record {
    contact_point = get_ip_from_node n;
    auth_provider = o.user;
    compression = o.compression;
    protocol_version = choose_protocol at_least version o;
    white_list = white;
    port = p;
    ssl_options = o.ssl_opts;
  }

  -- `if keyspace is not None: session.set_keyspace(keyspace)`
  abbrev pub use_keyspace : ClusterArgs → Option Text → ℕ → Driver
  use_keyspace a none now = (returned tt, 0)
  use_keyspace a (some k) now = set_keyspace a k now

  abbrev pub remember : Session → World → World
  remember x w = record w { connections = w.connections ++ (x ∷ []) }

  abbrev pub open_one : ClusterArgs → World → World
  open_one a w = record w { open_sessions = w.open_sessions ++ (a ∷ []) }

  -- From `set_keyspace` to the end: the session is open already, and is remembered only when all went
  -- well.
  unfoldable pub use_session : ClusterArgs → Option Text → Action World ConnectError Session
  use_session a keyspace w =
      let (k, d) = use_keyspace a keyspace w.clock in
      elim k [
        | raised e ↦ (raised e, spend d w)
        | returned _ ↦ (returned (opened a keyspace), remember (opened a keyspace) (spend d w))
      ]

  -- From `connect()` to the end.
  unfoldable pub finish_session : ClusterArgs → Option Text → Action World ConnectError Session
  unfolding use_session
  finish_session a keyspace w =
      let (c, d) = connect a w.clock in
      elim c [
        | raised e ↦ (raised e, spend d w)
        | returned _ ↦ use_session a keyspace (open_one a (spend d w))
      ]

  unfoldable pub create_session :
      Node → Options → Option (List Text) → Action World ConnectError Session
  unfolding finish_session
  create_session n o white w = elim (choose_port o n) [
    | raised e ↦ (raised e, w)
    | returned p ↦ finish_session (cluster_args n o white p) o.keyspace w
  ]

  -- `cql_connection`
  unfoldable pub cql_connection : Node → Options → Action World ConnectError Session
  unfolding create_session
  cql_connection n o = create_session n o none

  -- `exclusive_cql_connection`
  unfoldable pub exclusive_cql_connection : Node → Options → Action World ConnectError Session
  unfolding create_session
  exclusive_cql_connection n o = create_session n o (some (get_ip_from_node n ∷ []))

  abbrev pub is_no_host : ConnectError → Bool
  is_no_host no_interface = false
  is_no_host no_host_available = true
  is_no_host (driver_error e) = false

  -- The pause of `retry_till_success`, in the clock's unit of a quarter of a second.
  abbrev pub pause : World → World
  pause w = record w { clock = w.clock + 1 }

  -- `timeout *= 2` on Windows.
  abbrev pub patience : Bool → ℕ → ℕ
  patience on_windows timeout = if on_windows then timeout * 2 else timeout

  -- `patient_cql_connection`
  unfoldable pub patient_cql_connection :
      Bool → ℕ → Node → Options → ℕ → World → Option (Outcome ConnectError Session × World)
  unfolding retry_till_success
  patient_cql_connection on_windows timeout n o fuel w =
      retry_till_success (cql_connection n o) is_no_host (λ u. u.clock) pause
        (patience on_windows timeout) fuel w

  -- `patient_exclusive_cql_connection`
  unfoldable pub patient_exclusive_cql_connection :
      Bool → ℕ → Node → Options → ℕ → World → Option (Outcome ConnectError Session × World)
  unfolding retry_till_success
  patient_exclusive_cql_connection on_windows timeout n o fuel w =
      retry_till_success (exclusive_cql_connection n o) is_no_host (λ u. u.clock) pause
        (patience on_windows timeout) fuel w
