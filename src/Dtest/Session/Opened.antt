-- ===== src/Dtest/Session/Opened.antt =====
-- What `_create_session` of dtest.py leaves, by how it ends.
use cassandra_dtest.Base.{
  ℕ, ◌≤◌, ◌≡◌, ◌⊎◌, Bool, true, false, List, [], ◌∷◌, ◌++◌, Option, none, some, Outcome, returned,
  raised,
}
use cassandra_dtest.Text.{Text, text}
use cassandra_dtest.Dtest.Session.{
  Node, get_ip_from_node, ConnectError, Options, ClusterArgs, Session, World, Driver,
}

module _ (at_least : Text → Text → Bool) (version : Text) (connect : ClusterArgs → ℕ → Driver)
    (set_keyspace : ClusterArgs → Text → ℕ → Driver) where
  -- The protocol version: the one that was asked for, or else the highest one for the release.
  pub data ProtocolFor : Option ℕ → ℕ → Type 0 where
    as_asked : {p : ℕ} → ProtocolFor (some p) p
    four : at_least version (text "2.2") ≡ true → ProtocolFor none 4
    three :
        at_least version (text "2.2") ≡ false
        → at_least version (text "2.1") ≡ true
        → ProtocolFor none 3
    two :
        at_least version (text "2.2") ≡ false
        → at_least version (text "2.1") ≡ false
        → at_least version (text "2.0") ≡ true
        → ProtocolFor none 2
    one :
        at_least version (text "2.2") ≡ false
        → at_least version (text "2.1") ≡ false
        → at_least version (text "2.0") ≡ false
        → ProtocolFor none 1

  -- What an attempt to open a session leaves: one that failed may have left a session of the driver
  -- open, but only where there was a keyspace to set, and nothing that the test remembers.
  abbrev pub SessionFor :
      Node → Options → Option (List Text) → World → Outcome ConnectError Session × World → Type 0
  SessionFor n o white w (raised e, v) =
      (v.connections ≡ w.connections)
      × (w.clock ≤ v.clock)
      × ((v.open_sessions ≡ w.open_sessions)
          ⊎ ((k : Text) × (o.keyspace ≡ some k)
              × (a : ClusterArgs) × (v.open_sessions ≡ w.open_sessions ++ (a ∷ []))))
  SessionFor n o white w (returned s, v) =
      (s.args.contact_point ≡ get_ip_from_node n)
      × (s.args.white_list ≡ white)
      × (s.args.auth_provider ≡ o.user)
      × (s.args.ssl_options ≡ o.ssl_opts)
      × (s.keyspace ≡ o.keyspace)
      × ProtocolFor o.protocol_version s.args.protocol_version
      × (s.at_consistency_one ≡ true)
      × (w.clock ≤ v.clock)
      × (v.open_sessions ≡ w.open_sessions ++ (s.args ∷ []))
      × (v.connections ≡ w.connections ++ (s ∷ []))
