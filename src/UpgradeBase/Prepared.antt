-- ===== src/UpgradeBase/Prepared.antt =====
-- What `UpgradeTester.prepare` leaves.
use cassandra_dtest.Base.{
  ℕ, ◌≤◌, ◌<◌, ◌≡◌, Bool, true, false, List, [], ◌∷◌, ◌++◌, Outcome, returned, raised,
  if◌then◌else◌, ◌==◌,
}
use cassandra_dtest.UpgradeBase.Path.{Install, UpgradePath, choose_install}
use cassandra_dtest.UpgradeBase.Prepare.{
  UpgradeSettings, Prepare, PrepareCall, PrepareError, call_failed, too_few_nodes, preserve_cluster,
  not_installed, Tester, Preparing, call, default_nodes, default_rf, or_else, or_class,
  unless_empty, open_session,
}

-- The number of nodes that is asked for.
abbrev pub asked : Prepare → ℕ
asked p = or_else p.nodes default_nodes

module _ (fails : PrepareCall → Bool) (left : ℕ) (installs : Install → Bool) (s : UpgradeSettings)
    (path : UpgradePath) (preserved : Bool) (p : Prepare) (t : Tester) where
  -- The tester from the assertions on.
  abbrev pub IsReady : Tester → Type 0
  IsReady u = (u.cl ≡ or_class p.cl t.cl) × (u.protocol_version ≡ p.protocol_version)

  -- What `prepare` has done to a tester, by how it ended.
  abbrev pub Prepared : Outcome PrepareError (Unit {0}) × Tester → Type 0
  Prepared (returned _, t') =
      (2 ≤ asked p)
      × (t'.cl ≡ or_class p.cl t.cl)
      × (t'.protocol_version ≡ p.protocol_version)
      × (t'.cluster_nodes ≡ (if t.cluster_nodes == 0 then asked p else t.cluster_nodes))
  Prepared (raised too_few_nodes, t') = (asked p < 2) × (t'.calls ≡ t.calls)
  Prepared (raised preserve_cluster, t') = (preserved ≡ true) × (t'.calls ≡ t.calls)
  Prepared (raised not_installed, t') =
      IsReady t'
      × (t.cluster_nodes ≡ 0)
      × ((choose_install installs (unless_empty s.old_cassandra_dir)
            (unless_empty s.old_cassandra_version) path).1
          ≡ false)
  Prepared (raised (call_failed c), t') =
      (2 ≤ asked p)
      × (preserved ≡ false)
      × IsReady t'
      × (fails c ≡ true)
      × (earlier : List PrepareCall) × (t'.calls ≡ earlier ++ (c ∷ []))

  module _ (enough : 2 ≤ asked p) (unkept : preserved ≡ false) where
    -- A call that returned, with a number of nodes in the cluster; or the end of `prepare`.
    abbrev Went : ℕ → Outcome PrepareError (Unit {0}) × Tester → Type 0
    Went nodes (returned _, u) = IsReady u × (u.cluster_nodes ≡ nodes)
    Went nodes (raised e, u) = Prepared (raised e, u)

    abbrev c : PrepareCall → Preparing (Unit {0})
    c x = call fails left x

    abbrev opening : Preparing (Unit {0})
    opening = open_session fails left p (or_else p.rf default_rf) (or_class p.cl t.cl)

    abbrev final : ℕ
    final = if t.cluster_nodes == 0 then asked p else t.cluster_nodes
