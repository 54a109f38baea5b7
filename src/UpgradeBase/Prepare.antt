-- ===== src/UpgradeBase/Prepare.antt =====
-- `UpgradeTester.prepare`, the settings of upgrade_base.py, the versions of the nodes and `tearDown`.
-- The result of an installation and the upgrade path of the nodes are parameters.
use cassandra_dtest.Base.{
  ℕ, ◌+◌, Bool, ◌&&◌, not, List, [], ◌∷◌, ◌++◌, Option, none, some, Outcome, returned, raised,
  Action, ◌>>◌, pure, modify, raise_if, when, any, if◌then◌else◌, ltb, leb, ◌==◌,
}
use cassandra_dtest.Text.{Text, text, text_eq, lower}
use cassandra_dtest.LooseVersion.{no_newer}
use cassandra_dtest.Consistency.{Level}
use cassandra_dtest.Dtest.Environment.{Environ, get, enabled}
use cassandra_dtest.UpgradeBase.Path.{Install, UpgradePath, choose_install, level_set}

-- The settings at the top of the module; a variable that is not set reads as an empty one, which the
-- tests on the settings take for the same.
pub record UpgradeSettings : Type 0 where
  pub query_upgraded : Bool
  pub query_old : Bool
  pub old_cassandra_dir : Text
  pub old_cassandra_version : Text
  pub upgrade_mode : Text
  pub upgrade_to : Text
  pub upgrade_to_dir : Text

unfoldable pub upgrade_settings : Environ → UpgradeSettings
unfolding get enabled lower
upgrade_settings env = record {
  query_upgraded = enabled (text "QUERY_UPGRADED") (text "true") env;
  query_old = enabled (text "QUERY_OLD") (text "true") env;
  old_cassandra_dir = get (text "OLD_CASSANDRA_DIR") [] env;
  old_cassandra_version = get (text "OLD_CASSANDRA_VERSION") [] env;
  upgrade_mode = lower (get (text "UPGRADE_MODE") (text "normal") env);
  upgrade_to = get (text "UPGRADE_TO") [] env;
  upgrade_to_dir = get (text "UPGRADE_TO_DIR") [] env;
}

-- `if OLD_CASSANDRA_DIR:`
abbrev pub unless_empty : Text → Option Text
unless_empty [] = none
unless_empty (c ∷ s) = some (c ∷ s)

-- The arguments of `prepare`.
pub record Prepare : Type 0 where
  pub ordered : Bool
  pub create_keyspace : Bool
  pub use_cache : Bool
  pub start_rpc : Bool
  pub nodes : Option ℕ
  pub rf : Option ℕ
  pub protocol_version : Option ℕ
  pub cl : Option Level

-- A call on the cluster or the session; `find_path` is the look at the version and the upgrade path of
-- the new nodes, and `read_version` the look at the version behind the start.
pub data PrepareCall : Type 0 where
  set_partitioner set_row_cache set_start_rpc set_internode_compression find_path start_cluster :
      PrepareCall
  read_version : PrepareCall
  populate : ℕ → PrepareCall
  installing : Install → PrepareCall
  connect : Option ℕ → PrepareCall
  create_ks : ℕ → PrepareCall
  default_consistency_level : Level → PrepareCall

-- The two assertions, what an installation raises, and what any other call raises.
pub data PrepareError : Type 0 where
  call_failed : PrepareCall → PrepareError
  too_few_nodes preserve_cluster not_installed : PrepareError

-- The tester: `self.CL`, `self.protocol_version`, the number of nodes of the cluster, and the calls so
-- far.
pub record Tester : Type 0 where
  pub cl : Option Level
  pub protocol_version : Option ℕ
  pub cluster_nodes : ℕ
  pub calls : List PrepareCall

abbrev pub Preparing : Type 0 → Type 0
Preparing A = Action Tester PrepareError A

-- `NODES, RF, __test__, CL = 2, 1, False, None`
abbrev pub default_nodes : ℕ
default_nodes = 2

abbrev pub default_rf : ℕ
default_rf = 1

abbrev pub or_else {ℓ} : {A : Type ℓ} → Option A → A → A
or_else none a = a
or_else (some b) a = b

-- `cl = self.CL if cl is None else cl`
abbrev pub or_class {ℓ} : {A : Type ℓ} → Option A → Option A → Option A
or_class none b = b
or_class (some a) b = some a

-- The attempts to install, one call each.
unfoldable pub attempts : List Install → List PrepareCall
attempts [] = []
attempts (i ∷ is) = installing i ∷ attempts is

-- The choice of the release to start from, with its attempts.
unfoldable pub install_start :
    (Install → Bool) → UpgradeSettings → UpgradePath → Preparing (Unit {0})
unfolding choose_install attempts
install_start installs s path t =
    let (tried, ok) =
      choose_install installs (unless_empty s.old_cassandra_dir)
        (unless_empty s.old_cassandra_version) path in
    (
      if ok then returned tt else raised not_installed,
      record t { calls = t.calls ++ attempts tried },
    )

abbrev pub level_of : (Level → Preparing (Unit {0})) → Option Level → Preparing (Unit {0})
level_of set none = pure tt
level_of set (some l) = set l

-- The calls that fail, and the number of nodes that a failed `populate` leaves in the cluster.
module _ (fails : PrepareCall → Bool) (left : ℕ) where
  abbrev pub call : PrepareCall → Preparing (Unit {0})
  call c t = (
    if fails c then raised (call_failed c) else returned tt,
    record t { calls = t.calls ++ (c ∷ []) },
  )

  -- `cluster.populate(nodes)`
  unfoldable pub populate_nodes : ℕ → Preparing (Unit {0})
  populate_nodes nodes t = (
    if fails (populate nodes) then raised (call_failed (populate nodes)) else returned tt,
    record t {
      cluster_nodes = if fails (populate nodes) then left else nodes;
      calls = t.calls ++ (populate nodes ∷ []);
    },
  )

  -- `if not cluster.nodelist(): …`: new nodes, the release to start from, and the start.
  unfoldable pub populate_cluster :
      (Install → Bool) → UpgradeSettings → UpgradePath → ℕ → Preparing (Unit {0})
  unfolding populate_nodes install_start
  populate_cluster installs s path nodes =
      populate_nodes nodes
      >> (call find_path
          >> (install_start installs s path >> (call start_cluster >> call read_version)))

  -- The part before the nodes.
  unfoldable pub configure : Prepare → Preparing (Unit {0})
  configure p =
      when p.ordered (call set_partitioner)
      >> (when p.use_cache (call set_row_cache)
          >> (when p.start_rpc (call set_start_rpc) >> call set_internode_compression))

  -- The connection to the first node, the keyspace and the default level of the session.
  unfoldable pub open_session : Prepare → ℕ → Option Level → Preparing (Unit {0})
  unfolding level_set
  open_session p rf cl =
      call (connect p.protocol_version)
      >> (when p.create_keyspace (call (create_ks rf))
          >> level_of (λ l. call (default_consistency_level l)) (level_set cl))

  -- `prepare`
  unfoldable pub prepare :
      (Install → Bool) → UpgradeSettings → UpgradePath → Bool → Prepare → Preparing (Unit {0})
  unfolding populate_cluster configure open_session
  prepare installs s path preserved p t =
      let nodes = or_else p.nodes default_nodes in
      let cl = or_class p.cl t.cl in
      (modify (λ u. record u { cl = cl })
          >> (raise_if (ltb nodes 2) too_few_nodes
              >> (raise_if preserved preserve_cluster
                  >> (modify (λ u. record u { protocol_version = p.protocol_version })
                      >> (configure p
                          >> ((λ u.
                                if u.cluster_nodes == 0
                                then populate_cluster installs s path nodes u
                                else (returned tt, u))
                              >> open_session p (or_else p.rf default_rf) cl))))))
        t

-- `min` and `max` of the versions of the nodes, which are not empty.
unfoldable pub newest : Text → List Text → Text
newest v [] = v
newest v (w ∷ ws) = let r = newest w ws in if no_newer r v then v else r

unfoldable pub oldest : Text → List Text → Text
oldest v [] = v
oldest v (w ∷ ws) = let r = oldest w ws in if no_newer v r then v else r

-- `node_version_above`, from the versions of the nodes.
unfoldable pub node_version_above : Text → List Text → Text → Bool
unfolding oldest
node_version_above v vs version = no_newer version (oldest v vs)

-- The number of different versions.
unfoldable pub distinct : List Text → ℕ
unfolding text_eq
distinct [] = 0
distinct (v ∷ vs) = let n = distinct vs in if any (text_eq v) vs then n else n + 1

-- The assertion of `get_node_version`.
pub data VersionError : Type 0 where
  three_versions : VersionError

-- `get_node_version`, from the versions of the nodes.
unfoldable pub get_node_version : Bool → Text → List Text → Outcome VersionError Text
unfolding distinct newest oldest
get_node_version is_upgraded v vs =
    if leb (distinct (v ∷ vs)) 2
    then returned (if is_upgraded then newest v vs else oldest v vs)
    else raised three_versions

-- `tearDown`: whether the errors in the log of the second node are passed over before the rest.
unfoldable pub marks_second_node : Bool → Text → Text → Bool
unfolding text_eq
marks_second_node on_windows upgrade_mode cluster_version =
    on_windows && (not (text_eq upgrade_mode (text "all")) && no_newer cluster_version (text "2.2"))
