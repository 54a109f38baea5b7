-- ===== src/UpgradeBase/Upgrade.antt =====
-- `UpgradeTester.do_upgrade`: the calls on the two nodes, as a list of events, and its exceptions.
use cassandra_dtest.Base.{
  ℕ, Bool, true, false, ◌&&◌, ◌||◌, List, [], ◌∷◌, ◌++◌, Option, none, some, Action, ◌>>◌, modify,
  raise_if, when, pure, if◌then◌else◌, ltb, not,
}
use cassandra_dtest.Text.{Text, text, text_eq}
use cassandra_dtest.Consistency.{Level}
use cassandra_dtest.LooseVersion.{no_newer}
use cassandra_dtest.UpgradeBase.Path.{level_set, Install, directory, release, UpgradePath}

pub data Node : Type 0 where
  node1 node2 : Node

-- A call that reaches a node or the session.
pub data Event : Type 0 where
  shutdown_session : Event
  drain stop start mark_log_for_errors set_log_level set_options connect : Node → Event
  set_install_dir : Install → Node → Event
  set_default_level : Level → Node → Event

-- What the method reads: the settings of the module, the attributes of the tester, the platform.
pub record Setting : Type 0 where
  pub upgrade_mode : Text
  pub upgrade_to_dir : Option Text
  pub upgrade_to : Option Text
  pub upgrade_path : UpgradePath
  pub original_install_dir : Text
  pub on_windows : Bool
  -- `self.cluster.version()` and the version that `get_version_from_build` finds in the new install.
  pub cluster_version : Text
  pub new_version : Text
  pub protocol_version : Option ℕ
  pub no_skip : Bool
  pub query_upgraded : Bool
  pub query_old : Bool
  pub cl : Option Level

pub data Failure : Type 0 where
  bad_mode skip_test : Failure

abbrev pub Calls : Type 0 → Type 0
Calls A = Action (List Event) Failure A

abbrev pub call : Event → Calls (Unit {0})
call e = modify (λ es. es ++ (e ∷ []))

-- An environment variable counts when it is set and not empty.
abbrev set? : Option Text → Option Text
set? none = none
set? (some []) = none
set? (some (c ∷ cs)) = some (c ∷ cs)

-- `install_kwargs`
unfoldable pub install_kwargs : Setting → Install
install_kwargs s = elim (set? s.upgrade_to_dir) [
  | some dir ↦ directory dir
  | none ↦ elim (set? s.upgrade_to) [
    | some v ↦ release v
    | none ↦ elim (set? s.upgrade_path.upgrade_version) [
      | some v ↦ release v
      | none ↦ directory s.original_install_dir
    ]
  ]
]

abbrev pub is_mode : Setting → Text → Bool
unfolding text_eq
is_mode s m = text_eq s.upgrade_mode m

abbrev pub old_windows : Setting → Bool
old_windows s = s.on_windows && no_newer s.cluster_version (text "2.2")

abbrev below_three : Option ℕ → Bool
below_three none = false
below_three (some p) = ltb p 3

-- The protocol version that no release from 3 on speaks.
abbrev pub incompatible : Setting → Bool
incompatible s = no_newer (text "3") s.new_version && below_three s.protocol_version

-- `node.drain(); node.stop(gently=True)`
abbrev take_down : Node → Calls (Unit {0})
take_down n = call (drain n) >> call (stop n)

-- The block that installs and starts one node; `self.skip` raises where the protocol version is
-- not spoken by the new release, unless `NO_SKIP` is set.
unfoldable pub bring_up : Install → Bool → Node → Calls (Unit {0})
bring_up kwargs skips n =
    call (set_install_dir kwargs n)
    >> (raise_if skips skip_test
        >> (call (set_log_level n) >> (call (set_options n) >> call (start n))))

-- `if self.CL: …`: the default level of each session.
abbrev pub set_levels : Bool → Bool → Option Level → Calls (Unit {0})
set_levels upgraded old none = pure tt
set_levels upgraded old (some l) =
    when upgraded (call (set_default_level l node1)) >> when old (call (set_default_level l node2))

-- The sessions at the end: `(is_upgraded, session)` with the node that the session is for. A call
-- `connect` is the connection with `set_keyspace('ks')`.
unfoldable pub open_sessions : Bool → Bool → Option Level → Calls (List (Bool × Node))
open_sessions upgraded old cl =
    when upgraded (call (connect node1))
    >> (when old (call (connect node2))
        >> (set_levels upgraded old cl
            >> pure (
                (if upgraded then (true, node1) ∷ [] else [])
                ++ (if old then (false, node2) ∷ [] else []))))

-- The body after the mode has been looked at: `moves` is `UPGRADE_MODE != "none"`, `both` is
-- `UPGRADE_MODE == "all"`, `windows` the test before `mark_log_for_errors`.
unfoldable pub upgrade_nodes :
    Bool → Bool → Bool → Install → Bool → Bool → Bool → Option Level → Calls (List (Bool × Node))
unfolding bring_up
upgrade_nodes moves both windows kwargs skips upgraded old cl =
    when moves (take_down node1)
    >> (when windows (call (mark_log_for_errors node1))
        >> (when both (take_down node2 >> when windows (call (mark_log_for_errors node2)))
            >> (when moves (bring_up kwargs skips node1)
                >> (when both (bring_up kwargs skips node2) >> open_sessions upgraded old cl))))

unfoldable pub do_upgrade : Setting → Calls (List (Bool × Node))
unfolding upgrade_nodes install_kwargs text_eq level_set
do_upgrade s =
    call shutdown_session
    >> (raise_if
          (not (is_mode s (text "normal") || (is_mode s (text "all") || is_mode s (text "none"))))
          bad_mode
        >> upgrade_nodes (not (is_mode s (text "none"))) (is_mode s (text "all")) (old_windows s)
            (install_kwargs s) (incompatible s && not s.no_skip) s.query_upgraded s.query_old
            (level_set s.cl))
