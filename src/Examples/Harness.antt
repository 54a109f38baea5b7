-- ===== src/Examples/Harness.antt =====
-- Concrete inputs for the theorems about the scenarios, the runner and the upgrade helpers.
use cassandra_dtest.Base.{
  ℕ, ◌≡◌, ◌≢◌, ◌⊎◌, ◌↔◌, Bool, true, false, ◌&&◌, List, [], ◌∷◌, ◌++◌, Option, none, some, Outcome,
  returned, raised, Action, ◌==◌, if◌then◌else◌, not,
}
use cassandra_dtest.Text.{Text, text}
use cassandra_dtest.LooseVersion.{older, no_newer}
use cassandra_dtest.Dtest.Runner.{
  Runner, Reach, here, next, starts, runs, new_runner, start, run_step, request_stop, calling,
  returns, raises, IsValid, Reach-IsValid,
}
use cassandra_dtest.Dtest.Runner.Stop.{HasEnded, stop_begins_one_call, stopped_thread_ends}
use cassandra_dtest.UpgradeBase.Path.{
  UpgradePath, get_default_upgrade_path, get_default_upgrade_path-returns,
}
use cassandra_dtest.UpgradeBase.Upgrade.{Setting, incompatible, do_upgrade}
use cassandra_dtest.UpgradeBase.Replay.{Upgraded, do_upgrade-Upgraded}

-- A scenario is a number; the odd one fails, and every call adds its number to the state.
abbrev handler : ℕ → Action (List ℕ) ℕ (Unit {0})
handler n s = (if n == 3 then raised 42 else returned tt, s ++ (n ∷ []))

abbrev deferrable : ℕ → Bool
deferrable e = true

abbrev annotate : ℕ → ℕ → ℕ
annotate n e = e

abbrev format_exc : ℕ → Text
format_exc e = text "Traceback"

abbrev two_failures : List (ℕ × ℕ)
two_failures = (3, 42) ∷ (5, 43) ∷ []

-- A thread that is past its first test of the flag, and has not begun the call.
abbrev before_first_call : Runner ℕ
before_first_call = run_step returns (start new_runner)

abbrev reaches_first_call : Reach new_runner before_first_call
reaches_first_call = next (next here (starts new_runner)) (runs (start new_runner) returns)

Reach-IsValid_example : IsValid before_first_call
Reach-IsValid_example = Reach-IsValid reaches_first_call

stop_begins_one_call_example :
    ((run_step returns (request_stop before_first_call)).stopped ≡ true)
    × (((run_step returns (request_stop before_first_call)).calls ≡ before_first_call.calls)
        ⊎ ((i : ℕ) × (before_first_call.place ≡ calling i)
            × ((run_step returns (request_stop before_first_call)).calls
                ≡ before_first_call.calls ++ (i ∷ []))))
stop_begins_one_call_example =
    stop_begins_one_call before_first_call
      (next here (runs (request_stop before_first_call) returns))

stopped_thread_ends_example :
    HasEnded
      (run_step returns
        (run_step (raises 9) (run_step returns (request_stop before_first_call)))).place
unfolding run_step new_runner start
stopped_thread_ends_example =
    stopped_thread_ends before_first_call returns (raises 9) returns (λ e. cc)

abbrev no_branch : Outcome ℕ (Option Text)
no_branch = returned none

get_default_upgrade_path-returns_example :
    (p : UpgradePath) × (get_default_upgrade_path (text "2.1.13") no_branch ≡ returned p)
    × ((p.starting_version ≡ none) ⊎ (p.upgrade_version ≡ none))
    × ((p.upgrade_version ≢ none)
        ↔ ((no_newer (text "2.1") (text "2.1.13") && older (text "2.1.13") (text "2.2")) ≡ true))
    × ((p.starting_version ≢ none) ↔ (no_newer (text "3.0") (text "2.1.13") ≡ true))
get_default_upgrade_path-returns_example =
    get_default_upgrade_path-returns (text "2.1.13") no_branch

-- An upgrade from 2.1.13 to the 2.2.3 release.
abbrev to_2_2 : Setting
to_2_2 = record {
  upgrade_mode = text "normal";
  upgrade_to_dir = none;
  upgrade_to = none;
  upgrade_path = record { starting_version = none; upgrade_version = some (text "binary:2.2.3") };
  original_install_dir = text "/cassandra";
  on_windows = false;
  cluster_version = text "2.1.13";
  new_version = text "2.2.3";
  protocol_version = none;
  no_skip = false;
  query_upgraded = true;
  query_old = false;
  cl = none;
}

do_upgrade-Upgraded_example :
    Upgraded (incompatible to_2_2 && not to_2_2.no_skip) (do_upgrade to_2_2 [])
do_upgrade-Upgraded_example = do_upgrade-Upgraded to_2_2
