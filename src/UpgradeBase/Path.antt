-- ===== src/UpgradeBase/Path.antt =====
-- `get_default_upgrade_path`, and the release that `UpgradeTester.prepare` installs.
use cassandra_dtest.Base.{
  ℕ, Bool, true, false, ◌&&◌, List, [], ◌∷◌, ◌++◌, Option, none, some, Outcome, returned, raised,
  ◌≡◌, ◌≢◌, ◌⊎◌, refl, arith, if◌then◌else◌, leb, not, ◌+◌, ◌↔◌, ap, ◌∙◌,
}
use cassandra_dtest.Text.{Text, text, text_eq, split, starts_with}
use cassandra_dtest.Consistency.{Level}
use cassandra_dtest.LooseVersion.{no_newer, older, no_newer_trans, older-no_newer, cmp_version}

-- `UpgradePath`
pub record UpgradePath : Type 0 where
  pub starting_version : Option Text
  pub upgrade_version : Option Text

-- The value of `cassandra_git_branch`, whose exceptions the caller turns into `None`.
abbrev pub branch_or_none : {E : Type 0} → Outcome E (Option Text) → Option Text
branch_or_none (returned b) = b
branch_or_none (raised e) = none

abbrev is_trunk : Option Text → Bool
is_trunk none = false
is_trunk (some b) = text_eq b (text "trunk")

abbrev start_2_2_x_release : Text
start_2_2_x_release = text "binary:2.2.3"

-- The three tests on the version, in the order of the source.
unfoldable pub endpoints : {E : Type 0} → Text → Outcome E (Option Text) → UpgradePath
endpoints job_version branch =
    if no_newer (text "2.1") job_version && older job_version (text "2.2")
    then record { starting_version = none; upgrade_version = some start_2_2_x_release }
    else if no_newer (text "3.0") job_version && older job_version (text "3.1")
    then record {
      starting_version = some (
          if is_trunk (branch_or_none branch)
          then text "binary:3.0.0-rc1"
          else start_2_2_x_release);
      upgrade_version = none;
    }
    else if no_newer (text "3.1") job_version
    then record { starting_version = some (text "git:cassandra-3.0"); upgrade_version = none }
    else record { starting_version = none; upgrade_version = none }

abbrev count_none : Option Text → ℕ
count_none none = 1
count_none (some v) = 0

-- The assertion on the endpoints.
pub data PathError : Type 0 where
  too_many_endpoints : PathError

-- `get_default_upgrade_path`
unfoldable pub get_default_upgrade_path :
    {E : Type 0} → Text → Outcome E (Option Text) → Outcome PathError UpgradePath
unfolding endpoints
get_default_upgrade_path job_version branch =
    let p = endpoints job_version branch in
    if leb 1 (count_none p.starting_version + count_none p.upgrade_version)
    then returned p
    else raised too_many_endpoints

from_3_1 : (v : Text) → no_newer (text "3.1") v ≡ true → no_newer (text "3.0") v ≡ true
unfolding cmp_version
from_3_1 v h = no_newer_trans (text "3.0") (text "3.1") v refl h

not_below_2_2 : (v : Text) → no_newer (text "3.0") v ≡ true → older v (text "2.2") ≡ false
unfolding cmp_version
not_below_2_2 v h =
    older-no_newer v (text "2.2") ∙ ap not (no_newer_trans (text "2.2") (text "3.0") v refl h)

below_3_1 : (v : Text) → older v (text "3.1") ≡ not (no_newer (text "3.1") v)
below_3_1 v = older-no_newer v (text "3.1")

-- The default path never trips its assertion: for every version and branch at most one end is set.
-- The end to upgrade to is set exactly for the versions from 2.1 up to 2.2, and the end to start
-- from exactly for those from 3.0 on.
pub get_default_upgrade_path-returns :
    {E : Type 0} (v : Text) (branch : Outcome E (Option Text))
    → (p : UpgradePath) × (get_default_upgrade_path v branch ≡ returned p)
      × ((p.starting_version ≡ none) ⊎ (p.upgrade_version ≡ none))
      × ((p.upgrade_version ≢ none) ↔ ((no_newer (text "2.1") v && older v (text "2.2")) ≡ true))
      × ((p.starting_version ≢ none) ↔ (no_newer (text "3.0") v ≡ true))
unfolding get_default_upgrade_path
get_default_upgrade_path-returns v branch = (
  endpoints v branch,
  ground arith,
  ground arith,
  ground arith,
  (λ h. ground (arith, from_3_1 v), λ h. ground (arith, not_below_2_2 v h, below_3_1 v)),
)

-- `if cl:` and `if self.CL:`: a level counts unless it is `ConsistencyLevel.ANY`, which is 0.
unfoldable pub level_set : Option Level → Option Level
level_set none = none
level_set (some Level.any) = none
level_set (some l) = some l

-- `UpgradeTester.prepare` before the cluster starts: the releases that it tries to install, in
-- order. The result of an attempt is what `cluster.set_install_dir` does.
pub data Install : Type 0 where
  directory : Text → Install
  release : Text → Install

-- `s.split(':')[-1]`
abbrev last_part : List Text → Text
last_part [] = []
last_part (p ∷ []) = p
last_part (p ∷ q ∷ ps) = last_part (q ∷ ps)

-- The identifier of the source to build when a binary cannot be downloaded.
unfoldable pub source_ccm_id : Text → Text
unfolding split
source_ccm_id starting_version = text "git:cassandra-" ++ last_part (split 58 starting_version)

-- What follows a failed attempt at the starting version; `installs` says which attempts succeed.
abbrev fall_back : (Install → Bool) → Text → List Install × Bool
unfolding source_ccm_id starts_with
fall_back installs v =
    if starts_with v (text "binary")
    then (release v ∷ release (source_ccm_id v) ∷ [], installs (release (source_ccm_id v)))
    else (release v ∷ [], true)

-- The attempts, and whether `prepare` goes on.
unfoldable pub choose_install :
    (Install → Bool) → Option Text → Option Text → UpgradePath → List Install × Bool
unfolding fall_back
choose_install installs (some dir) old_version path = (directory dir ∷ [], installs (directory dir))
choose_install installs none (some v) path = (release v ∷ [], installs (release v))
choose_install installs none none path = elim path.starting_version [
  | none ↦ ([], true)
  | some v ↦ if installs (release v) then (release v ∷ [], true) else fall_back installs v
]
