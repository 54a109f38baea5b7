-- ===== src/Examples.antt =====
-- Concrete inputs at which the theorems with hypotheses apply, the theorems about consistency_test.py
-- and the waiting of dtest.py in this file.
pub mod Harness
pub mod Pages
pub mod Sessions
pub mod Endings
pub mod Agents
pub mod Users
pub mod Starts
pub mod Checks
pub mod Tables
pub mod LogStore
pub mod Queries
pub mod Tokens
pub mod Pools
pub mod Statements
pub mod Nodes
use cassandra_dtest.Base.{
  ℕ, zero, suc, ◌+◌, ◌/◌, ◌≤◌, ◌<◌, ◌≡◌, ◌≢◌, ◌⊎◌, ◌↔◌, inl, inr, refl, Bool, true, false, ◌&&◌,
  List, [], ◌∷◌, ◌++◌, Option, none, some, Outcome, returned, raised, Action, arith, ltb, ◌==◌,
  if◌then◌else◌, length, sum, All, range,
}
use cassandra_dtest.Text.{Text, text, is_space, join}
use cassandra_dtest.Consistency.{
  Level, quorum, local_quorum, each_quorum, should_succeed, write_nodes, dc_of, get_num_nodes,
}
use cassandra_dtest.Consistency.Levels.{
  AtLeast, none_left, more, Quorums, should_succeed_mono, each_quorum_iff,
}
use cassandra_dtest.Consistency.Overlap.{
  strong_overlap, quorums_strong, dc_of-Holds, is_quorum, is_local_quorum, Holds, meet, count,
}
use cassandra_dtest.Consistency.Availability.{
  Counted, simple_strategy, network_topology_strategy, simple_strategy-Counted,
  network_topology_strategy-Counted,
}
use cassandra_dtest.Dtest.Retry.{retry_till_success, wait_for_any_log, read_timeout, write_timeout}
use cassandra_dtest.Dtest.Retry.Laws.{
  Run, Waits, driver_attempts, retry_till_success-Run, driver_attempts-six, wait_for_any_log-Waits,
}

-- Two data centres of three nodes with three replicas each: four of six written and four read.
strong_overlap_example :
    meet
      (true ∷ true ∷ true ∷ true ∷ false ∷ false ∷ [])
      (false ∷ false ∷ true ∷ true ∷ true ∷ true ∷ [])
    ≡ true
unfolding get_num_nodes write_nodes dc_of
strong_overlap_example =
    strong_overlap quorum quorum (3 ∷ 3 ∷ []) (3 ∷ 3 ∷ []) 4 4 4
      (true ∷ true ∷ true ∷ true ∷ false ∷ false ∷ [])
      (false ∷ false ∷ true ∷ true ∷ true ∷ true ∷ []) refl refl refl (omega arith) (omega arith)

each_quorum_iff_example :
    (should_succeed each_quorum (3 ∷ 3 ∷ []) (3 ∷ 1 ∷ []) 0 ≡ some true)
    ↔ Quorums (3 ∷ 3 ∷ []) (3 ∷ 1 ∷ [])
each_quorum_iff_example = each_quorum_iff (3 ∷ 3 ∷ []) (3 ∷ 1 ∷ []) 0 refl

network_topology_strategy-Counted_example :
    Counted (sum (3 ∷ 2 ∷ [])) 0 (network_topology_strategy (3 ∷ 2 ∷ []))
    × (length (network_topology_strategy (3 ∷ 2 ∷ [])) ≡ sum (3 ∷ 2 ∷ []))
network_topology_strategy-Counted_example = network_topology_strategy-Counted (3 ∷ 2 ∷ [])

-- A call that fails until the clock shows 3.
abbrev ready_at_three : Action ℕ (Unit {0}) ℕ
ready_at_three s = (if ltb s 3 then raised tt else returned s, s)

retry_till_success-Run_example :
    (r : Outcome (Unit {0}) ℕ × ℕ) × (retry_till_success ready_at_three
        (λ e. true)
        (λ s. s)
        (λ s. s + 1)
        10
        12
        0
      ≡ some r)
    × Run ready_at_three (λ e. true) (λ s. s) (λ s. s + 1) 10 0 r
retry_till_success-Run_example =
    retry_till_success-Run ready_at_three (λ e. true) (λ s. s) (λ s. s + 1) (λ s. omega arith)
      (λ s. omega arith) 10 0

-- The second node shows the pattern in the third round.
abbrev shown : ℕ → ℕ → Bool
shown round node = round == 2 && node == 7

wait_for_any_log-Waits_example :
    Waits shown 0 4 (5 ∷ 7 ∷ []) (wait_for_any_log shown (5 ∷ 7 ∷ []) 4)
wait_for_any_log-Waits_example = wait_for_any_log-Waits shown (5 ∷ 7 ∷ []) 4
