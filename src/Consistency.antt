-- ===== src/Consistency.antt =====
-- consistency_test.py: how many replicas a consistency level needs, whether an operation should
-- succeed with the nodes that are up, and which data centre a node index falls in. An index out of
-- range is `none` (Python's `IndexError`).
pub mod Levels
pub mod Overlap
pub mod Availability
pub mod Accuracy
pub mod Parallel
use cassandra_dtest.Base.{
  ℕ, zero, suc, ◌+◌, ◌/◌, Bool, true, false, ◌||◌, List, [], ◌∷◌, Option, none, some, leb, ltb,
  if◌then◌else◌, get_elem?, take, sum, length, map, range,
}

-- `cassandra.ConsistencyLevel`, the levels that the tests name.
pub data Level : Type 0 where
  any one two three quorum all local_quorum each_quorum serial local_serial local_one : Level

-- `_is_local`
unfoldable pub is_local : Level → Bool
is_local local_quorum = true
is_local local_one = true
is_local local_serial = true
is_local _ = false

-- `_is_conditional`
unfoldable pub is_conditional : Level → Bool
is_conditional serial = true
is_conditional local_serial = true
is_conditional _ = false

-- The dictionary of `_required_nodes`, with `rf_factors[dc]` and `sum(rf_factors)` at hand.
abbrev pub nodes_for : Level → ℕ → ℕ → ℕ
nodes_for any here total = 1
nodes_for one here total = 1
nodes_for two here total = 2
nodes_for three here total = 3
nodes_for quorum here total = total / 2 + 1
nodes_for all here total = total
nodes_for local_quorum here total = here / 2 + 1
nodes_for each_quorum here total = here / 2 + 1
nodes_for serial here total = total / 2 + 1
nodes_for local_serial here total = here / 2 + 1
nodes_for local_one here total = 1

-- `_required_nodes`: the whole dictionary is built first, so `rf_factors[dc]` is read at any level.
unfoldable pub required_nodes : Level → List ℕ → ℕ → Option ℕ
required_nodes cl rf_factors dc = elim (get_elem? rf_factors dc) [
  | none ↦ none
  | some here ↦ some (nodes_for cl here (sum rf_factors))
]

-- `alive >= required`
abbrev pub enough : Option ℕ → Option ℕ → Option Bool
enough none required = none
enough (some alive) none = none
enough (some alive) (some required) = some (leb required alive)

-- The loop over the data centres for `EACH_QUORUM`.
unfoldable pub each_from : List ℕ → List ℕ → ℕ → ℕ → Option Bool
unfolding required_nodes
each_from rf_factors alive i zero = some true
each_from rf_factors alive i (suc count) =
    let rest = each_from rf_factors alive (suc i) count in
    elim (enough (get_elem? alive i) (required_nodes each_quorum rf_factors i)) [
      | none ↦ none
      | some b ↦ if b then rest else some false
    ]

-- `_should_succeed`
unfoldable pub should_succeed : Level → List ℕ → List ℕ → ℕ → Option Bool
unfolding required_nodes is_local each_from
should_succeed each_quorum rf_factors alive current =
    each_from rf_factors alive 0 (length rf_factors)
should_succeed cl rf_factors alive current =
    if is_local cl
    then enough (get_elem? alive current) (required_nodes cl rf_factors current)
    else enough (some (sum alive)) (required_nodes cl rf_factors current)

-- The loop of `get_num_nodes` that finds the data centre of a node index.
unfoldable pub dc_from : List ℕ → ℕ → ℕ → ℕ → ℕ
dc_from nodes idx dc zero = dc
dc_from nodes idx dc (suc left) =
    let rest = dc_from nodes idx (suc dc) left in
    if ltb idx (sum (take (suc dc) nodes)) then dc else rest

unfoldable pub dc_of : List ℕ → ℕ → ℕ
unfolding dc_from
dc_of [] idx = 0
dc_of (n ∷ nodes) idx = dc_from (n ∷ nodes) idx 0 (length nodes)

-- `sum([_required_nodes(write_cl, rf_factors, i) for i in range(0, len(nodes))])`
unfoldable pub sum_required : Level → List ℕ → List ℕ → Option ℕ
unfolding required_nodes
sum_required cl rf_factors [] = some 0
sum_required cl rf_factors (i ∷ is) = elim (required_nodes cl rf_factors i) [
  | none ↦ none
  | some n ↦ elim (sum_required cl rf_factors is) [ none ↦ none | some m ↦ some (n + m) ]
]

unfoldable pub write_nodes : Level → List ℕ → List ℕ → ℕ → Option ℕ
unfolding sum_required required_nodes
write_nodes each_quorum nodes rf_factors dc =
    sum_required each_quorum rf_factors (range (length nodes))
write_nodes cl nodes rf_factors dc = required_nodes cl rf_factors dc

-- `Validation.get_num_nodes`: the nodes written, the nodes read, and whether R + W > N.
unfoldable pub get_num_nodes : Level → Level → List ℕ → List ℕ → ℕ → Option (ℕ × ℕ × Bool)
get_num_nodes write_cl read_cl nodes rf_factors idx =
    elim (write_nodes write_cl nodes rf_factors (dc_of nodes idx)) [
      | none ↦ none
      | some w ↦ elim (required_nodes read_cl rf_factors (dc_of nodes idx)) [
        | none ↦ none
        | some r ↦ some (w, r, ltb (sum rf_factors) (r + w))
      ]
    ]
