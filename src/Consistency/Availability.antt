-- ===== src/Consistency/Availability.antt =====
-- The drivers of `TestAvailability`: they stop one node after another, and tell the check how
-- many nodes are up. A visit is one call of `_test_insert_query_from_node` for each combination.
use cassandra_dtest.Base.{
  ℕ, zero, suc, ◌+◌, ◌-◌, ◌≤◌, ◌<◌, ◌≡◌, refl, Bool, List, [], ◌∷◌, ◌++◌, Option, none, some, arith,
  ap, length, sum, map, range_from, if◌then◌else◌, length-append, subst, sym, ap₂, ◌∙◌,
}
use cassandra_dtest.Consistency.{Level, should_succeed}

-- `write_cl, read_cl, serial_cl, check_ret`
pub record Combination : Type 0 where
  pub write_cl : Level
  pub read_cl : Level
  pub serial_cl : Option Level
  pub check_ret : Bool

-- What a test does with a session, in order.
pub data Call : Type 0 where
  insert_user : ℕ → ℕ → Level → Option Level → Call
  query_user : ℕ → ℕ → Level → Bool → Call
  unavailable : Call → Call
  stop_node : ℕ → Call

-- `for n in xrange(start, end)`
abbrev each_key : (ℕ → Call) → ℕ → ℕ → List Call
each_key f start count = map f (range_from start count)

abbrev or_index_error : Option Bool → List Call → List Call → Option (List Call)
or_index_error none yes' no' = none
or_index_error (some b) yes' no' = some (if b then yes' else no')

abbrev both_calls : Option (List Call) → Option (List Call) → Option (List Call)
both_calls none ys = none
both_calls (some xs) none = none
both_calls (some xs) (some ys) = some (xs ++ ys)

-- `_test_insert_query_from_node`
unfoldable pub test_insert_query_from_node : ℕ → List ℕ → List ℕ → Combination → Option (List Call)
test_insert_query_from_node dc_idx rf_factors alive c =
    both_calls
      (or_index_error (should_succeed c.write_cl rf_factors alive dc_idx)
        (each_key (λ n. insert_user n 30 c.write_cl c.serial_cl) 0 100)
        (unavailable (insert_user 100 30 c.write_cl c.serial_cl) ∷ []))
      (or_index_error (should_succeed c.read_cl rf_factors alive dc_idx)
        (each_key (λ n. query_user n 30 c.read_cl c.check_ret) 0 100)
        (unavailable (query_user 100 30 c.read_cl c.check_ret) ∷ []))

-- One turn of a driver's inner loop: the session's node, its data centre and the counts of live
-- nodes that the checks are given. The node is stopped at the end of the turn.
pub record Visit : Type 0 where
  pub dc : ℕ
  pub node : ℕ
  pub alive : List ℕ

-- `_test_simple_strategy`, from the `node`-th node on.
unfoldable pub simple_strategy : ℕ → ℕ → ℕ → List Visit
simple_strategy node num_alive zero = []
simple_strategy node num_alive (suc left) =
    record { dc = 0; node = node; alive = num_alive ∷ [] }
    ∷ simple_strategy (suc node) (num_alive - 1) left

-- `nodes_alive[i] = nodes_alive[i] - 1`
unfoldable pub lose_one : List ℕ → ℕ → List ℕ
lose_one [] i = []
lose_one (n ∷ ns) zero = (n - 1) ∷ ns
lose_one (n ∷ ns) (suc i) = n ∷ lose_one ns i

lose_many : List ℕ → ℕ → ℕ → List ℕ
unfolding lose_one
lose_many alive i zero = alive
lose_many alive i (suc n) = lose_many (lose_one alive i) i n

-- The nodes of the `i`-th data centre, whose first has the index `base`.
unfoldable pub dc_visits : ℕ → ℕ → ℕ → List ℕ → ℕ → List Visit
unfolding lose_one
dc_visits i base n alive zero = []
dc_visits i base n alive (suc left) =
    record { dc = i; node = n + base; alive = alive }
    ∷ dc_visits i base (suc n) (lose_one alive i) left

-- The outer loop; `before` is `sum(nodes[:i])`.
unfoldable pub topology_from : ℕ → ℕ → List ℕ → List ℕ → List Visit
unfolding dc_visits lose_many
topology_from i before alive [] = []
topology_from i before alive (n ∷ nodes) =
    dc_visits i before 0 alive n ++ topology_from (suc i) (before + n) (lose_many alive i n) nodes

-- `_test_network_topology_strategy`
unfoldable pub network_topology_strategy : List ℕ → List Visit
unfolding topology_from
network_topology_strategy nodes = topology_from 0 0 nodes nodes

-- The `j`-th node is visited in the `j`-th turn with all nodes but `j` reported as alive.
abbrev pub Counted : ℕ → ℕ → List Visit → Type 0
Counted total j [] = Unit
Counted total j (v ∷ vs) = (v.node ≡ j) × (sum v.alive + j ≡ total) × Counted total (suc j) vs

Counted-append :
    (total j : ℕ) (vs ws : List Visit)
    → Counted total j vs
    → Counted total (j + length vs) ws
    → Counted total j (vs ++ ws)
Counted-append total j [] ws h k =
    let e : j + 0 ≡ j = omega arith in subst (λ n. Counted total n ws) e k
Counted-append total j (v ∷ vs) ws h k =
    let e : j + suc (length vs) ≡ suc j + length vs = omega arith in
    (h.0, h.1, Counted-append total (suc j) vs ws h.2 (subst (λ n. Counted total n ws) e k))

-- The count of live nodes that the single data centre's driver reports is the number that it has
-- not stopped yet, and every node is visited once, in order.
pub simple_strategy-Counted :
    (nodes : ℕ)
    → Counted nodes 0 (simple_strategy 0 nodes nodes)
      × (length (simple_strategy 0 nodes nodes) ≡ nodes)
unfolding simple_strategy
simple_strategy-Counted nodes = (counted 0 nodes (omega arith), long 0 nodes nodes)
  where
    counted : (j left : ℕ) → j + left ≡ nodes → Counted nodes j (simple_strategy j left left)
    counted j zero h = tt
    counted j (suc left) h =
        let e : suc left - 1 ≡ left = omega arith in
        (
          refl,
          omega arith,
          subst (λ a. Counted nodes (suc j) (simple_strategy (suc j) a left)) (sym e)
              (counted (suc j) left (omega arith)),
        )

    long : (j a left : ℕ) → length (simple_strategy j a left) ≡ left
    long j a zero = refl
    long j a (suc left) = ap suc (long (suc j) (a - 1) left)

-- The entry at an index.
abbrev at : List ℕ → ℕ → ℕ
at [] i = 0
at (n ∷ ns) zero = n
at (n ∷ ns) (suc i) = at ns i

sum-lose_one : (ns : List ℕ) (i : ℕ) → 0 < at ns i → sum (lose_one ns i) + 1 ≡ sum ns
unfolding lose_one
sum-lose_one [] i h = absurd (omega arith)
sum-lose_one (n ∷ ns) zero h = omega arith
sum-lose_one (n ∷ ns) (suc i) h = omega (arith, sum-lose_one ns i h)

at-lose_one : (ns : List ℕ) (i : ℕ) → at (lose_one ns i) i ≡ at ns i - 1
unfolding lose_one
at-lose_one [] i = omega arith
at-lose_one (n ∷ ns) zero = refl
at-lose_one (n ∷ ns) (suc i) = at-lose_one ns i

at-lose_one_later : (ns : List ℕ) (i k : ℕ) → i < k → at (lose_one ns i) k ≡ at ns k
unfolding lose_one
at-lose_one_later [] i k h = refl
at-lose_one_later (n ∷ ns) zero zero h = absurd (omega arith)
at-lose_one_later (n ∷ ns) zero (suc k) h = refl
at-lose_one_later (n ∷ ns) (suc i) zero h = absurd (omega arith)
at-lose_one_later (n ∷ ns) (suc i) (suc k) h = at-lose_one_later ns i k (omega arith)

sum-lose_many : (n : ℕ) (ns : List ℕ) (i : ℕ) → n ≤ at ns i → sum (lose_many ns i n) + n ≡ sum ns
unfolding lose_many
sum-lose_many zero ns i h = omega arith
sum-lose_many (suc n) ns i h = omega (
  arith,
  sum-lose_one ns i (omega arith),
  sum-lose_many n (lose_one ns i) i (rw at-lose_one (omega arith)),
)

at-lose_many_later : (n : ℕ) (ns : List ℕ) (i k : ℕ) → i < k → at (lose_many ns i n) k ≡ at ns k
unfolding lose_many
at-lose_many_later zero ns i k h = refl
at-lose_many_later (suc n) ns i k h =
    at-lose_many_later n (lose_one ns i) i k h ∙ at-lose_one_later ns i k h

length-dc_visits :
    (i base n : ℕ) (alive : List ℕ) (left : ℕ) → length (dc_visits i base n alive left) ≡ left
unfolding dc_visits
length-dc_visits i base n alive zero = refl
length-dc_visits i base n alive (suc left) = ap suc (length-dc_visits i base (suc n) _ left)

dc_visits-Counted :
    (total i base n : ℕ) (alive : List ℕ) (left : ℕ)
    → left ≤ at alive i
    → sum alive + (n + base) ≡ total
    → Counted total (n + base) (dc_visits i base n alive left)
unfolding dc_visits
dc_visits-Counted total i base n alive zero h s = tt
dc_visits-Counted total i base n alive (suc left) h s =
    let ih =
      dc_visits-Counted total i base (suc n) (lose_one alive i) left (rw at-lose_one (omega arith))
        (omega (arith, sum-lose_one alive i (omega arith))) in
    let e : suc n + base ≡ suc (n + base) = omega arith in
    (refl, s, subst (λ j. Counted total j (dc_visits i base (suc n) (lose_one alive i) left)) e ih)

-- The data centres from the `i`-th on still have all of their nodes.
abbrev Fresh : List ℕ → ℕ → List ℕ → Type 0
Fresh alive i nodes = (k : ℕ) → at alive (i + k) ≡ at nodes k

topology_from-Counted :
    (total i before : ℕ) (alive nodes : List ℕ)
    → Fresh alive i nodes
    → sum alive + before ≡ total
    → Counted total before (topology_from i before alive nodes)
unfolding topology_from
topology_from-Counted total i before alive [] f s = tt
topology_from-Counted total i before alive (n ∷ nodes) f s =
    let whole : at alive i ≡ n = ap (at alive) (omega arith) ∙ f 0 in
    let head = dc_visits-Counted total i before 0 alive n (omega arith) (omega arith) in
    let tail =
      topology_from-Counted total (suc i) (before + n) (lose_many alive i n) nodes
        (λ k.
          at-lose_many_later n alive i (suc i + k) (omega arith)
          ∙ ap (at alive) (omega arith)
          ∙ f (suc k))
        (omega (arith, sum-lose_many n alive i (omega arith))) in
    Counted-append total before (dc_visits i before 0 alive n) _
      (subst (λ j. Counted total j (dc_visits i before 0 alive n)) (omega arith) head)
      (subst
        (λ j.
          Counted total (before + j)
            (topology_from (suc i) (before + n) (lose_many alive i n) nodes))
        (sym (length-dc_visits i before 0 alive n)) tail)

length-topology_from :
    (i before : ℕ) (alive nodes : List ℕ) → length (topology_from i before alive nodes) ≡ sum nodes
unfolding topology_from
length-topology_from i before alive [] = refl
length-topology_from i before alive (n ∷ nodes) =
    length-append (dc_visits i before 0 alive n) _
    ∙ ap₂ ◌+◌ (length-dc_visits i before 0 alive n)
        (length-topology_from (suc i) (before + n) (lose_many alive i n) nodes)

-- Over several data centres the driver visits the nodes with the indices 0, 1, 2, … of the
-- cluster's node list, each once, and the counts that it reports add up to the nodes that it has
-- not stopped yet.
pub network_topology_strategy-Counted :
    (nodes : List ℕ)
    → Counted (sum nodes) 0 (network_topology_strategy nodes)
      × (length (network_topology_strategy nodes) ≡ sum nodes)
unfolding network_topology_strategy
network_topology_strategy-Counted nodes = (
  topology_from-Counted (sum nodes) 0 0 nodes nodes (λ k. ap (at nodes) (omega arith))
      (omega arith),
  length-topology_from 0 0 nodes nodes,
)
