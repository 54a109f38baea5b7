-- ===== src/Consistency/Overlap.antt =====
-- `get_num_nodes`: the data centre that it finds, and what R + W > N is worth.
use cassandra_dtest.Base.{
  ℕ, zero, suc, ◌+◌, ◌/◌, ◌≤◌, ◌<◌, ◌≡◌, refl, Bool, true, false, ◌&&◌, ◌||◌, inl, inr, List, [],
  ◌∷◌, some, arith, ltb, if◌then◌else◌, take, sum, length, Bool-cases, ltb→lt,
}
use cassandra_dtest.Consistency.{
  Level, quorum, local_quorum, each_quorum, serial, local_serial, required_nodes, dc_from, dc_of,
  write_nodes, get_num_nodes,
}

-- How many of the replicas a set of them holds; a set is a Boolean for each replica.
abbrev pub count : List Bool → ℕ
count [] = 0
count (b ∷ bs) = (if b then 1 else 0) + count bs

-- Some replica belongs to both sets.
abbrev pub meet : List Bool → List Bool → Bool
meet [] ys = false
meet (x ∷ xs) [] = false
meet (x ∷ xs) (y ∷ ys) = (x && y) || meet xs ys

pigeonhole :
    (xs ys : List Bool)
    → length xs ≡ length ys
    → length ys < count xs + count ys
    → meet xs ys ≡ true
pigeonhole [] [] l h = absurd (omega arith)
pigeonhole [] (y ∷ ys) l h = absurd (omega arith)
pigeonhole (x ∷ xs) [] l h = absurd (omega arith)
pigeonhole (true ∷ xs) (true ∷ ys) l h = refl
pigeonhole (true ∷ xs) (false ∷ ys) l h = pigeonhole xs ys (omega arith) (omega arith)
pigeonhole (false ∷ xs) (true ∷ ys) l h = pigeonhole xs ys (omega arith) (omega arith)
pigeonhole (false ∷ xs) (false ∷ ys) l h = pigeonhole xs ys (omega arith) (omega arith)

strong_sum :
    (write_cl read_cl : Level) (nodes rf : List ℕ) (idx w r : ℕ)
    → get_num_nodes write_cl read_cl nodes rf idx ≡ some (w, r, true)
    → sum rf < r + w
unfolding get_num_nodes
strong_sum write_cl read_cl nodes rf idx w r h = ground arith

-- Where `get_num_nodes` reports strong consistency, every set of replicas as large as the nodes
-- written shares a replica with every set as large as the nodes read, so a read meets the last
-- write. The sets range over all `sum(rf_factors)` replicas.
pub strong_overlap :
    (write_cl read_cl : Level) (nodes rf : List ℕ) (idx w r : ℕ) (ws rs : List Bool)
    → get_num_nodes write_cl read_cl nodes rf idx ≡ some (w, r, true)
    → length ws ≡ sum rf
    → length rs ≡ sum rf
    → w ≤ count ws
    → r ≤ count rs
    → meet ws rs ≡ true
strong_overlap write_cl read_cl nodes rf idx w r ws rs h lw lr hw hr =
    pigeonhole ws rs (omega arith) (omega (arith, strong_sum write_cl read_cl nodes rf idx w r h))

-- The levels that ask for a majority, of all replicas or of those in one data centre.
pub data IsQuorum : Level → Type 0 where
  is_quorum : IsQuorum quorum
  is_local_quorum : IsQuorum local_quorum
  is_each_quorum : IsQuorum each_quorum
  is_serial : IsQuorum serial
  is_local_serial : IsQuorum local_serial

required_of_quorum :
    (cl : Level) (rf : ℕ) → IsQuorum cl → required_nodes cl (rf ∷ []) 0 ≡ some (rf / 2 + 1)
unfolding required_nodes
required_of_quorum cl rf is_quorum = ground arith
required_of_quorum cl rf is_local_quorum = refl
required_of_quorum cl rf is_each_quorum = refl
required_of_quorum cl rf is_serial = ground arith
required_of_quorum cl rf is_local_serial = refl

write_nodes_of_quorum :
    (cl : Level) (n rf : ℕ) → IsQuorum cl → write_nodes cl (n ∷ []) (rf ∷ []) 0 ≡ some (rf / 2 + 1)
unfolding write_nodes
write_nodes_of_quorum cl n rf is_quorum = ground arith
write_nodes_of_quorum cl n rf is_local_quorum = refl
write_nodes_of_quorum cl n rf is_each_quorum = ground arith
write_nodes_of_quorum cl n rf is_serial = ground arith
write_nodes_of_quorum cl n rf is_local_serial = refl

-- In a single data centre any two majority levels are strongly consistent, at every replication
-- factor, and each needs half of the replicas and one more.
pub quorums_strong :
    (write_cl read_cl : Level) (n rf idx : ℕ)
    → IsQuorum write_cl
    → IsQuorum read_cl
    → get_num_nodes write_cl read_cl (n ∷ []) (rf ∷ []) idx ≡ some (rf / 2 + 1, rf / 2 + 1, true)
unfolding get_num_nodes dc_of
quorums_strong write_cl read_cl n rf idx hw hr =
    ground (arith, write_nodes_of_quorum write_cl n rf hw, required_of_quorum read_cl rf hr)

take_all : (xs : List ℕ) (n : ℕ) → length xs ≤ n → sum (take n xs) ≡ sum xs
take_all [] zero h = refl
take_all [] (suc n) h = refl
take_all (x ∷ xs) zero h = absurd (omega arith)
take_all (x ∷ xs) (suc n) h = omega (arith, take_all xs n (omega arith))

-- A node index in the `dc`-th data centre lies behind the nodes of the ones before it.
pub record Holds (nodes : List ℕ) (idx dc : ℕ) : Type 0 where
  pub behind : sum (take dc nodes) ≤ idx
  pub before : idx < sum (take (suc dc) nodes)

dc_from-Holds :
    (nodes : List ℕ) (idx dc left : ℕ)
    → dc + suc left ≡ length nodes
    → sum (take dc nodes) ≤ idx
    → idx < sum nodes
    → Holds nodes idx (dc_from nodes idx dc left)
unfolding dc_from
dc_from-Holds nodes idx dc zero l h b = record {
  behind = h;
  before = omega (arith, take_all nodes (suc dc) (omega arith));
}
dc_from-Holds nodes idx dc (suc left) l h b =
    elim (Bool-cases (ltb idx (sum (take (suc dc) nodes)))) [
      | inl stop ↦ rw stop (record { behind = h; before = ltb→lt _ _ stop })
      | inr on ↦ rw on (dc_from-Holds nodes idx (suc dc) left (omega arith) (ground arith) b)
    ]

-- The loop of `get_num_nodes` finds the data centre that the node index lies in, for every index
-- of a node of the cluster.
pub dc_of-Holds : (nodes : List ℕ) (idx : ℕ) → idx < sum nodes → Holds nodes idx (dc_of nodes idx)
unfolding dc_of
dc_of-Holds [] idx h = absurd (omega arith)
dc_of-Holds (n ∷ nodes) idx h =
    dc_from-Holds (n ∷ nodes) idx 0 (length nodes) (omega arith) (omega arith) h
