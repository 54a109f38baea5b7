-- ===== src/Tools/NewNode.antt =====
-- `new_node` of tools.py.
use cassandra_dtest.Base.{
  ℕ, ◌+◌, ◌*◌, ◌<◌, ◌≤◌, ◌^◌, ◌≡◌, ◌≢◌, Bool, not, List, [], ◌∷◌, ◌++◌, Option, All, drop, length,
  arith, ap, ◌∙◌, sym,
}
use cassandra_dtest.Text.{Text, text}
use cassandra_dtest.Text.Decimal.{str, value_from, value_from-str}

-- A node as `Node(…)` is called and `cluster.add` lists it. The addresses are those of thrift, storage
-- and the binary protocol.
pub record NewNode : Type 0 where
  pub name : Text
  pub bootstrap : Bool
  pub thrift : Text × ℕ
  pub storage : Text × ℕ
  pub jmx_port : ℕ
  pub remote_debug_port : Text
  pub initial_token : Option Text
  pub binary_interface : Text × ℕ
  pub is_seed : Bool
  pub data_center : Option Text

abbrev pub node_name : ℕ → Text
node_name i = text "node" ++ str i

abbrev pub address : ℕ → Text
address i = text "127.0.0." ++ str i

-- The node of a number.
unfoldable pub node_at : ℕ → Bool → Option Text → Text → Option Text → NewNode
unfolding str
node_at i bootstrap token remote_debug_port data_center = record {
  name = node_name i;
  bootstrap = bootstrap;
  thrift = (address i, 9160);
  storage = (address i, 7000);
  jmx_port = 7000 + i * 100;
  remote_debug_port = remote_debug_port;
  initial_token = token;
  binary_interface = (address i, 9042);
  is_seed = not bootstrap;
  data_center = data_center;
}

-- `new_node`: the nodes of the cluster, in the order in which they were added.
unfoldable pub new_node : Bool → Option Text → Text → Option Text → List NewNode → List NewNode
unfolding node_at
new_node bootstrap token remote_debug_port data_center nodes =
    nodes ++ (node_at (length nodes + 1) bootstrap token remote_debug_port data_center ∷ [])

-- The nodes have the numbers from `i` on.
abbrev pub NumberedFrom : ℕ → List NewNode → Type 0
NumberedFrom i [] = Unit
NumberedFrom i (n ∷ ns) =
    (n.name ≡ node_name i) × (n.jmx_port ≡ 7000 + i * 100) × NumberedFrom (i + 1) ns

abbrev behind_node : Text → Text
behind_node s = drop 4 s

node_name_injective : (i j : ℕ) → node_name i ≡ node_name j → i ≡ j
node_name_injective i j h =
    sym (value_from-str i) ∙ ap (λ s. value_from 0 (behind_node s)) h ∙ value_from-str j

NumberedFrom-append :
    (i j : ℕ) (nodes : List NewNode) (b : Bool) (t : Option Text) (p : Text) (d : Option Text)
    → NumberedFrom i nodes
    → j ≡ i + length nodes
    → NumberedFrom i (nodes ++ (node_at j b t p d ∷ []))
unfolding node_at
NumberedFrom-append i j [] b t p d h e =
    let f : j ≡ i = omega (arith, e) in (ap node_name f, ap (λ k. 7000 + k * 100) f, tt)
NumberedFrom-append i j (n ∷ nodes) b t p d h e =
    (h.0, h.1, NumberedFrom-append (i + 1) j nodes b t p d h.2 (omega (arith, e)))

fresh :
    (i j : ℕ) (nodes : List NewNode)
    → NumberedFrom i nodes
    → i + length nodes ≤ j
    → All (λ n. (n.name ≢ node_name j) × (n.jmx_port ≢ 7000 + j * 100)) nodes
fresh i j [] h l = tt
fresh i j (n ∷ nodes) h l = (
  (
    λ e. absurd (omega (arith, l, node_name_injective i j (sym h.0 ∙ e))),
    λ e. absurd (omega (arith, l, h.1, e)),
  ),
  fresh (i + 1) j nodes h.2 (omega (arith, l)),
)

-- In a cluster whose nodes have the numbers from 1 on, a new node has the next number: the numbering
-- holds again, its name and its JMX port are no other node's, and the port is one of 16 bits as long as
-- there are fewer than 585 nodes.
pub new_node-NumberedFrom :
    (bootstrap : Bool) (token : Option Text) (port : Text) (dc : Option Text) (nodes : List NewNode)
    → NumberedFrom 1 nodes
    → length nodes < 585
    → NumberedFrom 1 (new_node bootstrap token port dc nodes)
      × All
          (λ n.
            (n.name ≢ node_name (length nodes + 1))
            × (n.jmx_port ≢ 7000 + (length nodes + 1) * 100))
          nodes
      × (7000 + (length nodes + 1) * 100 < 2 ^ 16)
unfolding new_node
new_node-NumberedFrom bootstrap token port dc nodes h l = (
  NumberedFrom-append 1 (length nodes + 1) nodes bootstrap token port dc h (omega arith),
  fresh 1 (length nodes + 1) nodes h (omega arith),
  omega (arith, l),
)
