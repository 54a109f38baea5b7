-- ===== src/Examples/Nodes.antt =====
-- A cluster of one node that gets a second one, a node whose log grows until it is stopped, and a tester
-- that is prepared with the defaults.
use cassandra_dtest.Base.{
  ◌≡◌, ◌≢◌, refl, ◌<◌, ◌+◌, ◌*◌, ◌^◌, Bool, true, false, List, [], ◌∷◌, ◌++◌, none, some, All, any,
  length, arith,
}
use cassandra_dtest.Text.{Text, text, text_eq}
use cassandra_dtest.Tools.NewNode.{
  NewNode, node_at, node_name, new_node, NumberedFrom, new_node-NumberedFrom,
}
use cassandra_dtest.Tools.Interrupts.{
  NodeState, Interrupt, interrupt_compaction, logged, stopped, Steps, done, then_step, look,
  interrupt_compaction-Grown,
}
use cassandra_dtest.UpgradeBase.Path.{UpgradePath}
use cassandra_dtest.UpgradeBase.Prepare.{PrepareCall, create_ks, UpgradeSettings, Prepare, Tester}
use cassandra_dtest.UpgradeBase.Prepared.{Prepared}

abbrev one_node : List NewNode
one_node = new_node false none (text "0") none []

one_node-NumberedFrom : NumberedFrom 1 one_node
unfolding new_node node_at
one_node-NumberedFrom = (refl, refl, tt)

one_node-short : length one_node < 585
unfolding new_node
one_node-short = omega arith

new_node-NumberedFrom_example :
    NumberedFrom 1 (new_node true none (text "0") none one_node)
    × All
        (λ n.
          (n.name ≢ node_name (length one_node + 1))
          × (n.jmx_port ≢ 7000 + (length one_node + 1) * 100))
        one_node
    × (7000 + (length one_node + 1) * 100 < 2 ^ 16)
new_node-NumberedFrom_example =
    new_node-NumberedFrom true none (text "0") none one_node one_node-NumberedFrom one_node-short

abbrev quiet : NodeState
quiet = record { log = λ file. []; running = true }

abbrev compacting : NodeState
compacting = record { log = λ file. text "Compacting(.*)cf" ∷ []; running = true }

abbrev halted : NodeState
halted = record { log = λ file. text "Compacting(.*)cf" ∷ []; running = false }

-- A search that finds a pattern only as the whole line.
abbrev whole_line : Text → Text → Bool
whole_line pattern line = text_eq pattern line

abbrev on_cf : Interrupt
on_cf = interrupt_compaction (text "cf") (text "debug.log") quiet

to_halted : Steps whole_line on_cf quiet halted
unfolding interrupt_compaction look text_eq
to_halted =
    then_step {w' = compacting}
      (then_step {w' = quiet} done (
        logged (λ file. text "Compacting(.*)cf" ∷ []) (λ file. text "Compacting(.*)cf" ∷ []) refl
          (λ file. refl)))
      (stopped refl refl)

interrupt_compaction-Grown_example :
    (lines : List Text) × (halted.log (some (text "debug.log"))
      ≡ quiet.log (some (text "debug.log")) ++ lines)
    × (any (whole_line (text "Compacting(.*)" ++ text "cf")) lines ≡ true)
interrupt_compaction-Grown_example =
    interrupt_compaction-Grown whole_line (text "cf") (text "debug.log") quiet halted refl to_halted
      refl

abbrev no_settings : UpgradeSettings
no_settings = record {
  query_upgraded = true;
  query_old = true;
  old_cassandra_dir = [];
  old_cassandra_version = [];
  upgrade_mode = text "normal";
  upgrade_to = [];
  upgrade_to_dir = [];
}

abbrev from_2_2 : UpgradePath
from_2_2 = record { starting_version = some (text "binary:2.2.3"); upgrade_version = none }

abbrev defaults : Prepare
defaults = record {
  ordered = false;
  create_keyspace = true;
  use_cache = false;
  start_rpc = false;
  nodes = none;
  rf = none;
  protocol_version = none;
  cl = none;
}

abbrev new_tester : Tester
new_tester = record { cl = none; protocol_version = none; cluster_nodes = 0; calls = [] }

-- The keyspace cannot be made.
abbrev is_create_ks : PrepareCall → Bool
is_create_ks (create_ks rf) = true
is_create_ks c = false
