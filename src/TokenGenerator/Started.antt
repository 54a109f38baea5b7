-- ===== src/TokenGenerator/Started.antt =====
-- From the output of the token generator to the check of the cluster that was started with it.
use cassandra_dtest.Base.{
  ◌≡◌, Bool, true, List, [], ◌∷◌, All, false, Option, none, some, Outcome, raised, length, ℤ,
}
use cassandra_dtest.Text.{Text, text, text_eq}
use cassandra_dtest.TokenGenerator.Output.{DcOutput, tokens_of}
use cassandra_dtest.TokenGenerator.Cluster.{PrepareFailure, no_option, TokenCluster}

-- A cluster without nodes whose two options are there, as `setUp` leaves it.
abbrev pub fresh_cluster : List Text → TokenCluster
fresh_cluster options = record {
  options = text "num_tokens" ∷ text "initial_token" ∷ options;
  set_partitioner = none;
  node_count = 0;
  tokens = [];
}

-- And as `setUp` leaves it with `DISABLE_VNODES`, which sets no `initial_token`.
abbrev pub fresh_cluster_without_vnodes : List Text → TokenCluster
fresh_cluster_without_vnodes options = record {
  options = text "num_tokens" ∷ options;
  set_partitioner = none;
  node_count = 0;
  tokens = [];
}

-- The documented partitioner for a test: Murmur3, unless the random one is asked for.
pub data PartitionerFor : Option Bool → Text → Type 0 where
  by_default : PartitionerFor none (text "org.apache.cassandra.dht.Murmur3Partitioner")
  not_random : PartitionerFor (some false) (text "org.apache.cassandra.dht.Murmur3Partitioner")
  random : PartitionerFor (some true) (text "org.apache.cassandra.dht.RandomPartitioner")

abbrev pub started : List Text → Text → DcOutput → TokenCluster
started options class d = record {
  options = options;
  set_partitioner = some class;
  node_count = length d.nodes;
  tokens = tokens_of d;
}

-- No option of a list has the name.
abbrev pub Lacks : Text → List Text → Type 0
Lacks key options = All (λ k. text_eq k key ≡ false) options

-- `prepare` with `DISABLE_VNODES`: the `KeyError`, and the cluster as far as it got.
abbrev pub refused : List Text → Text → Outcome PrepareFailure (List (List ℤ)) × TokenCluster
refused options class = (
  raised (no_option (text "initial_token")),
  record { options = options; set_partitioner = some class; node_count = 0; tokens = [] },
)
