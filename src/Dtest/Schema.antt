-- ===== src/Dtest/Schema.antt =====
-- The statements of `create_ks` and `create_cf` of dtest.py.
use cassandra_dtest.Base.{
  ℕ, Bool, List, [], ◌∷◌, ◌++◌, Option, none, some, Outcome, returned, raised, map, if◌then◌else◌,
}
use cassandra_dtest.Text.{Text, text, join}
use cassandra_dtest.Text.Decimal.{str}

-- The replication: one factor, or one for each data centre in the order of the dictionary.
pub data Replication : Type 0 where
  simple : ℕ → Replication
  topology : List (Text × ℕ) → Replication

pub data SchemaError : Type 0 where
  no_data_centre : SchemaError

-- `'\'%s\':%d' % (d, r)`
abbrev pub centre : Text × ℕ → Text
centre (d, r) = text "'" ++ (d ++ (text "':" ++ str r))

abbrev pub create_keyspace : Text → Text → Text
create_keyspace name options =
    text "CREATE KEYSPACE " ++ (name ++ (text " WITH replication={" ++ (options ++ text "}")))

-- `create_ks`: the statements that are executed, in order.
unfoldable pub create_ks : Text → Replication → Outcome SchemaError (List Text)
unfolding join str
create_ks name (simple rf) = returned (
    create_keyspace name (text "'class':'SimpleStrategy', 'replication_factor':" ++ str rf)
    ∷ (text "USE " ++ name)
    ∷ [])
create_ks name (topology []) = raised no_data_centre
create_ks name (topology (c ∷ cs)) = returned (
    create_keyspace name
      (text "'class':'NetworkTopologyStrategy', " ++ join (text ", ") (map centre (c ∷ cs)))
    ∷ (text "USE " ++ name)
    ∷ [])

-- The options of `create_cf`; a chance is given by its text with six decimals.
pub record CfOptions : Type 0 where
  pub key_type : Text
  pub speculative_retry : Option Text
  pub read_repair : Option Text
  pub compression : Option Text
  pub gc_grace : Option ℕ
  pub columns : List (Text × Text)
  pub compact_storage : Bool

-- `"%s, %s %s" % (additional_columns, k, v)` for each column.
unfoldable pub additional_columns : List (Text × Text) → Text
additional_columns [] = []
additional_columns ((k, v) ∷ rest) =
    text ", " ++ (k ++ (text " " ++ (v ++ additional_columns rest)))

abbrev pub table_part : Text → CfOptions → Text
table_part name o = elim o.columns [
  | [] ↦
      text "CREATE COLUMNFAMILY "
      ++ (name
          ++ (text " (key "
              ++ (o.key_type
                  ++ text ", c varchar, v varchar, PRIMARY KEY(key, c)) WITH comment='test cf'")))
  | c ∷ cs ↦
      text "CREATE COLUMNFAMILY "
      ++ (name
          ++ (text " (key "
              ++ (o.key_type
                  ++ (text " PRIMARY KEY"
                      ++ (additional_columns o.columns ++ text ") WITH comment='test cf'")))))
]

abbrev pub compression_part : Option Text → Text
compression_part none = text " AND compression = {}"
compression_part (some c) =
    text " AND compression = { 'sstable_compression': '" ++ (c ++ text "Compressor' }")

-- An option that is there, between two texts.
abbrev pub clause : Text → Option Text → Text → Text
clause before none after = []
clause before (some v) after = before ++ (v ++ after)

-- The query of `create_cf`.
unfoldable pub create_cf : Text → CfOptions → Text
unfolding additional_columns str
create_cf name o =
    table_part name o
    ++ (compression_part o.compression
        ++ (clause (text " AND read_repair_chance=") o.read_repair []
            ++ (clause (text " AND gc_grace_seconds=")
                  (elim o.gc_grace [ none ↦ none | some n ↦ some (str n) ]) []
                ++ (clause (text " AND speculative_retry='") o.speculative_retry (text "'")
                    ++ (if o.compact_storage then text " AND COMPACT STORAGE" else [])))))
