-- ===== src/Examples/Queries.antt =====
-- The statement helpers of tools.py on the log of updates.
use cassandra_dtest.Base.{◌+◌, ◌*◌, ◌≤◌, ◌≡◌, ◌↔◌, refl, true, [], arith}
use cassandra_dtest.Tools.Columns.{query_columns, insert_blocks, query_columns_iff}
use cassandra_dtest.Tools.PutGet.{putget, range_putget}
use cassandra_dtest.Tools.PutGetLaws.{putget_passes, range_putget_passes}
use cassandra_dtest.Examples.LogStore.{log_store, log_store-IsLawful}

-- Two blocks of ten columns, and a query for the columns 5 to 14.
query_columns_iff_example :
    (query_columns log_store 3 10 tt 5 (insert_blocks log_store tt tt log_store-IsLawful 3 10 2 [])
      ≡ true)
    ↔ (5 + 10 ≤ 2 * 10)
query_columns_iff_example =
    query_columns_iff log_store tt tt log_store-IsLawful 3 10 2 10 5 [] (λ c. refl) (omega arith)
      (omega arith) (omega arith)

range_putget_passes_example : range_putget log_store tt [] ≡ true
range_putget_passes_example = range_putget_passes log_store tt [] log_store-IsLawful (λ k c. refl)

putget_passes_example : putget log_store tt [] ≡ true
putget_passes_example = putget_passes log_store tt [] log_store-IsLawful (λ c h. refl)
