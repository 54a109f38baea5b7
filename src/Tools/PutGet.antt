-- ===== src/Tools/PutGet.antt =====
-- `putget` and `range_putget` of tools.py: rows are written three times over, with flushes between,
-- and read back.
use cassandra_dtest.Base.{
  ℕ, zero, suc, ◌+◌, ◌*◌, ◌%◌, Bool, true, ◌&&◌, List, [], ◌∷◌, ◌++◌, ◌==◌, if◌then◌else◌, length,
  map, range, take, drop,
}
use cassandra_dtest.Tools.Database.{Update, Database}

-- The updates of one batch: `value` and `column` of each `i` below `count`.
unfoldable pub overwrite : (ℕ → ℕ) → (ℕ → ℕ) → ℕ → ℕ → List Update
overwrite value column count key =
    map (λ i. record { value = value i; key = key; column = column i }) (range count)

-- The value that the last of the three passes leaves in a column.
unfoldable pub expected : ℕ → ℕ
expected i = if i % 5 == 0 then i * 4 else if i % 2 == 0 then i * 2 else i

-- The assertions of `_validate_row` on the values.
unfoldable pub validate_from : ℕ → List (ℕ × ℕ) → Bool
unfolding expected
validate_from i [] = true
validate_from i ((c, v) ∷ rows) = v == expected i && validate_from (i + 1) rows

-- `_validate_row`
unfoldable pub validate_row : List (ℕ × ℕ) → Bool
unfolding validate_from
validate_row res = length res == 100 && validate_from 0 res

-- `res = rows[:100]; del rows[:100]; _validate_row(cluster, res)` for each key.
unfoldable pub validate_rows : ℕ → List (ℕ × ℕ) → Bool
unfolding validate_row
validate_rows zero rows = true
validate_rows (suc keys) rows = validate_row (take 100 rows) && validate_rows keys (drop 100 rows)

module _ (D : Database) where
  -- `for k in xrange(0, nb_keys)`: one batch for each key.
  unfoldable pub for_keys : D.Level → (ℕ → List Update) → List ℕ → D.State → D.State
  for_keys cl updates [] s = s
  for_keys cl updates (k ∷ ks) s = for_keys cl updates ks (D.batch cl (updates k) s)

  -- `_put_with_overwrite`
  unfoldable pub put_with_overwrite : ℕ → D.Level → D.State → D.State
  unfolding for_keys overwrite
  put_with_overwrite nb_keys cl s =
      let first = D.flush (for_keys cl (overwrite (λ i. i) (λ i. i) 100) (range nb_keys) s) in
      let second =
        D.flush (for_keys cl (overwrite (λ i. i * 4) (λ i. i * 2) 50) (range nb_keys) first) in
      D.flush (for_keys cl (overwrite (λ i. i * 20) (λ i. i * 5) 20) (range nb_keys) second)

  -- `putget`: whether its assertions hold.
  unfoldable pub putget : D.Level → D.State → Bool
  unfolding put_with_overwrite validate_row
  putget cl s = validate_row (D.select_row cl (put_with_overwrite 1 cl s) 0)

  -- The rows of all keys, one partition after another.
  unfoldable pub all_rows : D.Level → D.State → List ℕ → List (ℕ × ℕ)
  all_rows cl s [] = []
  all_rows cl s (k ∷ ks) = D.select_row cl s k ++ all_rows cl s ks

  -- `range_putget`: whether its assertions hold. The rows are read at the session's default level.
  unfoldable pub range_putget : D.Level → D.State → Bool
  unfolding put_with_overwrite all_rows validate_rows
  range_putget cl s =
      let t = put_with_overwrite 100 cl s in
      let rows = all_rows D.default_level t (D.keys_in_order D.default_level t) in
      length rows == 100 * 100 && validate_rows 100 rows
