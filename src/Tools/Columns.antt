-- ===== src/Tools/Columns.antt =====
-- `insert_columns` and `query_columns` of tools.py.
use cassandra_dtest.Base.{
  ℕ, zero, suc, ◌+◌, ◌-◌, ◌*◌, ◌≤◌, ◌<◌, ◌≡◌, ◌↔◌, refl, inl, inr, Bool, true, ◌&&◌, List, [], ◌∷◌,
  Option, none, some, arith, ◌==◌, if◌then◌else◌, length, map, range_from, ◌∙◌, Bool-cases, ltb,
  leb, leb→le,
}
use cassandra_dtest.Tools.Database.{
  Update, written, present, Database, IsLawful, range_from-Distinct,
}

-- `xrange(offset * columns_count, columns_count * (offset + 1))`
unfoldable pub column_updates : ℕ → ℕ → ℕ → List Update
column_updates key columns_count offset =
    map (λ i. record { value = i; key = key; column = i })
      (range_from (offset * columns_count) columns_count)

-- The check of `query_columns` on the values of the rows: row `i` holds `value(i + offset)`.
unfoldable pub values_from : ℕ → List (ℕ × ℕ) → Bool
values_from i [] = true
values_from i ((c, v) ∷ rows) = v == i && values_from (i + 1) rows

module _ (D : Database) where
  -- `insert_columns`
  unfoldable pub insert_columns : ℕ → ℕ → D.Level → ℕ → D.State → D.State
  unfolding column_updates
  insert_columns key columns_count consistency offset s =
      D.batch consistency (column_updates key columns_count offset) s

  -- `query_columns`: false is an `AssertionError`, for the number of rows or for a value.
  unfoldable pub query_columns : ℕ → ℕ → D.Level → ℕ → D.State → Bool
  unfolding values_from
  query_columns key columns_count consistency offset s =
      let res = D.select_slice consistency s key offset columns_count in
      length res == columns_count && values_from offset res

abbrev updates_from : ℕ → ℕ → ℕ → List Update
updates_from key first count =
    map (λ i. record { value = i; key = key; column = i }) (range_from first count)

-- The columns of a run of updates hold their own numbers, and the others are as before.
written-updates_from :
    (key first count c : ℕ) (old : Option ℕ)
    → written (updates_from key first count) key c old
      ≡ (if leb first c && ltb c (first + count) then some c else old)
written-updates_from key first zero c old = ground arith
written-updates_from key first (suc count) c old = ground (
  arith,
  written-updates_from key (first + 1) count c (if first == c then some first else old),
  written-updates_from key (first + 1) count c old,
  written-updates_from key (first + 1) count c (some first),
)

length-present-le : (f : ℕ → Option ℕ) (i n : ℕ) → length (present f i n) ≤ n
unfolding present
length-present-le f i zero = omega arith
length-present-le f i (suc n) = ground (arith, length-present-le f (i + 1) n)

-- A slice is full exactly when every one of its cells is present.
full_slice :
    (f : ℕ → Option ℕ) (i n : ℕ)
    → ((k : ℕ) → i ≤ k → k < i + n → f k ≡ some k)
    → (length (present f i n) ≡ n) × (values_from i (present f i n) ≡ true)
unfolding present values_from
full_slice f i zero h = (refl, refl)
full_slice f i (suc n) h =
    let ih = full_slice f (i + 1) n (λ k p q. h k (omega arith) (omega arith)) in
    let e = h i (omega arith) (omega arith) in ground arith

missing_cell :
    (f : ℕ → Option ℕ) (i n k : ℕ) → i ≤ k → k < i + n → f k ≡ none → length (present f i n) < n
unfolding present
missing_cell f i zero k p q e = absurd (omega arith)
missing_cell f i (suc n) k p q e = elim (Bool-cases (i == k)) [
  | inl here ↦ ground (arith, length-present-le f (i + 1) n)
  | inr later ↦ ground (arith, missing_cell f (i + 1) n k)
]

module _ (D : Database) (write read : D.Level) (L : IsLawful D write read) where
  cell-insert_columns :
      (key n offset : ℕ) (s : D.State) (c : ℕ)
      → D.cell (insert_columns D key n write offset s) key c
        ≡ (if leb (offset * n) c && ltb c (offset * n + n) then some c else D.cell s key c)
  unfolding insert_columns
  cell-insert_columns key n offset s c =
      L.cell-batch (column_updates key n offset) s key c
        (range_from-Distinct (λ i. i) (λ i. i) key (offset * n) n (λ i j e. e))
      ∙ written-updates_from key (offset * n) n c (D.cell s key c)

  -- `insert_columns` for the offsets 0, 1, …, in turn.
  unfoldable pub insert_blocks : ℕ → ℕ → ℕ → D.State → D.State
  insert_blocks key n zero s = s
  insert_blocks key n (suc blocks) s =
      insert_columns D key n write blocks (insert_blocks key n blocks s)

  cell-insert_blocks :
      (key n blocks : ℕ) (s : D.State) (c : ℕ)
      → D.cell (insert_blocks key n blocks s) key c
        ≡ (if ltb c (blocks * n) then some c else D.cell s key c)
  unfolding insert_blocks
  cell-insert_blocks key n zero s c = ground arith
  cell-insert_blocks key n (suc blocks) s c =
      let e : suc blocks * n ≡ blocks * n + n = omega arith in
      ground (
        arith,
        cell-insert_columns key n blocks (insert_blocks key n blocks s) c,
        cell-insert_blocks key n blocks s c,
      )

  -- A row that was empty and then got `blocks` blocks of `n` columns, fewer than 1000000 in all, answers
  -- a query for `size` columns from a column number on, which ends below 1000000, exactly when they are
  -- among the `blocks * n` that were written; any other such query fails its assertion. The reads are at
  -- a level that sees what was written. The offset counts blocks when columns are inserted and columns
  -- when they are queried.
  pub query_columns_iff :
      (key n blocks size offset : ℕ) (s : D.State)
      → ((c : ℕ) → D.cell s key c ≡ none)
      → 0 < size
      → blocks * n ≤ 1000000
      → offset + size ≤ 1000000
      → (query_columns D key size read offset (insert_blocks key n blocks s) ≡ true)
        ↔ (offset + size ≤ blocks * n)
  unfolding query_columns
  query_columns_iff key n blocks size offset s empty pos few low = (
    λ h. elim (Bool-cases (leb (offset + size) (blocks * n))) [
      | inl fits ↦ leb→le _ _ fits
      | inr over ↦
          let short =
            missing_cell cells offset size (offset + size - 1) (omega arith) (omega arith)
              (here (offset + size - 1) (ground arith)) in
          absurd (ground (arith, slice))
    ],
    λ fits.
        let full = full_slice cells offset size (λ k p q. there k (omega arith)) in
        ground (arith, slice),
  )
    where
      t : D.State
      t = insert_blocks key n blocks s

      cells : ℕ → Option ℕ
      cells = D.cell t key

      there : (c : ℕ) → c < blocks * n → cells c ≡ some c
      there c h = ground (arith, cell-insert_blocks key n blocks s c)

      here : (c : ℕ) → blocks * n ≤ c → cells c ≡ none
      here c h = ground (arith, cell-insert_blocks key n blocks s c, empty c)

      slice : D.select_slice read t key offset size ≡ present cells offset size
      slice = L.slice t key offset size (λ c h. here c (omega arith)) low
