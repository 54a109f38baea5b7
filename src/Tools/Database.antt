-- ===== src/Tools/Database.antt =====
-- The Cassandra session that the helpers of tools.py talk to, as far as they use it: a table
-- `cf (key, c, v)` whose keys are 'k0', 'k1', …, whose columns are 'c' with a padded number and
-- whose values are 'value' with a number. Keys, columns and values are given by their numbers. The
-- padding makes the order of the column names that of the numbers, below 100 and below 1000000.
use cassandra_dtest.Base.{
  ℕ, zero, suc, ◌+◌, ◌≤◌, ◌<◌, ◌≡◌, ◌&&◌, List, [], ◌∷◌, Option, none, some, ◌==◌, if◌then◌else◌,
  All, length, map, range_from, arith,
}

-- `UPDATE cf SET v='value…' WHERE key='k…' AND c='c…'`
pub record Update : Type 0 where
  pub value : ℕ
  pub key : ℕ
  pub column : ℕ

-- What a batch leaves in a cell: the last of its updates that is for the cell.
abbrev pub written : List Update → ℕ → ℕ → Option ℕ → Option ℕ
written [] k c old = old
written (u ∷ us) k c old =
    written us k c (if u.key == k && u.column == c then some u.value else old)

-- The cells that are present among `count` columns from `first` on, as rows of column and value.
unfoldable pub present : (ℕ → Option ℕ) → ℕ → ℕ → List (ℕ × ℕ)
present cell first zero = []
present cell first (suc count) = elim (cell first) [
  | none ↦ present cell (first + 1) count
  | some v ↦ (first, v) ∷ present cell (first + 1) count
]

-- No two updates are for the same cell.
abbrev pub OtherCell : Update → List Update → Type 0
OtherCell u us = All (λ w. (w.key ≡ u.key) × (w.column ≡ u.column) → ⊥) us

abbrev pub Distinct : List Update → Type 0
Distinct [] = Unit
Distinct (u ∷ us) = OtherCell u us × Distinct us

pub record Database : Type 1 where
  pub State : Type 0
  -- The consistency levels, and the one of a session that is given none.
  pub Level : Type 0
  pub default_level : Level
  -- `BEGIN BATCH … APPLY BATCH`
  pub batch : Level → List Update → State → State
  -- `cluster.flush()`
  pub flush : State → State
  -- `SELECT c, v FROM cf WHERE key='k…' AND c >= 'c…' AND c <= 'c…'`, by first column and count.
  pub select_slice : Level → State → ℕ → ℕ → ℕ → List (ℕ × ℕ)
  -- `SELECT * FROM cf WHERE key='k…'`
  pub select_row : Level → State → ℕ → List (ℕ × ℕ)
  -- The keys in the order in which `SELECT * FROM cf` returns their rows.
  pub keys_in_order : Level → State → List ℕ
  -- What a cell holds.
  pub cell : State → ℕ → ℕ → Option ℕ

-- The documented behaviour, for a level of the writes and one of the reads that see them: a batch whose
-- updates are for different cells applies all of them, a flush changes no data, a slice returns the
-- present cells by column, and a partition is returned once and whole.
pub record IsLawful (D : Database) (write read : D.Level) : Type 0 where
  pub cell-batch :
      (us : List Update) (s : D.State) (k c : ℕ)
      → Distinct us
      → D.cell (D.batch write us s) k c ≡ written us k c (D.cell s k c)
  pub cell-flush : (s : D.State) (k c : ℕ) → D.cell (D.flush s) k c ≡ D.cell s k c
  -- The order of the names is that of the numbers below 1000000, where there are no others.
  pub slice :
      (s : D.State) (k first count : ℕ)
      → ((c : ℕ) → 1000000 ≤ c → D.cell s k c ≡ none)
      → first + count ≤ 1000000
      → D.select_slice read s k first count ≡ present (D.cell s k) first count
  -- With two digits it is that of the numbers below 100.
  pub row :
      (s : D.State) (k n : ℕ)
      → n ≤ 100
      → ((c : ℕ) → n ≤ c → D.cell s k c ≡ none)
      → D.select_row read s k ≡ present (D.cell s k) 0 n
  pub order :
      (s : D.State) (n : ℕ)
      → ((k : ℕ) → k < n → (c : ℕ) × (v : ℕ) × (D.cell s k c ≡ some v))
      → ((k c : ℕ) → n ≤ k → D.cell s k c ≡ none)
      → (length (D.keys_in_order read s) ≡ n) × All (λ k. k < n) (D.keys_in_order read s)

-- The updates of a run of numbers are distinct when different numbers have different columns.
pub range_from-Distinct :
    (value column : ℕ → ℕ) (key first count : ℕ)
    → ((i j : ℕ) → column i ≡ column j → i ≡ j)
    → Distinct (
        map
          (λ i. record { value = value i; key = key; column = column i })
          (range_from first count))
range_from-Distinct value column key first zero h = tt
range_from-Distinct value column key first (suc count) h = (
  others first (first + 1) count (omega arith),
  range_from-Distinct value column key (first + 1) count h,
)
  where
    others :
        (i a n : ℕ)
        → i < a
        → OtherCell
            (record { value = value i; key = key; column = column i })
            (map (λ j. record { value = value j; key = key; column = column j }) (range_from a n))
    others i a zero lt = tt
    others i a (suc n) lt =
        ((λ e. let q = h a i e.1 in omega arith), others i (a + 1) n (omega arith))
