-- ===== src/Tools/PutGetLaws.antt =====
-- What is written three times over is what the checks of `putget` and `range_putget` expect.
use cassandra_dtest.Base.{
  ℕ, zero, suc, ◌+◌, ◌*◌, ◌≤◌, ◌<◌, ◌≡◌, refl, Bool, true, false, ◌&&◌, List, [], ◌∷◌, ◌++◌, Option,
  none, some, arith, ◌==◌, ltb, leb, if◌then◌else◌, length, map, range, range_from, take, all, All,
  ap, ap₂, ◌∙◌, sym, ==_iff, length-append, Bool-cases, inl, inr, subst, drop-append,
}
use cassandra_dtest.Tools.Database.{written, present, Database, IsLawful, range_from-Distinct}
use cassandra_dtest.Tools.PutGet.{
  overwrite, expected, validate_from, validate_row, validate_rows, for_keys, put_with_overwrite,
  putget, all_rows, range_putget,
}

-- What a batch for one key leaves in a column of it.
column_written : (ℕ → ℕ) → (ℕ → ℕ) → List ℕ → ℕ → Option ℕ → Option ℕ
column_written value column [] c old = old
column_written value column (i ∷ is) c old =
    column_written value column is c (if column i == c then some (value i) else old)

written-column_written :
    (value column : ℕ → ℕ) (key k c : ℕ) (is : List ℕ) (old : Option ℕ)
    → written (map (λ i. record { value = value i; key = key; column = column i }) is) k c old
      ≡ (if key == k then column_written value column is c old else old)
unfolding column_written
written-column_written value column key k c [] old = ground arith
written-column_written value column key k c (i ∷ is) old = ground (
  arith,
  written-column_written value column key k c is
      (if key == k && column i == c then some (value i) else old),
  written-column_written value column key k c is old,
  written-column_written value column key k c is (some (value i)),
)

column_beyond :
    (value column : ℕ → ℕ) (c : ℕ) (is : List ℕ) (old : Option ℕ)
    → all (λ i. ltb (column i) 100) is ≡ true
    → 100 ≤ c
    → column_written value column is c old ≡ old
unfolding column_written
column_beyond value column c [] old h k = refl
column_beyond value column c (i ∷ is) old h k = ground (arith, column_beyond value column c is old)

-- The three passes, on one column.
passes : ℕ → Option ℕ → Option ℕ
passes c old =
    column_written (λ i. i * 20) (λ i. i * 5) (range 20) c
      (column_written (λ i. i * 4) (λ i. i * 2) (range 50) c
        (column_written (λ i. i) (λ i. i) (range 100) c old))

abbrev holds : Option ℕ → ℕ → Bool
holds none v = false
holds (some w) v = w == v

holds→eq : (o : Option ℕ) (v : ℕ) → holds o v ≡ true → o ≡ some v
holds→eq none v h = cc
holds→eq (some w) v h = ap some ((==_iff w v).0 h)

-- A test of the columns from `first` on, one after another.
checked : (ℕ → Bool) → ℕ → ℕ → Bool
checked test first zero = true
checked test first (suc left) = test first && checked test (first + 1) left

checked-at :
    (test : ℕ → Bool) (first left c : ℕ)
    → checked test first left ≡ true
    → first ≤ c
    → c < first + left
    → test c ≡ true
unfolding checked
checked-at test first zero c h lo hi = absurd (omega arith)
checked-at test first (suc left) c h lo hi = elim (Bool-cases (first == c)) [
  | inl here ↦ let e = (==_iff first c).0 here in subst (λ k. test k ≡ true) e (ground arith)
  | inr later ↦ ground (arith, checked-at test (first + 1) left c)
]

passes_table : (old : Option ℕ) → checked (λ c. holds (passes c old) (expected c)) 0 100 ≡ true
unfolding checked passes column_written expected
passes_table old = refl

passes-expected : (c : ℕ) (old : Option ℕ) → c < 100 → passes c old ≡ some (expected c)
passes-expected c old h =
    holds→eq _ _ (
      checked-at (λ k. holds (passes k old) (expected k)) 0 100 c (passes_table old) (omega arith)
        h)

passes_beyond : (c : ℕ) (old : Option ℕ) → 100 ≤ c → passes c old ≡ old
unfolding passes
passes_beyond c old h =
    column_beyond (λ i. i * 20) (λ i. i * 5) c (range 20) _ refl h
    ∙ column_beyond (λ i. i * 4) (λ i. i * 2) c (range 50) _ refl h
    ∙ column_beyond (λ i. i) (λ i. i) c (range 100) old refl h

valid_rows :
    (f : ℕ → Option ℕ) (i n : ℕ)
    → ((k : ℕ) → i ≤ k → k < i + n → f k ≡ some (expected k))
    → (length (present f i n) ≡ n) × (validate_from i (present f i n) ≡ true)
unfolding present validate_from
valid_rows f i zero h = (refl, refl)
valid_rows f i (suc n) h =
    let ih = valid_rows f (i + 1) n (λ k p q. h k (omega arith) (omega arith)) in
    let e = h i (omega arith) (omega arith) in ground arith

-- One pass over the keys below `nb_keys`, with the flush behind it.
module _ (D : Database) (cl read : D.Level) (L : IsLawful D cl read) (value column : ℕ → ℕ)
    (injective : (i j : ℕ) → column i ≡ column j → i ≡ j) (count : ℕ) where
  cell-batch_of :
      (a : ℕ) (s : D.State) (k c : ℕ)
      → D.cell (D.batch cl (overwrite value column count a) s) k c ≡ (
          if a == k
          then column_written value column (range count) c (D.cell s k c)
          else D.cell s k c)
  unfolding overwrite
  cell-batch_of a s k c =
      L.cell-batch (overwrite value column count a) s k c
        (range_from-Distinct value column a 0 count injective)
      ∙ written-column_written value column a k c (range count) (D.cell s k c)

  cell-for_keys :
      (a m : ℕ) (s : D.State) (k c : ℕ)
      → D.cell (for_keys D cl (overwrite value column count) (range_from a m) s) k c ≡ (
          if leb a k && ltb k (a + m)
          then column_written value column (range count) c (D.cell s k c)
          else D.cell s k c)
  unfolding for_keys
  cell-for_keys a zero s k c = ground arith
  cell-for_keys a (suc m) s k c =
      cell-for_keys (a + 1) m (D.batch cl (overwrite value column count a) s) k c
      ∙ ap
          (λ old.
            if leb (a + 1) k && ltb k (a + 1 + m)
            then column_written value column (range count) c old
            else old)
          (cell-batch_of a s k c)
      ∙ choose a m k (λ old. column_written value column (range count) c old) (D.cell s k c)
    where
      choose :
          (a m k : ℕ) (f : Option ℕ → Option ℕ) (old : Option ℕ)
          → (if leb (a + 1) k && ltb k (a + 1 + m)
              then f (if a == k then f old else old)
              else if a == k
              then f old
              else old)
            ≡ (if leb a k && ltb k (a + suc m) then f old else old)
      choose a m k f old = ground arith

  pass : ℕ → D.State → D.State
  pass nb_keys s = D.flush (for_keys D cl (overwrite value column count) (range nb_keys) s)

  pass_in :
      (nb_keys : ℕ) (s : D.State) (k c : ℕ)
      → k < nb_keys
      → D.cell (pass nb_keys s) k c ≡ column_written value column (range count) c (D.cell s k c)
  unfolding pass
  pass_in nb_keys s k c h =
      L.cell-flush (for_keys D cl (overwrite value column count) (range nb_keys) s) k c
      ∙ cell-for_keys 0 nb_keys s k c
      ∙ in_range _ _
    where
      in_range : (x y : Option ℕ) → (if leb 0 k && ltb k (0 + nb_keys) then x else y) ≡ x
      in_range x y = ground arith

  pass_out :
      (nb_keys : ℕ) (s : D.State) (k c : ℕ)
      → nb_keys ≤ k
      → D.cell (pass nb_keys s) k c ≡ D.cell s k c
  unfolding pass
  pass_out nb_keys s k c h =
      L.cell-flush (for_keys D cl (overwrite value column count) (range nb_keys) s) k c
      ∙ cell-for_keys 0 nb_keys s k c
      ∙ out_of_range _ _
    where
      out_of_range : (x y : Option ℕ) → (if leb 0 k && ltb k (0 + nb_keys) then x else y) ≡ y
      out_of_range x y = ground arith

module _ (D : Database) (cl read : D.Level) (L : IsLawful D cl read) where
  cell_in :
      (nb_keys : ℕ) (s : D.State) (k c : ℕ)
      → k < nb_keys
      → D.cell (put_with_overwrite D nb_keys cl s) k c ≡ passes c (D.cell s k c)
  unfolding put_with_overwrite passes pass
  cell_in nb_keys s k c h =
      pass_in D cl read L (λ i. i * 20) (λ i. i * 5) (λ i j e. omega arith) 20 nb_keys _ k c h
      ∙ ap (λ o. column_written (λ i. i * 20) (λ i. i * 5) (range 20) c o)
          (pass_in D cl read L (λ i. i * 4) (λ i. i * 2) (λ i j e. omega arith) 50 nb_keys _ k c h
            ∙ ap (λ o. column_written (λ i. i * 4) (λ i. i * 2) (range 50) c o)
                (pass_in D cl read L (λ i. i) (λ i. i) (λ i j e. e) 100 nb_keys s k c h))

  cell_out :
      (nb_keys : ℕ) (s : D.State) (k c : ℕ)
      → nb_keys ≤ k
      → D.cell (put_with_overwrite D nb_keys cl s) k c ≡ D.cell s k c
  unfolding put_with_overwrite pass
  cell_out nb_keys s k c h =
      pass_out D cl read L (λ i. i * 20) (λ i. i * 5) (λ i j e. omega arith) 20 nb_keys _ k c h
      ∙ pass_out D cl read L (λ i. i * 4) (λ i. i * 2) (λ i j e. omega arith) 50 nb_keys _ k c h
      ∙ pass_out D cl read L (λ i. i) (λ i. i) (λ i j e. e) 100 nb_keys s k c h

  -- The rows of a key that was written have the hundred expected values.
  row_is_valid :
      (nb_keys : ℕ) (s : D.State) (k : ℕ)
      → ((c : ℕ) → 100 ≤ c → D.cell s k c ≡ none)
      → k < nb_keys
      → (length (D.select_row read (put_with_overwrite D nb_keys cl s) k) ≡ 100)
        × (validate_row (D.select_row read (put_with_overwrite D nb_keys cl s) k) ≡ true)
  unfolding validate_row
  row_is_valid nb_keys s k empty h =
      let t = put_with_overwrite D nb_keys cl s in
      let e =
        L.row t k 100 (omega arith)
          (λ c q. cell_in nb_keys s k c h ∙ passes_beyond c (D.cell s k c) q ∙ empty c q) in
      let (long, valid) =
        valid_rows (D.cell t k) 0 100
          (λ c p q. cell_in nb_keys s k c h ∙ passes-expected c (D.cell s k c) q) in
      (ap length e ∙ long, ap (λ r. length r == 100 && validate_from 0 r) e ∙ both _ long valid)
    where
      both :
          (r : List (ℕ × ℕ))
          → length r ≡ 100
          → validate_from 0 r ≡ true
          → (length r == 100 && validate_from 0 r) ≡ true
      both r p q = ground arith

take-append : (n : ℕ) (r rest : List (ℕ × ℕ)) → length r ≡ n → take n (r ++ rest) ≡ r
take-append zero [] rest h = refl
take-append zero (x ∷ r) rest h = absurd (omega arith)
take-append (suc n) [] rest h = absurd (omega arith)
take-append (suc n) (x ∷ r) rest h = ap (λ l. x ∷ l) (take-append n r rest (omega arith))

module _ (D : Database) (cl read : D.Level) (L : IsLawful D cl read) where
  -- The partitions are cut off in hundreds again, and every one is valid.
  all_rows_valid :
      (s : D.State) (ks : List ℕ)
      → ((k c : ℕ) → D.cell s k c ≡ none)
      → All (λ k. k < 100) ks
      → (length (all_rows D read (put_with_overwrite D 100 cl s) ks) ≡ length ks * 100)
        × (validate_rows (length ks) (all_rows D read (put_with_overwrite D 100 cl s) ks) ≡ true)
  unfolding all_rows validate_rows
  all_rows_valid s [] empty h = (refl, refl)
  all_rows_valid s (k ∷ ks) empty h =
      let t = put_with_overwrite D 100 cl s in
      let (long, valid) = row_is_valid D cl read L 100 s k (λ c q. empty k c) h.0 in
      let (rest_long, rest_valid) = all_rows_valid s ks empty h.1 in
      (
        length-append (D.select_row read t k) (all_rows D read t ks) ∙ omega arith,
        ap₂ (λ r rest. validate_row r && validate_rows (length ks) rest)
              (take-append 100 (D.select_row read t k) (all_rows D read t ks) long)
              (drop-append 100 (D.select_row read t k) (all_rows D read t ks) long)
            ∙ ap₂ ◌&&◌ valid rest_valid,
      )

module _ (D : Database) (cl : D.Level) where
  -- `putget` passes where what is written at its level is read at it as documented, whatever the first
  -- hundred columns of the row held before, if the row has no others.
  pub putget_passes :
      (s : D.State)
      → IsLawful D cl cl
      → ((c : ℕ) → 100 ≤ c → D.cell s 0 c ≡ none)
      → putget D cl s ≡ true
  unfolding putget
  putget_passes s L empty = (row_is_valid D cl cl L 1 s 0 empty (omega arith)).1

  -- `range_putget` passes on an empty database where what is written at its level is read as documented
  -- at the default level of the session: the rows of the hundred keys come in whole partitions, in any
  -- order of the keys.
  pub range_putget_passes :
      (s : D.State)
      → IsLawful D cl D.default_level
      → ((k c : ℕ) → D.cell s k c ≡ none)
      → range_putget D cl s ≡ true
  unfolding range_putget
  range_putget_passes s L empty =
      let read = D.default_level in
      let t = put_with_overwrite D 100 cl s in
      let (hundred, small) =
        L.order t 100
          (λ k h. (
            0,
            expected 0,
            cell_in D cl read L 100 s k 0 h ∙ passes-expected 0 (D.cell s k 0) (omega arith),
          ))
          (λ k c h. cell_out D cl read L 100 s k c h ∙ empty k c) in
      let (long, valid) = all_rows_valid D cl read L s (D.keys_in_order read t) empty small in
      ap₂ (λ n b. n == 100 * 100 && b) (long ∙ ap (λ n. n * 100) hundred)
        (ap (λ n. validate_rows n (all_rows D read t (D.keys_in_order read t))) (sym hundred)
          ∙ valid)
