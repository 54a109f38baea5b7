-- ===== src/Tools/C1C2.antt =====
-- `rows_to_list`, `create_c1c2_table`, `insert_c1c2` and `query_c1c2` of tools.py. The table is a
-- parameter: what a statement with one bound key leaves, and the rows that a query returns.
use cassandra_dtest.Base.{
  ℕ, zero, suc, ◌+◌, ◌<◌, ◌≤◌, ◌≡◌, ◌≢◌, refl, Bool, true, false, ◌&&◌, List, [], ◌∷◌, ◌++◌, Option,
  none, some, Outcome, returned, raised, map, range, range_from, arith, ap, Bool-cases, ltb, subst,
  ◌∙◌, sym, if◌then◌else◌,
}
use cassandra_dtest.Text.{Text, text, text_eq}
use cassandra_dtest.Text.Decimal.{str, value_from, value_from-str}
use mathlib.Core.Logic.{inl, inr}
use cassandra_dtest.Consistency.{Level, quorum}
use cassandra_dtest.Dtest.Schema.{create_cf}

-- `rows_to_list`: `list(row)` has the cells of the row.
unfoldable pub rows_to_list {ℓ} : {A : Type ℓ} → List (List A) → List (List A)
rows_to_list rows = map (λ row. row) rows

-- `create_c1c2_table`: the query that `create_cf` executes; a chance is given by its text.
unfoldable pub create_c1c2_table : Option Text → Text
unfolding create_cf
create_c1c2_table read_repair = create_cf (text "cf") (record {
  key_type = text "varchar";
  speculative_retry = none;
  read_repair = read_repair;
  compression = none;
  gc_grace = none;
  columns = (text "c1", text "text") ∷ (text "c2", text "text") ∷ [];
  compact_storage = false;
})

-- `ValueError` for the arguments, and the `TypeError` of a loop over `None`.
pub data InsertError : Type 0 where
  value_error type_error : InsertError

-- The keys that the statement is executed with; `if n:` is false for 0, and leaves `keys` as it was.
unfoldable pub inserted_keys : Option (List Text) → Option ℕ → Outcome InsertError (List Text)
unfolding str
inserted_keys none none = raised value_error
inserted_keys (some keys) (some n) = raised value_error
inserted_keys (some keys) none = returned (map (λ k. text "k" ++ k) keys)
inserted_keys none (some zero) = raised type_error
inserted_keys none (some (suc n)) = returned (map (λ k. text "k" ++ str k) (range (suc n)))

-- A session with the table `cf`: what an execution of a prepared statement with one key leaves, and
-- the rows of a query.
pub record Table : Type 1 where
  pub State : Type 0
  pub insert : Text → Level → Text → State → State
  pub select : Text → Level → State → List (List Text)

abbrev pub insert_statement : Text
insert_statement = text "INSERT INTO cf (key, c1, c2) VALUES (?, 'value1', 'value2')"

-- `'SELECT c1, c2 FROM cf WHERE key=\'k%d\'' % key`, for the key with its `k`.
abbrev pub select_statement : Text → Text
select_statement key = text "SELECT c1, c2 FROM cf WHERE key='" ++ (key ++ text "'")

-- Why `query_c1c2` fails: the number of rows, what the row holds, or a row that must be missing.
pub data QueryError : Type 0 where
  wrong_count wrong_row unexpected_row : QueryError

abbrev pub expected_row : List Text → Bool
expected_row [] = false
expected_row (c1 ∷ []) = false
expected_row (c1 ∷ c2 ∷ []) = text_eq c1 (text "value1") && text_eq c2 (text "value2")
expected_row (c1 ∷ c2 ∷ c3 ∷ cells) = false

-- `if not tolerate_missing: …`
abbrev pub check_present : List (List Text) → Outcome QueryError (Unit {0})
check_present [] = raised wrong_count
check_present (res ∷ []) = if expected_row res then returned tt else raised wrong_row
check_present (res ∷ res' ∷ rows) = raised wrong_count

-- `if must_be_missing: …`
abbrev pub check_missing : Bool → List (List Text) → Outcome QueryError (Unit {0})
check_missing false rows = returned tt
check_missing true [] = returned tt
check_missing true (res ∷ rows) = raised unexpected_row

-- The assertions of `query_c1c2`, in order.
unfoldable pub check_c1c2 : Bool → Bool → List (List Text) → Outcome QueryError (Unit {0})
unfolding text_eq
check_c1c2 true must_be_missing rows = check_missing must_be_missing rows
check_c1c2 false must_be_missing rows = elim (check_present rows) [
  | returned _ ↦ check_missing must_be_missing rows
  | raised e ↦ raised e
]

module _ (T : Table) where
  -- `execute_concurrent_with_args`, with the keys in one order.
  unfoldable pub execute_all : Level → List Text → T.State → T.State
  execute_all consistency [] s = s
  execute_all consistency (k ∷ ks) s =
      execute_all consistency ks (T.insert insert_statement consistency k s)

  -- `insert_c1c2`
  unfoldable pub insert_c1c2 :
      Option (List Text) → Option ℕ → Level → T.State → Outcome InsertError T.State
  unfolding inserted_keys execute_all
  insert_c1c2 keys n consistency s = elim (inserted_keys keys n) [
    | returned ks ↦ returned (execute_all consistency ks s)
    | raised e ↦ raised e
  ]

  -- `query_c1c2`
  unfoldable pub query_c1c2 : ℕ → Level → Bool → Bool → T.State → Outcome QueryError (Unit {0})
  unfolding check_c1c2 str
  query_c1c2 key consistency tolerate_missing must_be_missing s =
      check_c1c2 tolerate_missing must_be_missing
        (T.select (select_statement (text "k" ++ str key)) consistency s)

-- A read at quorum sees a row that was written at quorum, and rows of other keys leave it as it is.
pub record IsReadable (T : Table) : Type 0 where
  pub found :
      (k : Text) (s : T.State)
      → T.select (select_statement k) quorum (T.insert insert_statement quorum k s)
        ≡ (text "value1" ∷ text "value2" ∷ []) ∷ []
  pub other :
      (k j : Text) (s : T.State)
      → k ≢ j
      → T.select (select_statement k) quorum (T.insert insert_statement quorum j s)
        ≡ T.select (select_statement k) quorum s

-- The key of a number.
abbrev pub key_of : ℕ → Text
key_of k = text "k" ++ str k

abbrev tail_of : Text → Text
tail_of [] = []
tail_of (c ∷ s) = s

key_of_injective : (k j : ℕ) → key_of k ≡ key_of j → k ≡ j
key_of_injective k j h =
    sym (value_from-str k) ∙ ap (λ s. value_from 0 (tail_of s)) h ∙ value_from-str j

-- No row is allowed by one assertion and required by the other.
pub check_c1c2_contradiction : (rows : List (List Text)) → check_c1c2 false true rows ≢ returned tt
unfolding check_c1c2
check_c1c2_contradiction [] h = absurd (ground (arith, h))
check_c1c2_contradiction (res ∷ []) h = go (expected_row res) h
  where
    given : Bool → Outcome QueryError (Unit {0})
    given b = if b then returned tt else raised wrong_row

    checked : Outcome QueryError (Unit {0}) → Outcome QueryError (Unit {0})
    checked o = elim o [ returned _ ↦ raised unexpected_row | raised e ↦ raised e ]

    go : (b : Bool) → checked (given b) ≢ returned tt
    go true k = absurd (ground (arith, k))
    go false k = absurd (ground (arith, k))
check_c1c2_contradiction (res ∷ res' ∷ rows) h = absurd (ground (arith, h))

-- The assertions on the row that was inserted.
found_row :
    (a b : Bool)
    → check_c1c2 a b ((text "value1" ∷ text "value2" ∷ []) ∷ [])
      ≡ (if b then raised unexpected_row else returned tt)
unfolding check_c1c2 text_eq
found_row true true = refl
found_row true false = refl
found_row false true = refl
found_row false false = refl

module _ (T : Table) (R : IsReadable T) where
  -- The rows of a key after the keys from `start` on.
  abbrev rows_after : ℕ → ℕ → ℕ → T.State → List (List Text)
  rows_after k start count s =
      T.select (select_statement (key_of k)) quorum
        (execute_all T quorum (map key_of (range_from start count)) s)

  outside :
      (k start count : ℕ) (s : T.State)
      → ((j : ℕ) → start ≤ j → j < start + count → k ≢ j)
      → rows_after k start count s ≡ T.select (select_statement (key_of k)) quorum s
  unfolding execute_all
  outside k start zero s h = refl
  outside k start (suc count) s h =
      outside k (start + 1) count (T.insert insert_statement quorum (key_of start) s)
        (λ j p q. h j (omega (arith, p)) (omega (arith, q)))
      ∙ R.other (key_of k) (key_of start) s
          (λ e. h start (omega arith) (omega arith) (key_of_injective k start e))

  inside :
      (k start count : ℕ) (s : T.State)
      → start ≤ k
      → k < start + count
      → rows_after k start count s ≡ (text "value1" ∷ text "value2" ∷ []) ∷ []
  unfolding execute_all
  inside k start zero s h l = absurd (omega (arith, h, l))
  inside k start (suc count) s h l = elim (Bool-cases (ltb start k)) [
    | inl later ↦
        inside k (start + 1) count (T.insert insert_statement quorum (key_of start) s)
          (ground arith) (omega (arith, l))
    | inr here ↦
        let e : k ≡ start = ground arith in
        outside k (start + 1) count (T.insert insert_statement quorum (key_of start) s)
          (λ j p q. λ f. absurd (omega (arith, e, f, p)))
        ∙ subst
            (λ j.
              T.select (select_statement (key_of k)) quorum
                (T.insert insert_statement quorum (key_of j) s)
              ≡ (text "value1" ∷ text "value2" ∷ []) ∷ [])
            e (R.found (key_of k) s)
  ]

  -- After `insert_c1c2` with a number of keys, which is not 0, a query at quorum finds the row of each
  -- of the keys below the number, so that it fails only if the row must be missing; for any other key a
  -- query ends as before. The keys are written and read at quorum.
  pub query_c1c2_after :
      (n k : ℕ) (tolerate_missing must_be_missing : Bool) (s t : T.State)
      → insert_c1c2 T none (some n) quorum s ≡ returned t
      → query_c1c2 T k quorum tolerate_missing must_be_missing t ≡ (
          if ltb k n
          then (if must_be_missing then raised unexpected_row else returned tt)
          else query_c1c2 T k quorum tolerate_missing must_be_missing s)
  unfolding insert_c1c2 inserted_keys query_c1c2
  query_c1c2_after zero k a b s t h = absurd (ground (arith, h))
  query_c1c2_after (suc n) k a b s t h =
      let e : execute_all T quorum (map key_of (range (suc n))) s ≡ t = cc in
      ap (λ r. check_c1c2 a b (T.select (select_statement (key_of k)) quorum r)) (sym e)
      ∙ go (ltb k (suc n)) refl
    where
      go :
          (c : Bool)
          → ltb k (suc n) ≡ c
          → check_c1c2 a b (rows_after k 0 (suc n) s) ≡ (
              if c
              then (if b then raised unexpected_row else returned tt)
              else check_c1c2 a b (T.select (select_statement (key_of k)) quorum s))
      go true l =
          ap (check_c1c2 a b) (inside k 0 (suc n) s (omega arith) (ground (arith, l)))
          ∙ found_row a b
      go false l = ap (check_c1c2 a b) (outside k 0 (suc n) s (λ j p q f. ground (arith, l, q, f)))
