-- ===== src/Consistency/Accuracy.antt =====
-- `TestAccuracy.Validation.validate_users` and `validate_counters` of consistency_test.py, with the
-- statements of `TestHelper` that they run. The cluster is a parameter.
pub mod Passes
use cassandra_dtest.Base.{
  ℕ, zero, suc, ◌+◌, ◌-◌, ◌≤◌, ◌<◌, ◌≡◌, refl, Bool, true, false, ◌&&◌, ◌||◌, not, List, [], ◌∷◌,
  ◌++◌, Option, none, some, Outcome, returned, raised, Action, ◌==◌, leb, if◌then◌else◌, length,
  range, range_from, pure, ◌>>=◌, ◌>>◌, assert, for_each, arith, ap, ◌∙◌, Bool-cases, inl, inr,
  le→leb,
}
use cassandra_dtest.Consistency.{Level, all, get_num_nodes}

-- What a validation ends with: an `AssertionError`, of a query or of the count of nodes, or an index
-- out of range.
pub data Mismatch : Type 0 where
  wrong_rows too_few_nodes no_such_index : Mismatch

-- A cluster with the two tables: sessions, keys, ages and counts are numbers.
pub record Cluster : Type 1 where
  pub State : Type 0
  -- `INSERT INTO users …`, with `IF NOT EXISTS` for the flag.
  pub insert_user : ℕ → ℕ → ℕ → Level → Bool → State → State
  -- `UPDATE users …`, with `IF age = …` for a number.
  pub update_user : ℕ → ℕ → ℕ → Level → Option ℕ → State → State
  pub delete_user : ℕ → ℕ → Level → State → State
  -- The rows of `SELECT userid, age FROM users where userid = …`.
  pub select_user : ℕ → ℕ → Level → State → List (ℕ × ℕ)
  pub update_counter : ℕ → ℕ → Level → State → State
  -- The rows of `SELECT * from counters WHERE id = …`.
  pub select_counter : ℕ → ℕ → Level → State → List (ℕ × ℕ)

-- `[[userid, age]] if age else []`: an age of 0 stands for no row.
abbrev pub expected_rows : ℕ → Option ℕ → List (ℕ × ℕ)
expected_rows n none = []
expected_rows n (some zero) = []
expected_rows n (some (suc a)) = (n, suc a) ∷ []

-- `rows_to_list(res) == expected`
unfoldable pub same_rows : List (ℕ × ℕ) → List (ℕ × ℕ) → Bool
same_rows [] [] = true
same_rows [] (y ∷ ys) = false
same_rows (x ∷ xs) [] = false
same_rows ((a, b) ∷ xs) ((c, d) ∷ ys) = (a == c && b == d) && same_rows xs ys

pub record Validation : Type 0 where
  pub sessions : ℕ
  pub nodes : List ℕ
  pub rf_factors : List ℕ
  pub write_cl : Level
  pub read_cl : Level
  pub serial_cl : Option Level

abbrev pub is_serial : Option Level → Bool
is_serial none = false
is_serial (some cl) = true

module _ (C : Cluster) (v : Validation) where
  abbrev pub Checks : Type 0 → Type 0
  Checks A = Action C.State Mismatch A

  -- The calls of `query_user` or `query_counter` for all sessions, and how many agreed. With
  -- `check_ret` a disagreement is an assertion.
  unfoldable pub count_sessions :
      (ℕ → C.State → List (ℕ × ℕ)) → List (ℕ × ℕ) → Bool → List ℕ → ℕ → Checks ℕ
  unfolding same_rows
  count_sessions select expected check_ret [] num t = (returned num, t)
  count_sessions select expected check_ret (s ∷ ss) num t =
      let ret = same_rows (select s t) expected in
      if check_ret && not ret
      then (raised wrong_rows, t)
      else count_sessions select expected check_ret ss (if ret then num + 1 else num) t

  -- `check_all_sessions`
  unfoldable pub check_all_sessions :
      (ℕ → C.State → List (ℕ × ℕ)) → ℕ → List (ℕ × ℕ) → Checks (Unit {0})
  unfolding count_sessions
  check_all_sessions select idx expected =
      elim (get_num_nodes v.write_cl v.read_cl v.nodes v.rf_factors idx)
        as (λ o. Checks (Unit {0})) [
          | none ↦ (λ t. (raised no_such_index, t))
          | some (w, r, strong) ↦
              count_sessions select expected strong (range v.sessions) 0 >>= λ num.
              assert (leb w num) too_few_nodes
        ]

  abbrev pub select_user : ℕ → ℕ → C.State → List (ℕ × ℕ)
  select_user n s t = C.select_user s n v.read_cl t

  abbrev pub select_counter : ℕ → ℕ → C.State → List (ℕ × ℕ)
  select_counter n s t = C.select_counter s n v.read_cl t

  -- `update_user(..., age, write_cl, serial_cl, age - 1)`: a previous age of 0 is none.
  abbrev pub previous : ℕ → Option ℕ
  previous age = if is_serial v.serial_cl && not (age - 1 == 0) then some (age - 1) else none

  -- The first loop over the sessions: the age only grows without a serial level.
  unfoldable pub insert_all : ℕ → List ℕ → ℕ → Checks ℕ
  unfolding check_all_sessions
  insert_all n [] age t = (returned age, t)
  insert_all n (s ∷ ss) age t =
      (check_all_sessions (select_user n) s (expected_rows n (some age))
          >> insert_all n ss (if is_serial v.serial_cl then age else age + 1))
        (C.insert_user s n age v.write_cl (is_serial v.serial_cl) t)

  -- The second loop.
  unfoldable pub update_all : ℕ → List ℕ → ℕ → Checks (Unit {0})
  unfolding check_all_sessions
  update_all n [] age t = (returned tt, t)
  update_all n (s ∷ ss) age t =
      (check_all_sessions (select_user n) s (expected_rows n (some age))
          >> update_all n ss (age + 1))
        (C.update_user s n age v.write_cl (previous age) t)

  -- `sessions[0]`
  abbrev pub with_session : Checks (Unit {0}) → Checks (Unit {0})
  with_session m t = if v.sessions == 0 then (raised no_such_index, t) else m t

  -- The body for one key; the last check is for the index that the loops left in `s`.
  unfoldable pub validate_user : ℕ → Checks (Unit {0})
  unfolding insert_all update_all check_all_sessions
  validate_user n = insert_all n (range v.sessions) 30 >>= λ age.
      update_all n (range v.sessions) age
      >> with_session (λ t.
        check_all_sessions (select_user n) (v.sessions - 1) (expected_rows n none)
          (C.delete_user 0 n v.write_cl t))

  -- `validate_users`, for the keys of the validation.
  unfoldable pub validate_users : List ℕ → Checks (Unit {0})
  unfolding validate_user
  validate_users keys = for_each keys validate_user

  -- `read_counter(sessions[0], n, ALL)`
  unfoldable pub read_counter : ℕ → C.State → ℕ
  read_counter n t = elim (C.select_counter 0 n all t) [ [] ↦ 0 | x ∷ xs ↦ x.1 ]

  unfoldable pub count_all : ℕ → List ℕ → ℕ → Checks (Unit {0})
  unfolding check_all_sessions
  count_all n [] c t = (returned tt, t)
  count_all n (s ∷ ss) c t =
      (check_all_sessions (select_counter n) s (expected_rows n (some (c + 1)))
          >> count_all n ss (c + 1))
        (C.update_counter s n v.write_cl t)

  -- `validate_counters`
  unfoldable pub validate_counters : List ℕ → Checks (Unit {0})
  unfolding count_all read_counter
  validate_counters keys =
      for_each keys (λ n. with_session (λ t. count_all n (range v.sessions) (read_counter n t) t))
