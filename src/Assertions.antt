-- ===== src/Assertions.antt =====
-- assertions.py: checks of what a statement returns or raises.
use cassandra_dtest.Base.{
  ℕ, ◌≡◌, ◌↔◌, ◌⊎◌, refl, Bool, true, false, ◌&&◌, List, [], ◌∷◌, ◌++◌, Option, none, some, Outcome,
  returned, raised, ◌==◌, if◌then◌else◌, arith, inl, inr, Bool-cases, ◌≢◌, ap, ◌∙◌, sym,
  true-ne-false,
}
use cassandra_dtest.Text.{Text, text}

-- The exceptions of the driver that the checks tell apart, with their texts, and others.
pub data Exc : Type 0 where
  unavailable write_timeout write_failure read_timeout read_failure : Exc
  invalid_request : Text → Exc
  assertion_error : Exc
  other : Text → Exc

abbrev pub is_unavailable : Exc → Bool
is_unavailable unavailable = true
is_unavailable write_timeout = true
is_unavailable write_failure = true
is_unavailable read_timeout = true
is_unavailable read_failure = true
is_unavailable (invalid_request m) = false
is_unavailable assertion_error = false
is_unavailable (other m) = false

-- `assert_unavailable`, by how the call ends.
unfoldable pub assert_unavailable : {A : Type 0} → Outcome Exc A → Outcome Exc (Unit {0})
assert_unavailable (returned a) = raised assertion_error
assert_unavailable (raised e) = if is_unavailable e then returned tt else raised assertion_error

-- The check passes exactly when the call raised one of the five exceptions; otherwise, whatever the
-- call did, it is an `AssertionError`.
pub assert_unavailable_iff :
    {A : Type 0} (o : Outcome Exc A)
    → ((assert_unavailable o ≡ returned tt)
        ↔ ((e : Exc) × (o ≡ raised e) × (is_unavailable e ≡ true)))
      × ((assert_unavailable o ≡ returned tt) ⊎ (assert_unavailable o ≡ raised assertion_error))
unfolding assert_unavailable
assert_unavailable_iff (returned a) = ((λ h. cc, λ h. cc), inr refl)
assert_unavailable_iff (raised e) = elim (Bool-cases (is_unavailable e)) [
  | inl known ↦ ((λ h. (e, refl, known), λ h. rw known refl), inl (rw known refl))
  | inr unknown ↦ ((λ h. absurd (ground arith), λ h. ground arith), inr (rw unknown refl))
]

raised_injective : {A : Type 0} {d e : Exc} → ◌≡◌ {A = Outcome Exc A} (raised d) (raised e) → d ≡ e
raised_injective h = cc

module _ (expected : Exc → Bool) (message : Exc → Text) (re_search : Text → Text → Bool) where
  -- `if matching is not None: assert re.search(matching, msg)`
  abbrev pub matches : Option Text → Exc → Bool
  matches none e = true
  matches (some m) e = re_search m (message e)

  abbrev pub is_assertion : Exc → Bool
  is_assertion assertion_error = true
  is_assertion e = false

  assertion : (e : Exc) → is_assertion e ≡ true → e ≡ assertion_error
  assertion unavailable h = cc
  assertion write_timeout h = cc
  assertion write_failure h = cc
  assertion read_timeout h = cc
  assertion read_failure h = cc
  assertion (invalid_request m) h = cc
  assertion assertion_error h = refl
  assertion (other m) h = cc

  other_than : (e : Exc) → is_assertion e ≡ false → e ≢ assertion_error
  other_than e h q = true-ne-false (ap is_assertion (sym q) ∙ h)

  patterns :
      (matching : Option Text) (e : Exc)
      → matches matching e ≡ true
      → (m : Text) → matching ≡ some m
      → re_search m (message e) ≡ true
  patterns none e h m q = cc
  patterns (some k) e h m q = ground (arith, h, q)

  matched :
      (matching : Option Text) (e : Exc)
      → ((m : Text) → matching ≡ some m → re_search m (message e) ≡ true)
      → matches matching e ≡ false
      → ⊥
  matched none e h q = cc
  matched (some k) e h q = true-ne-false (sym (h k refl) ∙ q)

  -- `assert_invalid`, by how the statement ends: an `AssertionError` is raised again, and an exception
  -- that is not expected goes through.
  unfoldable pub assert_invalid :
      {A : Type 0} → Option Text → Outcome Exc A → Outcome Exc (Unit {0})
  assert_invalid matching (returned a) = raised assertion_error
  assert_invalid matching (raised e) =
      if is_assertion e
      then raised assertion_error
      else (if expected e
          then (if matches matching e then returned tt else raised assertion_error)
          else raised e)

  -- The check passes exactly when the statement raised an exception of the expected kind, other than
  -- an `AssertionError`, whose text holds the pattern, if one is given.
  pub assert_invalid_iff :
      {A : Type 0} (matching : Option Text) (o : Outcome Exc A)
      → (assert_invalid matching o ≡ returned tt) ↔ (
          (e : Exc) × (o ≡ raised e)
          × (e ≢ assertion_error)
          × (expected e ≡ true)
          × ((m : Text) → matching ≡ some m → re_search m (message e) ≡ true))
  unfolding assert_invalid
  assert_invalid_iff matching (returned a) = (λ h. cc, λ h. cc)
  assert_invalid_iff {A} matching (raised e) =
      go (is_assertion e) (expected e) (matches matching e) refl refl refl
    where
      Passes : Bool → Bool → Bool → Type 0
      Passes a x m =
          ◌≡◌ {A = Outcome Exc (Unit {0})}
            (if a
              then raised assertion_error
              else (if x then (if m then returned tt else raised assertion_error) else raised e))
            (returned tt)

      go :
          (a x m : Bool)
          → is_assertion e ≡ a
          → expected e ≡ x
          → matches matching e ≡ m
          → Passes a x m ↔ (
              (d : Exc) × (◌≡◌ {A = Outcome Exc A} (raised e) (raised d))
              × (d ≢ assertion_error)
              × (expected d ≡ true)
              × ((p : Text) → matching ≡ some p → re_search p (message d) ≡ true))
      go true x m p q r = (λ h. cc, λ h. absurd (h.2 (sym (raised_injective h.1) ∙ assertion e p)))
      go false false m p q r = (λ h. cc, λ h. absurd (ground (arith, raised_injective h.1)))
      go false true false p q r = (
        λ h. cc,
        λ h.
            absurd
              (matched matching h.0 h.4 (ap (matches matching) (sym (raised_injective h.1)) ∙ r)),
      )
      go false true true p q r =
          (λ h. (e, refl, other_than e p, q, patterns matching e r), λ h. refl)

-- Rows are compared by a test of the test's own; `less` orders them as Python does.
module _ {Row : Type 0} (same : Row → Row → Bool) (less : Row → Row → Bool) where
  unfoldable pub same_rows : List Row → List Row → Bool
  same_rows [] [] = true
  same_rows [] (y ∷ ys) = false
  same_rows (x ∷ xs) [] = false
  same_rows (x ∷ xs) (y ∷ ys) = same x y && same_rows xs ys

  abbrev judge : Bool → Outcome Exc (Unit {0})
  judge b = if b then returned tt else raised assertion_error

  -- `assert_one`
  unfoldable pub assert_one : Row → List Row → Outcome Exc (Unit {0})
  unfolding same_rows
  assert_one expected res = judge (same_rows res (expected ∷ []))

  -- `assert_none`
  unfoldable pub assert_none : List Row → Outcome Exc (Unit {0})
  unfolding same_rows
  assert_none res = judge (same_rows res [])

  unfoldable pub place : Row → List Row → List Row
  place x [] = x ∷ []
  place x (y ∷ ys) = if less y x then y ∷ place x ys else x ∷ y ∷ ys

  -- `sorted`
  unfoldable pub sorted : List Row → List Row
  unfolding place
  sorted [] = []
  sorted (x ∷ xs) = place x (sorted xs)

  -- `assert_all`
  unfoldable pub assert_all : Bool → List Row → List Row → Outcome Exc (Unit {0})
  unfolding sorted same_rows
  assert_all ignore_order expected res =
      if ignore_order
      then judge (same_rows (sorted res) (sorted expected))
      else judge (same_rows res expected)

-- `assert_row_count`: the first column of the first row; `none` is the `IndexError`.
unfoldable pub assert_row_count : ℕ → List (List ℕ) → Option (Outcome Exc (Unit {0}))
assert_row_count expected [] = none
assert_row_count expected ([] ∷ rows) = none
assert_row_count expected ((c ∷ cs) ∷ rows) =
    some (if c == expected then returned tt else raised assertion_error)

-- The query of `assert_crc_check_chance_equal`; the keyspace that it is given is not looked at.
unfoldable pub crc_query : Text → Text → Bool → Text
crc_query table ks true =
    text
      "SELECT crc_check_chance from system_schema.views WHERE keyspace_name = 'ks' AND view_name = '"
    ++ (table ++ text "';")
crc_query table ks false =
    text
      "SELECT crc_check_chance from system_schema.tables WHERE keyspace_name = 'ks' AND table_name = '"
    ++ (table ++ text "';")
