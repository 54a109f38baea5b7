-- ===== src/Examples/Checks.antt =====
-- Statements that were refused.
use cassandra_dtest.Base.{ℕ, ◌≡◌, ◌≢◌, ◌↔◌, Bool, true, false, [], some, Outcome, returned, raised}
use cassandra_dtest.Text.{Text, text, contains}
use cassandra_dtest.Assertions.{
  Exc, write_timeout, invalid_request, assertion_error, assert_invalid, assert_invalid_iff,
}

abbrev timed_out : Outcome Exc ℕ
timed_out = raised write_timeout

abbrev expected : Exc → Bool
expected (invalid_request m) = true
expected e = false

abbrev message : Exc → Text
message (invalid_request m) = m
message e = []

abbrev re_search : Text → Text → Bool
re_search p m = contains m p

abbrev refused : Outcome Exc ℕ
refused = raised (invalid_request (text "no such table"))

assert_invalid_iff_example :
    (assert_invalid expected message re_search (some (text "table")) refused ≡ returned tt) ↔ (
      (e : Exc) × (refused ≡ raised e)
      × (e ≢ assertion_error)
      × (expected e ≡ true)
      × ((m : Text) → some (text "table") ≡ some m → re_search m (message e) ≡ true))
assert_invalid_iff_example =
    assert_invalid_iff expected message re_search (some (text "table")) refused
