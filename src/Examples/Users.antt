-- ===== src/Examples/Users.antt =====
-- A table with one row, read by three sessions of a single data centre.
use cassandra_dtest.Base.{
  ℕ, refl, Bool, true, false, [], ◌∷◌, Option, none, some, ◌==◌, if◌then◌else◌, ap,
}
use cassandra_dtest.Consistency.{quorum, serial}
use cassandra_dtest.Consistency.Accuracy.{Cluster, Validation}
use cassandra_dtest.Consistency.Accuracy.Passes.{answer, IsConsistent}

abbrev insert_if : Bool → ℕ → Option ℕ → Option ℕ
insert_if false a t = some a
insert_if true a none = some a
insert_if true a (some b) = some b

abbrev update_if : ℕ → Option ℕ → Option ℕ → Option ℕ
update_if a none t = some a
update_if a (some p) none = none
update_if a (some p) (some b) = some (if b == p then a else b)

abbrev one_row : Cluster
one_row = record {
  State = Option ℕ;
  insert_user = λ s n a cl lwt t. insert_if lwt a t;
  update_user = λ s n a cl p t. update_if a p t;
  delete_user = λ s n cl t. none;
  select_user = λ s n cl t. answer n t;
  update_counter = λ s n cl t. t;
  select_counter = λ s n cl t. [];
}

abbrev one_row-IsConsistent : IsConsistent one_row 7
one_row-IsConsistent = record {
  age = λ t. t;
  select = λ s cl t. refl;
  insert = λ s a cl t. refl;
  insert_new = λ s a cl t h. ap (insert_if true a) h;
  insert_old = λ s a b cl t h. ap (insert_if true a) h;
  update = λ s a cl t. refl;
  update_if = λ s a b p cl t h. ap (update_if a (some p)) h;
  delete = λ s cl t. refl;
}

abbrev three_sessions : Validation
three_sessions = record {
  sessions = 3;
  nodes = 3 ∷ [];
  rf_factors = 3 ∷ [];
  write_cl = quorum;
  read_cl = quorum;
  serial_cl = some serial;
}
