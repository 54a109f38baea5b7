-- ===== src/Consistency/Accuracy/Passes.antt =====
-- The validation of consistency_test.py on a cluster whose reads give the last write.
use cassandra_dtest.Base.{
  ℕ, ◌+◌, ◌≤◌, ◌≡◌, ◌⊎◌, Bool, true, false, List, [], ◌∷◌, Option, none, some, Outcome, returned,
  raised, ◌==◌, if◌then◌else◌,
}
use cassandra_dtest.Consistency.{Level, get_num_nodes}
use cassandra_dtest.Consistency.Accuracy.{Mismatch, Cluster, Validation, is_serial, select_user}

-- `SELECT userid, age`: the row of a user that is there.
abbrev pub answer : ℕ → Option ℕ → List (ℕ × ℕ)
answer userid none = []
answer userid (some age) = (userid, age) ∷ []

-- What the code relies on, for one key: what the statements do to its age, and that a read gives it.
pub record IsConsistent (C : Cluster) (n : ℕ) : Type 0 where
  pub age : C.State → Option ℕ
  pub select : (s : ℕ) (cl : Level) (t : C.State) → C.select_user s n cl t ≡ answer n (age t)
  pub insert : (s a : ℕ) (cl : Level) (t : C.State) → age (C.insert_user s n a cl false t) ≡ some a
  pub insert_new :
      (s a : ℕ) (cl : Level) (t : C.State)
      → age t ≡ none
      → age (C.insert_user s n a cl true t) ≡ some a
  pub insert_old :
      (s a b : ℕ) (cl : Level) (t : C.State)
      → age t ≡ some b
      → age (C.insert_user s n a cl true t) ≡ some b
  pub update : (s a : ℕ) (cl : Level) (t : C.State) → age (C.update_user s n a cl none t) ≡ some a
  pub update_if :
      (s a b p : ℕ) (cl : Level) (t : C.State)
      → age t ≡ some b
      → age (C.update_user s n a cl (some p) t) ≡ some (if b == p then a else b)
  pub delete : (s : ℕ) (cl : Level) (t : C.State) → age (C.delete_user s n cl t) ≡ none

module _ (C : Cluster) (v : Validation) (n : ℕ) (L : IsConsistent C n) where
  -- The number of nodes to agree is known, and is not more than there are sessions.
  abbrev pub Enough : ℕ → Type 0
  Enough idx =
      (w : ℕ) × (r : ℕ) × (strong : Bool) × (get_num_nodes v.write_cl v.read_cl v.nodes v.rf_factors
          idx
        ≡ some (w, r, strong))
      × (w ≤ v.sessions)

  -- What an insertion needs, and what it leaves.
  abbrev Insertable : Bool → Option ℕ → ℕ → Type 0
  Insertable false o a = Unit
  Insertable true o a = (o ≡ none) ⊎ (o ≡ some a)

  -- What an update needs: with the condition on the previous age, this age or the one before.
  abbrev Updatable : Bool → Option ℕ → ℕ → Type 0
  Updatable false o a = Unit
  Updatable true o a = (o ≡ some a) ⊎ ((b : ℕ) × (o ≡ some b) × (b + 1 ≡ a))

  -- After the insertions, the age to go on with, and the row that is there.
  abbrev Inserted : Bool → ℕ → Outcome Mismatch ℕ × C.State → Type 0
  Inserted lwt a (raised e, t) = ⊥
  Inserted lwt a (returned b, t) = (a ≤ b) × Updatable lwt (L.age t) b

  abbrev serial : Bool
  serial = is_serial v.serial_cl
