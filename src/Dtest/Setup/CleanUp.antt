-- ===== src/Dtest/Setup/CleanUp.antt =====
-- The start of a test after a run that was cut off, whose cluster is cleaned up by calls that may fail.
use cassandra_dtest.Base.{ℕ, ◌≡◌, ◌⊎◌, true, false, Option, some, Outcome, returned, raised}
use cassandra_dtest.Text.{Text, text}
use cassandra_dtest.Dtest.Setup.{World, has_dir, CleanCall, SetupError, io_error, other_error}

module _ (answer : CleanCall → Option SetupError) where
  -- What loading and cleaning up the last cluster leaves, by how it ends.
  abbrev Cleaned : Text → World → Outcome SetupError (Unit {0}) × World → Type 0
  Cleaned path w (returned _, u) = (has_dir path u.dirs ≡ false) × (u.made ≡ w.made)
  Cleaned path w (raised e, u) =
      ((c : CleanCall) × (answer c ≡ some e)) × (u.made ≡ w.made) × (u.last ≡ w.last)

  -- A call that returned left the world as it was, but for the cluster, the directories and the file.
  abbrev Went : World → Outcome SetupError (Unit {0}) × World → Type 0
  Went w (returned _, u) = (u.made ≡ w.made) × (u.last ≡ w.last)
  Went w (raised e, u) =
      ((c : CleanCall) × (answer c ≡ some e)) × (u.made ≡ w.made) × (u.last ≡ w.last)

  -- What `setUp` leaves of the last cluster: nothing, unless a call raised an `IOError`, which is
  -- dropped; or another exception of a call, which ends it.
  abbrev pub Loaded : Text → World → Outcome SetupError (Unit {0}) × World → Type 0
  Loaded path w (returned _, u) =
      ((has_dir path u.dirs ≡ false) ⊎ ((c : CleanCall) × (answer c ≡ some io_error)))
      × (u.made ≡ w.made)
  Loaded path w (raised e, u) =
      (e ≡ other_error)
      × ((c : CleanCall) × (answer c ≡ some other_error))
      × (u.made ≡ w.made)
      × (u.last ≡ w.last)

-- What `setUp` leaves after a run that was cut off.
abbrev pub Ended :
    (ℕ → Text)
    → (CleanCall → Option SetupError)
    → Text
    → World
    → Outcome SetupError (Unit {0}) × World
    → Type 0
Ended mkdtemp answer path w (returned _, u) =
    (u.last ≡ some (mkdtemp w.made, text "test"))
    × (has_dir (mkdtemp w.made) u.dirs ≡ true)
    × ((has_dir path u.dirs ≡ false) ⊎ ((c : CleanCall) × (answer c ≡ some io_error)))
Ended mkdtemp answer path w (raised e, u) =
    (e ≡ other_error) × ((c : CleanCall) × (answer c ≡ some other_error)) × (u.last ≡ w.last)
