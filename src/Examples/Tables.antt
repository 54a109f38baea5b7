-- ===== src/Examples/Tables.antt =====
-- Concrete inputs for the theorems about text tables, skipped tests and the output of git.
use cassandra_dtest.Base.{
  ℕ, suc, ◌≡◌, refl, Bool, true, false, List, [], ◌∷◌, Option, none, some, returned, raised, Action,
}
use cassandra_dtest.Text.{Text, text, join}
use cassandra_dtest.LooseVersion.{no_newer, cmp_version}
use cassandra_dtest.DataHelp.Table.{Parsed, parse_row_into_dict, parse_data_into_dicts, star_digits}
use cassandra_dtest.DataHelp.Cells.{IsCell, Padded, contents}
use cassandra_dtest.DataHelp.Multiplier.{parse_row_into_dict-total}
use cassandra_dtest.DataHelp.RoundTrip.{
  Line, blank, rule, repeated, show_table, meaning, parse_data_into_dicts-show_table,
}
use cassandra_dtest.Tools.Skipping.{Since, TestEnd, skip_test, wrap_function, wrap_function-Skips}
use cassandra_dtest.Tools.GitBranch.{
  IsBranch, exited, listing, terminated, cassandra_git_branch, cassandra_git_branch-listing,
}

abbrev plain : Text → Text
plain s = s

abbrev no_functions : Text → Option (Text → Text)
no_functions k = none

parse_row_into_dict-total_example :
    (p : Parsed Text) × (parse_row_into_dict plain no_functions
        (text "*3|1|2")
        (text "a" ∷ text "b" ∷ [])
      ≡ some p)
parse_row_into_dict-total_example =
    parse_row_into_dict-total plain no_functions (text "*3|1|2") (text "a" ∷ text "b" ∷ [])

abbrev padded : ℕ → Text → Padded
padded n s = record { before = n; content = s; after = n }

abbrev digit-IsCell : (n : ℕ) → IsCell (padded n (text "7")).content
digit-IsCell n = record { starts = refl; ends = refl; no_pipe = (refl, tt); no_break = (refl, tt) }

-- |7| 7 |
-- +-+
-- |*2|7|7|
abbrev two_lines : List Line
two_lines =
    rule 0 (text "-")
    ∷ repeated 4 0 1 2 (padded 0 (text "7")) (padded 0 (text "7") ∷ [])
    ∷ blank 2
    ∷ []

parse_data_into_dicts-show_table_example :
    parse_data_into_dicts plain no_functions
      (show_table (3 ∷ []) 4 (padded 0 (text "7")) (padded 1 (text "7") ∷ []) two_lines)
    ≡ some (
        meaning plain no_functions
          (contents (padded 0 (text "7") ∷ padded 1 (text "7") ∷ []))
          two_lines)
unfolding star_digits join
parse_data_into_dicts-show_table_example =
    parse_data_into_dicts-show_table plain no_functions (3 ∷ []) 4 (padded 0 (text "7"))
      (padded 1 (text "7") ∷ []) two_lines (digit-IsCell 0, (digit-IsCell 1, tt)) refl
      ((refl, tt), (((digit-IsCell 0, (digit-IsCell 0, tt)), refl), (tt, tt)))

abbrev from_2_1 : Since
from_2_1 = record { cass_version = text "2.1"; max_version = none }

-- A test that counts its runs.
abbrev counting : Action ℕ (TestEnd ℕ) (Unit {0})
counting n = (returned tt, suc n)

wrap_function-Skips_example :
    (m : Text) × (wrap_function from_2_1 false (λ n. text "2.0.17") counting 0
      ≡ (raised (skip_test m), 0))
unfolding cmp_version
wrap_function-Skips_example =
    wrap_function-Skips from_2_1 false (λ n. text "2.0.17") counting 0 (λ h. absurd_of h.0) refl
  where
    absurd_of : no_newer (text "2.1") (text "2.0.17") ≡ true → ⊥
    absurd_of h = cc

abbrev no_release : Option Text
no_release = none

-- No branch name matches the pattern.
abbrev no_match : Text → Text → Bool
no_match p b = false

abbrev letter-IsBranch : IsBranch (text "x")
letter-IsBranch = record {
  starts = refl;
  ends = refl;
  no_break = (refl, tt);
  no_return = (refl, tt);
}

cassandra_git_branch-listing_example :
    cassandra_git_branch (exited 0 (terminated (listing (text "x" ∷ []) (text "x") [])) [])
    ≡ returned (some (text "x"))
cassandra_git_branch-listing_example =
    cassandra_git_branch-listing (text "x" ∷ []) (text "x") [] [] (letter-IsBranch, tt)
      letter-IsBranch tt
