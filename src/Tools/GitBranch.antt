-- ===== src/Tools/GitBranch.antt =====
-- `cassandra_git_branch` of tools.py: the current branch, from the output of `git branch`.
use cassandra_dtest.Base.{
  ℕ, zero, suc, Bool, List, [], ◌∷◌, ◌++◌, Option, none, some, Outcome, returned, raised, ◌≡◌, refl,
  if◌then◌else◌, map, All, ◌==◌, ap, ◌∙◌, sym,
}
use cassandra_dtest.Text.{Text, text, split, starts_with, strip_by, is_space}
use cassandra_dtest.Text.Laws.{Free, split_part}
use cassandra_dtest.Text.Strip.{StartsFree, EndsFree, strip_by_padded}
use mathlib.Core.List.{append-nil}

-- What `Popen` gives: an `OSError`, or the exit status with the output and the errors.
pub data GitRun : Type 0 where
  os_error : GitRun
  exited : ℕ → Text → Text → GitRun

pub data GitError : Type 0 where
  git_printed : Text → GitError
  -- The `ValueError` of `[current_branch_line] = …` when the lines are not exactly one.
  not_one_line : GitError

-- `[line for line in out.splitlines() if line.startswith('*')]`. An empty last line, which
-- `splitlines` would leave out, does not start with a star.
unfoldable pub starred : List Text → List Text
starred [] = []
starred (l ∷ ls) = let rest = starred ls in if starts_with l (text "*") then l ∷ rest else rest

abbrev pub tail_of : Text → Text
tail_of [] = []
tail_of (c ∷ cs) = cs

abbrev pub the_line : List Text → Outcome GitError (Option Text)
the_line [] = raised not_one_line
the_line (l ∷ []) = returned (some (strip_by is_space (tail_of l)))
the_line (l ∷ k ∷ ls) = raised not_one_line

unfoldable pub cassandra_git_branch : GitRun → Outcome GitError (Option Text)
cassandra_git_branch os_error = returned none
cassandra_git_branch (exited zero out err) = the_line (starred (split 10 out))
cassandra_git_branch (exited (suc code) out err) = raised (git_printed err)

abbrev breaks : ℕ → Bool
breaks c = c == 10

-- The name of a branch: it has no line break of either kind, and no space at its ends.
pub record IsBranch (b : Text) : Type 0 where
  pub starts : StartsFree is_space b
  pub ends : EndsFree is_space b
  pub no_break : Free breaks b
  pub no_return : Free (λ c. c == 13) b

-- The lines of `git branch`: the current branch has a star in front.
abbrev pub other_line : Text → Text
other_line b = 32 ∷ 32 ∷ b

abbrev pub current_line : Text → Text
current_line b = 42 ∷ 32 ∷ b

abbrev pub listing : List Text → Text → List Text → List Text
listing before current after =
    map other_line before ++ (current_line current ∷ map other_line after)

starred_others : (bs : List Text) → starred (map other_line bs) ≡ []
unfolding starred starts_with
starred_others [] = refl
starred_others (b ∷ bs) = starred_others bs

starred-listing :
    (before : List Text) (current : Text) (after : List Text)
    → starred (listing before current after) ≡ current_line current ∷ []
unfolding starred starts_with
starred-listing [] current after = ap (λ l. current_line current ∷ l) (starred_others after)
starred-listing (b ∷ before) current after = starred-listing before current after

others_no_break : (bs : List Text) → All IsBranch bs → All (Free breaks) (map other_line bs)
others_no_break [] h = tt
others_no_break (b ∷ bs) h = ((refl, (refl, h.0.no_break)), others_no_break bs h.1)

listing_no_break :
    (before : List Text) (current : Text) (after : List Text)
    → All IsBranch before
    → IsBranch current
    → All IsBranch after
    → All (Free breaks) (listing before current after)
listing_no_break [] current after hb hc ha = ((refl, (refl, hc.no_break)), others_no_break after ha)
listing_no_break (b ∷ before) current after hb hc ha =
    ((refl, (refl, hb.0.no_break)), listing_no_break before current after hb.1 hc ha)

-- Lines as git prints them, each with a line break behind it.
abbrev pub terminated : List Text → Text
terminated [] = []
terminated (l ∷ ls) = l ++ (10 ∷ terminated ls)

split-terminated :
    (ls : List Text) → All (Free breaks) ls → split 10 (terminated ls) ≡ ls ++ ([] ∷ [])
unfolding split
split-terminated [] h = refl
split-terminated (l ∷ ls) h =
    split_part 10 l (terminated ls) h.0 ∙ ap (λ r. l ∷ r) (split-terminated ls h.1)

starred-append : (ls : List Text) → starred (ls ++ ([] ∷ [])) ≡ starred ls
unfolding starred starts_with
starred-append [] = refl
starred-append (l ∷ ls) =
    ap (λ r. if starts_with l (text "*") then l ∷ r else r) (starred-append ls)

-- On the output of `git branch`, each line with its line break, in a repository whose current branch is
-- named in it, the name is returned as it is, wherever it stands among the other branches.
pub cassandra_git_branch-listing :
    (before : List Text) (current : Text) (after : List Text) (err : Text)
    → All IsBranch before
    → IsBranch current
    → All IsBranch after
    → cassandra_git_branch (exited 0 (terminated (listing before current after)) err)
      ≡ returned (some current)
unfolding cassandra_git_branch
cassandra_git_branch-listing before current after err hb hc ha =
    ap (λ ls. the_line (starred ls))
      (split-terminated (listing before current after)
        (listing_no_break before current after hb hc ha))
    ∙ ap the_line (starred-append (listing before current after))
    ∙ ap the_line (starred-listing before current after)
    ∙ ap (λ b. returned (some b)) trimmed
  where
    trimmed : strip_by is_space (32 ∷ current) ≡ current
    trimmed =
        ap (λ b. strip_by is_space (32 ∷ b)) (sym (append-nil current))
        ∙ strip_by_padded is_space (32 ∷ []) current [] (refl, tt) hc.starts hc.ends tt
