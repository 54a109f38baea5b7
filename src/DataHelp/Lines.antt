-- ===== src/DataHelp/Lines.antt =====
-- The lines of a table: what `strip` leaves of each, and which of them describe data.
use cassandra_dtest.Base.{
  ℕ, zero, suc, ◌≡◌, ◌≢◌, refl, Bool, true, false, List, [], ◌∷◌, ◌++◌, ap, ◌==◌, ◌∙◌, sym,
}
use cassandra_dtest.Text.{Text, is_space, strip_by, join}
use cassandra_dtest.Text.Laws.{Free-append, Free}
use cassandra_dtest.Text.Strip.{
  StartsFree, EndsFree, strip_by_padded, EndsFree-append, StartsFree-append, Free-starts, Free-ends,
}
use cassandra_dtest.DataHelp.Table.{pipe, is_pipe, trim, strip, row_describes_data}
use cassandra_dtest.DataHelp.Cells.{
  spaces, breaks, IsCell, Padded, show_cell, body, Cells, spaces-Full, spaces-Free_break,
  show_cell-no_pipe,
}
use mathlib.Core.List.{append-nil, reverse-append}

content-ne_nil : (s : Text) → StartsFree is_space s → s ≢ []
content-ne_nil [] h = absurd h
content-ne_nil (x ∷ s) h = λ e. cc

append-ne_nil : (s t : Text) → t ≢ [] → s ++ t ≢ []
append-ne_nil [] t h = h
append-ne_nil (x ∷ s) t h = λ e. cc

append-ne_nil_left : (s t : Text) → s ≢ [] → s ++ t ≢ []
append-ne_nil_left [] t h = absurd (h refl)
append-ne_nil_left (x ∷ s) t h = λ e. cc

show_cell-ne_nil : (c : Padded) → IsCell c.content → show_cell c ≢ []
show_cell-ne_nil c h =
    append-ne_nil (spaces c.before) (c.content ++ spaces c.after)
      (append-ne_nil_left c.content (spaces c.after) (content-ne_nil c.content h.starts))

pub body-starts :
    (c : Padded) (cs : List Padded) → Cells (c ∷ cs) → StartsFree is_pipe (body (c ∷ cs))
unfolding join
body-starts c [] h =
    Free-starts is_pipe (show_cell c) (show_cell-ne_nil c h.0) (show_cell-no_pipe c h.0)
body-starts c (d ∷ cs) h =
    StartsFree-append is_pipe (show_cell c) (pipe ∷ body (d ∷ cs))
      (Free-starts is_pipe (show_cell c) (show_cell-ne_nil c h.0) (show_cell-no_pipe c h.0))

pub body-ends : (c : Padded) (cs : List Padded) → Cells (c ∷ cs) → EndsFree is_pipe (body (c ∷ cs))
unfolding join
body-ends c [] h =
    Free-ends is_pipe (show_cell c) (show_cell-ne_nil c h.0) (show_cell-no_pipe c h.0)
body-ends c (d ∷ cs) h =
    EndsFree-append is_pipe (show_cell c) (pipe ∷ body (d ∷ cs))
      (EndsFree-append is_pipe (pipe ∷ []) (body (d ∷ cs)) (body-ends d cs h.1))

pub body-no_break : (c : Padded) (cs : List Padded) → Cells (c ∷ cs) → Free breaks (body (c ∷ cs))
unfolding join
body-no_break c [] h =
    Free-append breaks (spaces c.before) (c.content ++ spaces c.after) (spaces-Free_break c.before)
      (Free-append breaks c.content (spaces c.after) h.0.no_break (spaces-Free_break c.after))
body-no_break c (d ∷ cs) h =
    Free-append breaks (show_cell c) (pipe ∷ body (d ∷ cs))
      (Free-append breaks (spaces c.before) (c.content ++ spaces c.after)
        (spaces-Free_break c.before)
        (Free-append breaks c.content (spaces c.after) h.0.no_break (spaces-Free_break c.after)))
      (refl, body-no_break d cs h.1)

-- A row between its outer pipes, indented.
abbrev pub show_row : ℕ → List Padded → Text
show_row indent cs = spaces indent ++ (pipe ∷ (body cs ++ (pipe ∷ [])))

pub strip-show_row :
    (indent : ℕ) (c : Padded) (cs : List Padded)
    → Cells (c ∷ cs)
    → strip (show_row indent (c ∷ cs)) ≡ body (c ∷ cs)
unfolding strip
strip-show_row indent c cs h =
    ap (strip_by is_pipe) (outer ∙ refl)
    ∙ strip_by_padded is_pipe (pipe ∷ []) (body (c ∷ cs)) (pipe ∷ []) (refl, tt)
        (body-starts c cs h) (body-ends c cs h) (refl, tt)
  where
    line : Text
    line = pipe ∷ (body (c ∷ cs) ++ (pipe ∷ []))

    outer : trim (spaces indent ++ line) ≡ line
    outer =
        ap (λ t. trim (spaces indent ++ t)) (sym (append-nil line))
        ∙ strip_by_padded is_space (spaces indent) line [] (spaces-Full indent) refl
            (EndsFree-append is_space (pipe ∷ body (c ∷ cs)) (pipe ∷ []) refl) tt

pub show_row-no_break :
    (indent : ℕ) (c : Padded) (cs : List Padded)
    → Cells (c ∷ cs)
    → Free breaks (show_row indent (c ∷ cs))
show_row-no_break indent c cs h =
    Free-append breaks (spaces indent) (pipe ∷ (body (c ∷ cs) ++ (pipe ∷ [])))
      (spaces-Free_break indent)
      (refl, Free-append breaks (body (c ∷ cs)) (pipe ∷ []) (body-no_break c cs h) (refl, tt))

-- A line that sets the headers apart: pluses at both ends.
abbrev pub show_rule : ℕ → Text → Text
show_rule indent dashes = spaces indent ++ (43 ∷ (dashes ++ (43 ∷ [])))

pub strip-show_rule :
    (indent : ℕ) (dashes : Text) → strip (show_rule indent dashes) ≡ 43 ∷ (dashes ++ (43 ∷ []))
unfolding strip
strip-show_rule indent dashes =
    ap (strip_by is_pipe) outer
    ∙ ap (strip_by is_pipe) (sym (append-nil line))
    ∙ strip_by_padded is_pipe [] line [] tt refl
        (EndsFree-append is_pipe (43 ∷ dashes) (43 ∷ []) refl) tt
  where
    line : Text
    line = 43 ∷ (dashes ++ (43 ∷ []))

    outer : trim (spaces indent ++ line) ≡ line
    outer =
        ap (λ t. trim (spaces indent ++ t)) (sym (append-nil line))
        ∙ strip_by_padded is_space (spaces indent) line [] (spaces-Full indent) refl
            (EndsFree-append is_space (43 ∷ dashes) (43 ∷ []) refl) tt

pub rule_describes_no_data :
    (dashes : Text) → row_describes_data (43 ∷ (dashes ++ (43 ∷ []))) ≡ false
unfolding row_describes_data
rule_describes_no_data dashes = rw (reverse-append (43 ∷ dashes) (43 ∷ [])) refl

-- The first character is no plus.
abbrev pub NoPlus : Text → Type 0
NoPlus s = StartsFree (λ x. x == 43) s

pub row_describes_data_lem : (s : Text) → NoPlus s → row_describes_data s ≡ true
unfolding row_describes_data
row_describes_data_lem [] h = absurd h
row_describes_data_lem (x ∷ s) h = rw h

-- A text that does not end in a space has a first character, which it keeps in front of anything.
pub StartsFree-of_append :
    (p q : ℕ → Bool) (s t : Text) → EndsFree q s → StartsFree p (s ++ t) → StartsFree p s
StartsFree-of_append p q [] t h k = absurd h
StartsFree-of_append p q (x ∷ s) t h k = k

pub strip-spaces : (indent : ℕ) → strip (spaces indent) ≡ []
unfolding strip
strip-spaces indent = ap (strip_by is_pipe) (trimmed indent)
  where
    trimmed : (n : ℕ) → trim (spaces n) ≡ []
    trimmed zero = refl
    trimmed (suc n) = trimmed n
