-- ===== src/DataHelp/Cells.antt =====
-- The cells of a table row as they are written, with their padding, and as datahelp.py reads them.
use cassandra_dtest.Base.{
  ℕ, zero, suc, ◌≡◌, refl, Bool, List, [], ◌∷◌, ◌++◌, ap, All, ◌==◌, map, replicate, ◌∙◌,
}
use cassandra_dtest.Text.{Text, is_space, join}
use cassandra_dtest.Text.Laws.{Free-append, Free, split-join}
use cassandra_dtest.Text.Strip.{Full, StartsFree, EndsFree, strip_by_padded}
use cassandra_dtest.DataHelp.Table.{pipe, is_pipe, trim, cells}

abbrev pub spaces : ℕ → Text
spaces n = replicate n 32

abbrev pub breaks : ℕ → Bool
breaks c = c == 10

-- The text of a cell: not empty, with no space at its ends, and no pipe or line break inside.
pub record IsCell (c : Text) : Type 0 where
  pub starts : StartsFree is_space c
  pub ends : EndsFree is_space c
  pub no_pipe : Free is_pipe c
  pub no_break : Free breaks c

-- A cell as it is written: the text and the number of spaces on either side.
pub record Padded : Type 0 where
  pub before : ℕ
  pub content : Text
  pub after : ℕ

abbrev pub show_cell : Padded → Text
show_cell c = spaces c.before ++ (c.content ++ spaces c.after)

abbrev pub contents : List Padded → List Text
contents cs = map (λ c. c.content) cs

-- The cells between the outer pipes.
abbrev pub body : List Padded → Text
body cs = join (pipe ∷ []) (map show_cell cs)

pub spaces-Full : (n : ℕ) → Full is_space (spaces n)
spaces-Full zero = tt
spaces-Full (suc n) = (refl, spaces-Full n)

pub spaces-Free_pipe : (n : ℕ) → Free is_pipe (spaces n)
spaces-Free_pipe zero = tt
spaces-Free_pipe (suc n) = (refl, spaces-Free_pipe n)

pub spaces-Free_break : (n : ℕ) → Free breaks (spaces n)
spaces-Free_break zero = tt
spaces-Free_break (suc n) = (refl, spaces-Free_break n)

pub show_cell-no_pipe : (c : Padded) → IsCell c.content → Free is_pipe (show_cell c)
show_cell-no_pipe c h =
    Free-append is_pipe (spaces c.before) (c.content ++ spaces c.after) (spaces-Free_pipe c.before)
      (Free-append is_pipe c.content (spaces c.after) h.no_pipe (spaces-Free_pipe c.after))

trim-show_cell : (c : Padded) → IsCell c.content → trim (show_cell c) ≡ c.content
trim-show_cell c h =
    strip_by_padded is_space (spaces c.before) c.content (spaces c.after) (spaces-Full c.before)
      h.starts h.ends (spaces-Full c.after)

abbrev pub Cells : List Padded → Type 0
Cells cs = All (λ c. IsCell c.content) cs

pub shown-no_pipe : (cs : List Padded) → Cells cs → All (Free is_pipe) (map show_cell cs)
shown-no_pipe [] h = tt
shown-no_pipe (c ∷ cs) h = (show_cell-no_pipe c h.0, shown-no_pipe cs h.1)

trim-shown : (cs : List Padded) → Cells cs → map (λ l. trim l) (map show_cell cs) ≡ contents cs
trim-shown [] h = refl
trim-shown (c ∷ cs) h = rw (trim-show_cell c h.0, trim-shown cs h.1)

-- The cells of a row come back from its text.
pub cells-body :
    (c : Padded) (cs : List Padded) → Cells (c ∷ cs) → cells (body (c ∷ cs)) ≡ contents (c ∷ cs)
unfolding cells
cells-body c cs h =
    ap (map (λ l. trim l))
      (split-join pipe (show_cell c) (map show_cell cs) (shown-no_pipe (c ∷ cs) h))
    ∙ trim-shown (c ∷ cs) h
