-- ===== src/DataHelp/Headers.antt =====
-- The header line of a table, which is stripped a second time before its cells are read.
use cassandra_dtest.Base.{ℕ, ◌≡◌, refl, List, [], ◌∷◌, ◌++◌, some, ap, map, ◌∙◌, sym, subst}
use cassandra_dtest.Text.{Text, is_space, strip_by, split, join}
use cassandra_dtest.Text.Laws.{Free, split-join}
use cassandra_dtest.Text.Strip.{
  StartsFree, EndsFree, strip_by_padded, EndsFree-append, StartsFree-append,
}
use cassandra_dtest.DataHelp.Table.{
  pipe, newline, is_pipe, strip, non_empty, headers_of, parse_headers_into_list,
}
use cassandra_dtest.DataHelp.Cells.{
  spaces, breaks, Padded, show_cell, contents, body, Cells, spaces-Full, cells-body,
}
use cassandra_dtest.DataHelp.Lines.{body-starts, body-ends, body-no_break, StartsFree-of_append}
use mathlib.Core.List.{append-nil, append_assoc}

-- The same cells without the padding at the right end of the row.
record RightTight (c : Padded) (cs : List Padded) : Type 0 where
  head : Padded
  rest : List Padded
  pad : ℕ
  are_cells : Cells (head ∷ rest)
  same : contents (head ∷ rest) ≡ contents (c ∷ cs)
  ends : EndsFree is_space (body (head ∷ rest))
  written : body (c ∷ cs) ≡ body (head ∷ rest) ++ spaces pad

right_tight : (c : Padded) (cs : List Padded) → Cells (c ∷ cs) → RightTight c cs
unfolding join
right_tight c [] h = record {
  head = record c { after = 0 };
  rest = [];
  pad = c.after;
  are_cells = h;
  same = refl;
  ends = EndsFree-append is_space (spaces c.before) (c.content ++ []) (rw append-nil h.0.ends);
  written = simp (append_assoc, append-nil);
}
right_tight c (d ∷ cs) h =
    let t = right_tight d cs h.1 in
    record {
      head = c;
      rest = t.head ∷ t.rest;
      pad = t.pad;
      are_cells = (h.0, t.are_cells);
      same = ap (λ l. c.content ∷ l) t.same;
      ends =
          EndsFree-append is_space (show_cell c) (pipe ∷ body (t.head ∷ t.rest))
            (EndsFree-append is_space (pipe ∷ []) (body (t.head ∷ t.rest)) t.ends);
      written =
          ap (λ l. show_cell c ++ (pipe ∷ l)) t.written
          ∙ sym (append_assoc (show_cell c) (pipe ∷ body (t.head ∷ t.rest)) (spaces t.pad));
    }

body_drop_left :
    (c : Padded) (cs : List Padded)
    → body (c ∷ cs) ≡ spaces c.before ++ body (record c { before = 0 } ∷ cs)
unfolding join
body_drop_left c [] = refl
body_drop_left c (d ∷ cs) = simp append_assoc

first_free :
    (c : Padded) (cs : List Padded)
    → Cells (c ∷ cs)
    → StartsFree is_space (body (record c { before = 0 } ∷ cs))
unfolding join
first_free c [] h = StartsFree-append is_space c.content (spaces c.after) h.0.starts
first_free c (d ∷ cs) h =
    StartsFree-append is_space (c.content ++ spaces c.after) (pipe ∷ body (d ∷ cs))
      (StartsFree-append is_space c.content (spaces c.after) h.0.starts)

-- The header line is stripped once more, of the padding of its outer cells.
strip-body :
    (c : Padded) (cs : List Padded)
    → Cells (c ∷ cs)
    → (d : Padded) × (ds : List Padded) × Cells (d ∷ ds)
      × (contents (d ∷ ds) ≡ contents (c ∷ cs))
      × (strip (body (c ∷ cs)) ≡ body (d ∷ ds))
unfolding strip
strip-body c cs h =
    let left : Padded = record c { before = 0 } in
    let t = right_tight left cs h in
    let inner = body (t.head ∷ t.rest) in
    let starts : StartsFree is_space inner =
      StartsFree-of_append is_space is_space inner (spaces t.pad) t.ends
        (subst (StartsFree is_space) t.written (first_free c cs h)) in
    (
      t.head,
      t.rest,
      t.are_cells,
      t.same,
      ap strip (body_drop_left c cs ∙ ap (λ l. spaces c.before ++ l) t.written)
          ∙ ap (strip_by is_pipe) (
              strip_by_padded is_space (spaces c.before) inner (spaces t.pad) (spaces-Full c.before)
                starts t.ends (spaces-Full t.pad))
          ∙ ap (strip_by is_pipe) (sym (append-nil inner))
          ∙ strip_by_padded is_pipe [] inner [] tt (body-starts t.head t.rest t.are_cells)
              (body-ends t.head t.rest t.are_cells) tt,
    )

non_empty_one : (s : Text) → StartsFree is_pipe s → non_empty (s ∷ []) ≡ s ∷ []
unfolding non_empty
non_empty_one [] h = absurd h
non_empty_one (x ∷ s) h = refl

split_line : (s : Text) → Free breaks s → split newline s ≡ s ∷ []
unfolding join
split_line s h = split-join newline s [] (h, tt)

pub parse_headers-body :
    (c : Padded) (cs : List Padded)
    → Cells (c ∷ cs)
    → parse_headers_into_list (body (c ∷ cs)) ≡ some (contents (c ∷ cs))
unfolding parse_headers_into_list
parse_headers-body c cs h =
    let (d, ds, k, same, e) = strip-body c cs h in
    ap (λ l. headers_of (non_empty (map (λ r. strip r) l)))
      (split_line (body (c ∷ cs)) (body-no_break c cs h))
    ∙ ap (λ r. headers_of (non_empty (r ∷ []))) e
    ∙ ap headers_of (non_empty_one (body (d ∷ ds)) (body-starts d ds k))
    ∙ ap some (cells-body d ds k ∙ same)
