-- ===== src/DataHelp/RoundTrip.antt =====
-- A table that is written in the format of datahelp.py is read back: the lines below are the
-- format's description, with padding, indentation, blank lines, rules and multipliers.
use cassandra_dtest.Base.{
  ℕ, zero, suc, ◌≡◌, ◌≢◌, refl, Bool, List, [], ◌∷◌, ◌++◌, Option, none, some, ap, All, length, map,
  replicate, ◌∙◌, ap₂, if◌then◌else◌,
}
use cassandra_dtest.Text.{Text, split, join}
use cassandra_dtest.Text.Laws.{Free-append, Free, split-join}
use cassandra_dtest.Text.Strip.{StartsFree}
use cassandra_dtest.DataHelp.Table.{
  pipe, newline, is_pipe, strip, cells, get_row_multiplier, many_copies, parse_under,
  parse_described, star_digits, rest_cells, Parsed, one, many, copies, row_map, parse_row_fuel,
  parse_row_into_dict, data_rows, extend, add_parsed, parse_rows, parse_data_into_dicts,
}
use cassandra_dtest.DataHelp.Cells.{
  spaces, breaks, Padded, contents, body, Cells, spaces-Free_break, cells-body,
}
use cassandra_dtest.DataHelp.Lines.{
  body-starts, strip-spaces, show_row, strip-show_row, show_row-no_break, show_rule,
  strip-show_rule, rule_describes_no_data, NoPlus, row_describes_data_lem,
}
use cassandra_dtest.DataHelp.Multiplier.{
  star_cell, star_cell-IsCell, get_row_multiplier-body, get_row_multiplier-join,
  get_row_multiplier-star, cells-join,
}
use cassandra_dtest.DataHelp.Headers.{parse_headers-body}

-- A line of a table below its headers: blank, a rule, a row, or a row with a multiplier in a cell
-- of its own in front. The numbers are the widths of the indentation and the padding.
pub data Line : Type 0 where
  blank : ℕ → Line
  rule : ℕ → Text → Line
  row : ℕ → Padded → List Padded → Line
  repeated : ℕ → ℕ → ℕ → ℕ → Padded → List Padded → Line

abbrev star : ℕ → ℕ → ℕ → Padded
star before after n = record { before = before; content = star_cell n; after = after }

abbrev pub show_line : Line → Text
show_line (blank indent) = spaces indent
show_line (rule indent dashes) = show_rule indent dashes
show_line (row indent c cs) = show_row indent (c ∷ cs)
show_line (repeated indent before after n c cs) = show_row indent (star before after n ∷ c ∷ cs)

-- The cells can be told from the format: no pipes or line breaks, the first one of a row is no
-- multiplier, and a row does not start with a plus.
abbrev pub IsLine : Line → Type 0
IsLine (blank indent) = Unit
IsLine (rule indent dashes) = Free breaks dashes
IsLine (row indent c cs) = Cells (c ∷ cs) × (star_digits c.content ≡ none) × NoPlus (body (c ∷ cs))
IsLine (repeated indent before after n c cs) = Cells (c ∷ cs) × (star_digits c.content ≡ none)

positive : (s : Text) → s ≢ [] → (f : ℕ) × (length s ≡ suc f)
positive [] h = absurd (h refl)
positive (x ∷ s) h = (length s, refl)

star-ne_nil :
    (before after n : ℕ) (cs : List Padded)
    → Cells (star before after n ∷ cs)
    → body (star before after n ∷ cs) ≢ []
star-ne_nil before after n cs h = starts_ne_nil is_pipe _ (body-starts (star before after n) cs h)
  where
    starts_ne_nil : (p : ℕ → Bool) (s : Text) → StartsFree p s → s ≢ []
    starts_ne_nil p [] k = absurd k
    starts_ne_nil p (x ∷ s) k = λ e. cc

star-NoPlus : (before after n : ℕ) (cs : List Padded) → NoPlus (body (star before after n ∷ cs))
unfolding join
star-NoPlus zero after n [] = refl
star-NoPlus (suc before) after n [] = refl
star-NoPlus zero after n (c ∷ cs) = refl
star-NoPlus (suc before) after n (c ∷ cs) = refl

data_rows_nil : data_rows [] ≡ []
unfolding data_rows
data_rows_nil = refl

data_rows_row :
    (indent : ℕ) (c : Padded) (cs : List Padded) (rest : List Text)
    → Cells (c ∷ cs)
    → NoPlus (body (c ∷ cs))
    → data_rows (strip (show_row indent (c ∷ cs)) ∷ rest) ≡ body (c ∷ cs) ∷ data_rows rest
unfolding data_rows
data_rows_row indent c cs rest h k =
    ap (λ r. data_rows (r ∷ rest)) (strip-show_row indent c cs h)
    ∙ ap (λ b. if b then body (c ∷ cs) ∷ data_rows rest else data_rows rest)
        (row_describes_data_lem (body (c ∷ cs)) k)

data_rows_rule :
    (indent : ℕ) (dashes : Text) (rest : List Text)
    → data_rows (strip (show_rule indent dashes) ∷ rest) ≡ data_rows rest
unfolding data_rows
data_rows_rule indent dashes rest =
    ap (λ r. data_rows (r ∷ rest)) (strip-show_rule indent dashes)
    ∙ ap (λ b. if b then (43 ∷ (dashes ++ (43 ∷ []))) ∷ data_rows rest else data_rows rest)
        (rule_describes_no_data dashes)

data_rows_blank :
    (indent : ℕ) (rest : List Text) → data_rows (strip (spaces indent) ∷ rest) ≡ data_rows rest
unfolding data_rows
data_rows_blank indent rest = ap (λ r. data_rows (r ∷ rest)) (strip-spaces indent)

module _ {V : Type 0} (plain : Text → V) (format_funcs : Text → Option (Text → V))
    (headers : List Text) where
  abbrev row_of : Padded → List Padded → Parsed V
  row_of c cs = one (row_map plain format_funcs headers (contents (c ∷ cs)))

  -- The dictionaries that the lines stand for.
  abbrev pub meaning : List Line → List (Parsed V)
  meaning [] = []
  meaning (blank indent ∷ ls) = meaning ls
  meaning (rule indent dashes ∷ ls) = meaning ls
  meaning (row indent c cs ∷ ls) = row_of c cs ∷ meaning ls
  meaning (repeated indent before after n c cs ∷ ls) = replicate n (row_of c cs) ++ meaning ls

  extend-copies :
      (n : ℕ) (p : Parsed V) (values : List (Parsed V))
      → extend (copies n p) values ≡ replicate n p ++ values
  unfolding extend copies
  extend-copies zero p values = refl
  extend-copies (suc n) p values = ap (λ l. p ∷ l) (extend-copies n p values)

  parse_plain :
      (fuel : ℕ) (r : Text)
      → get_row_multiplier r ≡ none
      → parse_row_fuel plain format_funcs (suc fuel) r headers
        ≡ some (one (row_map plain format_funcs headers (cells r)))
  unfolding parse_row_fuel
  parse_plain fuel r e = rw (e, parse_row_fuel)

  parse_starred :
      (fuel n : ℕ) (r : Text)
      → get_row_multiplier r ≡ some n
      → parse_row_fuel plain format_funcs (suc fuel) r headers
        ≡ many_copies n (
            parse_row_fuel plain format_funcs fuel
              (join (pipe ∷ []) (rest_cells (cells r)))
              headers)
  unfolding parse_row_fuel
  parse_starred fuel n r e = rw (e, parse_row_fuel)

  parse-row :
      (c : Padded) (cs : List Padded)
      → Cells (c ∷ cs)
      → star_digits c.content ≡ none
      → parse_row_into_dict plain format_funcs (body (c ∷ cs)) headers ≡ some (row_of c cs)
  unfolding parse_row_into_dict
  parse-row c cs h e =
      parse_plain (length (body (c ∷ cs))) (body (c ∷ cs)) (get_row_multiplier-body c cs h e)
      ∙ ap (λ k. some (one (row_map plain format_funcs headers k))) (cells-body c cs h)

  parse-repeated :
      (before after n : ℕ) (c : Padded) (cs : List Padded)
      → Cells (c ∷ cs)
      → star_digits c.content ≡ none
      → parse_row_into_dict plain format_funcs (body (star before after n ∷ c ∷ cs)) headers
        ≡ some (many (copies n (row_of c cs)))
  unfolding parse_row_into_dict
  parse-repeated before after n c cs h e =
      let r = body (star before after n ∷ c ∷ cs) in
      let inner = join (pipe ∷ []) (contents (c ∷ cs)) in
      let (f, long) = positive r (star-ne_nil before after n (c ∷ cs) (star_cell-IsCell n, h)) in
      parse_starred (length r) n r (get_row_multiplier-star before after n (c ∷ cs) h)
      ∙ ap
          (λ k. many_copies n (
            parse_row_fuel plain format_funcs (length r) (join (pipe ∷ []) (rest_cells k)) headers))
          (cells-body (star before after n) (c ∷ cs) (star_cell-IsCell n, h))
      ∙ ap (λ k. many_copies n (parse_row_fuel plain format_funcs k inner headers)) long
      ∙ ap (many_copies n) (parse_plain f inner (get_row_multiplier-join c cs h e))
      ∙ ap (λ k. some (many (copies n (one (row_map plain format_funcs headers k)))))
          (cells-join c cs h)

  parse_rows-lines :
      (ls : List Line)
      → All IsLine ls
      → parse_rows plain format_funcs headers (data_rows (map (λ l. strip l) (map show_line ls)))
        ≡ some (meaning ls)
  unfolding parse_rows
  parse_rows-lines [] h = ap (parse_rows plain format_funcs headers) data_rows_nil
  parse_rows-lines (blank indent ∷ ls) h =
      ap (parse_rows plain format_funcs headers) (data_rows_blank indent _)
      ∙ parse_rows-lines ls h.1
  parse_rows-lines (rule indent dashes ∷ ls) h =
      ap (parse_rows plain format_funcs headers) (data_rows_rule indent dashes _)
      ∙ parse_rows-lines ls h.1
  parse_rows-lines (row indent c cs ∷ ls) h =
      ap (parse_rows plain format_funcs headers) (data_rows_row indent c cs _ h.0.0 h.0.2)
      ∙ ap₂ add_parsed (parse-row c cs h.0.0 h.0.1) (parse_rows-lines ls h.1)
  parse_rows-lines (repeated indent before after n c cs ∷ ls) h =
      ap (parse_rows plain format_funcs headers) (
        data_rows_row indent (star before after n) (c ∷ cs) _ (star_cell-IsCell n, h.0.0)
          (star-NoPlus before after n (c ∷ cs)))
      ∙ ap₂ add_parsed (parse-repeated before after n c cs h.0.0 h.0.1) (parse_rows-lines ls h.1)
      ∙ ap some (extend-copies n (row_of c cs) (meaning ls))

blank_lines : List ℕ → List Text
blank_lines indents = map spaces indents

data_rows-blank_lines :
    (indents : List ℕ) (rest : List Text)
    → data_rows (map (λ l. strip l) (map spaces indents ++ rest))
      ≡ data_rows (map (λ l. strip l) rest)
data_rows-blank_lines [] rest = refl
data_rows-blank_lines (n ∷ indents) rest = data_rows_blank n _ ∙ data_rows-blank_lines indents rest

line-no_break : (l : Line) → IsLine l → Free breaks (show_line l)
line-no_break (blank indent) h = spaces-Free_break indent
line-no_break (rule indent dashes) h =
    Free-append breaks (spaces indent) (43 ∷ (dashes ++ (43 ∷ []))) (spaces-Free_break indent)
      (refl, Free-append breaks dashes (43 ∷ []) h (refl, tt))
line-no_break (row indent c cs) h = show_row-no_break indent c cs h.0
line-no_break (repeated indent before after n c cs) h =
    show_row-no_break indent (star before after n) (c ∷ cs) (star_cell-IsCell n, h.0)

lines-no_break : (ls : List Line) → All IsLine ls → All (Free breaks) (map show_line ls)
lines-no_break [] h = tt
lines-no_break (l ∷ ls) h = (line-no_break l h.0, lines-no_break ls h.1)

blanks-no_break :
    (indents : List ℕ) (rest : List Text)
    → All (Free breaks) rest
    → All (Free breaks) (map spaces indents ++ rest)
blanks-no_break [] rest h = h
blanks-no_break (n ∷ indents) rest h = (spaces-Free_break n, blanks-no_break indents rest h)

-- The text of a table: blank lines, the headers, and the lines below them.
abbrev pub show_table : List ℕ → ℕ → Padded → List Padded → List Line → Text
show_table indents indent c cs ls =
    join (newline ∷ []) (map spaces indents ++ (show_row indent (c ∷ cs) ∷ map show_line ls))

split_lines :
    (ts : List Text) → ts ≢ [] → All (Free breaks) ts → split newline (join (newline ∷ []) ts) ≡ ts
split_lines [] h k = absurd (h refl)
split_lines (t ∷ ts) h k = split-join newline t ts k

append_cons-ne_nil : (ts us : List Text) (t : Text) → ts ++ (t ∷ us) ≢ []
append_cons-ne_nil [] us t = λ e. cc
append_cons-ne_nil (u ∷ ts) us t = λ e. cc

module _ {V : Type 0} (plain : Text → V) (format_funcs : Text → Option (Text → V)) where
  -- A table that is written in the format comes back as one dictionary for each row, in order, and
  -- as many copies of it as its multiplier says; blank lines, rules, indentation and padding leave
  -- no trace. The cells hold no pipe and no line break and have no space at their ends; a row's
  -- first cell is no multiplier, and neither a row nor the header line starts with a plus.
  pub parse_data_into_dicts-show_table :
      (indents : List ℕ) (indent : ℕ) (c : Padded) (cs : List Padded) (ls : List Line)
      → Cells (c ∷ cs)
      → NoPlus (body (c ∷ cs))
      → All IsLine ls
      → parse_data_into_dicts plain format_funcs (show_table indents indent c cs ls)
        ≡ some (meaning plain format_funcs (contents (c ∷ cs)) ls)
  unfolding parse_data_into_dicts
  parse_data_into_dicts-show_table indents indent c cs ls h k w =
      let texts = map spaces indents ++ (show_row indent (c ∷ cs) ∷ map show_line ls) in
      let described = parse_described plain format_funcs in
      ap (λ l. described (data_rows (map (λ r. strip r) l)))
        (split_lines texts (append_cons-ne_nil (map spaces indents) (map show_line ls) _)
          (blanks-no_break indents _ (show_row-no_break indent c cs h, lines-no_break ls w)))
      ∙ ap described (data_rows-blank_lines indents _)
      ∙ ap described (data_rows_row indent c cs _ h k)
      ∙ ap
          (λ o.
            parse_under plain format_funcs o (data_rows (map (λ r. strip r) (map show_line ls))))
          (parse_headers-body c cs h)
      ∙ parse_rows-lines plain format_funcs (contents (c ∷ cs)) ls w
