-- ===== src/DataHelp/Table.antt =====
-- The parser of text tables, function by function. `raised` is a Python exception.
use cassandra_dtest.Base.{
  ℕ, zero, suc, Bool, true, false, ◌&&◌, List, [], ◌∷◌, Option, none, some, map, if◌then◌else◌,
  ◌==◌, all, not, length,
}
use cassandra_dtest.Text.{
  Text, text, text_eq, starts_with, ends_with, is_space, is_digit, strip_by, split, join,
}
use cassandra_dtest.Text.Decimal.{value_from}
use mathlib.Core.List.{zip}

abbrev pub pipe : ℕ
pipe = 124

abbrev pub newline : ℕ
newline = 10

abbrev pub is_pipe : ℕ → Bool
is_pipe c = c == 124

-- `s.strip()`
abbrev pub trim : Text → Text
trim s = strip_by is_space s

-- `strip`: spaces and then pipes, from both ends.
unfoldable pub strip : Text → Text
unfolding strip_by
strip val = strip_by is_pipe (trim val)

-- `[l.strip() for l in row.split('|')]`
unfoldable pub cells : Text → List Text
unfolding split strip_by
cells row = map (λ l. trim l) (split pipe row)

-- `filter(None, rows)`
unfoldable pub non_empty : List Text → List Text
non_empty [] = []
non_empty ([] ∷ rows) = non_empty rows
non_empty ((c ∷ cs) ∷ rows) = (c ∷ cs) ∷ non_empty rows

-- `rows.pop(0).split('|')`, whose `unicode()` of each header is the identity on ASCII text;
-- `none` is the `IndexError` of `pop` on no row.
abbrev pub headers_of : List Text → Option (List Text)
headers_of [] = none
headers_of (row ∷ rows) = some (cells row)

-- `parse_headers_into_list`
unfoldable pub parse_headers_into_list : Text → Option (List Text)
parse_headers_into_list s = headers_of (non_empty (map (λ l. strip l) (split newline s)))

-- `re.findall('\*(\d+)$', cell)`: the digits at the end, behind a star. The longest run is meant,
-- since the star is no digit.
unfoldable pub star_digits : Text → Option Text
star_digits [] = none
star_digits (c ∷ cs) = elim (star_digits cs) [
  | some ds ↦ some ds
  | none ↦ elim cs [
    | [] ↦ none
    | d ∷ ds ↦ if c == 42 && all is_digit (d ∷ ds) then some (d ∷ ds) else none
  ]
]

abbrev pub first_cell : List Text → Text
first_cell [] = []
first_cell (c ∷ cs) = c

abbrev pub rest_cells : List Text → List Text
rest_cells [] = []
rest_cells (c ∷ cs) = cs

-- `int(m[0])` of the digits that were found, or `None`.
abbrev pub value_of : Option Text → Option ℕ
value_of none = none
value_of (some ds) = some (value_from 0 ds)

-- `get_row_multiplier`
unfoldable pub get_row_multiplier : Text → Option ℕ
get_row_multiplier row = value_of (star_digits (first_cell (cells row)))

-- `row_has_multiplier`
unfoldable pub row_has_multiplier : Text → Bool
unfolding get_row_multiplier
row_has_multiplier row = elim (get_row_multiplier row) [ none ↦ false | some n ↦ true ]

-- A dictionary in the order of first insertion.
abbrev pub Dict : Type 0 → Type 0
Dict V = List (Text × V)

module _ {V : Type 0} where
  unfoldable pub lookup : Text → Dict V → Option V
  lookup k [] = none
  lookup k ((j, v) ∷ d) = if text_eq j k then some v else lookup k d

  unfoldable pub insert : Text → V → Dict V → Dict V
  insert k v [] = (k, v) ∷ []
  insert k v ((j, w) ∷ d) = if text_eq j k then (j, v) ∷ d else (j, w) ∷ insert k v d

  -- `dict(pairs)` onto a dictionary: a later pair takes the place of an earlier one.
  unfoldable pub dict_onto : Dict V → List (Text × V) → Dict V
  unfolding insert
  dict_onto d [] = d
  dict_onto d ((k, v) ∷ ps) = dict_onto (insert k v d) ps

-- What `parse_row_into_dict` returns: a dictionary, or the list of a row with a multiplier. The
-- rest of such a row may have a multiplier in turn, and then the list holds lists.
mutual
  pub data Parsed (V : Type 0) : Type 0 where
    one : Dict V → Parsed V
    many : ParsedRows V → Parsed V

  pub data ParsedRows (V : Type 0) : Type 0 where
    nil : ParsedRows V
    cons : Parsed V → ParsedRows V → ParsedRows V

module _ {V : Type 0} where
  -- `for i in range(n): multirows.append(row)`
  unfoldable pub copies : ℕ → Parsed V → ParsedRows V
  copies zero p = nil
  copies (suc n) p = cons p (copies n p)

  abbrev pub many_copies : ℕ → Option (Parsed V) → Option (Parsed V)
  many_copies n none = none
  many_copies n (some p) = some (many (copies n p))

-- `format_funcs`: a function for some of the columns, into the values of the driver.
module _ {V : Type 0} (plain : Text → V) (format_funcs : Text → Option (Text → V)) where
  unfoldable pub format_value : Text × Text → Text × V
  format_value (k, s) = elim (format_funcs k) [ none ↦ (k, plain s) | some f ↦ (k, f s) ]

  -- `dict(zip(headers, row_cells))`, each value formatted.
  unfoldable pub row_map : List Text → List Text → Dict V
  unfolding format_value dict_onto
  row_map headers row_cells = map format_value (dict_onto [] (zip headers row_cells))

  -- `parse_row_into_dict`; the fuel bounds how many multipliers stand in front of one another.
  unfoldable pub parse_row_fuel : ℕ → Text → List Text → Option (Parsed V)
  parse_row_fuel zero row headers = none
  parse_row_fuel (suc fuel) row headers = elim (get_row_multiplier row) [
    | none ↦ some (one (row_map headers (cells row)))
    | some n ↦
        many_copies n (parse_row_fuel fuel (join (pipe ∷ []) (rest_cells (cells row))) headers)
  ]

  -- Every multiplier takes a star and a digit of the row.
  unfoldable pub parse_row_into_dict : Text → List Text → Option (Parsed V)
  unfolding parse_row_fuel
  parse_row_into_dict row headers = parse_row_fuel (suc (length row)) row headers

-- `row_describes_data`
unfoldable pub row_describes_data : Text → Bool
unfolding starts_with ends_with
row_describes_data [] = false
row_describes_data (c ∷ cs) = not (starts_with (c ∷ cs) (text "+") && ends_with (c ∷ cs) (text "+"))

unfoldable pub data_rows : List Text → List Text
unfolding row_describes_data
data_rows [] = []
data_rows (r ∷ rs) = let rest = data_rows rs in if row_describes_data r then r ∷ rest else rest

module _ {V : Type 0} where
  -- `values.extend(rows)`
  unfoldable pub extend : ParsedRows V → List (Parsed V) → List (Parsed V)
  extend nil values = values
  extend (cons p ps) values = p ∷ extend ps values

  -- `extend` for a list, `append` for a dictionary, in front of what the later rows give.
  abbrev pub add_parsed : Option (Parsed V) → Option (List (Parsed V)) → Option (List (Parsed V))
  add_parsed none values = none
  add_parsed (some p) none = none
  add_parsed (some (one d)) (some values) = some (one d ∷ values)
  add_parsed (some (many ps)) (some values) = some (extend ps values)

module _ {V : Type 0} (plain : Text → V) (format_funcs : Text → Option (Text → V)) where
  unfoldable pub parse_rows : List Text → List Text → Option (List (Parsed V))
  parse_rows headers [] = some []
  parse_rows headers (r ∷ rs) =
      add_parsed (parse_row_into_dict plain format_funcs r headers) (parse_rows headers rs)

  abbrev pub parse_under : Option (List Text) → List Text → Option (List (Parsed V))
  parse_under none rows = none
  parse_under (some headers) rows = parse_rows headers rows

  -- The headers are taken off the rows that describe data; `none` is the `IndexError` on no row.
  abbrev pub parse_described : List Text → Option (List (Parsed V))
  parse_described [] = none
  parse_described (header ∷ rows) = parse_under (parse_headers_into_list header) rows

  -- `parse_data_into_dicts`
  unfoldable pub parse_data_into_dicts : Text → Option (List (Parsed V))
  parse_data_into_dicts s = parse_described (data_rows (map (λ l. strip l) (split newline s)))
