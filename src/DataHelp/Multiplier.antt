-- ===== src/DataHelp/Multiplier.antt =====
-- Rows that stand for several: the multiplier cell, what is parsed behind it, and why the fuel of
-- `parse_row_into_dict` is enough.
use cassandra_dtest.Base.{
  ℕ, zero, suc, ◌≤◌, ◌<◌, ◌≡◌, ◌≢◌, refl, true, List, [], ◌∷◌, Option, none, some, arith, ap, All,
  length, map, all, ◌∙◌, sym, Option-cases, inl, inr,
}
use cassandra_dtest.Text.{Text, is_space, is_digit, strip_by, split, join}
use cassandra_dtest.Text.Laws.{Free, split-join}
use cassandra_dtest.Text.Decimal.{
  digit-Free, str, value_from, str-digits, str-ne-nil, value_from-str,
}
use cassandra_dtest.Text.Strip.{
  strip_by_padded, length-strip_by, joined, length-join, joined-split, Free-ends,
}
use cassandra_dtest.DataHelp.Table.{
  pipe, is_pipe, trim, cells, star_digits, first_cell, rest_cells, value_of, get_row_multiplier,
  Parsed, one, many, copies, row_map, parse_row_fuel, parse_row_into_dict,
}
use cassandra_dtest.DataHelp.Cells.{breaks, IsCell, Padded, contents, body, Cells, cells-body}
use mathlib.Core.List.{append-nil}

abbrev Digits : Text → Type 0
Digits ds = all is_digit ds ≡ true

star_digits-none : (ds : Text) → Digits ds → star_digits ds ≡ none
unfolding star_digits
star_digits-none [] d = refl
star_digits-none (x ∷ []) d = refl
star_digits-none (x ∷ y ∷ ds) d = rw (star_digits-none (y ∷ ds) (ground arith)) (ground arith)

star_digits_star : (ds : Text) → ds ≢ [] → Digits ds → star_digits (42 ∷ ds) ≡ some ds
unfolding star_digits
star_digits_star [] h d = absurd (h refl)
star_digits_star (x ∷ ds) h d = rw (star_digits-none (x ∷ ds) d) (rw d)

-- The text of a multiplier, a star and a number, is a cell.
abbrev pub star_cell : ℕ → Text
star_cell n = 42 ∷ str n

pub star_cell-IsCell : (n : ℕ) → IsCell (star_cell n)
star_cell-IsCell n = record {
  starts = refl;
  ends =
      Free-ends is_space (star_cell n) (λ e. cc)
        (refl, digit-Free is_space (λ x h. ground arith) (str n) (str-digits n));
  no_pipe = (refl, digit-Free is_pipe (λ x h. ground arith) (str n) (str-digits n));
  no_break = (refl, digit-Free breaks (λ x h. ground arith) (str n) (str-digits n));
}

pub get_row_multiplier-body :
    (c : Padded) (cs : List Padded)
    → Cells (c ∷ cs)
    → star_digits c.content ≡ none
    → get_row_multiplier (body (c ∷ cs)) ≡ none
unfolding get_row_multiplier
get_row_multiplier-body c cs h e =
    ap (λ k. value_of (star_digits (first_cell k))) (cells-body c cs h) ∙ ap value_of e

pub get_row_multiplier-star :
    (before after n : ℕ) (cs : List Padded)
    → Cells cs
    → get_row_multiplier
        (body (record { before = before; content = star_cell n; after = after } ∷ cs))
      ≡ some n
unfolding get_row_multiplier value_from
get_row_multiplier-star before after n cs h =
    ap (λ k. value_of (star_digits (first_cell k)))
      (cells-body (record { before = before; content = star_cell n; after = after }) cs
        (star_cell-IsCell n, h))
    ∙ ap value_of (star_digits_star (str n) (str-ne-nil n) (str-digits n))
    ∙ ap some (value_from-str n)

-- The rest of a row, joined again, has the same cells.
contents-no_pipe : (cs : List Padded) → Cells cs → All (Free is_pipe) (contents cs)
contents-no_pipe [] h = tt
contents-no_pipe (c ∷ cs) h = (h.0.no_pipe, contents-no_pipe cs h.1)

trim_cell : (s : Text) → IsCell s → trim s ≡ s
trim_cell s h =
    ap (strip_by is_space) (sym (append-nil s))
    ∙ strip_by_padded is_space [] s [] tt h.starts h.ends tt

trim-contents : (cs : List Padded) → Cells cs → map (λ l. trim l) (contents cs) ≡ contents cs
trim-contents [] h = refl
trim-contents (c ∷ cs) h = rw (trim_cell c.content h.0, trim-contents cs h.1)

pub cells-join :
    (c : Padded) (cs : List Padded)
    → Cells (c ∷ cs)
    → cells (join (pipe ∷ []) (contents (c ∷ cs))) ≡ contents (c ∷ cs)
unfolding cells
cells-join c cs h =
    ap (map (λ l. trim l)) (split-join pipe c.content (contents cs) (contents-no_pipe (c ∷ cs) h))
    ∙ trim-contents (c ∷ cs) h

pub get_row_multiplier-join :
    (c : Padded) (cs : List Padded)
    → Cells (c ∷ cs)
    → star_digits c.content ≡ none
    → get_row_multiplier (join (pipe ∷ []) (contents (c ∷ cs))) ≡ none
unfolding get_row_multiplier
get_row_multiplier-join c cs h e =
    ap (λ k. value_of (star_digits (first_cell k))) (cells-join c cs h) ∙ ap value_of e

-- Enough fuel.
joined_mono : (ps : List Text) → joined (map (λ l. trim l) ps) ≤ joined ps
joined_mono [] = omega arith
joined_mono (p ∷ []) = length-strip_by is_space p
joined_mono (p ∷ q ∷ ps) = omega (arith, length-strip_by is_space p, joined_mono (q ∷ ps))

joined_rest : (qs : List Text) → first_cell qs ≢ [] → joined (rest_cells qs) < joined qs
joined_rest [] h = absurd (h refl)
joined_rest ([] ∷ qs) h = absurd (h refl)
joined_rest ((x ∷ q) ∷ []) h = omega arith
joined_rest ((x ∷ q) ∷ r ∷ qs) h = omega arith

star_of_nil : (s : Text) {ds : Text} → star_digits s ≡ some ds → s ≢ []
unfolding star_digits
star_of_nil [] h = cc
star_of_nil (x ∷ s) h = λ e. cc

shorter :
    (row ds : Text)
    → star_digits (first_cell (cells row)) ≡ some ds
    → length (join (pipe ∷ []) (rest_cells (cells row))) < length row
unfolding cells
shorter row ds h = omega (
  arith,
  length-join pipe (rest_cells (map (λ l. trim l) (split pipe row))),
  joined_rest (map (λ l. trim l) (split pipe row)) (star_of_nil _ h),
  joined_mono (split pipe row),
  joined-split pipe row,
)

multiplier_digits :
    (row : Text) {n : ℕ}
    → get_row_multiplier row ≡ some n
    → (ds : Text) × (star_digits (first_cell (cells row)) ≡ some ds)
unfolding get_row_multiplier
multiplier_digits row e = elim (Option-cases (star_digits (first_cell (cells row)))) [
  | inl plain_row ↦ absurd (ground arith)
  | inr (ds, q) ↦ (ds, q)
]

module _ {V : Type 0} (plain : Text → V) (format_funcs : Text → Option (Text → V)) where
  fuel_is_enough :
      (fuel : ℕ) (row : Text) (headers : List Text)
      → length row < fuel
      → (p : Parsed V) × (parse_row_fuel plain format_funcs fuel row headers ≡ some p)
  unfolding parse_row_fuel
  fuel_is_enough zero row headers h = elim h [ ]
  fuel_is_enough (suc fuel) row headers h = elim (Option-cases (get_row_multiplier row)) [
    | inl plain_row ↦
        (one (row_map plain format_funcs headers (cells row)), rw (plain_row, parse_row_fuel) refl)
    | inr (n, e) ↦
        let (ds, d) = multiplier_digits row e in
        let (p, q) =
          fuel_is_enough fuel (join (pipe ∷ []) (rest_cells (cells row))) headers
            (omega (arith, shorter row ds d)) in
        (many (copies n p), rw (e, parse_row_fuel) (rw q))
  ]

  -- `parse_row_into_dict` ends on every row, however many multipliers stand in front of one another.
  pub parse_row_into_dict-total :
      (row : Text) (headers : List Text)
      → (p : Parsed V) × (parse_row_into_dict plain format_funcs row headers ≡ some p)
  unfolding parse_row_into_dict
  parse_row_into_dict-total row headers =
      fuel_is_enough (suc (length row)) row headers (omega arith)
