-- ===== src/Cqlsh.antt =====
-- cqlsh_tests/cqlsh_tools.py: the helpers of the cqlsh tests. The csv module, `time.strptime` with
-- `strftime`, the random numbers and the driver's classes are parameters.
use cassandra_dtest.Base.{
  ℕ, ◌≡◌, refl, Bool, true, List, [], ◌∷◌, Option, none, some, map, take, length, range, ap, ◌∙◌,
  take-all,
}
use cassandra_dtest.Text.{Text}

-- `DummyColorMap.__getitem__`
unfoldable pub dummy_color : {A : Type 0} → A → Text
dummy_color args = []

-- `csv_rows`: the rows of the reader, with the delimiter among its options only if one is given; the
-- file is by what `open` reads.
unfoldable pub csv_rows :
    {F : Type 0} → (Option ℕ → F → List (List Text)) → F → Option ℕ → List (List Text)
csv_rows reader file none = reader none file
csv_rows reader file (some delimiter) = reader (some delimiter) file

-- `write_rows_to_csv`: the file is emptied, and `writerow` adds to it.
unfoldable pub write_rows : {F : Type 0} → (List Text → F → F) → List (List Text) → F → F
write_rows writerow [] file = file
write_rows writerow (row ∷ rows) file = write_rows writerow rows (writerow row file)

unfoldable pub write_rows_to_csv : {F : Type 0} → (List Text → F → F) → F → List (List Text) → F
unfolding write_rows
write_rows_to_csv writerow emptied rows = write_rows writerow rows emptied

-- `strip_timezone_if_time_string`: `parse` is `strptime` with the format and the making of the date, with
-- `none` for a `ValueError`, and `print` is `strftime` with the same format, for the dates that it takes.
unfoldable pub strip_timezone_if_time_string :
    {Time : Type 0} → (Text → Option Time) → (Time → Text) → Text → Text
strip_timezone_if_time_string parse print s = elim (parse (take 19 s)) [
  | none ↦ s
  | some t ↦ print t
]

-- `assert_csvs_items_equal`: unittest's `assert_items_equal` is a parameter, on the lines of the two
-- files that `readlines` gives.
unfoldable pub assert_csvs_items_equal :
    {F O : Type 0} → (F → List Text) → (List Text → List Text → O) → F → F → O
assert_csvs_items_equal readlines assert_items_equal filename1 filename2 =
    assert_items_equal (readlines filename1) (readlines filename2)

-- `random_list`: the number of elements is the one given, or a random one; each element is a call of
-- the generator, whose results are numbered.
unfoldable pub random_list : {A : Type 0} → (ℕ → A) → ℕ → Option ℕ → List A
random_list gen random_length none = map gen (range random_length)
random_list gen random_length (some n) = map gen (range n)

-- The driver's two attributes that cqlsh changes.
pub record Driver (F : Type 0) : Type 0 where
  pub deserialize : F
  pub support_empty_values : Bool

-- `monkeypatch_driver`: the cache, and the driver after it; `to_bytearray` is the lambda.
unfoldable pub monkeypatch_driver : {F : Type 0} → F → Driver F → Driver F × Driver F
monkeypatch_driver to_bytearray d = (
  record { deserialize = d.deserialize; support_empty_values = d.support_empty_values },
  record { deserialize = to_bytearray; support_empty_values = true },
)

-- `unmonkeypatch_driver`
unfoldable pub unmonkeypatch_driver : {F : Type 0} → Driver F → Driver F → Driver F
unmonkeypatch_driver cache d = record {
  deserialize = cache.deserialize;
  support_empty_values = cache.support_empty_values;
}

-- Undoing the patch restores the driver, whatever happened to the two attributes in between.
pub unmonkeypatch_driver-monkeypatch_driver :
    {F : Type 0} (to_bytearray : F) (d d' : Driver F)
    → unmonkeypatch_driver (monkeypatch_driver to_bytearray d).0 d' ≡ d
unfolding unmonkeypatch_driver monkeypatch_driver
unmonkeypatch_driver-monkeypatch_driver to_bytearray d d' = refl

-- A time with a time zone behind it is left without it, a time without one is left as it is, and so is
-- a text that is no time. `print` gives 19 characters, which `parse` reads back.
pub strip_timezone_again :
    (Time : Type 0) (parse : Text → Option Time) (print : Time → Text) (s : Text)
    → ((t : Time) → length (print t) ≡ 19)
    → ((t : Time) → parse (print t) ≡ some t)
    → strip_timezone_if_time_string parse print (strip_timezone_if_time_string parse print s)
      ≡ strip_timezone_if_time_string parse print s
unfolding strip_timezone_if_time_string
strip_timezone_again Time parse print s l r = go (parse (take 19 s)) refl
  where
    kept : Text → Option Time → Text
    kept u o = elim o [ none ↦ u | some t ↦ print t ]

    go :
        (o : Option Time)
        → parse (take 19 s) ≡ o
        → strip_timezone_if_time_string parse print (kept s o) ≡ kept s o
    go none e = ap (kept s) e
    go (some t) e =
        ap (λ u. kept (print t) (parse u)) (take-all 19 (print t) (l t)) ∙ ap (kept (print t)) (r t)
