-- ===== src/Examples/Statements.antt =====
-- A table that keeps the keys that were inserted, a key tool that makes one file, and dictionaries in two
-- orders.
use cassandra_dtest.Base.{
  ℕ, ◌≡◌, ◌≢◌, ◌||◌, refl, Bool, true, false, List, [], ◌∷◌, ◌++◌, none, some, returned, any,
  if◌then◌else◌, ap, subst, Bool-cases, inl, inr,
}
use cassandra_dtest.Text.{Text, text, text_eq}
use cassandra_dtest.Text.Laws.{text_eq→eq, text_eq_refl}
use cassandra_dtest.Consistency.{quorum}
use cassandra_dtest.Tools.C1C2.{
  Table, IsReadable, select_statement, key_of, insert_c1c2, inserted_keys, execute_all, query_c1c2,
  query_c1c2_after,
}
use cassandra_dtest.Tools.SslStores.{
  Keytool, IsKeytool, in_dir, exists, generate_ssl_stores, generate_ssl_stores_again,
}
use cassandra_dtest.DataHelp.Table.{Dict, lookup}
use cassandra_dtest.DataHelp.Flatten.{flatten, flatten-same}
use mathlib.Core.List.{Permᴰ, append_cancel_left, append_cancel_right}

-- The state is the queries that find a row.
abbrev one_row : Table
one_row = record {
  State = List Text;
  insert = λ statement level k s. select_statement k ∷ s;
  select = λ statement level s.
      if any (text_eq statement) s then (text "value1" ∷ text "value2" ∷ []) ∷ [] else [];
}

abbrev rows_if : Bool → List (List Text)
rows_if b = if b then (text "value1" ∷ text "value2" ∷ []) ∷ [] else []

select_statement_injective : (k j : Text) → select_statement k ≡ select_statement j → k ≡ j
select_statement_injective k j h = append_cancel_right k j (text "'") (
    append_cancel_left (text "SELECT c1, c2 FROM cf WHERE key='") (k ++ text "'") (j ++ text "'") h)

other_statement : (k j : Text) → k ≢ j → text_eq (select_statement k) (select_statement j) ≡ false
other_statement k j h = elim (Bool-cases (text_eq (select_statement k) (select_statement j))) [
  | inl e ↦ absurd (h (select_statement_injective k j (text_eq→eq _ _ e)))
  | inr e ↦ e
]

one_row-IsReadable : IsReadable one_row
one_row-IsReadable = record {
  found = λ k s.
      ap (λ b. rows_if (b || any (text_eq (select_statement k)) s))
        (text_eq_refl (select_statement k));
  other = λ k j s h.
      ap (λ b. rows_if (b || any (text_eq (select_statement k)) s)) (other_statement k j h);
}

abbrev three_keys : List Text
three_keys =
    select_statement (key_of 2) ∷ select_statement (key_of 1) ∷ select_statement (key_of 0) ∷ []

inserted : insert_c1c2 one_row none (some 3) quorum [] ≡ returned three_keys
unfolding insert_c1c2 inserted_keys execute_all
inserted = refl

query_c1c2_after_example : query_c1c2 one_row 1 quorum false false three_keys ≡ returned tt
query_c1c2_after_example =
    query_c1c2_after one_row one_row-IsReadable 3 1 false false [] three_keys inserted

-- A key tool that makes the store and then fails.
abbrev made_once : Text → Keytool
made_once path args files = (true, path ∷ files)

abbrev store : Text
store = in_dir (text "ssl") (text "keystore.jks")

made_once-IsKeytool : IsKeytool (made_once store) store (text "ssl") (text "cassandra")
unfolding exists
made_once-IsKeytool = record { kept = λ args files h. refl; made = λ files e h. refl }

generate_ssl_stores_again_example :
    generate_ssl_stores
      (made_once store)
      (text "ssl")
      (text "cassandra")
      (generate_ssl_stores (made_once store) (text "ssl") (text "cassandra") []).1
    ≡ (returned tt, (generate_ssl_stores (made_once store) (text "ssl") (text "cassandra") []).1)
generate_ssl_stores_again_example =
    generate_ssl_stores_again (made_once store) (text "ssl") (text "cassandra") []
      made_once-IsKeytool (inr refl)

abbrev digits_of : ℕ → Text
digits_of n = n ∷ []

abbrev key_then_value : Dict ℕ
key_then_value = (text "k", 49) ∷ (text "v", 50) ∷ []

abbrev value_then_key : Dict ℕ
value_then_key = (text "v", 50) ∷ (text "k", 49) ∷ []

same_lookup : (k : Text) → lookup k key_then_value ≡ lookup k value_then_key
unfolding lookup text_eq
same_lookup k = elim (Bool-cases (text_eq (text "k") k)) [
  | inl here ↦
      subst (λ j. lookup j key_then_value ≡ lookup j value_then_key) (text_eq→eq (text "k") k here)
        refl
  | inr there ↦ rw there refl
]

flatten-same_example :
    flatten digits_of (key_then_value ∷ []) ≡ flatten digits_of (value_then_key ∷ [])
flatten-same_example =
    flatten-same digits_of (key_then_value ∷ []) (value_then_key ∷ [])
      ((Permᴰ.swap refl refl, same_lookup), tt)
