-- ===== src/DataHelp/Rows.antt =====
-- `create_rows` of datahelp.py: one prepared statement for all rows, with the columns of the first. The
-- order in which a dictionary lists its keys and values is a parameter.
use cassandra_dtest.Base.{
  ◌≡◌, subst, refl, List, [], ◌∷◌, ◌++◌, Option, none, some, Outcome, returned, raised, All, map,
  ap, ap₂, ◌∙◌, sym, raised-ne-returned, returned_injective,
}
use cassandra_dtest.Text.{Text, text, join}
use cassandra_dtest.Consistency.{Level}
use cassandra_dtest.DataHelp.Table.{Dict, Parsed, one, many, parse_data_into_dicts}
use mathlib.Core.List.{zip}

-- What goes wrong before anything is sent: `parse_data_into_dicts`, the `IndexError` of `dicts[0]`, and
-- the `AttributeError` of a list in place of a dictionary.
pub data RowsError : Type 0 where
  not_parsed no_rows no_dictionary : RowsError

-- What `create_rows` prepares and binds, and what it returns.
pub record Created (V : Type 0) : Type 0 where
  pub statement : Text
  pub consistency_level : Option Level
  pub args : List (List V)
  pub values : List (Dict V)

-- `"{prefix} INSERT INTO {table} ({cols}) values ({vals}) {postfix}"`
unfoldable pub insert_into_statement : Text → Text → Text → List Text → Text
unfolding join
insert_into_statement prefix table_name postfix columns =
    prefix
    ++ (text " INSERT INTO "
        ++ (table_name
            ++ (text " ("
                ++ (join (text ", ") columns
                    ++ (text ") values ("
                        ++ (join (text ", ") (map (λ k. text "?") columns)
                            ++ (text ") " ++ postfix)))))))

module _ {V : Type 0} (order : Dict V → Dict V) where
  -- `d.keys()` and `d.values()`
  abbrev pub keys_of : Dict V → List Text
  keys_of d = map (λ p. p.0) (order d)

  abbrev pub values_of : Dict V → List V
  values_of d = map (λ p. p.1) (order d)

  -- The dictionaries, if all are.
  unfoldable pub dictionaries : List (Parsed V) → Option (List (Dict V))
  dictionaries [] = some []
  dictionaries (one d ∷ ps) = elim (dictionaries ps) [ none ↦ none | some ds ↦ some (d ∷ ds) ]
  dictionaries (many rows ∷ ps) = none

  -- From the dictionaries on; there is a result for each row, so each is returned.
  unfoldable pub create_from :
      Text → Text → Text → Option Level → Option (List (Dict V)) → Outcome RowsError (Created V)
  unfolding insert_into_statement
  create_from prefix table_name postfix cl none = raised no_dictionary
  create_from prefix table_name postfix cl (some []) = raised no_rows
  create_from prefix table_name postfix cl (some (d ∷ ds)) = returned (record {
    statement = insert_into_statement prefix table_name postfix (keys_of d);
    consistency_level = cl;
    args = map values_of (d ∷ ds);
    values = d ∷ ds;
  })

  -- `create_rows`
  unfoldable pub create_rows :
      (Text → V)
      → (Text → Option (Text → V))
      → Text
      → Text
      → Text
      → Option Level
      → Text
      → Outcome RowsError (Created V)
  unfolding parse_data_into_dicts dictionaries create_from
  create_rows plain format_funcs prefix table_name postfix cl data' =
      elim (parse_data_into_dicts plain format_funcs data') [
        | none ↦ raised not_parsed
        | some ps ↦ create_from prefix table_name postfix cl (dictionaries ps)
      ]

  zip_pairs : (ps : Dict V) → zip (map (λ p. p.0) ps) (map (λ p. p.1) ps) ≡ ps
  unfolding zip
  zip_pairs [] = refl
  zip_pairs (p ∷ ps) = ap (λ qs. p ∷ qs) (zip_pairs ps)

  -- Rows whose keys come in the order of the first row's.
  abbrev pub SameColumns : List Text → List (Dict V) → Type 0
  SameColumns columns ds = All (λ d. keys_of d ≡ columns) ds

  bound :
      (columns : List Text) (ds : List (Dict V))
      → SameColumns columns ds
      → map (zip columns) (map values_of ds) ≡ map order ds
  bound columns [] h = refl
  bound columns (d ∷ ds) h =
      ap₂ (λ r rs. r ∷ rs) (ap (λ ks. zip ks (values_of d)) (sym h.0) ∙ zip_pairs (order d))
        (bound columns ds h.1)

  -- What was created binds every value to its own column.
  abbrev Bound : Text → Text → Text → Option Level → Created V → Type 0
  Bound prefix table_name postfix cl c =
      (d : Dict V) (ds : List (Dict V))
      → c.values ≡ d ∷ ds
      → SameColumns (keys_of d) (d ∷ ds)
      → (c.statement ≡ insert_into_statement prefix table_name postfix (keys_of d))
        × (map (zip (keys_of d)) c.args ≡ map order c.values)
        × (c.consistency_level ≡ cl)

  create_from-Bound :
      (prefix table_name postfix : Text) (cl : Option Level) (o : Option (List (Dict V)))
      (c : Created V)
      → create_from prefix table_name postfix cl o ≡ returned c
      → Bound prefix table_name postfix cl c
  unfolding create_from
  create_from-Bound prefix table_name postfix cl none c h = absurd (raised-ne-returned h)
  create_from-Bound prefix table_name postfix cl (some []) c h = absurd (raised-ne-returned h)
  create_from-Bound prefix table_name postfix cl (some (d ∷ ds)) c h =
      subst (Bound prefix table_name postfix cl) (returned_injective h) (λ e es q k.
        let heads : d ≡ e = cc in
        (
          ap (λ x. insert_into_statement prefix table_name postfix (keys_of x)) heads,
          bound (keys_of e) (d ∷ ds) (subst (λ l. SameColumns (keys_of e) l) (sym q) k),
          refl,
        ))

  -- When `create_rows` returns and the rows have the columns of the first in the same order, the
  -- statement names those columns, the values that are bound for each row are the row's own under each
  -- of them, and the level is the one that was given.
  pub create_rows-Bound :
      (plain : Text → V) (format_funcs : Text → Option (Text → V))
      (prefix table_name postfix : Text) (cl : Option Level) (table : Text) (c : Created V)
      (d : Dict V) (ds : List (Dict V))
      → create_rows plain format_funcs prefix table_name postfix cl table ≡ returned c
      → c.values ≡ d ∷ ds
      → SameColumns (keys_of d) (d ∷ ds)
      → (c.statement ≡ insert_into_statement prefix table_name postfix (keys_of d))
        × (map (zip (keys_of d)) c.args ≡ map order c.values)
        × (c.consistency_level ≡ cl)
  unfolding create_rows
  create_rows-Bound plain format_funcs prefix table_name postfix cl table c d ds h =
      go (parse_data_into_dicts plain format_funcs table) h d ds
    where
      created : Option (List (Parsed V)) → Outcome RowsError (Created V)
      created o = elim o [
        | none ↦ raised not_parsed
        | some ps ↦ create_from prefix table_name postfix cl (dictionaries ps)
      ]

      go :
          (o : Option (List (Parsed V)))
          → created o ≡ returned c
          → Bound prefix table_name postfix cl c
      go none k = absurd (raised-ne-returned k)
      go (some ps) k = create_from-Bound prefix table_name postfix cl (dictionaries ps) c k
