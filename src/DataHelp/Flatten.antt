-- ===== src/DataHelp/Flatten.antt =====
-- `flatten` and `flatten_into_set` of datahelp.py. How a value is formatted is a parameter.
use cassandra_dtest.Base.{
  ◌≡◌, refl, Bool, List, [], ◌∷◌, ◌++◌, Option, none, some, any, map, ap₂, fun_ext,
}
use cassandra_dtest.Text.{Text, text, text_eq, join}
use cassandra_dtest.Order.{cmp_list, cmp_nat, cmp_list-IsLinear, cmp_nat-IsLinear}
use cassandra_dtest.Order.Sorting.{sorted, sorted-Permᴰ}
use cassandra_dtest.DataHelp.Table.{Dict, lookup}
use mathlib.Core.List.{Permᴰ}

module _ {V : Type 0} (show : V → Text) where
  abbrev pub keys : Dict V → List Text
  keys d = map (λ p. p.0) d

  -- `sorted(_dict)`
  unfoldable pub sorted_keys : Dict V → List Text
  sorted_keys d = sorted (cmp_list cmp_nat) (keys d)

  -- `'{}__{}'.format(k, _dict[k])`
  abbrev pub item : Text → Option V → Text
  item k none = k ++ text "__"
  item k (some v) = k ++ (text "__" ++ show v)

  -- The items of a dictionary, joined; the keys are its own, so each is found.
  unfoldable pub flatten_dict : Dict V → Text
  unfolding sorted_keys lookup join
  flatten_dict d = join (text "__") (map (λ k. item k (lookup k d)) (sorted_keys d))

  -- `flatten`
  unfoldable pub flatten : List (Dict V) → List Text
  unfolding flatten_dict
  flatten [] = []
  flatten (d ∷ list_of_dicts) = flatten_dict d ∷ flatten list_of_dicts

  -- `flatten_into_set`, by what is in the set.
  unfoldable pub flatten_into_set : List (Dict V) → Text → Bool
  unfolding flatten text_eq
  flatten_into_set iterable t = any (text_eq t) (flatten iterable)

  -- Two dictionaries with the same keys, each with the same value, in whatever order.
  abbrev pub SameDict : Dict V → Dict V → Type 0
  SameDict d e = Permᴰ (keys d) (keys e) × ((k : Text) → lookup k d ≡ lookup k e)

  abbrev pub SameDicts : List (Dict V) → List (Dict V) → Type 0
  SameDicts [] [] = Unit
  SameDicts [] (e ∷ es) = ⊥
  SameDicts (d ∷ ds) [] = ⊥
  SameDicts (d ∷ ds) (e ∷ es) = SameDict d e × SameDicts ds es

  flatten_dict-same : (d e : Dict V) → SameDict d e → flatten_dict d ≡ flatten_dict e
  unfolding flatten_dict sorted_keys
  flatten_dict-same d e h =
      ap₂ (λ ks f. join (text "__") (map (λ k. item k (f k)) ks))
        (sorted-Permᴰ (cmp_list-IsLinear cmp_nat-IsLinear) (keys d) (keys e) h.0) (fun_ext h.1)

  -- The strings of `flatten` do not depend on the order in which the dictionaries hold their keys, so
  -- that rows which were read back can be compared with those that were written.
  pub flatten-same : (ds es : List (Dict V)) → SameDicts ds es → flatten ds ≡ flatten es
  unfolding flatten
  flatten-same [] [] h = refl
  flatten-same [] (e ∷ es) h = absurd h
  flatten-same (d ∷ ds) [] h = absurd h
  flatten-same (d ∷ ds) (e ∷ es) h =
      ap₂ (λ s ss. s ∷ ss) (flatten_dict-same d e h.0) (flatten-same ds es h.1)
