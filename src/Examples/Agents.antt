-- ===== src/Examples/Agents.antt =====
-- The name of an mbean with two properties.
use cassandra_dtest.Base.{◌≡◌, refl, [], ◌∷◌, ◌++◌, some}
use cassandra_dtest.Text.{text, split}
use cassandra_dtest.Jmx.{make_mbean, read_mbean, read_mbean-make_mbean}

-- The second value holds a `=`.
read_mbean-make_mbean_example :
    read_mbean (
      split 44
        (make_mbean (text "db") (text "CF") ((text "k", text "v") ∷ (text "n", text "a=b") ∷ [])))
    ≡ some (
      text "org.apache.cassandra." ++ (text "db" ++ (text ":type=" ++ text "CF")),
      (text "k", text "v") ∷ (text "n", text "a=b") ∷ [],
    )
read_mbean-make_mbean_example =
    read_mbean-make_mbean (text "db") (text "CF")
      ((text "k", text "v") ∷ (text "n", text "a=b") ∷ []) (refl, (refl, tt)) (refl, (refl, tt))
      (
        (((refl, tt), (refl, tt)), (refl, tt)),
        ((((refl, tt), (refl, (refl, (refl, tt)))), (refl, tt)), tt),
      )
