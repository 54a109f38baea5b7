-- ===== src/Examples/Tokens.antt =====
-- Output of the token generator for one data centre of two nodes.
use cassandra_dtest.Base.{
  All, ◌≡◌, ◌↔◌, refl, true, [], ◌∷◌, none, returned, length, map, pos, negsuc,
}
use cassandra_dtest.Text.{Text, text, join}
use cassandra_dtest.TokenGenerator.{call_token_generator, check_combination, multi_dc_tokens}
use cassandra_dtest.TokenGenerator.Output.{
  DcOutput, IsOutput, output_lines, call_token_generator-output_lines,
}
use cassandra_dtest.TokenGenerator.Checks.{InRange, Distinct, in_order, check_combination_iff}
use cassandra_dtest.TokenGenerator.MultiDc.{Passes, multi_dc_tokens_iff}

abbrev two_nodes : DcOutput
two_nodes = record { title = text "1:"; nodes = (0, negsuc 4) ∷ (3, pos 12) ∷ []; blanks = 1 }

two_nodes-IsOutput : IsOutput two_nodes
two_nodes-IsOutput = (λ e. cc, (refl, (refl, tt)))

call_token_generator-output_lines_example :
    call_token_generator (join (10 ∷ []) (output_lines (two_nodes ∷ [])))
    ≡ returned ((negsuc 4 ∷ pos 12 ∷ []) ∷ [])
call_token_generator-output_lines_example =
    call_token_generator-output_lines two_nodes [] (two_nodes-IsOutput, tt)

check_combination_iff_example :
    (check_combination none (2 ∷ []) ((negsuc 4 ∷ pos 12 ∷ []) ∷ []) ≡ true) ↔ (
      (map (λ ts. length ts) ((negsuc 4 ∷ pos 12 ∷ []) ∷ []) ≡ 2 ∷ [])
      × InRange none (in_order ((negsuc 4 ∷ pos 12 ∷ []) ∷ []))
      × Distinct (in_order ((negsuc 4 ∷ pos 12 ∷ []) ∷ [])))
check_combination_iff_example = check_combination_iff none (2 ∷ []) ((negsuc 4 ∷ pos 12 ∷ []) ∷ [])

multi_dc_tokens_iff_example :
    (multi_dc_tokens none
        ((2 ∷ []) ∷ [])
        (λ dc_nodes. join (10 ∷ []) (output_lines (two_nodes ∷ [])))
      ≡ true)
    ↔ All (Passes none (λ dc_nodes. join (10 ∷ []) (output_lines (two_nodes ∷ [])))) ((2 ∷ []) ∷ [])
multi_dc_tokens_iff_example =
    multi_dc_tokens_iff none ((2 ∷ []) ∷ [])
      (λ dc_nodes. join (10 ∷ []) (output_lines (two_nodes ∷ [])))

abbrev murmur3 : Text
murmur3 = text "org.apache.cassandra.dht.Murmur3Partitioner"
