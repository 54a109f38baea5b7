-- ===== src/TokenGenerator/Output.antt =====
-- The output of the token generator is read back. The format is described below: a title for each
-- data centre, a line for each of its nodes with padding in front of the token, and empty lines.
use cassandra_dtest.Base.{
  ℕ, zero, suc, ◌+◌, ◌≡◌, ◌≢◌, refl, Bool, List, [], ◌∷◌, ◌++◌, Option, none, some, Outcome,
  returned, raised, ◌==◌, length, map, replicate, All, ℤ, pos, negsuc, arith, ap, ◌∙◌, sym,
  length-append, ==_refl, if◌then◌else◌, All-append,
}
use cassandra_dtest.Text.{Text, text, starts_with, join}
use cassandra_dtest.Text.Laws.{any-Free, Free-append, Free, split-join}
use cassandra_dtest.Text.Decimal.{digit-Free, str, str-digits}
use cassandra_dtest.TokenGenerator.{
  Tokens, TokenError, no_tokens, empty_dc, no_dc, invalid_count, close, next_dc, add_token,
  read_lines, call_token_generator,
}
use cassandra_dtest.TokenGenerator.Lines.{show_token, show_node, node_line-show}
use mathlib.Core.List.{append-nil, append_assoc}

-- A data centre as the tool prints it: what follows `DC #`, the tokens of its nodes with the number
-- of additional spaces in front, and the empty lines behind them.
pub record DcOutput : Type 0 where
  pub title : Text
  pub nodes : List (ℕ × ℤ)
  pub blanks : ℕ

abbrev pub tokens_of : DcOutput → List ℤ
tokens_of d = map (λ n. n.1) d.nodes

abbrev pub node_lines : ℕ → List (ℕ × ℤ) → List Text
node_lines k [] = []
node_lines k (n ∷ ns) = show_node k n.0 n.1 ∷ node_lines (k + 1) ns

abbrev pub dc_lines : DcOutput → List Text
dc_lines d = (text "DC #" ++ d.title) ∷ (node_lines 1 d.nodes ++ replicate d.blanks [])

abbrev pub output_lines : List DcOutput → List Text
output_lines [] = []
output_lines (d ∷ ds) = dc_lines d ++ output_lines ds

-- What follows a line about a node.
abbrev after_node : List Text → List (List ℤ) → Outcome TokenError (List ℤ) → Tokens
after_node ls generated o = elim o [
  | returned ts ↦ read_lines ls (some ts) generated
  | raised e ↦ raised e
]

read_node :
    (ts : List ℤ) (pad : ℕ) (t : ℤ) (ls : List Text) (generated : List (List ℤ))
    → read_lines (show_node (length ts + 1) pad t ∷ ls) (some ts) generated
      ≡ read_lines ls (some (ts ++ (t ∷ []))) generated
unfolding read_lines starts_with
read_node ts pad t ls generated =
    ap (λ o. after_node ls generated (add_token (some ts) o)) (node_line-show (length ts + 1) pad t)
    ∙ ap
        (λ b.
          after_node ls generated (if b then returned (ts ++ (t ∷ [])) else raised invalid_count))
        (==_refl (length ts + 1))

read_nodes :
    (ns : List (ℕ × ℤ)) (ts : List ℤ) (k : ℕ) (ls : List Text) (generated : List (List ℤ))
    → k ≡ length ts + 1
    → read_lines (node_lines k ns ++ ls) (some ts) generated
      ≡ read_lines ls (some (ts ++ map (λ n. n.1) ns)) generated
read_nodes [] ts k ls generated h =
    ap (λ us. read_lines ls (some us) generated) (sym (append-nil ts))
read_nodes (n ∷ ns) ts k ls generated h =
    ap (λ j. read_lines (show_node j n.0 n.1 ∷ (node_lines (k + 1) ns ++ ls)) (some ts) generated) h
    ∙ read_node ts n.0 n.1 (node_lines (k + 1) ns ++ ls) generated
    ∙ read_nodes ns (ts ++ (n.1 ∷ [])) (k + 1) ls generated
        (omega (arith, h, length-append ts (n.1 ∷ [])))
    ∙ ap (λ us. read_lines ls (some us) generated) (append_assoc ts (n.1 ∷ []) (map (λ m. m.1) ns))

read_blanks :
    (n : ℕ) (ls : List Text) (dc : Option (List ℤ)) (generated : List (List ℤ))
    → read_lines (replicate n [] ++ ls) dc generated ≡ read_lines ls dc generated
unfolding read_lines starts_with
read_blanks zero ls dc generated = refl
read_blanks (suc n) ls dc generated = read_blanks n ls dc generated

-- Every data centre has a node, and its title is on one line.
abbrev pub IsOutput : DcOutput → Type 0
IsOutput d = (d.nodes ≢ []) × Free (λ c. c == 10) d.title

map-ne_nil : (ns : List (ℕ × ℤ)) → ns ≢ [] → map (λ n. n.1) ns ≢ []
map-ne_nil [] h = absurd (h refl)
map-ne_nil (n ∷ ns) h = λ e. cc

close_full :
    (missing empty : TokenError) (ts : List ℤ) (generated : List (List ℤ))
    → ts ≢ []
    → close missing empty (some ts) generated ≡ returned (generated ++ (ts ∷ []))
close_full missing empty [] generated h = absurd (h refl)
close_full missing empty (t ∷ ts) generated h = refl

-- After a title that opens a data centre, its lines leave its tokens.
read_dc :
    (d : DcOutput) (ls : List Text) (generated : List (List ℤ))
    → read_lines (node_lines 1 d.nodes ++ (replicate d.blanks [] ++ ls)) (some []) generated
      ≡ read_lines ls (some (tokens_of d)) generated
read_dc d ls generated =
    read_nodes d.nodes [] 1 (replicate d.blanks [] ++ ls) generated refl
    ∙ read_blanks d.blanks ls (some (tokens_of d)) generated

abbrev pub after_title : List Text → Tokens → Tokens
after_title ls o = elim o [ returned g ↦ read_lines ls (some []) g | raised e ↦ raised e ]

read_title :
    (title : Text) (ls : List Text) (dc : Option (List ℤ)) (generated : List (List ℤ))
    → read_lines ((text "DC #" ++ title) ∷ ls) dc generated ≡ after_title ls (next_dc dc generated)
unfolding read_lines starts_with
read_title [] ls dc generated = refl
read_title (c ∷ title) ls dc generated = refl

regroup :
    (d : DcOutput) (ls : List Text)
    → dc_lines d ++ ls
      ≡ (text "DC #" ++ d.title) ∷ (node_lines 1 d.nodes ++ (replicate d.blanks [] ++ ls))
regroup d ls =
    ap (λ l. (text "DC #" ++ d.title) ∷ l)
      (append_assoc (node_lines 1 d.nodes) (replicate d.blanks []) ls)

-- From inside a data centre with tokens, the lines of more data centres add theirs.
read_more :
    (ds : List DcOutput) (ts : List ℤ) (generated : List (List ℤ))
    → All IsOutput ds
    → ts ≢ []
    → read_lines (output_lines ds) (some ts) generated
      ≡ returned (generated ++ (ts ∷ map (λ d. tokens_of d) ds))
unfolding read_lines
read_more [] ts generated h k = close_full no_tokens no_tokens ts generated k
read_more (d ∷ ds) ts generated h k =
    ap (λ l. read_lines l (some ts) generated) (regroup d (output_lines ds))
    ∙ read_title d.title (node_lines 1 d.nodes ++ (replicate d.blanks [] ++ output_lines ds))
        (some ts) generated
    ∙ ap (after_title (node_lines 1 d.nodes ++ (replicate d.blanks [] ++ output_lines ds)))
        (close_full no_dc empty_dc ts generated k)
    ∙ read_dc d (output_lines ds) (generated ++ (ts ∷ []))
    ∙ read_more ds (tokens_of d) (generated ++ (ts ∷ [])) h.1 (map-ne_nil d.nodes h.0.0)
    ∙ ap returned (append_assoc generated (ts ∷ []) (tokens_of d ∷ map (λ e. tokens_of e) ds))

read_output :
    (d : DcOutput) (ds : List DcOutput)
    → All IsOutput (d ∷ ds)
    → read_lines (output_lines (d ∷ ds)) none [] ≡ returned (map (λ e. tokens_of e) (d ∷ ds))
read_output d ds h =
    ap (λ l. read_lines l none []) (regroup d (output_lines ds))
    ∙ read_title d.title (node_lines 1 d.nodes ++ (replicate d.blanks [] ++ output_lines ds)) none
        []
    ∙ read_dc d (output_lines ds) []
    ∙ read_more ds (tokens_of d) [] h.1 (map-ne_nil d.nodes h.0.0)

abbrev breaks : ℕ → Bool
breaks c = c == 10

replicate-Free : (n : ℕ) → Free breaks (replicate n 32)
replicate-Free zero = tt
replicate-Free (suc n) = (refl, replicate-Free n)

str-Free : (n : ℕ) → Free breaks (str n)
str-Free n = digit-Free breaks (λ x h. ground arith) (str n) (str-digits n)

show_token-Free : (t : ℤ) → Free breaks (show_token t)
show_token-Free (pos n) = str-Free n
show_token-Free (negsuc n) = (refl, str-Free (suc n))

show_node-Free : (k pad : ℕ) (t : ℤ) → Free breaks (show_node k pad t)
show_node-Free k pad t =
    Free-append breaks (text "  Node #") _ (any-Free breaks (text "  Node #") refl) (
      Free-append breaks (str k) _ (str-Free k) (
        refl,
        (
          refl,
          Free-append breaks (replicate pad 32) (show_token t) (replicate-Free pad)
              (show_token-Free t),
        ),
      ))

node_lines-Free : (k : ℕ) (ns : List (ℕ × ℤ)) → All (Free breaks) (node_lines k ns)
node_lines-Free k [] = tt
node_lines-Free k (n ∷ ns) = (show_node-Free k n.0 n.1, node_lines-Free (k + 1) ns)

blanks-Free : (n : ℕ) → All (Free breaks) (replicate n [])
blanks-Free zero = tt
blanks-Free (suc n) = (tt, blanks-Free n)

output_lines-Free : (ds : List DcOutput) → All IsOutput ds → All (Free breaks) (output_lines ds)
output_lines-Free [] h = tt
output_lines-Free (d ∷ ds) h =
    All-append (Free breaks) (dc_lines d) (output_lines ds)
      (
        (refl, (refl, (refl, (refl, h.0.1)))),
        All-append (Free breaks) (node_lines 1 d.nodes) (replicate d.blanks [])
            (node_lines-Free 1 d.nodes) (blanks-Free d.blanks),
      )
      (output_lines-Free ds h.1)

-- What the token generator prints for one or more data centres is read back: one list of tokens for
-- each data centre, in order, of either sign and any padding, with empty lines in between. Every data
-- centre has a node, and the titles are on one line.
pub call_token_generator-output_lines :
    (d : DcOutput) (ds : List DcOutput)
    → All IsOutput (d ∷ ds)
    → call_token_generator (join (10 ∷ []) (output_lines (d ∷ ds)))
      ≡ returned (map (λ e. tokens_of e) (d ∷ ds))
unfolding call_token_generator
call_token_generator-output_lines d ds h =
    ap (λ l. read_lines l none [])
      (split-join 10 (text "DC #" ++ d.title)
        (node_lines 1 d.nodes ++ replicate d.blanks [] ++ output_lines ds)
        (output_lines-Free (d ∷ ds) h))
    ∙ read_output d ds h
