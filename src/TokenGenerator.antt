-- ===== src/TokenGenerator.antt =====
-- token_generator.py: the command line of `tools/bin/token-generator`, the reading of its output, and
-- the checks of the tokens. What the tool prints and what the cluster says are parameters.
mod Lines
pub mod Output
pub mod Checks
pub mod MultiDc
pub mod Filled
pub mod Cluster
pub mod Started
use cassandra_dtest.Base.{
  ℕ, zero, suc, ◌+◌, ◌-◌, ◌^◌, sum, Bool, true, false, ◌&&◌, ◌||◌, not, List, [], ◌∷◌, ◌++◌, Option,
  none, some, Outcome, returned, raised, ◌==◌, if◌then◌else◌, length, map, all, ℤ, pos, negsuc,
  eq_ℤ, leb_ℤ,
}
use cassandra_dtest.Text.{Text, text, starts_with, is_digit, split}
use cassandra_dtest.Text.Decimal.{str, value_from}

-- `call_token_generator`: the arguments; no flag stands for the tool's default.
unfoldable pub generator_args : Text → Bool → Option Bool → List ℕ → List Text
unfolding str
generator_args install_dir on_windows random_part nodes =
    (install_dir ++ (text "/tools/bin/token-generator" ++ (if on_windows then text ".bat" else [])))
    ∷ (flag random_part ++ map (λ n. str n) nodes)
  where
    flag : Option Bool → List Text
    flag none = []
    flag (some true) = text "--random" ∷ []
    flag (some false) = text "--murmur3" ∷ []

-- The text behind a prefix.
unfoldable pub behind : Text → Text → Option Text
behind [] s = some s
behind (p ∷ ps) [] = none
behind (p ∷ ps) (c ∷ s) = if p == c then behind ps s else none

-- The longest run of digits at the start, and the rest: `\d+` before what is no digit.
unfoldable pub span_digits : Text → Text × Text
span_digits [] = ([], [])
span_digits (c ∷ s) =
    let (ds, rest) = span_digits s in if is_digit c then (c ∷ ds, rest) else ([], c ∷ s)

-- `\d+`
abbrev pub number_of : Text × Text → Option (ℕ × Text)
number_of ([], rest) = none
number_of (d ∷ ds, rest) = some (value_from 0 (d ∷ ds), rest)

abbrev pub read_digits : Text → Option (ℕ × Text)
read_digits s = number_of (span_digits s)

-- `[ ]*`
unfoldable pub skip_spaces : Text → Text
skip_spaces [] = []
skip_spaces (c ∷ s) = let rest = skip_spaces s in if c == 32 then rest else c ∷ s

-- `-n` for the digits of a number.
abbrev pub negate : ℕ → ℤ
negate zero = pos 0
negate (suc n) = negsuc n

-- `\d+$`
abbrev pub whole : Option (ℕ × Text) → Option ℕ
whole none = none
whole (some (n, [])) = some n
whole (some (n, c ∷ s)) = none

abbrev pub signed : (ℕ → ℤ) → Option ℕ → Option ℤ
signed f none = none
signed f (some n) = some (f n)

-- `([-]?\d+)$`
unfoldable pub read_token : Text → Option ℤ
unfolding span_digits value_from
read_token [] = none
read_token (c ∷ s) =
    if c == 45
    then signed negate (whole (read_digits s))
    else signed pos (whole (read_digits (c ∷ s)))

-- `: [ ]*([-]?\d+)$` behind the number of the node.
abbrev pub after_number : Option (ℕ × Text) → Option (ℕ × ℤ)
after_number none = none
after_number (some (n, s)) = elim (behind (text ": ") s) [
  | none ↦ none
  | some t ↦ elim (read_token (skip_spaces t)) [ none ↦ none | some v ↦ some (n, v) ]
]

-- `re.search("^  Node #(\d+): [ ]*([-]?\d+)$", line)` with both groups as numbers.
unfoldable pub node_line : Text → Option (ℕ × ℤ)
unfolding behind span_digits skip_spaces read_token value_from
node_line s = elim (behind (text "  Node #") s) [
  | none ↦ none
  | some t ↦ after_number (read_digits t)
]

-- The assertions, by what they say; `no_dc` is the `AttributeError` of a node before any `DC #`.
pub data TokenError : Type 0 where
  empty_dc no_match no_dc invalid_count no_tokens : TokenError

abbrev pub Tokens : Type 0
Tokens = Outcome TokenError (List (List ℤ))

-- What the end of the lines, or a new data centre, does with the tokens so far.
abbrev pub close : TokenError → TokenError → Option (List ℤ) → List (List ℤ) → Tokens
close missing empty none generated = raised missing
close missing empty (some []) generated = raised empty
close missing empty (some (t ∷ ts)) generated = returned (generated ++ ((t ∷ ts) ∷ []))

-- `if dc_tokens is not None: …` at a line that starts a data centre.
abbrev pub next_dc : Option (List ℤ) → List (List ℤ) → Tokens
next_dc none generated = returned generated
next_dc (some ts) generated = close no_dc empty_dc (some ts) generated

-- A line about a node: its number has to be that of the tokens read for the data centre.
abbrev pub add_token : Option (List ℤ) → Option (ℕ × ℤ) → Outcome TokenError (List ℤ)
add_token dc_tokens none = raised no_match
add_token none (some (n, t)) = raised no_dc
add_token (some ts) (some (n, t)) =
    if n == length ts + 1 then returned (ts ++ (t ∷ [])) else raised invalid_count

-- The loop over the lines.
unfoldable pub read_lines : List Text → Option (List ℤ) → List (List ℤ) → Tokens
unfolding node_line starts_with
read_lines [] dc_tokens generated = close no_tokens no_tokens dc_tokens generated
read_lines (l ∷ ls) dc_tokens generated = elim (starts_with l (text "DC #")) [
  | true ↦ elim (next_dc dc_tokens generated) [
    | returned g ↦ read_lines ls (some []) g
    | raised e ↦ raised e
  ]
  | false ↦ elim l [
    | [] ↦ read_lines ls dc_tokens generated
    | c ∷ cs ↦ elim (add_token dc_tokens (node_line (c ∷ cs))) [
      | returned ts ↦ read_lines ls (some ts) generated
      | raised e ↦ raised e
    ]
  ]
]

-- `call_token_generator`, from what the tool printed.
unfoldable pub call_token_generator : Text → Tokens
unfolding read_lines split
call_token_generator token_gen_output = read_lines (split 10 token_gen_output) none []

-- `_multi_dc_tokens`: the range of the partitioner, `t_min <= tok < t_max`.
unfoldable pub in_range : Option Bool → ℤ → Bool
in_range none t = leb_ℤ (negsuc (2 ^ 63 - 1)) t && not (leb_ℤ (pos (2 ^ 63)) t)
in_range (some false) t = leb_ℤ (negsuc (2 ^ 63 - 1)) t && not (leb_ℤ (pos (2 ^ 63)) t)
in_range (some true) t = leb_ℤ (pos 0) t && not (leb_ℤ (pos (2 ^ 127)) t)

unfoldable pub member : ℤ → List ℤ → Bool
member t [] = false
member t (u ∷ us) = eq_ℤ u t || member t us

-- The inner loop: the tokens seen so far grow by each that is in range and new.
unfoldable pub add_all : Option Bool → List ℤ → List ℤ → Option (List ℤ)
unfolding in_range member
add_all random [] all_tokens = some all_tokens
add_all random (t ∷ ts) all_tokens = elim (in_range random t && not (member t all_tokens)) [
  | true ↦ add_all random ts (t ∷ all_tokens)
  | false ↦ none
]

-- The loop over the data centres; an index out of the tokens is an `IndexError`, and fails as well.
unfoldable pub add_dcs : Option Bool → List ℕ → List (List ℤ) → List ℤ → Option (List ℤ)
unfolding add_all
add_dcs random [] generated all_tokens = some all_tokens
add_dcs random (n ∷ dc_nodes) [] all_tokens = none
add_dcs random (n ∷ dc_nodes) (ts ∷ generated) all_tokens = elim (n == length ts) [
  | false ↦ none
  | true ↦ elim (add_all random ts all_tokens) [
    | none ↦ none
    | some seen ↦ add_dcs random dc_nodes generated seen
  ]
]

-- One combination of `_multi_dc_tokens`: whether its assertions hold.
unfoldable pub check_combination : Option Bool → List ℕ → List (List ℤ) → Bool
unfolding add_dcs
check_combination random dc_nodes generated =
    if length dc_nodes == length generated
    then elim (add_dcs random dc_nodes generated []) [
      | none ↦ false
      | some all_tokens ↦ length all_tokens == sum dc_nodes
    ]
    else false

-- `_multi_dc_tokens`: the combinations, by what the tool printed for each.
unfoldable pub multi_dc_tokens : Option Bool → List (List ℕ) → (List ℕ → Text) → Bool
unfolding check_combination call_token_generator
multi_dc_tokens random [] tool = true
multi_dc_tokens random (dc_nodes ∷ rest) tool = elim (call_token_generator (tool dc_nodes)) [
  | raised e ↦ false
  | returned generated ↦
      check_combination random dc_nodes generated && multi_dc_tokens random rest tool
]

abbrev pub dc_nodes_combinations : List (List ℕ)
dc_nodes_combinations =
    (3 ∷ 5 ∷ [])
    ∷ (3 ∷ 5 ∷ 5 ∷ [])
    ∷ (12 ∷ 5 ∷ 7 ∷ [])
    ∷ (50 ∷ 100 ∷ 250 ∷ [])
    ∷ (100 ∷ 100 ∷ 100 ∷ [])
    ∷ (250 ∷ 250 ∷ 250 ∷ [])
    ∷ (1000 ∷ 1000 ∷ 1000 ∷ [])
    ∷ (2500 ∷ 2500 ∷ 2500 ∷ 2500 ∷ [])
    ∷ []

-- The partitioner that `prepare` sets.
unfoldable pub partitioner : Option Bool → Text
partitioner none = text "org.apache.cassandra.dht.Murmur3Partitioner"
partitioner (some false) = text "org.apache.cassandra.dht.Murmur3Partitioner"
partitioner (some true) = text "org.apache.cassandra.dht.RandomPartitioner"

-- `tokens += tok` for each column.
unfoldable pub all_columns : List (List ℤ) → List ℤ
all_columns [] = []
all_columns (c ∷ cs) = c ++ all_columns cs

-- The tokens of the rows of `system.peers`, which have to be one for each.
unfoldable pub peer_tokens : List (List ℤ) → Option (List ℤ)
peer_tokens [] = some []
peer_tokens ((t ∷ []) ∷ rows) = elim (peer_tokens rows) [ none ↦ none | some ts ↦ some (t ∷ ts) ]
peer_tokens ([] ∷ rows) = none
peer_tokens ((t ∷ u ∷ ts) ∷ rows) = none

-- The last two assertions: as many tokens as were generated, and each of them among those.
unfoldable pub matches_generated : List ℤ → List ℤ → Bool
unfolding member
matches_generated dc_tokens tokens =
    length tokens == length dc_tokens && all (λ u. member u dc_tokens) tokens

-- `_token_gen_test`, from the generated tokens of the one data centre, the columns of the row of
-- `system.local` and the tokens of the rows of `system.peers`, as numbers: whether the assertions
-- hold, and `index` finds every token.
unfoldable pub token_gen_test : ℕ → List ℤ → List (List ℤ) → List (List ℤ) → Bool
unfolding all_columns peer_tokens matches_generated
token_gen_test nodes dc_tokens local_columns peer_rows =
    length local_columns == 1
    && (length peer_rows + 1 == nodes && elim (peer_tokens peer_rows) [
      | none ↦ false
      | some ts ↦ matches_generated dc_tokens (all_columns local_columns ++ ts)
    ])
