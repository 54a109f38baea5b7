-- ===== src/TokenGenerator/Cluster.antt =====
-- `prepare` of token_generator.py, and a cluster that was started with the generated tokens. The
-- cluster is by its options, its nodes and the calls on it.
use cassandra_dtest.Base.{
  suc, ◌+◌, ◌≡◌, refl, Bool, true, false, ◌&&◌, ◌||◌, List, [], ◌∷◌, Option, none, some, returned,
  raised, Action, ℕ, if◌then◌else◌, all, length, map, All, ℤ, eq_ℤ, arith, ap, ap₂, ◌∙◌, sym, ◌==◌,
  ==_iff, length-map, eq_ℤ_refl, or_true,
}
use cassandra_dtest.Text.{Text, text, text_eq}
use cassandra_dtest.TokenGenerator.{
  TokenError, call_token_generator, partitioner, member, all_columns, peer_tokens,
  matches_generated, token_gen_test,
}
use mathlib.Core.List.{Permᴰ}

-- Why `prepare` ends: the output of the tool, the `KeyError` of an option, or nodes that are there.
pub data PrepareFailure : Type 0 where
  bad_output : TokenError → PrepareFailure
  no_option : Text → PrepareFailure
  has_nodes : PrepareFailure

-- `cluster._config_options`, by its keys, the partitioner, the number of nodes and their tokens.
pub record TokenCluster : Type 0 where
  pub options : List Text
  pub set_partitioner : Option Text
  pub node_count : ℕ
  pub tokens : List ℤ

-- `_config_options.__delitem__(key)`
unfoldable pub del_option : Text → List Text → Option (List Text)
unfolding text_eq
del_option key [] = none
del_option key (k ∷ ks) = elim (text_eq k key) [
  | true ↦ some ks
  | false ↦ elim (del_option key ks) [ none ↦ none | some rest ↦ some (k ∷ rest) ]
]

-- `generated_tokens[0]`; `call_token_generator` never returns the empty list.
abbrev pub first_tokens : List (List ℤ) → List ℤ
first_tokens [] = []
first_tokens (ts ∷ generated) = ts

-- What `prepare` does once the tool's output is read, on the cluster as far as it got. The partitioner
-- is set first, then the two options are dropped, and the cluster must not have nodes.
unfoldable pub populate :
    Option Bool → ℕ → List (List ℤ) → Action TokenCluster PrepareFailure (List (List ℤ))
unfolding partitioner del_option
populate random_part nodes generated c =
    let c' = record c { set_partitioner = some (partitioner random_part) } in
    elim (del_option (text "num_tokens") c.options) [
      | none ↦ (raised (no_option (text "num_tokens")), c')
      | some options ↦ elim (del_option (text "initial_token") options) [
        | none ↦ (raised (no_option (text "initial_token")), record c' { options = options })
        | some options' ↦
            if c.node_count == 0
            then (
              returned generated,
              record c' { options = options'; node_count = nodes; tokens = first_tokens generated },
            )
            else (raised has_nodes, record c' { options = options' })
      ]
    ]

-- `prepare`: the tool is called for the one data centre, and the cluster started with its tokens.
unfoldable pub prepare_tokens :
    (List ℕ → Text) → Option Bool → ℕ → Action TokenCluster PrepareFailure (List (List ℤ))
unfolding call_token_generator populate
prepare_tokens tool random_part nodes c = elim (call_token_generator (tool (nodes ∷ []))) [
  | raised e ↦ (raised (bad_output e), c)
  | returned generated ↦ populate random_part nodes generated c
]

-- Every element of the one list is in the other.
abbrev Within : List ℤ → List ℤ → Type 0
Within us ts = All (λ u. member u ts ≡ true) us

member-later : (u t : ℤ) (ts : List ℤ) → member u ts ≡ true → member u (t ∷ ts) ≡ true
unfolding member
member-later u t ts h = or_true (eq_ℤ t u) (member u ts) h

member-Permᴰ : (u : ℤ) (ts us : List ℤ) → Permᴰ ts us → member u ts ≡ member u us
unfolding member
member-Permᴰ u _ _ Permᴰ.nil = refl
member-Permᴰ u _ _ (Permᴰ.cons {l₁ = ts} {l₂ = us} e p) =
    ap₂ (λ t b. eq_ℤ t u || b) e (member-Permᴰ u ts us p)
member-Permᴰ u _ _ (Permᴰ.swap {a = a} {b = b} {a' = a'} {b' = b'} {l = l} e f) =
    swap_or (eq_ℤ a u) (eq_ℤ b u) (member u l)
    ∙ ap₂ (λ x y. eq_ℤ x u || (eq_ℤ y u || member u l)) f e
  where
    swap_or : (x y z : Bool) → (x || (y || z)) ≡ (y || (x || z))
    swap_or true true z = refl
    swap_or true false z = refl
    swap_or false true z = refl
    swap_or false false z = refl
member-Permᴰ u _ _ (Permᴰ.trans {l₁ = ts} {l₂ = us} {l₃ = vs} p q) =
    member-Permᴰ u ts us p ∙ member-Permᴰ u us vs q

length-Permᴰ : (ts us : List ℤ) → Permᴰ ts us → length ts ≡ length us
length-Permᴰ _ _ Permᴰ.nil = refl
length-Permᴰ _ _ (Permᴰ.cons {l₁ = ts} {l₂ = us} e p) = ap suc (length-Permᴰ ts us p)
length-Permᴰ _ _ (Permᴰ.swap e f) = refl
length-Permᴰ _ _ (Permᴰ.trans {l₁ = ts} {l₂ = us} {l₃ = vs} p q) =
    length-Permᴰ ts us p ∙ length-Permᴰ us vs q

peer_tokens-map : (ps : List ℤ) → peer_tokens (map (λ t. t ∷ []) ps) ≡ some ps
unfolding peer_tokens
peer_tokens-map [] = refl
peer_tokens-map (t ∷ ps) = rw (peer_tokens-map ps) refl

-- The members of a list are in it, in front of whatever list.
within :
    (us ts : List ℤ)
    → ((u : ℤ) → member u us ≡ true → member u ts ≡ true)
    → all (λ u. member u ts) us ≡ true
unfolding member
within [] ts h = refl
within (u ∷ us) ts h =
    ap₂ (λ a b. a && b) (h u (ap (λ b. b || member u us) (eq_ℤ_refl u)))
      (within us ts (λ v m. h v (member-later v u us m)))

-- The check of the running cluster passes for a cluster whose nodes have exactly the generated tokens,
-- each node one of them, in whatever order its peers are listed.
pub token_gen_test-Permᴰ :
    (own : ℤ) (ps dc_tokens : List ℤ)
    → Permᴰ (own ∷ ps) dc_tokens
    → token_gen_test (length dc_tokens) dc_tokens ((own ∷ []) ∷ []) (map (λ t. t ∷ []) ps) ≡ true
unfolding token_gen_test all_columns matches_generated
token_gen_test-Permᴰ own ps dc_tokens p =
    ap₂ (λ a b. a && b) count (ap checked (peer_tokens-map ps) ∙ ap₂ (λ a b. a && b) size found)
  where
    checked : Option (List ℤ) → Bool
    checked o = elim o [ none ↦ false | some ts ↦ matches_generated dc_tokens (own ∷ ts) ]

    sizes : length (own ∷ ps) ≡ length dc_tokens
    sizes = length-Permᴰ (own ∷ ps) dc_tokens p

    count : (length (map {B = List ℤ} (λ t. t ∷ []) ps) + 1 == length dc_tokens) ≡ true
    count = (==_iff _ _).1 (omega (arith, sizes, length-map (λ (t : ℤ). t ∷ []) ps))

    size : (length (own ∷ ps) == length dc_tokens) ≡ true
    size = (==_iff _ _).1 sizes

    found : all (λ u. member u dc_tokens) (own ∷ ps) ≡ true
    found = within (own ∷ ps) dc_tokens (λ u m. sym (member-Permᴰ u (own ∷ ps) dc_tokens p) ∙ m)
