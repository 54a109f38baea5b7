-- ===== src/TokenGenerator/Filled.antt =====
-- What the reading of the token generator's output accepts.
use cassandra_dtest.Base.{
  ◌≡◌, ◌≢◌, refl, Bool, true, false, List, [], ◌∷◌, ◌++◌, Option, none, some, Outcome, returned,
  raised, All, ℤ, arith, subst, All-append, cons-ne-nil,
}
use cassandra_dtest.Text.{Text, text, starts_with, split}
use cassandra_dtest.TokenGenerator.Output.{after_title}
use cassandra_dtest.TokenGenerator.{
  Tokens, TokenError, no_tokens, no_dc, empty_dc, close, next_dc, add_token, node_line, read_lines,
  call_token_generator,
}

-- Every list has an element, and so has every list in it.
abbrev pub Filled : List (List ℤ) → Type 0
Filled generated = All (λ ts. ts ≢ []) generated

append-ne_nil : (g : List (List ℤ)) (ts : List ℤ) → g ++ (ts ∷ []) ≢ []
append-ne_nil [] ts h = cc
append-ne_nil (us ∷ g) ts h = cc

close-Filled :
    (missing empty : TokenError) (dc : Option (List ℤ)) (generated out : List (List ℤ))
    → Filled generated
    → close missing empty dc generated ≡ returned out
    → Filled out × (out ≢ [])
close-Filled missing empty none generated out p h = absurd (ground (arith, h))
close-Filled missing empty (some []) generated out p h = absurd (ground (arith, h))
close-Filled missing empty (some (t ∷ ts)) generated out p h =
    let e : generated ++ ((t ∷ ts) ∷ []) ≡ out = cc in
    subst (λ g. Filled g × (g ≢ [])) e
      (All-append (λ ts. ts ≢ []) generated _ p (cons-ne-nil, tt), append-ne_nil generated (t ∷ ts))

next_dc-Filled :
    (dc : Option (List ℤ)) (generated out : List (List ℤ))
    → Filled generated
    → next_dc dc generated ≡ returned out
    → Filled out
next_dc-Filled none generated out p h = let e : generated ≡ out = cc in subst (λ g. Filled g) e p
next_dc-Filled (some ts) generated out p h =
    (close-Filled no_dc empty_dc (some ts) generated out p h).0

read_lines-Filled :
    (ls : List Text) (dc : Option (List ℤ)) (generated out : List (List ℤ))
    → Filled generated
    → read_lines ls dc generated ≡ returned out
    → Filled out × (out ≢ [])
unfolding read_lines
read_lines-Filled [] dc generated out p h = close-Filled no_tokens no_tokens dc generated out p h
read_lines-Filled (l ∷ ls) dc generated out p h =
    go (starts_with l (text "DC #")) l (λ d g. read_lines-Filled ls d g out) h
  where
    Rest : Type 0
    Rest =
        (d : Option (List ℤ)) (g : List (List ℤ))
        → Filled g
        → read_lines ls d g ≡ returned out
        → Filled out × (out ≢ [])

    title :
        (o : Tokens)
        → next_dc dc generated ≡ o
        → Rest
        → after_title ls o ≡ returned out
        → Filled out × (out ≢ [])
    title (returned g) e rec k = rec (some []) g (next_dc-Filled dc generated g p e) k
    title (raised x) e rec k = absurd (ground (arith, k))

    node : Outcome TokenError (List ℤ) → Tokens
    node o = elim o [ returned ts ↦ read_lines ls (some ts) generated | raised e ↦ raised e ]

    node_left :
        (o : Outcome TokenError (List ℤ)) → Rest → node o ≡ returned out → Filled out × (out ≢ [])
    node_left (returned ts) rec k = rec (some ts) generated p k
    node_left (raised x) rec k = absurd (ground (arith, k))

    line : Text → Tokens
    line l' = elim l' [
      | [] ↦ read_lines ls dc generated
      | c ∷ cs ↦ node (add_token dc (node_line (c ∷ cs)))
    ]

    line_left : (l' : Text) → Rest → line l' ≡ returned out → Filled out × (out ≢ [])
    line_left [] rec k = rec dc generated p k
    line_left (c ∷ cs) rec k = node_left (add_token dc (node_line (c ∷ cs))) rec k

    either : Bool → Text → Tokens
    either b l' = elim b [ true ↦ after_title ls (next_dc dc generated) | false ↦ line l' ]

    go : (b : Bool) (l' : Text) → Rest → either b l' ≡ returned out → Filled out × (out ≢ [])
    go true l' rec k = title (next_dc dc generated) refl rec k
    go false l' rec k = line_left l' rec k

-- When the output is accepted there is at least one data centre, and each has at least one token.
pub call_token_generator-Filled :
    (token_gen_output : Text) (out : List (List ℤ))
    → call_token_generator token_gen_output ≡ returned out
    → Filled out × (out ≢ [])
unfolding call_token_generator
call_token_generator-Filled token_gen_output out h =
    read_lines-Filled (split 10 token_gen_output) none [] out tt h
