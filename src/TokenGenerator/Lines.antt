-- ===== src/TokenGenerator/Lines.antt =====
-- A line of the token generator about one node, printed and read back.
use cassandra_dtest.Base.{
  ℕ, zero, suc, ◌≡◌, ◌≢◌, refl, true, false, [], ◌∷◌, ◌++◌, Option, none, some, ◌==◌, replicate,
  all, ℤ, pos, negsuc, arith, ap, ◌∙◌,
}
use cassandra_dtest.Text.{Text, text, is_digit}
use cassandra_dtest.Text.Decimal.{str, value_from, str-digits, str-ne-nil, value_from-str}
use cassandra_dtest.TokenGenerator.{
  behind, span_digits, number_of, read_digits, skip_spaces, negate, whole, signed, read_token,
  after_number, node_line,
}

behind-append : (p s : Text) → behind p (p ++ s) ≡ some s
unfolding behind
behind-append [] s = refl
behind-append (c ∷ p) s = ground (arith, behind-append p s)

span_digits-append :
    (ds : Text) (c : ℕ) (s : Text)
    → all is_digit ds ≡ true
    → is_digit c ≡ false
    → span_digits (ds ++ (c ∷ s)) ≡ (ds, c ∷ s)
unfolding span_digits
span_digits-append [] c s h k = ground (arith, k)
span_digits-append (d ∷ ds) c s h k = ground (arith, span_digits-append ds c s, h, k)

span_digits-all : (ds : Text) → all is_digit ds ≡ true → span_digits ds ≡ (ds, [])
unfolding span_digits
span_digits-all [] h = refl
span_digits-all (d ∷ ds) h = ground (arith, span_digits-all ds, h)

number_of-digits : (ds rest : Text) → ds ≢ [] → number_of (ds, rest) ≡ some (value_from 0 ds, rest)
number_of-digits [] rest h = absurd (h refl)
number_of-digits (d ∷ ds) rest h = refl

-- A printed number, with what follows it, is read with what follows it.
read_digits-str :
    (n c : ℕ) (s : Text) → is_digit c ≡ false → read_digits (str n ++ (c ∷ s)) ≡ some (n, c ∷ s)
read_digits-str n c s h =
    ap number_of (span_digits-append (str n) c s (str-digits n) h)
    ∙ number_of-digits (str n) (c ∷ s) (str-ne-nil n)
    ∙ ap (λ k. some (k, c ∷ s)) (value_from-str n)

whole-str : (n : ℕ) → whole (read_digits (str n)) ≡ some n
whole-str n =
    ap (λ p. whole (number_of p)) (span_digits-all (str n) (str-digits n))
    ∙ ap whole (number_of-digits (str n) [] (str-ne-nil n))
    ∙ ap some (value_from-str n)

abbrev pub show_token : ℤ → Text
show_token (pos n) = str n
show_token (negsuc n) = 45 ∷ str (suc n)

read_token-digits :
    (s : Text) (n : ℕ)
    → s ≢ []
    → all is_digit s ≡ true
    → whole (read_digits s) ≡ some n
    → read_token s ≡ some (pos n)
unfolding read_token
read_token-digits [] n h d w = absurd (h refl)
read_token-digits (c ∷ s) n h d w =
    let e : (c == 45) ≡ false = ground arith in rw e (ap (signed pos) w)

-- A printed token is read back, of either sign.
read_token-show : (t : ℤ) → read_token (show_token t) ≡ some t
unfolding read_token
read_token-show (pos n) = read_token-digits (str n) n (str-ne-nil n) (str-digits n) (whole-str n)
read_token-show (negsuc n) = ap (signed negate) (whole-str (suc n))

-- A token does not start with a space, so the padding ends before it.
skip_spaces_kept : (c : ℕ) (s : Text) → (c == 32) ≡ false → skip_spaces (c ∷ s) ≡ c ∷ s
unfolding skip_spaces
skip_spaces_kept c s h = rw h refl

skip_spaces-digits : (s : Text) → all is_digit s ≡ true → skip_spaces s ≡ s
unfolding skip_spaces
skip_spaces-digits [] d = refl
skip_spaces-digits (c ∷ s) d = skip_spaces_kept c s (ground arith)

skip_spaces-show : (t : ℤ) → skip_spaces (show_token t) ≡ show_token t
skip_spaces-show (pos n) = skip_spaces-digits (str n) (str-digits n)
skip_spaces-show (negsuc n) = skip_spaces_kept 45 (str (suc n)) refl

skip_spaces-padded :
    (pad : ℕ) (t : ℤ) → skip_spaces (replicate pad 32 ++ show_token t) ≡ show_token t
unfolding skip_spaces
skip_spaces-padded zero t = skip_spaces-show t
skip_spaces-padded (suc pad) t = skip_spaces-padded pad t

abbrev pub show_node : ℕ → ℕ → ℤ → Text
show_node k pad t = text "  Node #" ++ (str k ++ (text ": " ++ (replicate pad 32 ++ show_token t)))

pub node_line-show : (k pad : ℕ) (t : ℤ) → node_line (show_node k pad t) ≡ some (k, t)
unfolding node_line
node_line-show k pad t =
    ap behind_title
      (behind-append (text "  Node #") (str k ++ (text ": " ++ (replicate pad 32 ++ show_token t))))
    ∙ ap after_number (read_digits-str k 58 (32 ∷ (replicate pad 32 ++ show_token t)) refl)
    ∙ ap behind_colon (behind-append (text ": ") (replicate pad 32 ++ show_token t))
    ∙ ap (λ s. with_number (read_token s)) (skip_spaces-padded pad t)
    ∙ ap with_number (read_token-show t)
  where
    behind_title : Option Text → Option (ℕ × ℤ)
    behind_title o = elim o [ none ↦ none | some s ↦ after_number (read_digits s) ]

    with_number : Option ℤ → Option (ℕ × ℤ)
    with_number o = elim o [ none ↦ none | some v ↦ some (k, v) ]

    behind_colon : Option Text → Option (ℕ × ℤ)
    behind_colon o = elim o [ none ↦ none | some s ↦ with_number (read_token (skip_spaces s)) ]
