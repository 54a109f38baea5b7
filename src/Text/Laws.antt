-- ===== src/Text/Laws.antt =====
-- Laws of the text operations.
use cassandra_dtest.Base.{
  ℕ, ◌≡◌, ◌↔◌, refl, Bool, true, false, List, [], ◌∷◌, ◌++◌, arith, All, any, ◌==◌, ==_refl,
}
use cassandra_dtest.Text.{Text, text_eq, starts_with, rstrip, split, join}

pub text_eq→eq : (s t : Text) → text_eq s t ≡ true → s ≡ t
unfolding text_eq
text_eq→eq [] [] h = refl
text_eq→eq [] (y ∷ ys) h = cc
text_eq→eq (x ∷ xs) [] h = cc
text_eq→eq (x ∷ xs) (y ∷ ys) h = ground (arith, text_eq→eq xs ys)

pub text_eq_refl : (s : Text) → text_eq s s ≡ true
unfolding text_eq
text_eq_refl [] = refl
text_eq_refl (x ∷ xs) = rw (==_refl x) (text_eq_refl xs)

pub text_eq_iff : (s t : Text) → (text_eq s t ≡ true) ↔ (s ≡ t)
text_eq_iff s t = (text_eq→eq s t, λ e. rw e (text_eq_refl t))

pub starts_with-append : (p s : Text) → starts_with (p ++ s) p ≡ true
unfolding starts_with
starts_with-append [] [] = refl
starts_with-append [] (x ∷ s) = refl
starts_with-append (x ∷ p) s = rw (==_refl x) (starts_with-append p s)

-- No character of the text passes the test.
abbrev pub Free : (ℕ → Bool) → Text → Type 0
Free p s = All (λ c. p c ≡ false) s

-- Of a literal, by a computation.
pub any-Free : (p : ℕ → Bool) (s : Text) → any p s ≡ false → Free p s
any-Free p [] h = tt
any-Free p (c ∷ s) h = (ground (arith, h), any-Free p s (ground (arith, h)))

pub split_part :
    (c : ℕ) (p s : Text) → Free (λ x. x == c) p → split c (p ++ (c ∷ s)) ≡ p ∷ split c s
unfolding split
split_part c [] s h = rw (==_refl c)
split_part c (x ∷ p) s h = rw (h.0, split_part c p s h.1)

split_last : (c : ℕ) (p : Text) → Free (λ x. x == c) p → split c p ≡ p ∷ []
unfolding split
split_last c [] h = refl
split_last c (x ∷ p) h = rw (h.0, split_last c p h.1)

-- Parts that do not hold the separator come back from their join.
pub split-join :
    (c : ℕ) (p : Text) (ps : List Text)
    → All (Free (λ x. x == c)) (p ∷ ps)
    → split c (join (c ∷ []) (p ∷ ps)) ≡ p ∷ ps
unfolding join
split-join c p [] h = split_last c p h.0
split-join c p (q ∷ ps) h = rw (split_part c p (join (c ∷ []) (q ∷ ps)) h.0, split-join c q ps h.1)

pub rstrip_kept : (p : ℕ → Bool) (s : Text) → Free p s → rstrip p s ≡ s
unfolding rstrip
rstrip_kept p [] h = refl
rstrip_kept p (x ∷ []) h = rw h.0
rstrip_kept p (x ∷ y ∷ s) h = rw (rstrip_kept p (y ∷ s) h.1)

pub Free-append : (p : ℕ → Bool) (s t : Text) → Free p s → Free p t → Free p (s ++ t)
Free-append p [] t h k = k
Free-append p (x ∷ s) t h k = (h.0, Free-append p s t h.1 k)
