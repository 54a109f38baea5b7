-- ===== src/Text/Strip.antt =====
-- Stripping, splitting and joining undo padding and joining.
use cassandra_dtest.Base.{
  ℕ, suc, ◌+◌, ◌≤◌, ◌≡◌, ◌≢◌, refl, Bool, true, false, List, [], ◌∷◌, ◌++◌, arith, All, ◌==◌,
  length, length-append, Bool-cases, inl, inr,
}
use cassandra_dtest.Text.{Text, lstrip, rstrip, strip_by, push_head, split, join}
use cassandra_dtest.Text.Laws.{Free}

-- Every character passes the test.
abbrev pub Full : (ℕ → Bool) → Text → Type 0
Full p s = All (λ c. p c ≡ true) s

-- The first character, and the last, do not pass the test; there is one.
abbrev pub StartsFree : (ℕ → Bool) → Text → Type 0
StartsFree p [] = ⊥
StartsFree p (x ∷ s) = p x ≡ false

abbrev pub EndsFree : (ℕ → Bool) → Text → Type 0
EndsFree p [] = ⊥
EndsFree p (x ∷ []) = p x ≡ false
EndsFree p (x ∷ y ∷ s) = EndsFree p (y ∷ s)

pub lstrip-append : (p : ℕ → Bool) (pad s : Text) → Full p pad → lstrip p (pad ++ s) ≡ lstrip p s
unfolding lstrip
lstrip-append p [] s h = refl
lstrip-append p (x ∷ pad) s h = rw h.0 (lstrip-append p pad s h.1)

pub lstrip_kept : (p : ℕ → Bool) (s : Text) → StartsFree p s → lstrip p s ≡ s
unfolding lstrip
lstrip_kept p [] h = absurd h
lstrip_kept p (x ∷ s) h = rw h

pub rstrip-Full : (p : ℕ → Bool) (pad : Text) → Full p pad → rstrip p pad ≡ []
unfolding rstrip
rstrip-Full p [] h = refl
rstrip-Full p (x ∷ pad) h = rw (rstrip-Full p pad h.1) (rw h.0)

pub rstrip-append :
    (p : ℕ → Bool) (s pad : Text) → EndsFree p s → Full p pad → rstrip p (s ++ pad) ≡ s
unfolding rstrip
rstrip-append p [] pad e h = absurd e
rstrip-append p (x ∷ []) pad e h = rw (rstrip-Full p pad h) (rw e)
rstrip-append p (x ∷ y ∷ s) pad e h = rw (rstrip-append p (y ∷ s) pad e h)

-- Padding on both sides is stripped, and nothing else.
pub strip_by_padded :
    (p : ℕ → Bool) (before s after : Text)
    → Full p before
    → StartsFree p s
    → EndsFree p s
    → Full p after
    → strip_by p (before ++ (s ++ after)) ≡ s
unfolding strip_by
strip_by_padded p before [] after hb hs he ha = absurd hs
strip_by_padded p before (x ∷ s) after hb hs he ha =
    rw (lstrip-append p before (x ∷ s ++ after) hb, lstrip_kept p (x ∷ s ++ after) hs)
      (rstrip-append p (x ∷ s) after he ha)

pub length-lstrip : (p : ℕ → Bool) (s : Text) → length (lstrip p s) ≤ length s
unfolding lstrip
length-lstrip p [] = omega arith
length-lstrip p (x ∷ s) = ground (arith, length-lstrip p s)

pub length-rstrip : (p : ℕ → Bool) (s : Text) → length (rstrip p s) ≤ length s
unfolding rstrip
length-rstrip p [] = omega arith
length-rstrip p (x ∷ s) = ground (arith, length-rstrip p s)

pub length-strip_by : (p : ℕ → Bool) (s : Text) → length (strip_by p s) ≤ length s
unfolding strip_by
length-strip_by p s = omega (arith, length-rstrip p (lstrip p s), length-lstrip p s)

-- The length of a text joined by one character, counted from its parts.
abbrev pub joined : List Text → ℕ
joined [] = 0
joined (p ∷ []) = length p
joined (p ∷ q ∷ ps) = length p + 1 + joined (q ∷ ps)

pub length-join : (c : ℕ) (ps : List Text) → length (join (c ∷ []) ps) ≡ joined ps
unfolding join
length-join c [] = refl
length-join c (p ∷ []) = refl
length-join c (p ∷ q ∷ ps) =
    omega (arith, length-append {0} p (c ∷ join (c ∷ []) (q ∷ ps)), length-join c (q ∷ ps))

joined-push_head : (x : ℕ) (ps : List Text) → joined (push_head x ps) ≡ suc (joined ps)
joined-push_head x [] = refl
joined-push_head x (p ∷ []) = refl
joined-push_head x (p ∷ q ∷ ps) = omega arith

split-ne-nil : (c : ℕ) (s : Text) → split c s ≢ []
unfolding split
split-ne-nil c [] = ground arith
split-ne-nil c (x ∷ s) = ground (arith, split-ne-nil c s)

joined_cons : (p : Text) (ps : List Text) → ps ≢ [] → joined (p ∷ ps) ≡ length p + 1 + joined ps
joined_cons p [] h = absurd (h refl)
joined_cons p (q ∷ ps) h = refl

pub joined-split : (c : ℕ) (s : Text) → joined (split c s) ≡ length s
unfolding split
joined-split c [] = refl
joined-split c (x ∷ s) = elim (Bool-cases (x == c)) [
  | inl cut ↦
      rw cut (omega (arith, joined_cons [] (split c s) (split-ne-nil c s), joined-split c s))
  | inr on ↦ rw on (omega (arith, joined-push_head x (split c s), joined-split c s))
]

pub EndsFree-append : (p : ℕ → Bool) (s t : Text) → EndsFree p t → EndsFree p (s ++ t)
EndsFree-append p [] t h = h
EndsFree-append p (x ∷ []) [] h = absurd h
EndsFree-append p (x ∷ []) (y ∷ t) h = h
EndsFree-append p (x ∷ y ∷ s) t h = EndsFree-append p (y ∷ s) t h

pub StartsFree-append : (p : ℕ → Bool) (s t : Text) → StartsFree p s → StartsFree p (s ++ t)
StartsFree-append p [] t h = absurd h
StartsFree-append p (x ∷ s) t h = h

-- A text that is free of a kind of characters starts and ends without one, if it is not empty.
pub Free-starts : (p : ℕ → Bool) (s : Text) → s ≢ [] → Free p s → StartsFree p s
Free-starts p [] h f = absurd (h refl)
Free-starts p (x ∷ s) h f = f.0

pub Free-ends : (p : ℕ → Bool) (s : Text) → s ≢ [] → Free p s → EndsFree p s
Free-ends p [] h f = absurd (h refl)
Free-ends p (x ∷ []) h f = f.0
Free-ends p (x ∷ y ∷ s) h f = Free-ends p (y ∷ s) (λ e. cc) f.1
