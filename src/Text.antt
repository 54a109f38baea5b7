-- ===== src/Text.antt =====
-- Python's `str`: a list of code points with the methods that the framework calls.
pub mod Laws
pub mod Decimal
pub mod Strip
use Prim.Native.Char.{code}
use Prim.Native.String.{String}
use cassandra_dtest.Base.{
  ℕ, suc, Bool, true, false, ◌&&◌, ◌||◌, List, [], ◌∷◌, ◌++◌, ◌+◌, ltb, leb, ◌==◌, if◌then◌else◌,
  drop, length,
}
use mathlib.Core.List.{reverse}

abbrev pub Text : Type 0
Text = List ℕ

-- A literal of the source.
abbrev pub text : String → Text
text String.[] = []
text (String.◌∷◌ c s) = code c ∷ text s

-- `a == b`
unfoldable pub text_eq : Text → Text → Bool
text_eq [] [] = true
text_eq [] (y ∷ ys) = false
text_eq (x ∷ xs) [] = false
text_eq (x ∷ xs) (y ∷ ys) = x == y && text_eq xs ys

-- `s.startswith(p)`
unfoldable pub starts_with : Text → Text → Bool
starts_with s [] = true
starts_with [] (y ∷ ys) = false
starts_with (x ∷ xs) (y ∷ ys) = x == y && starts_with xs ys

-- `s.endswith(p)`
unfoldable pub ends_with : Text → Text → Bool
unfolding starts_with
ends_with s p = starts_with (reverse s) (reverse p)

-- `p in s`
unfoldable pub contains : Text → Text → Bool
unfolding starts_with
contains [] p = starts_with [] p
contains (x ∷ xs) p = starts_with (x ∷ xs) p || contains xs p

-- ASCII white space, as `s.strip()` removes it.
abbrev pub is_space : ℕ → Bool
is_space c = c == 32 || (leb 9 c && leb c 13)

unfoldable pub lstrip : (ℕ → Bool) → Text → Text
lstrip p [] = []
lstrip p (x ∷ xs) = let rest = lstrip p xs in if p x then rest else x ∷ xs

unfoldable pub rstrip : (ℕ → Bool) → Text → Text
rstrip p [] = []
rstrip p (x ∷ xs) = keep x (rstrip p xs)
  where
    keep : ℕ → Text → Text
    keep x [] = if p x then [] else x ∷ []
    keep x (y ∷ ys) = x ∷ y ∷ ys

-- `s.strip(chars)` with the characters that `p` accepts.
unfoldable pub strip_by : (ℕ → Bool) → Text → Text
unfolding lstrip rstrip
strip_by p s = rstrip p (lstrip p s)

abbrev pub push_head : ℕ → List Text → List Text
push_head x [] = (x ∷ []) ∷ []
push_head x (p ∷ ps) = (x ∷ p) ∷ ps

-- `s.split(c)` at a single character; never the empty list.
unfoldable pub split : ℕ → Text → List Text
split c [] = [] ∷ []
split c (x ∷ xs) = let rest = split c xs in if x == c then [] ∷ rest else push_head x rest

-- `sep.join(parts)`
unfoldable pub join : Text → List Text → Text
join sep [] = []
join sep (p ∷ []) = p
join sep (p ∷ q ∷ ps) = p ++ (sep ++ join sep (q ∷ ps))

abbrev pub lower_code : ℕ → ℕ
lower_code c = if leb 65 c && leb c 90 then c + 32 else c

-- `s.lower()` on ASCII.
unfoldable pub lower : Text → Text
lower [] = []
lower (x ∷ xs) = lower_code x ∷ lower xs

abbrev pub is_digit : ℕ → Bool
is_digit c = leb 48 c && leb c 57

abbrev pub is_lower : ℕ → Bool
is_lower c = leb 97 c && leb c 122
