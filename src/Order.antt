-- ===== src/Order.antt =====
-- Python 2's three-way comparison, `cmp`, and its order on sequences.
pub mod Sorting
use cassandra_dtest.Base.{
  ℕ, ◌≡◌, refl, Bool, true, false, List, [], ◌∷◌, arith, ltb, ◌==◌, if◌then◌else◌,
}

pub data Order : Type 0 where
  less equal greater : Order

abbrev pub flip : Order → Order
flip less = greater
flip equal = equal
flip greater = less

-- What makes `cmp` a linear order.
pub record IsLinear {A : Type 0} (cmp : A → A → Order) : Type 0 where
  pub cmp_refl : (a : A) → cmp a a ≡ equal
  pub cmp_eq : (a b : A) → cmp a b ≡ equal → a ≡ b
  pub cmp_flip : (a b : A) → cmp b a ≡ flip (cmp a b)
  pub cmp_trans : (a b c : A) → cmp a b ≡ less → cmp b c ≡ less → cmp a c ≡ less

abbrev pub cmp_nat : ℕ → ℕ → Order
cmp_nat a b = if ltb a b then less else if a == b then equal else greater

pub cmp_nat-IsLinear : IsLinear cmp_nat
cmp_nat-IsLinear = record {
  cmp_refl = λ a. ground arith;
  cmp_eq = λ a b h. ground arith;
  cmp_flip = λ a b. ground arith;
  cmp_trans = λ a b c h k. ground arith;
}

-- The first difference decides, and a prefix comes first.
abbrev pub and_then : Order → Order → Order
and_then less o = less
and_then equal o = o
and_then greater o = greater

module _ {A : Type 0} (cmp : A → A → Order) where
  unfoldable pub cmp_list : List A → List A → Order
  cmp_list [] [] = equal
  cmp_list [] (b ∷ bs) = less
  cmp_list (a ∷ as') [] = greater
  cmp_list (a ∷ as') (b ∷ bs) = and_then (cmp a b) (cmp_list as' bs)

module _ {A : Type 0} {cmp : A → A → Order} (L : IsLinear cmp) where
  cmp_list_refl : (s : List A) → cmp_list cmp s s ≡ equal
  unfolding cmp_list
  cmp_list_refl [] = refl
  cmp_list_refl (a ∷ s) = rw (L.cmp_refl a) (cmp_list_refl s)

  cmp_list_eq : (s t : List A) → cmp_list cmp s t ≡ equal → s ≡ t
  unfolding cmp_list
  cmp_list_eq [] [] h = refl
  cmp_list_eq [] (b ∷ t) h = cc
  cmp_list_eq (a ∷ s) [] h = cc
  cmp_list_eq (a ∷ s) (b ∷ t) h = ground (arith, L.cmp_eq a b, cmp_list_eq s t)

  cmp_list-flip : (s t : List A) → cmp_list cmp t s ≡ flip (cmp_list cmp s t)
  unfolding cmp_list
  cmp_list-flip [] [] = refl
  cmp_list-flip [] (b ∷ t) = refl
  cmp_list-flip (a ∷ s) [] = refl
  cmp_list-flip (a ∷ s) (b ∷ t) = rw (L.cmp_flip a b, cmp_list-flip s t) (ground arith)

  cmp_list_trans :
      (s t u : List A) → cmp_list cmp s t ≡ less → cmp_list cmp t u ≡ less → cmp_list cmp s u ≡ less
  unfolding cmp_list
  cmp_list_trans [] [] u h k = k
  cmp_list_trans [] (b ∷ t) [] h k = cc
  cmp_list_trans [] (b ∷ t) (c ∷ u) h k = refl
  cmp_list_trans (a ∷ s) [] u h k = cc
  cmp_list_trans (a ∷ s) (b ∷ t) [] h k = cc
  cmp_list_trans (a ∷ s) (b ∷ t) (c ∷ u) h k =
      ground (arith, L.cmp_trans a b c, L.cmp_eq a b, L.cmp_eq b c, cmp_list_trans s t u)

  -- Sequences over a linear order are linearly ordered.
  pub cmp_list-IsLinear : IsLinear (cmp_list cmp)
  cmp_list-IsLinear = record {
    cmp_refl = cmp_list_refl;
    cmp_eq = cmp_list_eq;
    cmp_flip = cmp_list-flip;
    cmp_trans = cmp_list_trans;
  }

-- `a < b` and `a <= b` as Python derives them from `cmp`.
abbrev pub is_less : Order → Bool
is_less less = true
is_less equal = false
is_less greater = false

abbrev pub is_le : Order → Bool
is_le less = true
is_le equal = true
is_le greater = false

module _ {A : Type 0} {cmp : A → A → Order} (L : IsLinear cmp) where
  pub is_le_trans :
      (a b c : A) → is_le (cmp a b) ≡ true → is_le (cmp b c) ≡ true → is_le (cmp a c) ≡ true
  is_le_trans a b c h k = ground (arith, L.cmp_trans a b c, L.cmp_eq a b, L.cmp_eq b c)

  pub is_less-of_le_of_less :
      (a b c : A) → is_le (cmp a b) ≡ true → is_less (cmp b c) ≡ true → is_less (cmp a c) ≡ true
  is_less-of_le_of_less a b c h k = ground (arith, L.cmp_trans a b c, L.cmp_eq a b, L.cmp_eq b c)
