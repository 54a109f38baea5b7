-- ===== src/Order/Sorting.antt =====
-- `sorted` on a linear order: the result depends on the elements only, not on the order that they come in.
use cassandra_dtest.Base.{
  ◌≡◌, refl, Bool, true, false, List, [], ◌∷◌, arith, ap, ap₂, ◌∙◌, sym, if◌then◌else◌,
  true-ne-false,
}
use cassandra_dtest.Order.{Order, IsLinear, is_le, is_le_trans}
use mathlib.Core.List.{Permᴰ}

module _ {A : Type 0} (cmp : A → A → Order) where
  -- Insertion in front of the first element that is not less.
  unfoldable pub insert_into : A → List A → List A
  insert_into a [] = a ∷ []
  insert_into a (z ∷ zs) = if is_le (cmp a z) then a ∷ z ∷ zs else z ∷ insert_into a zs

  unfoldable pub sorted : List A → List A
  unfolding insert_into
  sorted [] = []
  sorted (a ∷ xs) = insert_into a (sorted xs)

module _ {A : Type 0} {cmp : A → A → Order} (L : IsLinear cmp) where
  total : (a b : A) → is_le (cmp a b) ≡ false → is_le (cmp b a) ≡ true
  total a b h = ground (arith, L.cmp_flip a b)

  antisymmetric : (a b : A) → is_le (cmp a b) ≡ true → is_le (cmp b a) ≡ true → a ≡ b
  antisymmetric a b h k = ground (arith, L.cmp_flip a b, L.cmp_eq a b)

  -- Two elements in front of a list that both belong there.
  front :
      (a b : A) (zs : List A)
      → (if is_le (cmp a b) then a ∷ b ∷ zs else b ∷ a ∷ zs)
        ≡ (if is_le (cmp b a) then b ∷ a ∷ zs else a ∷ b ∷ zs)
  front a b zs = go (is_le (cmp a b)) (is_le (cmp b a)) (total a b) (antisymmetric a b)
    where
      go :
          (x y : Bool)
          → (x ≡ false → y ≡ true)
          → (x ≡ true → y ≡ true → a ≡ b)
          → (if x then a ∷ b ∷ zs else b ∷ a ∷ zs) ≡ (if y then b ∷ a ∷ zs else a ∷ b ∷ zs)
      go true true t e = ap₂ (λ c d. c ∷ d ∷ zs) (e refl refl) (sym (e refl refl))
      go true false t e = refl
      go false true t e = refl
      go false false t e = absurd (true-ne-false (sym (t refl)))

  here : (a z : A) (zs : List A) → is_le (cmp a z) ≡ true → insert_into cmp a (z ∷ zs) ≡ a ∷ z ∷ zs
  unfolding insert_into
  here a z zs h = rw h refl

  later :
      (a z : A) (zs : List A)
      → is_le (cmp a z) ≡ false
      → insert_into cmp a (z ∷ zs) ≡ z ∷ insert_into cmp a zs
  unfolding insert_into
  later a z zs h = rw h refl

  -- What comes before the head goes there, and what comes behind it passes it.
  apart :
      (a b z : A) (zs : List A)
      → is_le (cmp a z) ≡ true
      → is_le (cmp b z) ≡ false
      → insert_into cmp a (insert_into cmp b (z ∷ zs))
        ≡ insert_into cmp b (insert_into cmp a (z ∷ zs))
  apart a b z zs h k =
      ap (insert_into cmp a) (later b z zs k)
      ∙ here a z (insert_into cmp b zs) h
      ∙ sym (
          ap (insert_into cmp b) (here a z zs h)
          ∙ later b a (z ∷ zs) (behind (is_le (cmp b a)) refl)
          ∙ ap (λ l. a ∷ l) (later b z zs k))
    where
      behind : (x : Bool) → is_le (cmp b a) ≡ x → is_le (cmp b a) ≡ false
      behind false e = e
      behind true e = absurd (true-ne-false (sym (is_le_trans L b a z e h) ∙ k))

  insert_into_comm :
      (a b : A) (zs : List A)
      → insert_into cmp a (insert_into cmp b zs) ≡ insert_into cmp b (insert_into cmp a zs)
  unfolding insert_into
  insert_into_comm a b [] = front a b []
  insert_into_comm a b (z ∷ zs) =
      go (is_le (cmp a z)) refl (is_le (cmp b z)) refl (insert_into_comm a b zs)
    where
      go :
          (x : Bool)
          → is_le (cmp a z) ≡ x
          → (y : Bool) → is_le (cmp b z) ≡ y
          → insert_into cmp a (insert_into cmp b zs) ≡ insert_into cmp b (insert_into cmp a zs)
          → insert_into cmp a (insert_into cmp b (z ∷ zs))
            ≡ insert_into cmp b (insert_into cmp a (z ∷ zs))
      go true h true k rec =
          ap (insert_into cmp a) (here b z zs k)
          ∙ ap (λ l. if is_le (cmp a b) then a ∷ b ∷ z ∷ zs else b ∷ l) (here a z zs h)
          ∙ front a b (z ∷ zs)
          ∙ sym (ap (λ l. if is_le (cmp b a) then b ∷ a ∷ z ∷ zs else a ∷ l) (here b z zs k))
          ∙ sym (ap (insert_into cmp b) (here a z zs h))
      go true h false k rec = apart a b z zs h k
      go false h true k rec = sym (apart b a z zs k h)
      go false h false k rec =
          ap (insert_into cmp a) (later b z zs k)
          ∙ later a z (insert_into cmp b zs) h
          ∙ ap (λ l. z ∷ l) rec
          ∙ sym (ap (insert_into cmp b) (later a z zs h) ∙ later b z (insert_into cmp a zs) k)

  -- Lists with the same elements are sorted to the same list.
  pub sorted-Permᴰ : (xs bs : List A) → Permᴰ xs bs → sorted cmp xs ≡ sorted cmp bs
  unfolding sorted
  sorted-Permᴰ _ _ Permᴰ.nil = refl
  sorted-Permᴰ _ _ (Permᴰ.cons {l₁ = xs} {l₂ = bs} e p) =
      ap₂ (insert_into cmp) e (sorted-Permᴰ xs bs p)
  sorted-Permᴰ _ _ (Permᴰ.swap {a = a} {b = b} {a' = a'} {b' = b'} {l = l} e f) =
      insert_into_comm a b (sorted cmp l)
      ∙ ap₂ (λ c d. insert_into cmp c (insert_into cmp d (sorted cmp l))) f e
  sorted-Permᴰ _ _ (Permᴰ.trans {l₁ = xs} {l₂ = bs} {l₃ = cs} p q) =
      sorted-Permᴰ xs bs p ∙ sorted-Permᴰ bs cs q
