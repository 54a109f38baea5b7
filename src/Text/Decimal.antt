-- ===== src/Text/Decimal.antt =====
-- `str(n)` and `int(s)` of Python for numbers that are not negative.
use cassandra_dtest.Base.{
  ℕ, zero, suc, Bool, false, ◌+◌, ◌-◌, ◌*◌, ◌/◌, ◌%◌, ◌<◌, ◌≡◌, refl, true, inl, inr, [], ◌∷◌,
  arith, ltb, Option, none, some, if◌then◌else◌, Bool-cases, all, ◌≢◌, ap, ◌∙◌,
}
use cassandra_dtest.Text.{Text, is_digit}
use cassandra_dtest.Text.Laws.{Free}

-- The digits of `n` in front of `acc`; the fuel bounds the number of digits.
unfoldable pub digits_onto : ℕ → ℕ → Text → Text
digits_onto zero n acc = acc
digits_onto (suc fuel) n acc =
    let rest = digits_onto fuel (n / 10) ((48 + n % 10) ∷ acc) in
    if ltb n 10 then (48 + n) ∷ acc else rest

-- `str(n)`
unfoldable pub str : ℕ → Text
unfolding digits_onto
str n = digits_onto (suc n) n []

-- The value of a run of digits, read from the left.
unfoldable pub value_from : ℕ → Text → ℕ
value_from acc [] = acc
value_from acc (c ∷ cs) = value_from (acc * 10 + (c - 48)) cs

-- `int(s)`; `none` is a `ValueError`.
unfoldable pub int : Text → Option ℕ
unfolding value_from
int [] = none
int (c ∷ cs) = if all is_digit (c ∷ cs) then some (value_from 0 (c ∷ cs)) else none

value_from-digits_onto :
    (fuel n : ℕ) (acc : Text) → n < fuel → value_from 0 (digits_onto fuel n acc) ≡ value_from n acc
unfolding digits_onto value_from
value_from-digits_onto zero n acc h = elim h [ ]
value_from-digits_onto (suc fuel) n acc h = elim (Bool-cases (ltb n 10)) [
  | inl small ↦ ground arith
  | inr large ↦
      rw large (ground (arith, value_from-digits_onto fuel (n / 10) ((48 + n % 10) ∷ acc)))
]

-- All of a number's text is digits, and it is not empty.
digits_onto-digits :
    (fuel n : ℕ) (acc : Text)
    → all is_digit acc ≡ true
    → all is_digit (digits_onto fuel n acc) ≡ true
unfolding digits_onto
digits_onto-digits zero n acc h = h
digits_onto-digits (suc fuel) n acc h =
    ground (arith, digits_onto-digits fuel (n / 10) ((48 + n % 10) ∷ acc))

pub str-digits : (n : ℕ) → all is_digit (str n) ≡ true
unfolding str
str-digits n = digits_onto-digits (suc n) n [] refl

digits_onto-ne : (fuel n : ℕ) (acc : Text) → acc ≢ [] → digits_onto fuel n acc ≢ []
unfolding digits_onto
digits_onto-ne zero n acc h = h
digits_onto-ne (suc fuel) n acc h =
    ground (arith, digits_onto-ne fuel (n / 10) ((48 + n % 10) ∷ acc))

pub str-ne-nil : (n : ℕ) → str n ≢ []
unfolding str digits_onto
str-ne-nil n = ground (arith, digits_onto-ne n (n / 10) ((48 + n % 10) ∷ []))

int_of_digits : (s : Text) → s ≢ [] → all is_digit s ≡ true → int s ≡ some (value_from 0 s)
unfolding int
int_of_digits [] h d = absurd (h refl)
int_of_digits (c ∷ cs) h d = rw d

pub value_from-str : (n : ℕ) → value_from 0 (str n) ≡ n
unfolding str value_from
value_from-str n = value_from-digits_onto (suc n) n [] (omega arith)

-- Printing a number and reading it back gives the number.
pub int-str : (n : ℕ) → int (str n) ≡ some n
int-str n = int_of_digits (str n) (str-ne-nil n) (str-digits n) ∙ ap some (value_from-str n)

-- Digits hold none of the characters that are no digits.
pub digit-Free :
    (p : ℕ → Bool)
    → ((x : ℕ) → is_digit x ≡ true → p x ≡ false)
    → (ds : Text) → all is_digit ds ≡ true
    → Free p ds
digit-Free p h [] d = tt
digit-Free p h (x ∷ ds) d = (h x (ground arith), digit-Free p h ds (ground arith))
