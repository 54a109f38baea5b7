-- ===== src/TokenGenerator/Checks.antt =====
-- What it means that the checks of `token_generator.py` pass.
use cassandra_dtest.Base.{
  ℕ, ◌+◌, ◌≡◌, ◌≢◌, ◌↔◌, refl, Bool, true, false, ◌&&◌, not, List, [], ◌∷◌, ◌++◌, Option, none,
  some, length, map, All, ℤ, eq_ℤ_iff, arith, ap, ap₂, length-map, subst, ◌∙◌, fun_ext, sym,
  length-append, ==_iff, ==_refl, ◌==◌, if◌then◌else◌, sum, none-ne-some,
}
use cassandra_dtest.TokenGenerator.{in_range, member, add_all, add_dcs, check_combination}

-- No element equals `t`.
abbrev pub IsNew : ℤ → List ℤ → Type 0
IsNew t us = All (λ u. u ≢ t) us

abbrev pub Distinct : List ℤ → Type 0
Distinct [] = Unit
Distinct (t ∷ ts) = IsNew t ts × Distinct ts

abbrev pub InRange : Option Bool → List ℤ → Type 0
InRange random ts = All (λ t. in_range random t ≡ true) ts

-- The tokens of the data centres, one after another.
abbrev pub in_order : List (List ℤ) → List ℤ
in_order [] = []
in_order (ts ∷ generated) = ts ++ in_order generated

member-false : (t : ℤ) (us : List ℤ) → (member t us ≡ false) ↔ IsNew t us
unfolding member
member-false t [] = (λ h. tt, λ h. refl)
member-false t (u ∷ us) =
    let e = member-false t us in
    let f = eq_ℤ_iff u t in
    (
      λ h. (λ k. ground (arith, f.1 k, h), e.0 (ground (arith, h))),
      λ h. ground (arith, f.0, e.1 h.1, h.0),
    )

-- Against tokens seen before: each is in range, none was seen, and they are distinct.
abbrev AllNew : List ℤ → List ℤ → Type 0
AllNew ts seen = All (λ t. IsNew t seen) ts

AllNew-cons : (t : ℤ) (ts seen : List ℤ) → AllNew ts (t ∷ seen) ↔ (IsNew t ts × AllNew ts seen)
AllNew-cons t [] seen = (λ h. (tt, tt), λ h. tt)
AllNew-cons t (u ∷ ts) seen =
    let e = AllNew-cons t ts seen in
    (
      λ h. ((λ k. h.0.0 (sym k), (e.0 h.1).0), (h.0.1, (e.0 h.1).1)),
      λ h. ((λ k. h.0.0 (sym k), h.1.0), e.1 (h.0.1, h.1.1)),
    )

abbrev onto : List ℤ → List ℤ → List ℤ
onto [] seen = seen
onto (t ∷ ts) seen = onto ts (t ∷ seen)

abbrev Good : Option Bool → List ℤ → List ℤ → Type 0
Good random ts seen = InRange random ts × Distinct ts × AllNew ts seen

-- What the test of one token leads to.
abbrev after_test : Option Bool → ℤ → List ℤ → List ℤ → Bool → Option (List ℤ)
after_test random t ts seen fits = elim fits [ true ↦ add_all random ts (t ∷ seen) | false ↦ none ]

add_all-cons :
    (random : Option Bool) (t : ℤ) (ts seen : List ℤ)
    → add_all random (t ∷ ts) seen
      ≡ after_test random t ts seen (in_range random t && not (member t seen))
unfolding add_all
add_all-cons random t ts seen = refl

abbrev and_then : Option (List ℤ) → (List ℤ → Option (List ℤ)) → Option (List ℤ)
and_then o f = elim o [ none ↦ none | some s ↦ f s ]

add_all-Good :
    (random : Option Bool) (ts seen all_tokens : List ℤ)
    → add_all random ts seen ≡ some all_tokens
    → Good random ts seen × (length all_tokens ≡ length ts + length seen)
unfolding add_all
add_all-Good random [] seen all_tokens h = ((tt, tt, tt), ground (arith, h))
add_all-Good random (t ∷ ts) seen all_tokens h =
    let i : in_range random t ≡ true = ground (arith, h) in
    let n : member t seen ≡ false = ground (arith, h) in
    let e : add_all random ts (t ∷ seen) ≡ some all_tokens = ground (arith, h, i, n) in
    let r = add_all-Good random ts (t ∷ seen) all_tokens e in
    let c = (AllNew-cons t ts seen).0 r.0.2 in
    (((i, r.0.0), (c.0, r.0.1), ((member-false t seen).0 n, c.1)), omega (arith, r.1))

Good-add_all :
    (random : Option Bool) (ts seen : List ℤ)
    → Good random ts seen
    → add_all random ts seen ≡ some (onto ts seen)
unfolding add_all
Good-add_all random [] seen h = refl
Good-add_all random (t ∷ ts) seen h =
    let fits : (in_range random t && not (member t seen)) ≡ true =
      rw (h.0.0, (member-false t seen).1 h.2.0) refl in
    add_all-cons random t ts seen
    ∙ ap (after_test random t ts seen) fits
    ∙ Good-add_all random ts (t ∷ seen) (h.0.1, h.1.1, (AllNew-cons t ts seen).1 (h.1.0, h.2.1))

add_all-append :
    (random : Option Bool) (ts us seen : List ℤ)
    → add_all random (ts ++ us) seen ≡ and_then (add_all random ts seen) (add_all random us)
unfolding add_all
add_all-append random [] us seen = refl
add_all-append random (t ∷ ts) us seen =
    go (in_range random t && not (member t seen)) (add_all-append random ts us (t ∷ seen))
  where
    go :
        (fits : Bool)
        → add_all random (ts ++ us) (t ∷ seen)
          ≡ and_then (add_all random ts (t ∷ seen)) (add_all random us)
        → after_test random t (ts ++ us) seen fits
          ≡ and_then (after_test random t ts seen fits) (add_all random us)
    go true r = r
    go false r = refl

-- As many tokens as nodes, for each data centre.
abbrev Sized : List ℕ → List (List ℤ) → Type 0
Sized dc_nodes generated = map (λ ts. length ts) generated ≡ dc_nodes

abbrev after_count : Option Bool → List ℤ → List (List ℤ) → List ℕ → List ℤ → Bool → Option (List ℤ)
after_count random ts generated dc_nodes seen fits = elim fits [
  | true ↦ and_then (add_all random ts seen) (add_dcs random dc_nodes generated)
  | false ↦ none
]

add_dcs-Sized :
    (random : Option Bool) (dc_nodes : List ℕ) (generated : List (List ℤ))
    (seen all_tokens : List ℤ)
    → length dc_nodes ≡ length generated
    → add_dcs random dc_nodes generated seen ≡ some all_tokens
    → Sized dc_nodes generated × (add_all random (in_order generated) seen ≡ some all_tokens)
unfolding add_dcs add_all
add_dcs-Sized random [] [] seen all_tokens l h = (refl, h)
add_dcs-Sized random [] (ts ∷ generated) seen all_tokens l h = absurd (omega (arith, l))
add_dcs-Sized random (n ∷ dc_nodes) [] seen all_tokens l h = absurd (omega (arith, l))
add_dcs-Sized random (n ∷ dc_nodes) (ts ∷ generated) seen all_tokens l h =
    let fits : (n == length ts) ≡ true = ground (arith, h) in
    let e : and_then (add_all random ts seen) (add_dcs random dc_nodes generated)
        ≡ some all_tokens =
      sym (ap (after_count random ts generated dc_nodes seen) fits) ∙ h in
    go (add_all random ts seen)
      (λ s. add_dcs-Sized random dc_nodes generated s all_tokens (omega (arith, l))) refl e
      ((==_iff n (length ts)).0 fits)
  where
    go :
        (o : Option (List ℤ))
        → ((s : List ℤ)
            → add_dcs random dc_nodes generated s ≡ some all_tokens
            → Sized dc_nodes generated × (add_all random (in_order generated) s ≡ some all_tokens))
        → add_all random ts seen ≡ o
        → and_then o (add_dcs random dc_nodes generated) ≡ some all_tokens
        → n ≡ length ts
        → (length ts ∷ map (λ us. length us) generated ≡ n ∷ dc_nodes)
          × (add_all random (ts ++ in_order generated) seen ≡ some all_tokens)
    go none rec e k f = absurd (none-ne-some k)
    go (some s) rec e k f =
        let r = rec s k in
        (
          ap₂ (λ m ms. m ∷ ms) (sym f) r.0,
          add_all-append random ts (in_order generated) seen
              ∙ ap (λ o. and_then o (add_all random (in_order generated))) e
              ∙ r.1,
        )

Sized-add_dcs :
    (random : Option Bool) (generated : List (List ℤ)) (seen : List ℤ)
    → add_dcs random (map (λ ts. length ts) generated) generated seen
      ≡ add_all random (in_order generated) seen
unfolding add_dcs add_all
Sized-add_dcs random [] seen = refl
Sized-add_dcs random (ts ∷ generated) seen =
    ap (after_count random ts generated (map (λ us. length us) generated) seen)
      (==_refl (length ts))
    ∙ ap (and_then (add_all random ts seen)) (fun_ext (λ s. Sized-add_dcs random generated s))
    ∙ sym (add_all-append random ts (in_order generated) seen)

length-in_order :
    (generated : List (List ℤ))
    → length (in_order generated) ≡ sum (map (λ ts. length ts) generated)
length-in_order [] = refl
length-in_order (ts ∷ generated) =
    omega (arith, length-append ts (in_order generated), length-in_order generated)

AllNew-nil : (ts : List ℤ) → AllNew ts []
AllNew-nil [] = tt
AllNew-nil (t ∷ ts) = (tt, AllNew-nil ts)

length-onto : (ts seen : List ℤ) → length (onto ts seen) ≡ length ts + length seen
length-onto [] seen = omega arith
length-onto (t ∷ ts) seen = omega (arith, length-onto ts (t ∷ seen))

-- The assertions of a combination, by the two lengths and what the loops leave.
abbrev pub passes : List ℕ → List (List ℤ) → Option (List ℤ) → Bool
passes dc_nodes generated o =
    if length dc_nodes == length generated
    then elim o [ none ↦ false | some all_tokens ↦ length all_tokens == sum dc_nodes ]
    else false

passes_same :
    (dc_nodes : List ℕ) (generated : List (List ℤ)) (o : Option (List ℤ))
    → passes dc_nodes generated o ≡ true
    → (length dc_nodes ≡ length generated) × (s : List ℤ) × (o ≡ some s)
passes_same dc_nodes generated none h = absurd (ground (arith, h))
passes_same dc_nodes generated (some s) h = (ground (arith, h), s, refl)

passes_full :
    (generated : List (List ℤ))
    → passes (map (λ ts. length ts) generated) generated (some (onto (in_order generated) []))
      ≡ true
passes_full generated =
    let l = length-map (λ (ts : List ℤ). length ts) generated in
    let o = length-onto (in_order generated) [] in
    let n = length-in_order generated in ground (arith, l, o, n)

-- The check of a combination passes exactly if the tool gave each data centre as many tokens as it has
-- nodes, every token is in the range of the partitioner, and no token occurs twice, in whatever data
-- centres.
pub check_combination_iff :
    (random : Option Bool) (dc_nodes : List ℕ) (generated : List (List ℤ))
    → (check_combination random dc_nodes generated ≡ true) ↔ (
        (map (λ ts. length ts) generated ≡ dc_nodes)
        × InRange random (in_order generated)
        × Distinct (in_order generated))
unfolding check_combination
check_combination_iff random dc_nodes generated = (
  λ h.
      let p = passes_same dc_nodes generated (add_dcs random dc_nodes generated []) h in
      let r = add_dcs-Sized random dc_nodes generated [] p.1 p.0 p.2 in
      let g = (add_all-Good random (in_order generated) [] p.1 r.1).0 in (r.0, g.0, g.1),
  λ h.
      subst (λ ns. passes ns generated (add_dcs random ns generated []) ≡ true) h.0
        (ap (passes (map (λ ts. length ts) generated) generated) (
            Sized-add_dcs random generated []
            ∙ Good-add_all random (in_order generated) []
                (h.1, h.2, AllNew-nil (in_order generated)))
          ∙ passes_full generated),
)
