-- ===== src/TokenGenerator/MultiDc.antt =====
-- The combinations of data centres: reading the tool's output and checking it fit together.
use cassandra_dtest.Base.{
  ℕ, ◌≡◌, ◌↔◌, refl, Bool, true, false, ◌&&◌, List, [], ◌∷◌, Option, returned, raised, length, map,
  All, ap, ◌∙◌, sym, returned_injective, ℤ, true-ne-false,
}
use cassandra_dtest.Text.{Text}
use cassandra_dtest.TokenGenerator.{
  check_combination, call_token_generator, multi_dc_tokens, Tokens,
}
use cassandra_dtest.TokenGenerator.Checks.{Distinct, InRange, in_order, check_combination_iff}

-- Tokens for a combination: as many for each data centre as it has nodes, all of them in range and no
-- token twice.
abbrev pub IsRightFor : Option Bool → List ℕ → List (List ℤ) → Type 0
IsRightFor random dc_nodes generated =
    (map (λ ts. length ts) generated ≡ dc_nodes)
    × InRange random (in_order generated)
    × Distinct (in_order generated)

-- What the test requires of the tool's text for a combination.
abbrev pub Passes : Option Bool → (List ℕ → Text) → List ℕ → Type 0
Passes random tool dc_nodes =
    (generated : List (List ℤ)) × ((call_token_generator (tool dc_nodes) ≡ returned generated)
      × IsRightFor random dc_nodes generated)

-- The test of the combinations passes exactly when, for each of them, the tool's text can be read and
-- gives as many tokens for every data centre as it has nodes, all of them in range and no token twice.
pub multi_dc_tokens_iff :
    (random : Option Bool) (combinations : List (List ℕ)) (tool : List ℕ → Text)
    → (multi_dc_tokens random combinations tool ≡ true) ↔ All (Passes random tool) combinations
unfolding multi_dc_tokens
multi_dc_tokens_iff random [] tool = (λ h. tt, λ h. refl)
multi_dc_tokens_iff random (dc_nodes ∷ rest) tool =
    go (multi_dc_tokens_iff random rest tool) (call_token_generator (tool dc_nodes)) refl
  where
    judge : Tokens → Bool
    judge o = elim o [
      | raised e ↦ false
      | returned generated ↦
          check_combination random dc_nodes generated && multi_dc_tokens random rest tool
    ]

    both : (a b : Bool) → (a && b) ≡ true → (a ≡ true) × (b ≡ true)
    both true b h = (refl, h)
    both false b h = absurd (true-ne-false (sym h))

    go :
        ((multi_dc_tokens random rest tool ≡ true) ↔ All (Passes random tool) rest)
        → (o : Tokens) → call_token_generator (tool dc_nodes) ≡ o
        → (judge o ≡ true) ↔ (Passes random tool dc_nodes × All (Passes random tool) rest)
    go again (raised e) q = (λ h. cc, λ h. absurd (differs (sym q ∙ h.0.1.0)))
      where
        differs : {g : List (List ℤ)} → ◌≡◌ {A = Tokens} (raised e) (returned g) → ⊥
        differs h = cc
    go again (returned generated) q = (
      λ h.
          let (now, later) =
            both (check_combination random dc_nodes generated) (multi_dc_tokens random rest tool)
              h in
          (
            (generated, (q, (check_combination_iff random dc_nodes generated).0 now)),
            again.0 later,
          ),
      λ h.
          let same : h.0.0 ≡ generated = returned_injective (sym h.0.1.0 ∙ q) in
          let now : check_combination random dc_nodes generated ≡ true =
            ap (check_combination random dc_nodes) (sym same)
            ∙ (check_combination_iff random dc_nodes h.0.0).1 h.0.1.1 in
          ap (λ b. b && multi_dc_tokens random rest tool) now ∙ again.1 h.1,
    )
