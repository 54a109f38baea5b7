-- ===== src/Examples/Pools.antt =====
-- Two threads and one combination, which the first thread validates.
use cassandra_dtest.Base.{ℕ, refl, ◌≡◌, true, List, [], ◌∷◌, some, none}
use cassandra_dtest.Consistency.Parallel.{
  Worker, at_loop, at_get, at_end, validating, Pool, work, works, Reach, here, next, start_workers,
  verdict,
}
use cassandra_dtest.Consistency.Parallel.Kept.{verdict-Permᴰ}
use mathlib.Core.List.{Permᴰ}

abbrev with : List ℕ → List ℕ → Worker ℕ → Worker ℕ → Pool ℕ ℕ
with queue validated first second = record {
  input_queue = queue;
  exceptions = [];
  validated = validated;
  workers = first ∷ second ∷ [];
}

finished : Reach (start_workers {E = ℕ} 2 (7 ∷ [])) (with [] (7 ∷ []) at_end at_end)
unfolding start_workers work
finished =
    next {q = with [] (7 ∷ []) at_end at_loop}
      (next {q = with [] (7 ∷ []) at_loop at_loop}
        (next {q = with [] [] (validating 7) at_loop}
          (next {q = with (7 ∷ []) [] at_get at_loop}
            (next {q = with (7 ∷ []) [] at_loop at_loop} here
              (works (with (7 ∷ []) [] at_loop at_loop) [] (at_loop ∷ []) at_loop none refl))
            (works (with (7 ∷ []) [] at_get at_loop) [] (at_loop ∷ []) at_get none refl))
          (works (with [] [] (validating 7) at_loop) [] (at_loop ∷ []) (validating 7) none refl))
        (works (with [] (7 ∷ []) at_loop at_loop) [] (at_loop ∷ []) at_loop none refl))
      (works (with [] (7 ∷ []) at_end at_loop) (at_end ∷ []) [] at_loop none refl)

passes : verdict (with [] (7 ∷ []) at_end at_end) ≡ some true
unfolding verdict
passes = refl

verdict-Permᴰ_example : Permᴰ {A = ℕ} (7 ∷ []) (7 ∷ [])
verdict-Permᴰ_example = verdict-Permᴰ 1 (7 ∷ []) (with [] (7 ∷ []) at_end at_end) finished passes
