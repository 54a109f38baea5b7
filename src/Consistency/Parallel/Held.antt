-- ===== src/Consistency/Parallel/Held.antt =====
-- What the threads of the parallel run hold, and what it means that they have ended.
use cassandra_dtest.Base.{
  ℕ, zero, suc, ◌≡◌, ◌≢◌, refl, true, false, List, [], ◌∷◌, ◌++◌, All, replicate, ap, ◌∙◌, sym,
  true-ne-false,
}
use cassandra_dtest.Consistency.Parallel.{
  Worker, at_loop, at_get, at_end, validating, is_alive, ended,
}
use mathlib.Core.List.{Permᴰ, append_assoc}
use mathlib.Core.List.Permᴰ as Perm

module _ {I : Type 0} where
  -- The item of a thread.
  abbrev pub held : Worker I → List I
  held at_loop = []
  held at_get = []
  held at_end = []
  held (validating i) = i ∷ []

  abbrev pub all_held : List (Worker I) → List I
  all_held [] = []
  all_held (w ∷ ws) = held w ++ all_held ws

  pub all_held-append :
      (before : List (Worker I)) (w : Worker I) (after : List (Worker I))
      → all_held (before ++ (w ∷ after)) ≡ all_held before ++ (held w ++ all_held after)
  all_held-append [] w after = refl
  all_held-append (v ∷ before) w after =
      ap (λ l. held v ++ l) (all_held-append before w after)
      ∙ sym (append_assoc (held v) (all_held before) (held w ++ all_held after))

  -- An item moves from the queue to a thread.
  pub take_item : (a b q : List I) (i : I) → Permᴰ ((a ++ (i ∷ b)) ++ q) ((a ++ b) ++ (i ∷ q))
  take_item a b q i =
      Permᴰ.trans (Perm.append_right q (Perm.middle i a b)) (Perm.symm (Perm.middle i (a ++ b) q))

  -- From a thread to those that are done with.
  pub give_item :
      (d f a b q : List I) (i : I)
      → Permᴰ (i ∷ (d ++ (f ++ ((a ++ b) ++ q)))) (d ++ (f ++ ((a ++ (i ∷ b)) ++ q)))
  give_item d f a b q i = Permᴰ.trans (Perm.symm (Perm.middle i d (f ++ ((a ++ b) ++ q)))) (
      Perm.append_left d (
        Permᴰ.trans (Perm.symm (Perm.middle i f ((a ++ b) ++ q)))
          (Perm.append_left f (Perm.append_right q (Perm.symm (Perm.middle i a b))))))

  pub idle : (n : ℕ) → all_held (replicate n at_loop) ≡ []
  idle zero = refl
  idle (suc n) = idle n

  -- A thread ends only when the queue is empty, and it stays so.
  abbrev pub Drained : List I → List (Worker I) → Type 0
  Drained queue ws = All (λ w. is_alive w ≡ false → queue ≡ []) ws

  pub Drained-put :
      (queue queue' : List I) (before after : List (Worker I)) (w w' : Worker I)
      → Drained queue (before ++ (w ∷ after))
      → (queue ≡ [] → queue' ≡ [])
      → (is_alive w' ≡ false → queue' ≡ [])
      → Drained queue' (before ++ (w' ∷ after))
  Drained-put queue queue' [] after w w' h k l = (l, rest after h.1)
    where
      rest : (ws : List (Worker I)) → Drained queue ws → Drained queue' ws
      rest [] d = tt
      rest (v ∷ ws) d = (λ e. k (d.0 e), rest ws d.1)
  Drained-put queue queue' (v ∷ before) after w w' h k l =
      (λ e. k (h.0 e), Drained-put queue queue' before after w w' h.1 k l)

  pub Drained-start : (items : List I) (n : ℕ) → Drained items (replicate n at_loop)
  Drained-start items zero = tt
  Drained-start items (suc n) = (λ h. absurd (true-ne-false h), Drained-start items n)

  -- When all threads have ended they hold nothing, and a thread that is there says that the queue is
  -- empty.
  pub ended-held : (ws : List (Worker I)) → ended ws ≡ true → all_held ws ≡ []
  ended-held [] h = refl
  ended-held (at_end ∷ ws) h = ended-held ws h
  ended-held (at_loop ∷ ws) h = absurd (true-ne-false (sym h))
  ended-held (at_get ∷ ws) h = absurd (true-ne-false (sym h))
  ended-held (validating i ∷ ws) h = absurd (true-ne-false (sym h))

  pub ended-queue :
      (queue : List I) (ws : List (Worker I))
      → ws ≢ []
      → Drained queue ws
      → ended ws ≡ true
      → queue ≡ []
  ended-queue queue [] h d e = absurd (h refl)
  ended-queue queue (at_end ∷ ws) h d e = d.0 refl
  ended-queue queue (at_loop ∷ ws) h d e = absurd (true-ne-false (sym e))
  ended-queue queue (at_get ∷ ws) h d e = absurd (true-ne-false (sym e))
  ended-queue queue (validating i ∷ ws) h d e = absurd (true-ne-false (sym e))

  pub Drained-at :
      (queue : List I) (before : List (Worker I)) (w : Worker I) (after : List (Worker I))
      → Drained queue (before ++ (w ∷ after))
      → is_alive w ≡ false
      → queue ≡ []
  Drained-at queue [] w after d = d.0
  Drained-at queue (v ∷ before) w after d = Drained-at queue before w after d.1

  pub some-ne_nil :
      (before : List (Worker I)) (w : Worker I) (after : List (Worker I))
      → before ++ (w ∷ after) ≢ []
  some-ne_nil [] w after h = cc
  some-ne_nil (v ∷ before) w after h = cc
