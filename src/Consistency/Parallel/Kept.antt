-- ===== src/Consistency/Parallel/Kept.antt =====
-- The threads of the parallel run lose no combination and validate none twice.
use cassandra_dtest.Base.{
  ℕ, suc, ◌≡◌, ◌≢◌, refl, Bool, true, false, List, [], ◌∷◌, ◌++◌, Option, none, some, map, ap, ap₂,
  ◌∙◌, sym, subst, true-ne-false, none-ne-some, if◌then◌else◌, cons-ne-nil,
}
use cassandra_dtest.Consistency.Parallel.{
  Worker, at_loop, at_get, at_end, validating, is_alive, ended, Pool, work, put, Step, works, Reach,
  here, next, start_workers, verdict,
}
use cassandra_dtest.Consistency.Parallel.Held.{
  held, all_held, all_held-append, take_item, give_item, idle, Drained, Drained-put, Drained-start,
  Drained-at, ended-held, ended-queue, some-ne_nil,
}
use mathlib.Core.List.{Permᴰ, append-nil}
use mathlib.Core.List.Permᴰ as Perm

some-false : some false ≢ some true
some-false h = cc

module _ {I E : Type 0} where
  abbrev failed : Pool I E → List I
  failed p = map (λ f. f.0) p.exceptions

  -- What is validated, has failed, is with a thread or still in the queue.
  abbrev everything : Pool I E → List I
  everything p = p.validated ++ (failed p ++ (all_held p.workers ++ p.input_queue))

  -- The same, with one of the threads apart.
  abbrev shape : List (Worker I) → List (Worker I) → Worker I × Pool I E → List I
  shape before after (w, p) =
      p.validated
      ++ (failed p ++ ((all_held before ++ (held w ++ all_held after)) ++ p.input_queue))

  work-shape :
      (before after : List (Worker I)) (w : Worker I) (answer : Option E) (p : Pool I E)
      → Permᴰ (shape before after (work w answer p)) (shape before after (w, p))
  unfolding work
  work-shape before after at_end answer p = Perm.refl _
  work-shape before after at_loop answer p = looked p.input_queue
    where
      looked :
          (q : List I)
          → Permᴰ
              (shape before after (elim q [ [] ↦ (at_end, p) | i ∷ is ↦ (at_get, p) ]))
              (shape before after (at_loop, p))
      looked [] = Perm.refl _
      looked (i ∷ is) = Perm.refl _
  work-shape before after at_get answer p = got p.input_queue refl
    where
      fetched : List I → Worker I × Pool I E
      fetched q = elim q [
        | [] ↦ (at_loop, p)
        | i ∷ is ↦ (validating i, record p { input_queue = is })
      ]

      got :
          (q : List I)
          → p.input_queue ≡ q
          → Permᴰ (shape before after (fetched q)) (shape before after (at_get, p))
      got [] e = Perm.refl _
      got (i ∷ is) e =
          subst
            (λ r.
              Permᴰ (shape before after (validating i, record p { input_queue = is }))
                (p.validated ++ (failed p ++ ((all_held before ++ all_held after) ++ r))))
            (sym e)
            (Perm.append_left p.validated
              (Perm.append_left (failed p) (take_item (all_held before) (all_held after) is i)))
  work-shape before after (validating i) none p =
      give_item p.validated (failed p) (all_held before) (all_held after) p.input_queue i
  work-shape before after (validating i) (some e) p =
      Perm.append_left p.validated
        (give_item [] (failed p) (all_held before) (all_held after) p.input_queue i)

  put-shape :
      (before after : List (Worker I)) (r : Worker I × Pool I E)
      → everything (put before after r) ≡ shape before after r
  put-shape before after (w, p) =
      ap (λ l. p.validated ++ (failed p ++ (l ++ p.input_queue))) (all_held-append before w after)

  Step-Permᴰ : (p q : Pool I E) → Step p q → Permᴰ (everything q) (everything p)
  Step-Permᴰ _ _ (works p before after w answer h) =
      subst (λ l. Permᴰ l (everything p)) (sym (put-shape before after (work w answer p)))
        (subst (λ l. Permᴰ (shape before after (work w answer p)) l) (sym whole)
          (work-shape before after w answer p))
    where
      whole : everything p ≡ shape before after (w, p)
      whole =
          ap (λ l. p.validated ++ (failed p ++ (l ++ p.input_queue)))
            (ap all_held h ∙ all_held-append before w after)

  Reach-Permᴰ :
      (n : ℕ) (items : List I) (p : Pool I E)
      → Reach (start_workers n items) p
      → Permᴰ (everything p) items
  unfolding start_workers
  Reach-Permᴰ n items _ here =
      subst (λ l. Permᴰ (l ++ items) items) (sym (idle n)) (Perm.refl items)
  Reach-Permᴰ n items p (next {q = q} r s) =
      Permᴰ.trans (Step-Permᴰ q p s) (Reach-Permᴰ n items q r)

  -- A step leaves an empty queue empty, and ends a thread only at one.
  work_queue :
      (w : Worker I) (answer : Option E) (p : Pool I E)
      → (is_alive w ≡ false → p.input_queue ≡ [])
      → (p.input_queue ≡ [] → (work w answer p).1.input_queue ≡ [])
        × (is_alive (work w answer p).0 ≡ false → (work w answer p).1.input_queue ≡ [])
  unfolding work
  work_queue at_end answer p d = (λ e. e, d)
  work_queue (validating i) none p d = (λ e. e, λ h. absurd (true-ne-false h))
  work_queue (validating i) (some x) p d = (λ e. e, λ h. absurd (true-ne-false h))
  work_queue at_loop answer p d = looked p.input_queue refl
    where
      look_at : List I → Worker I × Pool I E
      look_at q = elim q [ [] ↦ (at_end, p) | i ∷ is ↦ (at_get, p) ]

      looked :
          (q : List I)
          → p.input_queue ≡ q
          → (p.input_queue ≡ [] → (look_at q).1.input_queue ≡ [])
            × (is_alive (look_at q).0 ≡ false → (look_at q).1.input_queue ≡ [])
      looked [] e = (λ h. h, λ h. e)
      looked (i ∷ is) e = (λ h. h, λ h. absurd (true-ne-false h))
  work_queue at_get answer p d = got p.input_queue refl
    where
      fetched : List I → Worker I × Pool I E
      fetched q = elim q [
        | [] ↦ (at_loop, p)
        | i ∷ is ↦ (validating i, record p { input_queue = is })
      ]

      got :
          (q : List I)
          → p.input_queue ≡ q
          → (p.input_queue ≡ [] → (fetched q).1.input_queue ≡ [])
            × (is_alive (fetched q).0 ≡ false → (fetched q).1.input_queue ≡ [])
      got [] e = (λ h. h, λ h. absurd (true-ne-false h))
      got (i ∷ is) e = (λ h. absurd (cons-ne-nil (sym e ∙ h)), λ h. absurd (true-ne-false h))

  Step-Drained :
      (p q : Pool I E)
      → Step p q
      → Drained p.input_queue p.workers
      → Drained q.input_queue q.workers
  Step-Drained _ _ (works p before after w answer h) d =
      let k = subst (Drained p.input_queue) h d in
      let f = work_queue w answer p (Drained-at p.input_queue before w after k) in
      Drained-put p.input_queue (work w answer p).1.input_queue before after w (work w answer p).0 k
        f.0 f.1

  Reach-Drained :
      (n : ℕ) (items : List I) (p : Pool I E)
      → Reach (start_workers (suc n) items) p
      → Drained p.input_queue p.workers × (p.workers ≢ [])
  unfolding start_workers
  Reach-Drained n items _ here = (Drained-start items (suc n), λ h. cc)
  Reach-Drained n items _ (next {q = q} r (works p before after w answer h)) = (
    Step-Drained p _ (works p before after w answer h) (Reach-Drained n items p r).0,
    some-ne_nil before (work w answer p).0 after,
  )

  -- With at least one thread, whenever the test passes, every combination that was put into the queue
  -- has been validated, each exactly once and without an exception, in whatever order the threads took
  -- their steps.
  pub verdict-Permᴰ :
      (n : ℕ) (items : List I) (p : Pool I E)
      → Reach (start_workers (suc n) items) p
      → verdict p ≡ some true
      → Permᴰ p.validated items
  unfolding verdict
  verdict-Permᴰ n items p r h = passed p.exceptions refl h
    where
      judged : List (I × E) → Option Bool
      judged es = elim es [
        | [] ↦ if ended p.workers then some true else none
        | e ∷ es' ↦ some false
      ]

      all_ended : (b : Bool) → (if b then some true else none) ≡ some true → b ≡ true
      all_ended true k = refl
      all_ended false k = absurd (none-ne-some k)

      passed :
          (es : List (I × E)) → p.exceptions ≡ es → judged es ≡ some true → Permᴰ p.validated items
      passed (e ∷ es) f k = absurd (some-false k)
      passed [] f k =
          let over = all_ended (ended p.workers) k in
          let d = Reach-Drained n items p r in
          subst (λ l. Permᴰ l items)
            (ap₂ (λ fs l. p.validated ++ (map (λ x. x.0) fs ++ l)) f
                (ap₂ (λ a b. a ++ b) (ended-held p.workers over)
                  (ended-queue p.input_queue p.workers d.1 d.0 over))
              ∙ append-nil p.validated)
            (Reach-Permᴰ (suc n) items p r)
