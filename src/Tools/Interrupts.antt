-- ===== src/Tools/Interrupts.antt =====
-- The threads `InterruptBootstrap`, `InterruptCompaction` and `KillOnBootstrap` of tools.py.
-- The search for a regular expression is a parameter, and so is what a node writes to its log.
use cassandra_dtest.Base.{
  ℕ, ◌≡◌, refl, Bool, true, false, List, [], ◌∷◌, ◌++◌, Option, none, some, any, drop, length, ap,
  ap₂, subst, ◌∙◌, sym, if◌then◌else◌, true-ne-false, none-ne-some, drop-append, any-append,
}
use cassandra_dtest.Text.{Text, text, text_eq}
use mathlib.Core.List.{append-nil, append_assoc}

-- What a thread waits for: the pattern, the log file (the default of `watch_log_for` without one) and
-- the number of lines to pass over.
pub record Interrupt : Type 0 where
  pub pattern : Text
  pub filename : Option Text
  pub mark : ℕ

-- The logs of the node, and whether it runs.
pub record NodeState : Type 0 where
  pub log : Option Text → List Text
  pub running : Bool

-- `InterruptBootstrap(node)`
unfoldable pub interrupt_bootstrap : Interrupt
interrupt_bootstrap = record { pattern = text "Prepare completed"; filename = none; mark = 0 }

-- `KillOnBootstrap(node)`
unfoldable pub kill_on_bootstrap : Interrupt
kill_on_bootstrap = record {
  pattern = text "JOINING: Starting to bootstrap";
  filename = none;
  mark = 0;
}

-- `InterruptCompaction(node, tablename, filename)`: the mark is taken when the thread is made.
unfoldable pub interrupt_compaction : Text → Text → NodeState → Interrupt
interrupt_compaction tablename filename w = record {
  pattern = text "Compacting(.*)" ++ tablename;
  filename = some filename;
  mark = length (w.log (some filename));
}

abbrev same_file : Option Text → Option Text → Bool
same_file none none = true
same_file none (some f) = false
same_file (some f) none = false
same_file (some f) (some g) = text_eq f g

module _ (found : Text → Text → Bool) where
  -- A look of `watch_log_for` at the lines behind the mark, and `stop(gently=False)` after it.
  unfoldable pub look : Interrupt → NodeState → Option NodeState
  look i w =
      if any (found i.pattern) (drop i.mark (w.log i.filename))
      then some (record { log = w.log; running = false })
      else none

  -- A step of the node, which writes lines to its logs, or of the thread.
  pub data Step (i : Interrupt) : NodeState → NodeState → Type 0 where
    logged :
        {w : NodeState} (log' : Option Text → List Text) (lines : Option Text → List Text)
        → w.running ≡ true
        → ((file : Option Text) → log' file ≡ w.log file ++ lines file)
        → Step i w (record { log = log'; running = true })
    stopped : {w w' : NodeState} → w.running ≡ true → look i w ≡ some w' → Step i w w'

  pub data Steps (i : Interrupt) : NodeState → NodeState → Type 0 where
    done : {w : NodeState} → Steps i w w
    then_step : {w w' w'' : NodeState} → Steps i w w' → Step i w' w'' → Steps i w w''

module _ (found : Text → Text → Bool) (i : Interrupt) where
  -- What has come to the log since `w`, and that some line of it is what the thread waits for once the
  -- node does not run.
  abbrev Grown : NodeState → NodeState → Type 0
  Grown w v =
      (lines : List Text) × (v.log i.filename ≡ w.log i.filename ++ lines)
      × (v.running ≡ false → any (found i.pattern) lines ≡ true)

  Step-Grown :
      (w v v' : NodeState)
      → i.mark ≡ length (w.log i.filename)
      → Grown w v
      → Step found i v v'
      → Grown w v'
  unfolding look
  Step-Grown w v v' m g (logged log' lines r e) = (
    g.0 ++ lines i.filename,
    e i.filename
        ∙ ap (λ l. l ++ lines i.filename) g.1
        ∙ append_assoc (w.log i.filename) g.0 (lines i.filename),
    λ h. absurd (true-ne-false h),
  )
  Step-Grown w v v' m g (stopped r e) =
      go (any (found i.pattern) (drop i.mark (v.log i.filename))) refl e
    where
      behind_mark : drop i.mark (v.log i.filename) ≡ g.0
      behind_mark =
          ap₂ drop m g.1 ∙ drop-append (length (w.log i.filename)) (w.log i.filename) g.0 refl

      chosen : Bool → Option NodeState
      chosen b = if b then some (record { log = v.log; running = false }) else none

      go :
          (b : Bool)
          → any (found i.pattern) (drop i.mark (v.log i.filename)) ≡ b
          → chosen b ≡ some v'
          → Grown w v'
      go false f k = absurd (none-ne-some k)
      go true f k =
          let s : record { log = v.log; running = false } ≡ v' = cc in
          subst (Grown w) s (g.0, g.1, λ h. sym (ap (any (found i.pattern)) behind_mark) ∙ f)

  Steps-Grown :
      (w v : NodeState)
      → i.mark ≡ length (w.log i.filename)
      → w.running ≡ true
      → Steps found i w v
      → Grown w v
  Steps-Grown w v m r done =
      ([], sym (append-nil (w.log i.filename)), λ h. absurd (true-ne-false (sym r ∙ h)))
  Steps-Grown w v m r (then_step {w' = u} us s) = Step-Grown w u v m (Steps-Grown w u m r us) s

-- `InterruptCompaction` never stops a node for what was in the log when the thread was made: in every
-- state that the node and the thread reach from there and in which the node does not run any more, the
-- log has grown by some lines, and one of these new lines is about a compaction of the table.
pub interrupt_compaction-Grown :
    (found : Text → Text → Bool) (tablename filename : Text) (w v : NodeState)
    → w.running ≡ true
    → Steps found (interrupt_compaction tablename filename w) w v
    → v.running ≡ false
    → (lines : List Text) × (v.log (some filename) ≡ w.log (some filename) ++ lines)
      × (any (found (text "Compacting(.*)" ++ tablename)) lines ≡ true)
unfolding interrupt_compaction
interrupt_compaction-Grown found tablename filename w v r us stops =
    let g = Steps-Grown found (interrupt_compaction tablename filename w) w v refl r us in
    (g.0, g.1, g.2 stops)

-- The other way round: once a line that matches is behind the mark, the next look stops the node.
pub look_stops :
    (found : Text → Text → Bool) (i : Interrupt) (w : NodeState) (before after : List Text)
    (line : Text)
    → drop i.mark (w.log i.filename) ≡ before ++ (line ∷ after)
    → found i.pattern line ≡ true
    → look found i w ≡ some (record { log = w.log; running = false })
unfolding look
look_stops found i w before after line h f =
    ap (λ b. if b then some (record { log = w.log; running = false }) else none)
      (ap (any (found i.pattern)) h ∙ any-append (found i.pattern) before line after f)
