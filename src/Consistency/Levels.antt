-- ===== src/Consistency/Levels.antt =====
-- `_should_succeed` and `get_num_nodes` against their descriptions.
use cassandra_dtest.Base.{
  ℕ, zero, suc, ◌+◌, ◌/◌, ◌≤◌, ◌<◌, ◌≡◌, ◌↔◌, refl, true, false, inl, inr, List, [], ◌∷◌, Option,
  none, some, arith, leb, if◌then◌else◌, get_elem?, sum, length, Bool-cases, le→leb, leb→le, subst,
  sym, ap,
}
use cassandra_dtest.Consistency.{
  Level, each_quorum, local_quorum, local_serial, local_one, required_nodes, enough, each_from,
  should_succeed,
}

pub get_elem?-in {ℓ} :
    {A : Type ℓ} (xs : List A) (i : ℕ) → i < length xs → (a : A) × (get_elem? xs i ≡ some a)
get_elem?-in [] i h = absurd (omega arith)
get_elem?-in (x ∷ xs) zero h = (x, refl)
get_elem?-in (x ∷ xs) (suc i) h = get_elem?-in xs i (omega arith)

-- Pointwise `≤` on lists of one length.
pub data AtLeast : List ℕ → List ℕ → Type 0 where
  none_left : AtLeast [] []
  more : {m n : ℕ} {ms ns : List ℕ} → m ≤ n → AtLeast ms ns → AtLeast (m ∷ ms) (n ∷ ns)

sum_mono : {ms ns : List ℕ} → AtLeast ms ns → sum ms ≤ sum ns
sum_mono none_left = omega arith
sum_mono (more h t) = omega (arith, sum_mono t)

-- What the nodes of a larger count find at an index.
abbrev Above : Option ℕ → Option ℕ → Type 0
Above none none = Unit
Above none (some n) = ⊥
Above (some m) none = ⊥
Above (some m) (some n) = m ≤ n

get_elem?-mono :
    {ms ns : List ℕ} → AtLeast ms ns → (i : ℕ) → Above (get_elem? ms i) (get_elem? ns i)
get_elem?-mono none_left i = tt
get_elem?-mono (more h t) zero = h
get_elem?-mono (more h t) (suc i) = get_elem?-mono t i

enough_mono : (a b r : Option ℕ) → Above a b → enough a r ≡ some true → enough b r ≡ some true
enough_mono none none r h e = e
enough_mono none (some n) r h e = absurd h
enough_mono (some m) none r h e = absurd h
enough_mono (some m) (some n) none h e = cc
enough_mono (some m) (some n) (some k) h e = ground arith

each_from_mono :
    {ms ns : List ℕ} (rf : List ℕ)
    → AtLeast ms ns
    → (i count : ℕ) → each_from rf ms i count ≡ some true
    → each_from rf ns i count ≡ some true
unfolding each_from
each_from_mono rf h i zero e = refl
each_from_mono {ms} {ns} rf h i (suc count) e = ground (
  arith,
  each_from_mono rf h (suc i) count,
  enough_mono (get_elem? ms i) (get_elem? ns i) (required_nodes each_quorum rf i)
      (get_elem?-mono h i),
)

-- More nodes up never turn an operation that should succeed into one that should not: at every
-- level, data centre and replication, if each data centre has at least as many nodes alive.
pub should_succeed_mono :
    (cl : Level) (rf ms ns : List ℕ) (dc : ℕ)
    → AtLeast ms ns
    → should_succeed cl rf ms dc ≡ some true
    → should_succeed cl rf ns dc ≡ some true
unfolding should_succeed
should_succeed_mono each_quorum rf ms ns dc h e = each_from_mono rf h 0 (length rf) e
should_succeed_mono local_quorum rf ms ns dc h e =
    enough_mono (get_elem? ms dc) (get_elem? ns dc) _ (get_elem?-mono h dc) e
should_succeed_mono local_serial rf ms ns dc h e =
    enough_mono (get_elem? ms dc) (get_elem? ns dc) _ (get_elem?-mono h dc) e
should_succeed_mono local_one rf ms ns dc h e =
    enough_mono (get_elem? ms dc) (get_elem? ns dc) _ (get_elem?-mono h dc) e
should_succeed_mono cl rf ms ns dc h e =
    enough_mono (some (sum ms)) (some (sum ns)) _ (sum_mono h) e

-- Every data centre from the `i`-th on has a quorum of its replicas alive.
pub data Quorums : List ℕ → List ℕ → Type 0 where
  done : {alive : List ℕ} → Quorums [] alive
  next :
      {r a : ℕ} {rf alive : List ℕ}
      → r / 2 + 1 ≤ a
      → Quorums rf alive
      → Quorums (r ∷ rf) (a ∷ alive)

-- The entries of a list from an index on.
abbrev From : List ℕ → ℕ → List ℕ → Type 0
From xs i ys = (k : ℕ) → get_elem? xs (i + k) ≡ get_elem? ys k

From-tail : (xs : List ℕ) (i y : ℕ) (ys : List ℕ) → From xs i (y ∷ ys) → From xs (suc i) ys
From-tail xs i y ys h k =
    let e : suc i + k ≡ i + suc k = omega arith in
    subst (λ j. get_elem? xs j ≡ get_elem? ys k) (sym e) (h (suc k))

each_from_step :
    (rf alive : List ℕ) (i r a count : ℕ)
    → get_elem? rf i ≡ some r
    → get_elem? alive i ≡ some a
    → each_from rf alive i (suc count)
      ≡ (if leb (r / 2 + 1) a then each_from rf alive (suc i) count else some false)
unfolding each_from
each_from_step rf alive i r a count e f = ground arith

first : (xs : List ℕ) (i y : ℕ) (ys : List ℕ) → From xs i (y ∷ ys) → get_elem? xs i ≡ some y
first xs i y ys h =
    let e : i + 0 ≡ i = omega arith in subst (λ j. get_elem? xs j ≡ some y) e (h zero)

Quorums-head : {r a : ℕ} {rf alive : List ℕ} → Quorums (r ∷ rf) (a ∷ alive) → r / 2 + 1 ≤ a
Quorums-head (next h t) = h

Quorums-tail : {r a : ℕ} {rf alive : List ℕ} → Quorums (r ∷ rf) (a ∷ alive) → Quorums rf alive
Quorums-tail (next h t) = t

each_from_iff :
    (rf alive qs as' : List ℕ) (i : ℕ)
    → From rf i qs
    → From alive i as'
    → length as' ≡ length qs
    → (each_from rf alive i (length qs) ≡ some true) ↔ Quorums qs as'
unfolding each_from
each_from_iff rf alive [] as' i hq ha l = (λ _. done, λ _. refl)
each_from_iff rf alive (r ∷ qs) [] i hq ha l = absurd (omega arith)
each_from_iff rf alive (r ∷ qs) (a ∷ as') i hq ha l =
    let ih =
      each_from_iff rf alive qs as' (suc i) (From-tail rf i r qs hq) (From-tail alive i a as' ha)
        (omega arith) in
    let step =
      each_from_step rf alive i r a (length qs) (first rf i r qs hq) (first alive i a as' ha) in
    elim (Bool-cases (leb (r / 2 + 1) a)) [
      | inl up ↦ rw (step, up) (λ e. next (leb→le _ _ up) (ih.0 e), λ q. ih.1 (Quorums-tail q))
      | inr down ↦ rw (step, down) (λ e. cc, λ q. cc (le→leb _ _ (Quorums-head q)))
    ]

-- With one count of live nodes for each data centre, an operation at `EACH_QUORUM` should succeed
-- exactly when every data centre has a quorum of its own replicas alive.
pub each_quorum_iff :
    (rf alive : List ℕ) (dc : ℕ)
    → length alive ≡ length rf
    → (should_succeed each_quorum rf alive dc ≡ some true) ↔ Quorums rf alive
unfolding should_succeed
each_quorum_iff rf alive dc l =
    each_from_iff rf alive rf alive 0 (λ k. ap (get_elem? rf) (omega arith))
      (λ k. ap (get_elem? alive) (omega arith)) l
