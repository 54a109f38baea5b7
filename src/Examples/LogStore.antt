-- ===== src/Examples/LogStore.antt =====
-- A database for the laws of the session: the log of all updates, which is read from the start.
use cassandra_dtest.Base.{
  ℕ, zero, suc, ◌+◌, ◌≤◌, ◌<◌, ◌≡◌, refl, Bool, true, false, ◌&&◌, List, [], ◌∷◌, ◌++◌, Option,
  none, some, arith, ◌==◌, ltb, if◌then◌else◌, length, All, ap, ◌∙◌, sym, Bool-cases, Option-cases,
  inl, inr, subst,
}
use cassandra_dtest.Tools.Database.{Update, written, present, Database, IsLawful}

-- One more than every number that the function gives on the log.
unfoldable pub bound : (Update → ℕ) → List Update → ℕ
bound f [] = 0
bound f (u ∷ us) = let rest = bound f us in if ltb (f u) rest then rest else f u + 1

written-append :
    (us vs : List Update) (k c : ℕ) (old : Option ℕ)
    → written (us ++ vs) k c old ≡ written vs k c (written us k c old)
written-append [] vs k c old = refl
written-append (u ∷ us) vs k c old =
    written-append us vs k c (if u.key == k && u.column == c then some u.value else old)

beyond_columns :
    (us : List Update) (k c : ℕ) (old : Option ℕ)
    → bound (λ u. u.column) us ≤ c
    → written us k c old ≡ old
unfolding bound
beyond_columns [] k c old h = refl
beyond_columns (u ∷ us) k c old h =
    beyond_columns us k c (if u.key == k && u.column == c then some u.value else old) (ground arith)
    ∙ ground arith

beyond_keys :
    (us : List Update) (k c : ℕ) (old : Option ℕ)
    → bound (λ u. u.key) us ≤ k
    → written us k c old ≡ old
unfolding bound
beyond_keys [] k c old h = refl
beyond_keys (u ∷ us) k c old h =
    beyond_keys us k c (if u.key == k && u.column == c then some u.value else old) (ground arith)
    ∙ ground arith

abbrev cell_of : List Update → ℕ → ℕ → Option ℕ
cell_of us k c = written us k c none

-- Columns that are not there add nothing to a row.
present_empty : (f : ℕ → Option ℕ) (i n : ℕ) → ((c : ℕ) → i ≤ c → f c ≡ none) → present f i n ≡ []
unfolding present
present_empty f i zero h = refl
present_empty f i (suc n) h =
    let e = h i (omega arith) in
    let ih = present_empty f (i + 1) n (λ c p. h c (omega arith)) in ground arith

present_same :
    (f : ℕ → Option ℕ) (i m n : ℕ)
    → ((c : ℕ) → i + m ≤ c → f c ≡ none)
    → ((c : ℕ) → i + n ≤ c → f c ≡ none)
    → present f i m ≡ present f i n
unfolding present
present_same f i zero n h k = sym (present_empty f i n (λ c p. h c (omega arith)))
present_same f i (suc m) zero h k = present_empty f i (suc m) (λ c p. k c (omega arith))
present_same f i (suc m) (suc n) h k =
    let ih = present_same f (i + 1) m n (λ c p. h c (omega arith)) (λ c p. k c (omega arith)) in
    ground arith

-- A key has a row when a column below the bound is there.
unfoldable pub has_row : (ℕ → Option ℕ) → ℕ → ℕ → Bool
has_row f i zero = false
has_row f i (suc n) = elim (f i) [ some v ↦ true | none ↦ has_row f (i + 1) n ]

unfoldable pub keys_from : (ℕ → Bool) → ℕ → ℕ → List ℕ
keys_from live i zero = []
keys_from live i (suc n) = let rest = keys_from live (i + 1) n in if live i then i ∷ rest else rest

has_row-true :
    (f : ℕ → Option ℕ) (i n c v : ℕ) → i ≤ c → c < i + n → f c ≡ some v → has_row f i n ≡ true
unfolding has_row
has_row-true f i zero c v lo hi e = absurd (omega arith)
has_row-true f i (suc n) c v lo hi e = elim (Option-cases (f i)) [
  | inr (w, q) ↦ rw (q, has_row) refl
  | inl q ↦ elim (Bool-cases (i == c)) [
    | inl here ↦ absurd (ground arith)
    | inr later ↦ rw (q, has_row) (has_row-true f (i + 1) n c v (ground arith) (omega arith) e)
  ]
]

has_row-false : (f : ℕ → Option ℕ) (i n : ℕ) → ((c : ℕ) → f c ≡ none) → has_row f i n ≡ false
unfolding has_row
has_row-false f i zero h = refl
has_row-false f i (suc n) h = let e = h i in let ih = has_row-false f (i + 1) n h in ground arith

keys_from_none :
    (live : ℕ → Bool) (i n : ℕ) → ((k : ℕ) → i ≤ k → live k ≡ false) → keys_from live i n ≡ []
unfolding keys_from
keys_from_none live i zero h = refl
keys_from_none live i (suc n) h =
    rw (h i (omega arith), keys_from_none live (i + 1) n (λ k p. h k (omega arith)))

abbrev Run : ℕ → ℕ → List ℕ → Type 0
Run i m ks = (length ks ≡ m) × All (λ k. k < i + m) ks

run_later : (i m : ℕ) (ks : List ℕ) → All (λ k. k < i + 1 + m) ks → All (λ k. k < i + suc m) ks
run_later i m [] h = tt
run_later i m (k ∷ ks) h = (omega (arith, h.0), run_later i m ks h.1)

keys_from-Run :
    (live : ℕ → Bool) (i m n : ℕ)
    → m ≤ n
    → ((k : ℕ) → i ≤ k → k < i + m → live k ≡ true)
    → ((k : ℕ) → i + m ≤ k → live k ≡ false)
    → Run i m (keys_from live i n)
unfolding keys_from
keys_from-Run live i zero n le on off =
    rw (keys_from_none live i n (λ k p. off k (omega arith))) (refl, tt)
keys_from-Run live i (suc m) zero le on off = absurd (omega arith)
keys_from-Run live i (suc m) (suc n) le on off =
    let ih =
      keys_from-Run live (i + 1) m n (omega arith) (λ k p q. on k (omega arith) (omega arith))
        (λ k p. off k (omega arith)) in
    rw (on i (omega arith) (omega arith))
      (ap suc ih.0, (omega arith, run_later i m (keys_from live (i + 1) n) ih.1))

abbrev live_key : List Update → ℕ → Bool
live_key us k = has_row (cell_of us k) 0 (bound (λ u. u.column) us)

abbrev pub log_store : Database
log_store = record {
  State = List Update;
  Level = Unit {0};
  default_level = tt;
  batch = λ cl us log. log ++ us;
  flush = λ log. log;
  select_slice = λ cl log k first count. present (cell_of log k) first count;
  select_row = λ cl log k. present (cell_of log k) 0 (bound (λ u. u.column) log);
  keys_in_order = λ cl log. keys_from (live_key log) 0 (bound (λ u. u.key) log);
  cell = cell_of;
}

live_key-true : (us : List Update) (k c v : ℕ) → cell_of us k c ≡ some v → live_key us k ≡ true
live_key-true us k c v e =
    has_row-true (cell_of us k) 0 (bound (λ u. u.column) us) c v (omega arith) in_bound e
  where
    some_ne_none : cell_of us k c ≡ none → ⊥
    some_ne_none q = cc

    in_bound : c < 0 + bound (λ u. u.column) us
    in_bound = elim (Bool-cases (ltb c (bound (λ u. u.column) us))) [
      | inl below ↦ ground arith
      | inr above ↦
          let gone = beyond_columns us k c none (ground arith) in absurd (some_ne_none gone)
    ]

keys_bound :
    (us : List Update) (n : ℕ)
    → ((k : ℕ) → k < n → (c : ℕ) × (v : ℕ) × (cell_of us k c ≡ some v))
    → n ≤ bound (λ u. u.key) us
keys_bound us zero h = omega arith
keys_bound us (suc n) h = elim (Bool-cases (ltb n (bound (λ u. u.key) us))) [
  | inl below ↦ ground arith
  | inr above ↦
      let (c, v, e) = h n (omega arith) in
      absurd (clash c v (beyond_keys us n c none (ground arith)) e)
]
  where
    clash : (c v : ℕ) → cell_of us n c ≡ none → cell_of us n c ≡ some v → ⊥
    clash c v p q = cc

zero_plus_bound : (n : ℕ) (ks : List ℕ) → Run 0 n ks → (length ks ≡ n) × All (λ k. k < n) ks
zero_plus_bound n ks h = (h.0, subst (λ m. All (λ k. k < m) ks) (omega arith) h.1)

pub log_store-IsLawful : IsLawful log_store tt tt
log_store-IsLawful = record {
  cell-batch = λ us log k c d. written-append log us k c none;
  cell-flush = λ log k c. refl;
  slice = λ log k first count h b. refl;
  row = λ log k n b h.
      present_same (cell_of log k) 0 (bound (λ u. u.column) log) n
        (λ c p. beyond_columns log k c none (omega arith)) (λ c p. h c (omega arith));
  order = λ log n on off. zero_plus_bound n (keys_from (live_key log) 0 (bound (λ u. u.key) log)) (
      keys_from-Run (live_key log) 0 n (bound (λ u. u.key) log) (keys_bound log n on)
        (λ k p q. let (c, v, e) = on k (omega arith) in live_key-true log k c v e)
        (λ k p.
          has_row-false (cell_of log k) 0 (bound (λ u. u.column) log)
            (λ c. off k c (omega arith))));
}
