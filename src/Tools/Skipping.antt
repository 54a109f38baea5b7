-- ===== src/Tools/Skipping.antt =====
-- When tools.py skips a test: `since` by the release under test, `require` by the branch of the
-- source, `no_vnodes` by a setting.
use cassandra_dtest.Base.{
  Bool, true, false, ◌||◌, not, [], ◌∷◌, ◌++◌, Option, none, some, returned, raised, Action, ◌>>◌,
  raise_if, ◌≡◌, ◌⊎◌, ◌↔◌, inl, inr, refl, arith, if◌then◌else◌, Option-cases,
}
use cassandra_dtest.Text.{Text, text, lower}
use cassandra_dtest.LooseVersion.{older, no_newer, older-no_newer}

-- `since(cass_version, max_version)`
pub record Since : Type 0 where
  pub cass_version : Text
  pub max_version : Option Text

-- `__init__`: both bounds become versions, the last one only if it is given.
unfoldable pub new_since : Text → Option Text → Since
new_since cass_version none = record { cass_version = cass_version; max_version = none }
new_since cass_version (some m) = record { cass_version = cass_version; max_version = some m }

-- `no_vnodes`: the reason for which `unittest.skipIf` skips.
unfoldable pub no_vnodes : Bool → Option Text
no_vnodes disable_vnodes = if disable_vnodes then none else some (text "Test disabled for vnodes")

-- `_skip_msg`: the message, or `None`.
unfoldable pub skip_msg : Since → Text → Option Text
skip_msg d version =
    if older version d.cass_version
    then some (version ++ (text " < " ++ d.cass_version))
    else elim d.max_version [
      | none ↦ none
      | some m ↦ if older m version then some (version ++ (text " > " ++ m)) else none
    ]

-- `unittest.SkipTest` with its message, or an exception of the test.
pub data TestEnd (E : Type 0) : Type 0 where
  skip_test : Text → TestEnd E
  failure : E → TestEnd E

-- What can be decorated: a class, by its `setUp`, or a function.
pub data Skippable (S E : Type 0) : Type 0 where
  test_class test_function : Action S (TestEnd E) (Unit {0}) → Skippable S E

-- A test, and `Tester.skip`, which raises unless `NO_SKIP` is set.
module _ {S E : Type 0} where
  abbrev pub skip : Bool → Text → Action S (TestEnd E) (Unit {0})
  skip no_skip msg = raise_if (not no_skip) (skip_test msg)

  -- `if msg: obj.skip(msg)`: no message is empty.
  abbrev pub skip_if : Bool → Option Text → Action S (TestEnd E) (Unit {0})
  skip_if no_skip none s = (returned tt, s)
  skip_if no_skip (some msg) s = skip no_skip msg s

  -- `_wrap_function`: the release is looked at before the test runs.
  unfoldable pub wrap_function :
      Since → Bool → (S → Text) → Action S (TestEnd E) (Unit {0}) → Action S (TestEnd E) (Unit {0})
  unfolding skip_msg
  wrap_function d no_skip version f s = (skip_if no_skip (skip_msg d (version s)) >> f) s

  -- `_wrap_setUp`: the original `setUp` makes the cluster first.
  unfoldable pub wrap_set_up :
      Since → Bool → (S → Text) → Action S (TestEnd E) (Unit {0}) → Action S (TestEnd E) (Unit {0})
  unfolding skip_msg
  wrap_set_up d no_skip version set_up = set_up >> (λ s. skip_if no_skip (skip_msg d (version s)) s)

  -- `__call__`
  unfoldable pub decorate : Since → Bool → (S → Text) → Skippable S E → Skippable S E
  unfolding wrap_set_up wrap_function
  decorate d no_skip version (test_class set_up) = test_class (wrap_set_up d no_skip version set_up)
  decorate d no_skip version (test_function f) = test_function (wrap_function d no_skip version f)

-- The releases that a decorated test is for.
abbrev pub InRange : Since → Text → Type 0
InRange d v =
    (no_newer d.cass_version v ≡ true) × ((m : Text) → d.max_version ≡ some m → no_newer v m ≡ true)

-- There is no message exactly for the releases from the first to the last of the decorator, both
-- included.
skip_msg_iff : (d : Since) (v : Text) → (skip_msg d v ≡ none) ↔ InRange d v
unfolding skip_msg
skip_msg_iff d v = go d.max_version refl
  where
    go : (o : Option Text) → d.max_version ≡ o → (skip_msg d v ≡ none) ↔ InRange d v
    go none e = (
      λ h. (ground (arith, older-no_newer v d.cass_version), λ m q. cc),
      λ h. ground (arith, older-no_newer v d.cass_version),
    )
    go (some m) e = (
      λ h. (
        ground (arith, older-no_newer v d.cass_version),
        λ n q.
            ground (arith, older-no_newer v d.cass_version, older-no_newer m v, older-no_newer n v),
      ),
      λ h. ground (arith, older-no_newer v d.cass_version, older-no_newer m v, h.1 m e),
    )

module _ {S E : Type 0} (d : Since) (no_skip : Bool) (version : S → Text) where
  -- A test under `since` runs, on the state as it is, when the release is in the range of the
  -- decorator or `NO_SKIP` is set.
  pub wrap_function-Runs :
      (f : Action S (TestEnd E) (Unit {0})) (s : S)
      → InRange d (version s) ⊎ (no_skip ≡ true)
      → wrap_function d no_skip version f s ≡ f s
  unfolding wrap_function
  wrap_function-Runs f s (inl h) = rw ((skip_msg_iff d (version s)).1 h) refl
  wrap_function-Runs f s (inr h) = elim (Option-cases (skip_msg d (version s))) [
    | inl e ↦ rw e refl
    | inr (m, e) ↦ rw e (ground arith)
  ]

  -- A test under `since` is skipped, and its body does not touch the state, when the release is
  -- out of the range of the decorator and `NO_SKIP` is not set.
  pub wrap_function-Skips :
      (f : Action S (TestEnd E) (Unit {0})) (s : S)
      → ¬ (InRange d (version s))
      → no_skip ≡ false
      → (m : Text) × (wrap_function d no_skip version f s ≡ (raised (skip_test m), s))
  unfolding wrap_function
  wrap_function-Skips f s out h = elim (Option-cases (skip_msg d (version s))) [
    | inl e ↦ absurd (out ((skip_msg_iff d (version s)).0 e))
    | inr (m, e) ↦ (m, rw e (ground arith))
  ]

-- What `require` makes of a test.
pub data Requirement : Type 0 where
  run : Requirement
  run_since : Since → Requirement
  skipped : Text → Requirement

-- `elif broken_in`: an empty release does not count.
abbrev pub truthy : Option Text → Option Text
truthy none = none
truthy (some []) = none
truthy (some (c ∷ cs)) = some (c ∷ cs)

-- `require(require_pattern, broken_in)` with the setting `IGNORE_REQUIRE` and the branch; `re_match`
-- is `re.match(p, branch, re.IGNORECASE)`.
module _ (re_match : Text → Text → Bool) where
  unfoldable pub matches_branch : Text → Text → Bool
  matches_branch pattern branch =
      re_match pattern branch || re_match (text "cassandra-" ++ pattern) branch

  unfoldable pub on_branch : Text → Option Text → Text → Requirement
  unfolding matches_branch
  on_branch pattern broken_in branch =
      if matches_branch pattern branch then run else elim (truthy broken_in) [
        | some v ↦ run_since (record { cass_version = text "0"; max_version = some v })
        | none ↦ skipped (text "require " ++ pattern)
      ]

  unfoldable pub require : Bool → Text → Option Text → Option Text → Requirement
  unfolding on_branch
  require ignore pattern broken_in none = run
  require ignore pattern broken_in (some []) = run
  require ignore pattern broken_in (some (c ∷ cs)) =
      if ignore then run else on_branch pattern broken_in (lower (c ∷ cs))
