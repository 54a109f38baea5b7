-- ===== src/Base/Calls.antt =====
-- How a Python call ends, and calls that read and write a state. What was written before an
-- exception stays written, so the state comes back with either ending.
use mathlib.Core.Path.{◌≡◌}
use mathlib.Core.Logic.{◌≢◌}
use mathlib.Core.Bool.{Bool, true, false}
use mathlib.Core.List.{List, [], ◌∷◌}
use cassandra_dtest.Base.Tests.{if◌then◌else◌}

pub data Outcome (E A : Type 0) : Type 0 where
  returned : A → Outcome E A
  raised : E → Outcome E A

abbrev pub Action : Type 0 → Type 0 → Type 0 → Type 0
Action S E A = S → Outcome E A × S

module _ {S E A : Type 0} where
  abbrev pub pure : A → Action S E A
  pure a s = (returned a, s)

  abbrev pub raise : E → Action S E A
  raise e s = (raised e, s)

  abbrev pub gets : (S → A) → Action S E A
  gets f s = (returned (f s), s)

  -- `try: body; except e if handles(e): handler(e)`.
  abbrev pub try_except : (E → Bool) → Action S E A → (E → Action S E A) → Action S E A
  try_except handles body handler s =
      let (r, s') = body s in
      elim r [
        | returned a ↦ (returned a, s')
        | raised e ↦ if handles e then handler e s' else (raised e, s')
      ]

abbrev pub modify : {S E : Type 0} → (S → S) → Action S E (Unit {0})
modify f s = (returned tt, f s)

infixl 5 ◌>>=◌ ◌>>◌
abbrev pub ◌>>=◌ : {S E A B : Type 0} → Action S E A → (A → Action S E B) → Action S E B
◌>>=◌ m f s = let (r, s') = m s in elim r [ returned a ↦ f a s' | raised e ↦ (raised e, s') ]

abbrev pub ◌>>◌ : {S E B : Type 0} → Action S E (Unit {0}) → Action S E B → Action S E B
m >> k = m >>= λ _. k

-- `try: body; finally: last`: an exception of `last` takes the place of one of `body`.
abbrev pub try_finally : {S E A : Type 0} → Action S E A → Action S E (Unit {0}) → Action S E A
try_finally body last s =
    let (r, s') = body s in
    let (q, s'') = last s' in elim q [ returned _ ↦ (r, s'') | raised e ↦ (raised e, s'') ]

abbrev pub raise_if : {S E : Type 0} → Bool → E → Action S E (Unit {0})
raise_if c e s = (if c then raised e else returned tt, s)

-- `assert condition`.
abbrev pub assert : {S E : Type 0} → Bool → E → Action S E (Unit {0})
assert c e s = (if c then returned tt else raised e, s)

abbrev pub when : {S E : Type 0} → Bool → Action S E (Unit {0}) → Action S E (Unit {0})
when c m s = if c then m s else (returned tt, s)

-- `for x in xs: body(x)`.
abbrev pub for_each :
    {S E X : Type 0} → List X → (X → Action S E (Unit {0})) → Action S E (Unit {0})
for_each [] body s = (returned tt, s)
for_each (x ∷ xs) body s =
    let (r, s') = body x s in
    elim r [ returned _ ↦ for_each xs body s' | raised e ↦ (raised e, s') ]

pub has_raised : {E A : Type 0} → Outcome E A → Bool
has_raised (returned a) = false
has_raised (raised e) = true

pub raised-ne-returned :
    {E A : Type 0} {e : E} {a : A} → ◌≢◌ {A = Outcome E A} (raised e) (returned a)
raised-ne-returned h = cc

pub returned_injective :
    {E A : Type 0} {a b : A} → ◌≡◌ {A = Outcome E A} (returned a) (returned b) → a ≡ b
returned_injective h = cc
