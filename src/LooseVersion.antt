-- ===== src/LooseVersion.antt =====
-- `distutils.version.LooseVersion`, with which the framework orders releases: a version is cut
-- into runs of digits, runs of lower-case letters and runs of anything else; dots are dropped;
-- runs of digits are numbers. Python 2 orders every number below every string.
use cassandra_dtest.Base.{
  ℕ, ◌≡◌, refl, Bool, true, false, List, [], ◌∷◌, arith, ◌==◌, if◌then◌else◌, all, not, ap,
}
use cassandra_dtest.Text.{Text, text, text_eq, is_digit, is_lower}
use cassandra_dtest.Text.Decimal.{value_from}
use cassandra_dtest.Order.{
  Order, less, equal, greater, flip, IsLinear, cmp_nat, cmp_nat-IsLinear, cmp_list,
  cmp_list-IsLinear, is_less, is_le, is_le_trans,
}

pub data Component : Type 0 where
  number : ℕ → Component
  word : Text → Component

pub data CharClass : Type 0 where
  digit letter dot other : CharClass

class_of : ℕ → CharClass
class_of c =
    if is_digit c then digit else if is_lower c then letter else if c == 46 then dot else other

-- Two neighbours stand in one run; every dot stands alone.
same_run : CharClass → CharClass → Bool
same_run digit digit = true
same_run letter letter = true
same_run other other = true
same_run _ _ = false

attach : ℕ → List Text → List Text
unfolding class_of same_run
attach x [] = (x ∷ []) ∷ []
attach x ([] ∷ ts) = (x ∷ []) ∷ ts
attach x ((y ∷ ys) ∷ ts) =
    if same_run (class_of x) (class_of y) then (x ∷ y ∷ ys) ∷ ts else (x ∷ []) ∷ (y ∷ ys) ∷ ts

runs : Text → List Text
unfolding attach
runs [] = []
runs (x ∷ xs) = attach x (runs xs)

component : Text → Component
component r = if all is_digit r then number (value_from 0 r) else word r

components : List Text → List Component
unfolding component
components [] = []
components (r ∷ rs) =
    let rest = components rs in if text_eq r (46 ∷ []) then rest else component r ∷ rest

-- `LooseVersion(s).version`
unfoldable pub version : Text → List Component
unfolding runs components value_from text_eq
version s = components (runs s)

abbrev pub cmp_component : Component → Component → Order
cmp_component (number m) (number n) = cmp_nat m n
cmp_component (number m) (word t) = less
cmp_component (word s) (number n) = greater
cmp_component (word s) (word t) = cmp_list cmp_nat s t

-- `cmp(LooseVersion(s), LooseVersion(t))`
unfoldable pub cmp_version : Text → Text → Order
unfolding version cmp_list
cmp_version s t = cmp_list cmp_component (version s) (version t)

-- `LooseVersion(s) < LooseVersion(t)`
abbrev pub older : Text → Text → Bool
older s t = is_less (cmp_version s t)

-- `LooseVersion(s) <= LooseVersion(t)`
abbrev pub no_newer : Text → Text → Bool
no_newer s t = is_le (cmp_version s t)

abbrev cmp_text-IsLinear : IsLinear (cmp_list cmp_nat)
cmp_text-IsLinear = cmp_list-IsLinear cmp_nat-IsLinear

component_refl : (a : Component) → cmp_component a a ≡ equal
component_refl (number m) = cmp_nat-IsLinear.cmp_refl m
component_refl (word s) = cmp_text-IsLinear.cmp_refl s

component_eq : (a b : Component) → cmp_component a b ≡ equal → a ≡ b
component_eq (number m) (number n) h = ap number (cmp_nat-IsLinear.cmp_eq m n h)
component_eq (number m) (word t) h = cc
component_eq (word s) (number n) h = cc
component_eq (word s) (word t) h = ap word (cmp_text-IsLinear.cmp_eq s t h)

component_flip : (a b : Component) → cmp_component b a ≡ flip (cmp_component a b)
component_flip (number m) (number n) = cmp_nat-IsLinear.cmp_flip m n
component_flip (number m) (word t) = refl
component_flip (word s) (number n) = refl
component_flip (word s) (word t) = cmp_text-IsLinear.cmp_flip s t

component_trans :
    (a b c : Component)
    → cmp_component a b ≡ less
    → cmp_component b c ≡ less
    → cmp_component a c ≡ less
component_trans (number m) (number n) (number o) h k = cmp_nat-IsLinear.cmp_trans m n o h k
component_trans (number m) (number n) (word t) h k = refl
component_trans (number m) (word t) (number n) h k = cc
component_trans (number m) (word t) (word u) h k = refl
component_trans (word s) (number n) c h k = cc
component_trans (word s) (word t) (number n) h k = cc
component_trans (word s) (word t) (word u) h k = cmp_text-IsLinear.cmp_trans s t u h k

pub cmp_component-IsLinear : IsLinear cmp_component
cmp_component-IsLinear = record {
  cmp_refl = component_refl;
  cmp_eq = component_eq;
  cmp_flip = component_flip;
  cmp_trans = component_trans;
}

abbrev pub versions-IsLinear : IsLinear (cmp_list cmp_component)
versions-IsLinear = cmp_list-IsLinear cmp_component-IsLinear

pub no_newer_trans :
    (s t u : Text) → no_newer s t ≡ true → no_newer t u ≡ true → no_newer s u ≡ true
unfolding cmp_version
no_newer_trans s t u = is_le_trans versions-IsLinear (version s) (version t) (version u)

pub older-no_newer : (s t : Text) → older s t ≡ not (no_newer t s)
unfolding cmp_version
older-no_newer s t = rw (versions-IsLinear.cmp_flip (version s) (version t)) (ground arith)

rc_below_release :
    (older (text "2.1.9") (text "2.1.10") ≡ true) × (older (text "3.0.0") (text "3.0.0-rc1") ≡ true)
unfolding cmp_version
rc_below_release = (refl, refl)
