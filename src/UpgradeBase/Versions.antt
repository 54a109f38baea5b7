-- ===== src/UpgradeBase/Versions.antt =====
-- What the tests on the versions of the nodes mean.
use cassandra_dtest.Base.{
  ◌≡◌, ◌↔◌, refl, Bool, true, false, not, List, [], ◌∷◌, All, arith, ap, ◌∙◌, if◌then◌else◌,
}
use cassandra_dtest.Text.{Text}
use cassandra_dtest.Order.{Order, less, equal, greater, is_less, is_le}
use cassandra_dtest.LooseVersion.{no_newer, no_newer_trans, older-no_newer, cmp_version}
use cassandra_dtest.UpgradeBase.Prepare.{oldest, node_version_above}

-- `min` and `max`: a bound of the least version is a bound of each.
less_is_le : (o : Order) → is_less o ≡ true → is_le o ≡ true
less_is_le less h = refl
less_is_le equal h = refl
less_is_le greater h = absurd (ground (arith, h))

older-or_no_newer : (v w : Text) → no_newer v w ≡ false → no_newer w v ≡ true
older-or_no_newer v w h = less_is_le (cmp_version w v) (older-no_newer w v ∙ ap not h)

-- The less of a version and the least of others.
least :
    (v r version : Text)
    → (no_newer version (if no_newer v r then v else r) ≡ true)
      ↔ ((no_newer version v ≡ true) × (no_newer version r ≡ true))
least v r version = go (no_newer v r) refl
  where
    go :
        (b : Bool)
        → no_newer v r ≡ b
        → (no_newer version (if b then v else r) ≡ true)
          ↔ ((no_newer version v ≡ true) × (no_newer version r ≡ true))
    go true e = (λ h. (h, no_newer_trans version v r h e), λ h. h.0)
    go false e = (λ h. (no_newer_trans version r v h (older-or_no_newer v r e), h), λ h. h.1)

-- `node_version_above` means that every node has the version or a later one.
pub node_version_above_iff :
    (v : Text) (vs : List Text) (version : Text)
    → (node_version_above v vs version ≡ true) ↔ All (λ w. no_newer version w ≡ true) (v ∷ vs)
unfolding node_version_above oldest
node_version_above_iff v [] version = (λ h. (h, tt), λ h. h.0)
node_version_above_iff v (w ∷ ws) version =
    let l = least v (oldest w ws) version in
    let r = node_version_above_iff w ws version in
    (λ h. ((l.0 h).0, r.0 (l.0 h).1), λ h. l.1 (h.0, r.1 h.1))
