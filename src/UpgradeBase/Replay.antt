-- ===== src/UpgradeBase/Replay.antt =====
-- What the calls of an upgrade need of their nodes, and that they come at the right time.
use cassandra_dtest.Base.{
  Bool, true, false, ◌&&◌, ◌||◌, List, [], ◌∷◌, ◌++◌, Option, none, some, Outcome, returned, raised,
  ◌≡◌, refl, ap, ◌∙◌, All, not, Bool-cases, inl, inr,
}
use cassandra_dtest.Text.{text}
use cassandra_dtest.Consistency.{Level}
use cassandra_dtest.UpgradeBase.Path.{level_set, Install}
use cassandra_dtest.UpgradeBase.Upgrade.{
  Node, Event, shutdown_session, set_install_dir, set_default_level, Setting, Failure,
  install_kwargs, is_mode, old_windows, incompatible, open_sessions, upgrade_nodes, do_upgrade,
  node1, node2, drain, stop, start, mark_log_for_errors, set_log_level, set_options, connect,
  bad_mode, skip_test,
}

-- Where a node stands in its life.
pub data Life : Type 0 where
  up drained down installed : Life

pub record Nodes : Type 0 where
  pub first : Life
  pub second : Life

-- What a call needs of its node and makes of it; `none` is a call at the wrong time: only a node
-- that is up is drained or connected to, only a drained one is stopped, a release is installed only
-- on a node that is down, and only a node that got one is started.
unfoldable pub live : Event → Life → Option Life
live shutdown_session l = some l
live (drain n) up = some drained
live (drain n) l = none
live (stop n) drained = some down
live (stop n) l = none
live (set_install_dir i n) down = some installed
live (set_install_dir i n) l = none
live (start n) installed = some up
live (start n) l = none
live (connect n) up = some up
live (connect n) l = none
live (set_default_level c n) up = some up
live (set_default_level c n) l = none
live (mark_log_for_errors n) l = some l
live (set_log_level n) l = some l
live (set_options n) l = some l

abbrev put_first : Nodes → Option Life → Option Nodes
put_first ns none = none
put_first ns (some l) = some (record ns { first = l })

abbrev put_second : Nodes → Option Life → Option Nodes
put_second ns none = none
put_second ns (some l) = some (record ns { second = l })

-- The life of the node that an event is for.
abbrev at_node : Event → Node → Nodes → Option Nodes
at_node e node1 ns = put_first ns (live e ns.first)
at_node e node2 ns = put_second ns (live e ns.second)

unfoldable pub lives : Event → Nodes → Option Nodes
unfolding live
lives shutdown_session ns = some ns
lives (drain n) ns = at_node (drain n) n ns
lives (stop n) ns = at_node (stop n) n ns
lives (start n) ns = at_node (start n) n ns
lives (mark_log_for_errors n) ns = at_node (mark_log_for_errors n) n ns
lives (set_log_level n) ns = at_node (set_log_level n) n ns
lives (set_options n) ns = at_node (set_options n) n ns
lives (connect n) ns = at_node (connect n) n ns
lives (set_default_level c n) ns = at_node (set_default_level c n) n ns
lives (set_install_dir i n) ns = at_node (set_install_dir i n) n ns

abbrev on_nodes : Event → Option Nodes → Option Nodes
on_nodes e none = none
on_nodes e (some ns) = lives e ns

-- The nodes after a list of events.
unfoldable pub replay : List Event → Option Nodes → Option Nodes
unfolding lives
replay [] ns = ns
replay (e ∷ es) ns = replay es (on_nodes e ns)

abbrev both_up : Nodes
both_up = record { first = up; second = up }

-- What an upgrade that began with both nodes up has done, by how it ended.
abbrev pub Upgraded : {A : Type 0} → Bool → Outcome Failure A × List Event → Type 0
Upgraded skips (returned a, es) = replay es (some both_up) ≡ some both_up
Upgraded skips (raised bad_mode, es) = es ≡ shutdown_session ∷ []
Upgraded skips (raised skip_test, es) =
    (skips ≡ true) × (ns : Nodes) × (replay es (some both_up) ≡ some ns)

abbrev began : List Event
began = shutdown_session ∷ []

replay-append :
    (es fs : List Event) (ns : Option Nodes) → replay (es ++ fs) ns ≡ replay fs (replay es ns)
unfolding replay
replay-append [] fs ns = refl
replay-append (e ∷ es) fs ns = replay-append es fs (on_nodes e ns)

-- Events after others, one at a time.
abbrev onto : List Event → List Event → List Event
onto es [] = es
onto es (f ∷ fs) = onto (es ++ (f ∷ [])) fs

-- Events that each leave both nodes up.
stays :
    (es fs : List Event)
    → replay es (some both_up) ≡ some both_up
    → All (λ f. lives f both_up ≡ some both_up) fs
    → replay (onto es fs) (some both_up) ≡ some both_up
unfolding replay
stays es [] h k = h
stays es (f ∷ fs) h k =
    stays (es ++ (f ∷ [])) fs (replay-append es (f ∷ []) (some both_up) ∙ ap (on_nodes f) h ∙ k.0)
      k.1

opens-Upgraded :
    (skips upgraded old : Bool) (cl : Option Level) (es : List Event)
    → replay es (some both_up) ≡ some both_up
    → Upgraded skips (open_sessions upgraded old cl es)
unfolding open_sessions lives
opens-Upgraded skips true true none es h =
    stays es (connect node1 ∷ connect node2 ∷ []) h (refl, (refl, tt))
opens-Upgraded skips true true (some l) es h =
    stays es
      (connect node1 ∷ connect node2 ∷ set_default_level l node1 ∷ set_default_level l node2 ∷ []) h
      (refl, (refl, (refl, (refl, tt))))
opens-Upgraded skips true false none es h = stays es (connect node1 ∷ []) h (refl, tt)
opens-Upgraded skips true false (some l) es h =
    stays es (connect node1 ∷ set_default_level l node1 ∷ []) h (refl, (refl, tt))
opens-Upgraded skips false true none es h = stays es (connect node2 ∷ []) h (refl, tt)
opens-Upgraded skips false true (some l) es h =
    stays es (connect node2 ∷ set_default_level l node2 ∷ []) h (refl, (refl, tt))
opens-Upgraded skips false false none es h = h
opens-Upgraded skips false false (some l) es h = h

upgrade_nodes-Upgraded :
    (moves both windows skips upgraded old : Bool) (kwargs : Install) (cl : Option Level)
    → Upgraded skips (upgrade_nodes moves both windows kwargs skips upgraded old cl began)
unfolding upgrade_nodes replay
upgrade_nodes-Upgraded true true true true upgraded old kwargs cl = (refl, _, refl)
upgrade_nodes-Upgraded true true true false upgraded old kwargs cl =
    opens-Upgraded false upgraded old cl _ refl
upgrade_nodes-Upgraded true true false true upgraded old kwargs cl = (refl, _, refl)
upgrade_nodes-Upgraded true true false false upgraded old kwargs cl =
    opens-Upgraded false upgraded old cl _ refl
upgrade_nodes-Upgraded true false true true upgraded old kwargs cl = (refl, _, refl)
upgrade_nodes-Upgraded true false true false upgraded old kwargs cl =
    opens-Upgraded false upgraded old cl _ refl
upgrade_nodes-Upgraded true false false true upgraded old kwargs cl = (refl, _, refl)
upgrade_nodes-Upgraded true false false false upgraded old kwargs cl =
    opens-Upgraded false upgraded old cl _ refl
upgrade_nodes-Upgraded false true true true upgraded old kwargs cl = (refl, _, refl)
upgrade_nodes-Upgraded false true true false upgraded old kwargs cl =
    opens-Upgraded false upgraded old cl _ refl
upgrade_nodes-Upgraded false true false true upgraded old kwargs cl = (refl, _, refl)
upgrade_nodes-Upgraded false true false false upgraded old kwargs cl =
    opens-Upgraded false upgraded old cl _ refl
upgrade_nodes-Upgraded false false true skips upgraded old kwargs cl =
    opens-Upgraded skips upgraded old cl _ refl
upgrade_nodes-Upgraded false false false skips upgraded old kwargs cl =
    opens-Upgraded skips upgraded old cl _ refl

-- Starting with both nodes up, every call of an upgrade comes at a time at which its node can take
-- it, in every mode and on every platform, and an upgrade that returns leaves both nodes up. A
-- mode that is none of the three stops before any node is touched. A skip happens only at an
-- incompatible protocol version without `NO_SKIP`.
pub do_upgrade-Upgraded :
    (s : Setting) → Upgraded (incompatible s && not s.no_skip) (do_upgrade s [])
unfolding do_upgrade
do_upgrade-Upgraded s =
    elim (Bool-cases
      (not (is_mode s (text "normal") || (is_mode s (text "all") || is_mode s (text "none"))))) [
        | inl bad ↦ rw bad refl
        | inr good ↦ rw good (
            upgrade_nodes-Upgraded (not (is_mode s (text "none"))) (is_mode s (text "all"))
              (old_windows s) (incompatible s && not s.no_skip) s.query_upgraded s.query_old
              (install_kwargs s) (level_set s.cl))
      ]
