-- ===== src/Interactive/Menu/Kept/Monitor.antt =====
-- Properties that the subscription menus of canopen-interactive/co.py have if their parts have them.
use canopen_tools.Prelude.{map, ℕ, Bool, true, false, Option, none, some, List, [], ◌∷◌}
use canopen_tools.Interactive.Text.{ℤ}
use canopen_tools.Interactive.Session.{choose_number}
use canopen_tools.Interactive.Menu.{Menu, reading, lift, reads, acting, attempt}
use canopen_tools.Interactive.Menu.Library.{Canopen, Tool}
use canopen_tools.Interactive.Menu.Nodes.{choose_node}
use canopen_tools.Interactive.Dict.{get}
use canopen_tools.Interactive.Menu.{same_int}
use canopen_tools.Interactive.Menu.Subscribe.{
  monitor_subscribe_pdo, monitor_subscribe_heartbeat, or_enter, subscribe_some, subscribe_of,
  subscribe_tpdo_to, subscribe_tpdo, subscribe_heartbeat_to, subscribe_heartbeat,
  unsubscribe_pdo_at, unsubscribe_pdo_among, unsubscribe_tpdo, unsubscribe_hb_at,
  unsubscribe_hb_among, unsubscribe_heartbeat,
}
use canopen_tools.Interactive.Menu.Closed.{IsClosed}
use canopen_tools.Interactive.Menu.Kept.{asked-Closed, choose_node-Closed, IsClosedTool}

module _ {W N R : Type 0} (lib : Canopen W N R) (C : (A : Type 0) → Menu (Tool W N R) A → Type 0)
    (closed : IsClosed C) (tool : IsClosedTool lib C) where
  pub subscribe_some-Closed :
      (node : N) (count : ℕ) (b : Bool) → C _ (subscribe_some lib node count b)
  unfolding subscribe_some
  subscribe_some-Closed node count true = (asked-Closed lib C closed tool) tt
  subscribe_some-Closed node count false =
      closed.binds (reading (choose_number count)) _ (closed.numbers _) (λ n.
        closed.binds (acting (monitor_subscribe_pdo lib node n)) _ (tool.subscribes_pdo node n)
          (λ u. (asked-Closed lib C closed tool) tt))

  pub subscribe_tpdo-Closed : C _ (subscribe_tpdo lib)
  unfolding subscribe_tpdo subscribe_tpdo_to subscribe_of
  subscribe_tpdo-Closed = closed.binds choose_node _ (choose_node-Closed lib C closed tool) to
    where
      last : (o : Option (Unit {0})) → C _ (or_enter lib o)
      last none = (asked-Closed lib C closed tool) tt
      last (some u) = closed.pures tt

      to : (o : Option N) → C _ (subscribe_tpdo_to lib o)
      to none = closed.pures tt
      to (some node) =
          closed.binds (attempt (subscribe_of lib node)) _
            (closed.attempts _ (
              closed.binds (lift (lib.tpdo_count node)) _ (closed.lifts _)
                (λ count. subscribe_some-Closed node count _)))
            last

  pub subscribe_heartbeat-Closed : C _ (subscribe_heartbeat lib)
  unfolding subscribe_heartbeat subscribe_heartbeat_to
  subscribe_heartbeat-Closed = closed.binds choose_node _ (choose_node-Closed lib C closed tool) to
    where
      to : (o : Option N) → C _ (subscribe_heartbeat_to lib o)
      to none = closed.pures tt
      to (some node) =
          closed.binds (attempt (acting (monitor_subscribe_heartbeat lib node))) _
            (closed.attempts _ (tool.subscribes_hb node)) (λ o. closed.pures tt)

  pub unsubscribe_pdo_among-Closed :
      (current : List (ℤ × ℕ)) → C _ (unsubscribe_pdo_among lib current)
  unfolding unsubscribe_pdo_among unsubscribe_pdo_at
  unsubscribe_pdo_among-Closed [] = closed.pures tt
  unsubscribe_pdo_among-Closed (k ∷ current) =
      closed.binds (reading (choose_number _)) _ (closed.numbers _) (λ choice.
        closed.binds (lift _) _ (closed.lifts _) (λ key.
          closed.binds (reads (λ t. get same_int key.0 t.nodes)) _ (closed.states _) (at key.1)))
    where
      at : (n : ℕ) (o : Option N) → C _ (unsubscribe_pdo_at lib n o)
      at n none = closed.pures tt
      at n (some node) = tool.unsubscribes_pdo node n

  pub unsubscribe_hb_among-Closed : (current : List ℤ) → C _ (unsubscribe_hb_among lib current)
  unfolding unsubscribe_hb_among unsubscribe_hb_at
  unsubscribe_hb_among-Closed [] = closed.pures tt
  unsubscribe_hb_among-Closed (k ∷ current) =
      closed.binds (reading (choose_number _)) _ (closed.numbers _) (λ choice.
        closed.binds (lift _) _ (closed.lifts _) (λ node_id.
          closed.binds (reads (λ t. get same_int node_id t.nodes)) _ (closed.states _) at))
    where
      at : (o : Option N) → C _ (unsubscribe_hb_at lib o)
      at none = closed.pures tt
      at (some node) = tool.unsubscribes_hb node

  pub unsubscribe_tpdo-Closed : C _ (unsubscribe_tpdo lib)
  unfolding unsubscribe_tpdo
  unsubscribe_tpdo-Closed =
      closed.binds (reads (λ t. map (λ p. p.0) t.pdos.subscribed)) _ (closed.states _)
        unsubscribe_pdo_among-Closed

  pub unsubscribe_heartbeat-Closed : C _ (unsubscribe_heartbeat lib)
  unfolding unsubscribe_heartbeat
  unsubscribe_heartbeat-Closed =
      closed.binds (reads (λ t. map (λ p. p.0) t.hbs.subscribed)) _ (closed.states _)
        unsubscribe_hb_among-Closed
