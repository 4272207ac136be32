-- ===== src/Interactive/Menu/Subscribe.antt =====
-- `subscribe_tpdo`, `subscribe_heartbeat`, `unsubscribe_tpdo` and `unsubscribe_heartbeat` of
-- canopen-interactive/co.py.
use canopen_tools.Prelude.{
  ℕ, suc, ◌-◌, ◌==◌, ◌&&◌, Bool, true, false, Option, none, some, List, [], ◌∷◌, map, length,
}
use canopen_tools.Outcome.{Result, ok, raise}
use canopen_tools.Interactive.Text.{ℤ}
use canopen_tools.Interactive.Dict.{get}
use canopen_tools.Interactive.Monitor
use canopen_tools.Interactive.Monitor.{Feed}
use canopen_tools.Interactive.Session.{ask, index, choose_number}
use canopen_tools.Interactive.Menu.{
  same_int, Menu, pure, reading, lift, reads, acting, attempt, ◌>>=◌, ◌>>◌,
}
use canopen_tools.Interactive.Menu.Library.{Canopen, Tool}
use canopen_tools.Interactive.Menu.Nodes.{choose_node}
pub mod Hides

-- The keys `(node_id, pdo_num)`.
abbrev pub same_key : ℤ × ℕ → ℤ × ℕ → Bool
same_key (i, m) (j, n) = same_int i j && m == n

module _ {W N R : Type 0} (lib : Canopen W N R) where
  -- What a method of the monitor leaves behind, for TPDOs and for heartbeats.
  abbrev pub with_pdos :
      Tool W N R → Result (Unit {0}) × (W × Feed (ℤ × ℕ) R) → Result (Unit {0}) × Tool W N R
  with_pdos t (r, (w, f)) = (r, record t { network = w; pdos = f; next_ref = suc t.next_ref })

  abbrev pub with_hbs :
      Tool W N R → Result (Unit {0}) × (W × Feed ℤ R) → Result (Unit {0}) × Tool W N R
  with_hbs t (r, (w, f)) = (r, record t { network = w; hbs = f; next_ref = suc t.next_ref })

  -- `monitor.subscribe_pdo(node, pdo_num, nodes_meta)`, and the other three methods.
  unfoldable pub monitor_subscribe_pdo : N → ℕ → Tool W N R → Result (Unit {0}) × Tool W N R
  monitor_subscribe_pdo node n t = with_pdos t (
      Monitor.subscribe_pdo lib.pdo_callbacks same_key (lib.id node, n) t.next_ref
        (t.network, t.pdos))

  unfoldable pub monitor_subscribe_heartbeat : N → Tool W N R → Result (Unit {0}) × Tool W N R
  monitor_subscribe_heartbeat node t = with_hbs t (
      Monitor.subscribe_heartbeat lib.hb_callbacks same_int (lib.id node) t.next_ref
        (t.network, t.hbs))

  unfoldable pub monitor_unsubscribe_pdo : N → ℕ → Tool W N R → Result (Unit {0}) × Tool W N R
  monitor_unsubscribe_pdo node n t =
      with_pdos t
        (Monitor.unsubscribe_pdo lib.pdo_callbacks same_key (lib.id node, n) (t.network, t.pdos))

  unfoldable pub monitor_unsubscribe_heartbeat : N → Tool W N R → Result (Unit {0}) × Tool W N R
  monitor_unsubscribe_heartbeat node t =
      with_hbs t
        (Monitor.unsubscribe_heartbeat lib.hb_callbacks same_int (lib.id node) (t.network, t.hbs))

  -- "Press Enter to go back to the main menu."
  abbrev pub enter : Menu (Tool W N R) (Unit {0})
  enter = reading ask >>= λ s. pure tt

  -- Behind the test whether there is a TPDO.
  unfoldable pub subscribe_some : N → ℕ → Bool → Menu (Tool W N R) (Unit {0})
  unfolding monitor_subscribe_pdo
  subscribe_some node tpdo_count true = enter
  subscribe_some node tpdo_count false = do
    pdo_num ← reading (choose_number tpdo_count)
    acting (monitor_subscribe_pdo node pdo_num)
    enter

  -- The `try` block.
  unfoldable pub subscribe_of : N → Menu (Tool W N R) (Unit {0})
  unfolding subscribe_some
  subscribe_of node = do
    tpdo_count ← lift (lib.tpdo_count node)
    subscribe_some node tpdo_count (tpdo_count == 0)

  -- The handler waits as well.
  abbrev pub or_enter : Option (Unit {0}) → Menu (Tool W N R) (Unit {0})
  or_enter none = enter
  or_enter (some u) = pure tt

  unfoldable pub subscribe_tpdo_to : Option N → Menu (Tool W N R) (Unit {0})
  unfolding subscribe_of
  subscribe_tpdo_to none = pure tt
  subscribe_tpdo_to (some node) = do done ← attempt (subscribe_of node); or_enter done

  unfoldable pub subscribe_tpdo : Menu (Tool W N R) (Unit {0})
  unfolding subscribe_tpdo_to
  subscribe_tpdo = choose_node >>= subscribe_tpdo_to

  unfoldable pub subscribe_heartbeat_to : Option N → Menu (Tool W N R) (Unit {0})
  unfolding monitor_subscribe_heartbeat
  subscribe_heartbeat_to none = pure tt
  subscribe_heartbeat_to (some node) = do
    attempt (acting (monitor_subscribe_heartbeat node))
    pure tt

  unfoldable pub subscribe_heartbeat : Menu (Tool W N R) (Unit {0})
  unfolding subscribe_heartbeat_to
  subscribe_heartbeat = choose_node >>= subscribe_heartbeat_to

  -- `if node:` behind `nodes.get(node_id)`
  unfoldable pub unsubscribe_pdo_at : ℕ → Option N → Menu (Tool W N R) (Unit {0})
  unfolding monitor_unsubscribe_pdo
  unsubscribe_pdo_at n none = pure tt
  unsubscribe_pdo_at n (some node) = acting (monitor_unsubscribe_pdo node n)

  unfoldable pub unsubscribe_pdo_among : List (ℤ × ℕ) → Menu (Tool W N R) (Unit {0})
  unfolding unsubscribe_pdo_at
  unsubscribe_pdo_among [] = pure tt
  unsubscribe_pdo_among (k ∷ current) = do
    choice ← reading (choose_number (length (k ∷ current)))
    key ← lift (index (k ∷ current) (choice - 1))
    node ← reads (λ t. get same_int key.0 t.nodes)
    unsubscribe_pdo_at key.1 node

  unfoldable pub unsubscribe_tpdo : Menu (Tool W N R) (Unit {0})
  unfolding unsubscribe_pdo_among
  unsubscribe_tpdo = do
    current ← reads (λ t. map (λ p. p.0) t.pdos.subscribed)
    unsubscribe_pdo_among current

  unfoldable pub unsubscribe_hb_at : Option N → Menu (Tool W N R) (Unit {0})
  unfolding monitor_unsubscribe_heartbeat
  unsubscribe_hb_at none = pure tt
  unsubscribe_hb_at (some node) = acting (monitor_unsubscribe_heartbeat node)

  unfoldable pub unsubscribe_hb_among : List ℤ → Menu (Tool W N R) (Unit {0})
  unfolding unsubscribe_hb_at
  unsubscribe_hb_among [] = pure tt
  unsubscribe_hb_among (k ∷ current) = do
    choice ← reading (choose_number (length (k ∷ current)))
    node_id ← lift (index (k ∷ current) (choice - 1))
    node ← reads (λ t. get same_int node_id t.nodes)
    unsubscribe_hb_at node

  unfoldable pub unsubscribe_heartbeat : Menu (Tool W N R) (Unit {0})
  unfolding unsubscribe_hb_among
  unsubscribe_heartbeat = do
    current ← reads (λ t. map (λ p. p.0) t.hbs.subscribed)
    unsubscribe_hb_among current
