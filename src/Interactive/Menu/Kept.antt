-- ===== src/Interactive/Menu/Kept.antt =====
-- Properties that the calls of the library and the reading of inputs pass on to the actions of
-- canopen-interactive/co.py: its choice of a node. The children are its actions, by their files.
use canopen_tools.Prelude.{map, All, ℕ, Bool, true, false, Option, none, some, List, [], ◌∷◌}
use canopen_tools.Outcome.{Result, ok}
use canopen_tools.Interactive.Text.{Text, codes, strip, ℤ, pos, int}
use canopen_tools.Interactive.Text.Values.{values_of}
use canopen_tools.Interactive.Session.{ask, choose, choose_number}
use canopen_tools.Interactive.Menu.{Menu, pure, reading, lift, reads, acting, attempt, ◌>>=◌}
use canopen_tools.Interactive.Menu.Library.{
  read_value, item, write_raw, Call, connect, add_node, send_command, set_data, transmit, Canopen,
  Tool, perform,
}
use canopen_tools.Interactive.Menu.Nodes.{
  stored, choose_among, choose_node, nmt_cmds, add_node_menu, send_nmt_to, send_nmt,
}
use canopen_tools.Interactive.Menu.Main.{Actions, options}
use canopen_tools.Interactive.Menu.Options.{Host, options_with, if_node, on_node}
use canopen_tools.Interactive.Menu.Show.{
  list_nodes, state_of, show_state_of, show_node_state, show_info_of, show_node_od_info,
}
use canopen_tools.Interactive.Menu.Sdo.Parts
use canopen_tools.Interactive.Menu.Sdo.Parts.{read_object-Closed, write_object-Closed}
use canopen_tools.Interactive.Menu.Sdo.{
  tried, list_od_entries, choose_od_entry, read_sdo, write_sdo,
}
use canopen_tools.Interactive.Dict.{get}
use canopen_tools.Interactive.Menu.{same_int}
use canopen_tools.Interactive.Menu.Subscribe.{
  monitor_subscribe_pdo, monitor_subscribe_heartbeat, monitor_unsubscribe_pdo,
  monitor_unsubscribe_heartbeat, or_enter, subscribe_some, subscribe_of, subscribe_tpdo_to,
  subscribe_tpdo, subscribe_heartbeat_to, subscribe_heartbeat, unsubscribe_pdo_at,
  unsubscribe_pdo_among, unsubscribe_tpdo, unsubscribe_hb_at, unsubscribe_hb_among,
  unsubscribe_heartbeat,
}
use canopen_tools.Interactive.Menu.Pdo.{
  convert, send_values, send_mapped, send_rpdo, send_pdo_of, send_pdo_to, send_pdo,
}
use canopen_tools.Interactive.Menu.Main.{or_default, connected}
use canopen_tools.Interactive.Menu.Closed.{IsClosed}
use canopen_tools.Interactive.Session.{prompt}
pub mod Sending
pub mod Access
pub mod Monitor
pub mod Flashing
pub mod Options

-- The calls of the library, and the change of the dictionaries, have a property of actions.
pub record IsClosedTool {W N R : Type 0} (lib : Canopen W N R)
    (C : (A : Type 0) → Menu (Tool W N R) A → Type 0) : Type 0 where
  pub performs : (c : Call N R) → C _ (perform lib c)
  pub gets : (node : N) (index : ℕ) (sub : Option ℕ) → C _ (read_value lib node index sub)
  pub subscribes_pdo : (node : N) (n : ℕ) → C _ (acting (monitor_subscribe_pdo lib node n))
  pub subscribes_hb : (node : N) → C _ (acting (monitor_subscribe_heartbeat lib node))
  pub unsubscribes_pdo : (node : N) (n : ℕ) → C _ (acting (monitor_unsubscribe_pdo lib node n))
  pub unsubscribes_hb : (node : N) → C _ (acting (monitor_unsubscribe_heartbeat lib node))
  pub stores : (k : ℤ) (node : N) (name : Text) → C _ (acting {T = Tool W N R} (stored k node name))

module _ {W N R : Type 0} (lib : Canopen W N R) (C : (A : Type 0) → Menu (Tool W N R) A → Type 0)
    (closed : IsClosed C) (tool : IsClosedTool lib C) where
  pub choose_among-Closed : (d : List (ℤ × N)) → C _ (choose_among {W = W} {N = N} {R = R} d)
  unfolding choose_among
  choose_among-Closed [] = closed.pures none
  choose_among-Closed (n ∷ d) =
      closed.binds (reads (λ t. t.nodes_meta)) _ (closed.states _) (λ meta.
        closed.binds (lift _) _ (closed.lifts _) (λ u.
          closed.binds (reading (prompt _ _)) _ (closed.prompts _ _) (λ node. closed.pures _)))

  pub choose_node-Closed : C _ (choose_node {W = W} {N = N} {R = R})
  unfolding choose_node
  choose_node-Closed = closed.binds (reads (λ t. t.nodes)) _ (closed.states _) choose_among-Closed

  pub asked-Closed : {A : Type 0} (a : A) → C _ (reading {T = Tool W N R} ask >>= λ s. pure a)
  asked-Closed a = closed.binds (reading ask) _ closed.asks (λ s. closed.pures _)

  pub on_node-Closed :
      (act : N → Menu (Tool W N R) (Unit {0})) → ((node : N) → C _ (act node)) → C _ (on_node act)
  unfolding on_node if_node
  on_node-Closed act h = closed.binds choose_node _ choose_node-Closed there
    where
      there : (o : Option N) → C _ (if_node act o)
      there none = closed.pures tt
      there (some node) = h node
