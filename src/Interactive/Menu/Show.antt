-- ===== src/Interactive/Menu/Show.antt =====
-- `list_nodes`, `show_node_state` and `show_node_od_info` of canopen-interactive/co.py: what may
-- fail in them, and what they wait for.
use canopen_tools.Prelude.{Option, none, some}
use canopen_tools.Interactive.Session.{ask}
use canopen_tools.Interactive.Menu.{Menu, pure, reading, lift, reads, attempt, ◌>>=◌, ◌>>◌}
use canopen_tools.Interactive.Menu.Library.{Canopen, Tool, item}
use canopen_tools.Interactive.Menu.Nodes.{choose_node}

module _ {W N R : Type 0} (lib : Canopen W N R) where
  -- "Press Enter to go back to the main menu."
  unfoldable pub list_nodes : Menu (Tool W N R) (Unit {0})
  list_nodes = do reading ask; pure tt

  -- The `try` block: the state, and the name that is printed with it.
  unfoldable pub state_of : N → Menu (Tool W N R) (Unit {0})
  state_of node = do
    w ← reads (λ t. t.network)
    state ← lift (lib.nmt_state node w)
    meta ← reads (λ t. t.nodes_meta)
    name ← lift (item (lib.id node) meta)
    pure tt

  unfoldable pub show_state_of : Option N → Menu (Tool W N R) (Unit {0})
  unfolding state_of
  show_state_of none = pure tt
  show_state_of (some node) = do attempt (state_of node); reading ask; pure tt

  unfoldable pub show_node_state : Menu (Tool W N R) (Unit {0})
  unfolding show_state_of
  show_node_state = do node ← choose_node; show_state_of node

  -- The name is looked up outside of any `try`.
  unfoldable pub show_info_of : Option N → Menu (Tool W N R) (Unit {0})
  show_info_of none = pure tt
  show_info_of (some node) = do
    meta ← reads (λ t. t.nodes_meta)
    name ← lift (item (lib.id node) meta)
    reading ask
    pure tt

  unfoldable pub show_node_od_info : Menu (Tool W N R) (Unit {0})
  unfolding show_info_of
  show_node_od_info = do node ← choose_node; show_info_of node
