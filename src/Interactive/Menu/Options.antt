-- ===== src/Interactive/Menu/Options.antt =====
-- What `main` of canopen-interactive/co.py calls for its options.
use canopen_tools.Prelude.{ℕ, Option, none, some, List}
use canopen_tools.Outcome.{Result}
use canopen_tools.Interactive.Text.{Text}
use canopen_tools.Interactive.Menu.{Menu, pure, ◌>>=◌}
use canopen_tools.Interactive.Menu.Library.{Canopen, Tool}
use canopen_tools.Interactive.Menu.Nodes.{choose_node, add_node_menu, send_nmt}
use canopen_tools.Interactive.Menu.Sdo.{read_sdo, write_sdo}
use canopen_tools.Interactive.Menu.Pdo.{send_pdo}
use canopen_tools.Interactive.Menu.Subscribe.{
  subscribe_tpdo, subscribe_heartbeat, unsubscribe_tpdo, unsubscribe_heartbeat,
}
use canopen_tools.Interactive.Menu.Show.{list_nodes, show_node_state, show_node_od_info}
use canopen_tools.Interactive.Menu.Flash.{Updates, flash_firmware_menu}
use canopen_tools.Interactive.Menu.Main.{Actions}

-- What a host provides: `os.path.basename`, and `encode('utf-8')`.
pub record Host : Type 0 where
  pub basename : Text → Text
  pub encode : Text → Result (List ℕ)

module _ {W N R : Type 0} where
  -- `if node:`
  unfoldable pub if_node :
      (N → Menu (Tool W N R) (Unit {0})) → Option N → Menu (Tool W N R) (Unit {0})
  if_node act none = pure tt
  if_node act (some node) = act node

  -- `node = choose_node(nodes, nodes_meta)` before an action on it.
  unfoldable pub on_node : (N → Menu (Tool W N R) (Unit {0})) → Menu (Tool W N R) (Unit {0})
  unfolding if_node
  on_node act = choose_node >>= if_node act

  -- The options of the program.
  abbrev pub options_with : Canopen W N R → Host → Updates W N → List Text → Actions (Tool W N R)
  options_with lib host dev eds_files = record {
    add_node = add_node_menu lib host.basename eds_files;
    send_nmt = send_nmt lib;
    read_sdo = on_node (read_sdo lib);
    write_sdo = on_node (write_sdo lib host.encode);
    send_pdo = send_pdo lib;
    subscribe_tpdo = subscribe_tpdo lib;
    subscribe_heartbeat = subscribe_heartbeat lib;
    unsubscribe_tpdo = unsubscribe_tpdo lib;
    unsubscribe_heartbeat = unsubscribe_heartbeat lib;
    list_nodes = list_nodes lib;
    show_node_state = show_node_state lib;
    show_node_od_info = show_node_od_info lib;
    flash_firmware = flash_firmware_menu dev;
  }
