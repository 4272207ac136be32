-- ===== src/Interactive/Menu/Kept/Options.antt =====
-- Properties that the options of canopen-interactive/co.py have if their parts have them.
use canopen_tools.Prelude.{All, List}
use canopen_tools.Interactive.Text.{Text}
use canopen_tools.Interactive.Menu.{Menu}
use canopen_tools.Interactive.Menu.Library.{Canopen, Tool}
use canopen_tools.Interactive.Menu.Main.{options}
use canopen_tools.Interactive.Menu.Flash.{Updates, updated}
use canopen_tools.Interactive.Menu.Kept.Flashing.{flash_firmware_menu-Closed}
use canopen_tools.Interactive.Menu.Options.{Host, options_with}
use canopen_tools.Interactive.Menu.Sdo.{read_sdo, write_sdo}
use canopen_tools.Interactive.Menu.Closed.{IsClosed}
use canopen_tools.Interactive.Menu.Kept.Sending.{
  add_node_menu-Closed, send_nmt-Closed, send_pdo-Closed,
}
use canopen_tools.Interactive.Menu.Kept.Access.{
  list_nodes-Closed, read_sdo-Closed, show_node_od_info-Closed, show_node_state-Closed,
  write_sdo-Closed,
}
use canopen_tools.Interactive.Menu.Kept.Monitor.{
  subscribe_heartbeat-Closed, subscribe_tpdo-Closed, unsubscribe_heartbeat-Closed,
  unsubscribe_tpdo-Closed,
}
use canopen_tools.Interactive.Menu.Kept.{on_node-Closed, IsClosedTool}

module _ {W N R : Type 0} (lib : Canopen W N R) (C : (A : Type 0) → Menu (Tool W N R) A → Type 0)
    (closed : IsClosed C) (tool : IsClosedTool lib C) where
  -- What the options of the program have, if an update has it.
  pub options-Closed :
      (host : Host) (dev : Updates W N) (eds_files : List Text)
      → ((node : N) (bin_path : Text) → C _ (updated {R = R} dev node bin_path))
      → All (λ p. C _ p.1) (options (options_with lib host dev eds_files))
  options-Closed host dev eds_files updates = (
    (add_node_menu-Closed lib C closed tool) host.basename eds_files,
    (
      (send_nmt-Closed lib C closed tool),
      (
        (on_node-Closed lib C closed tool) (read_sdo lib) (read_sdo-Closed lib C closed tool),
        (
          (on_node-Closed lib C closed tool) (write_sdo lib host.encode)
              ((write_sdo-Closed lib C closed tool) host.encode),
          (
            (send_pdo-Closed lib C closed tool),
            (
              (subscribe_tpdo-Closed lib C closed tool),
              (
                (subscribe_heartbeat-Closed lib C closed tool),
                (
                  (unsubscribe_tpdo-Closed lib C closed tool),
                  (
                    (unsubscribe_heartbeat-Closed lib C closed tool),
                    (
                      (list_nodes-Closed lib C closed tool),
                      (
                        (show_node_state-Closed lib C closed tool),
                        (
                          (show_node_od_info-Closed lib C closed tool),
                          (flash_firmware_menu-Closed lib C closed tool dev updates, tt),
                        ),
                      ),
                    ),
                  ),
                ),
              ),
            ),
          ),
        ),
      ),
    ),
  )
