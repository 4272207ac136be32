-- ===== src/Interactive/Menu/Kept/Flashing.antt =====
-- Properties that the firmware update of canopen-interactive/co.py has as an option of the menu if
-- its update has them.
use canopen_tools.Prelude.{Bool, true, false, Option, none, some}
use canopen_tools.Interactive.Text.{Text, strip}
use canopen_tools.Interactive.Session.{ask}
use canopen_tools.Interactive.Menu.{Menu, reading}
use canopen_tools.Interactive.Menu.Library.{Canopen, Tool}
use canopen_tools.Interactive.Menu.Nodes.{choose_node}
use canopen_tools.Interactive.Menu.Flash.{
  Updates, updated, back_to_menu, is_confirmed, flash_confirmed, flash_file, flash_to,
  flash_firmware_menu,
}
use canopen_tools.Interactive.Menu.Closed.{IsClosed}
use canopen_tools.Interactive.Menu.Kept.{choose_node-Closed, IsClosedTool}

module _ {W N R : Type 0} (lib : Canopen W N R) (C : (A : Type 0) → Menu (Tool W N R) A → Type 0)
    (closed : IsClosed C) (tool : IsClosedTool lib C) (dev : Updates W N)
    (updates : (node : N) (bin_path : Text) → C _ (updated {R = R} dev node bin_path)) where
  back-Closed : C _ (back_to_menu dev)
  back-Closed = closed.binds (reading ask) _ closed.asks (λ s. closed.pures tt)

  confirmed-Closed : (node : N) (path : Text) (b : Bool) → C _ (flash_confirmed dev node path b)
  unfolding flash_confirmed
  confirmed-Closed node path true =
      closed.binds (updated dev node path) _ (updates node path) (λ told. back-Closed)
  confirmed-Closed node path false = back-Closed

  file-Closed : (node : N) (path : Text) (b : Bool) → C _ (flash_file dev node path b)
  unfolding flash_file
  file-Closed node path true =
      closed.binds (reading ask) _ closed.asks (λ s. confirmed-Closed node path (is_confirmed s))
  file-Closed node path false = back-Closed

  to-Closed : (o : Option N) → C _ (flash_to dev o)
  unfolding flash_to
  to-Closed none = back-Closed
  to-Closed (some node) =
      closed.binds (reading ask) _ closed.asks
        (λ s. file-Closed node (strip s) (dev.is_file (strip s)))

  pub flash_firmware_menu-Closed : C _ (flash_firmware_menu dev)
  unfolding flash_firmware_menu
  flash_firmware_menu-Closed =
      closed.binds choose_node _ (choose_node-Closed lib C closed tool) to-Closed
