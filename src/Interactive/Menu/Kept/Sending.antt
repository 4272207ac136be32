-- ===== src/Interactive/Menu/Kept/Sending.antt =====
-- Properties that `add_node`, `send_nmt`, `send_pdo` and the connection of canopen-interactive/co.py
-- have if their parts have them.
use canopen_tools.Prelude.{ℕ, Bool, true, false, Option, none, some, List}
use canopen_tools.Outcome.{Result, ok}
use canopen_tools.Interactive.Text.{Text, codes, strip, pos, int}
use canopen_tools.Interactive.Text.Values.{values_of}
use canopen_tools.Interactive.Session.{ask, choose, choose_number}
use canopen_tools.Interactive.Menu.{Menu, reading, lift}
use canopen_tools.Interactive.Menu.Library.{
  connect, add_node, send_command, set_data, transmit, Canopen, Tool, perform,
}
use canopen_tools.Interactive.Menu.Nodes.{
  choose_node, nmt_cmds, add_node_menu, send_nmt_to, send_nmt,
}
use canopen_tools.Interactive.Menu.Sdo.Parts
use canopen_tools.Interactive.Menu.Sdo.Parts.{read_object-Closed, write_object-Closed}
use canopen_tools.Interactive.Menu.Sdo.{tried}
use canopen_tools.Interactive.Menu.Pdo.{
  convert, send_values, send_mapped, send_rpdo, send_pdo_of, send_pdo_to, send_pdo,
}
use canopen_tools.Interactive.Menu.Main.{or_default, connected}
use canopen_tools.Interactive.Menu.Closed.{IsClosed}
use canopen_tools.Interactive.Menu.Kept.{choose_node-Closed, IsClosedTool}

module _ {W N R : Type 0} (lib : Canopen W N R) (C : (A : Type 0) → Menu (Tool W N R) A → Type 0)
    (closed : IsClosed C) (tool : IsClosedTool lib C) where
  pub send_nmt_to-Closed : (o : Option N) → C _ (send_nmt_to lib o)
  unfolding send_nmt_to tried
  send_nmt_to-Closed none = closed.pures tt
  send_nmt_to-Closed (some node) =
      closed.binds (reading (choose nmt_cmds)) _ (closed.chooses _) (λ cmd.
        Parts.tried-Closed lib C closed (perform lib (send_command node cmd.1))
          (tool.performs (send_command node cmd.1)))

  pub send_values-Closed :
      (node : N) (n : ℕ) (maps : List (Text → Result R)) (vs : List Text) (b : Bool)
      → C _ (send_values lib node n maps vs b)
  unfolding send_values
  send_values-Closed node n maps vs false = closed.pures tt
  send_values-Closed node n maps vs true =
      closed.binds (lift (convert vs maps)) _ (closed.lifts _) (λ values.
        closed.binds (perform lib (set_data node n values)) _
          (tool.performs (set_data node n values)) (λ u. tool.performs (transmit node n)))

  pub send_mapped-Closed :
      (node : N) (n : ℕ) (maps : List (Text → Result R)) (b : Bool)
      → C _ (send_mapped lib node n maps b)
  unfolding send_mapped
  send_mapped-Closed node n maps true = closed.pures tt
  send_mapped-Closed node n maps false =
      closed.binds (reading ask) _ closed.asks (λ s. send_values-Closed node n maps (values_of s) _)

  pub send_rpdo-Closed : (node : N) (count : ℕ) (b : Bool) → C _ (send_rpdo lib node count b)
  unfolding send_rpdo
  send_rpdo-Closed node count true = closed.pures tt
  send_rpdo-Closed node count false =
      closed.binds (reading (choose_number count)) _ (closed.numbers _) (λ n.
        closed.binds (lift (lib.rpdo_maps node n)) _ (closed.lifts _)
          (λ maps. send_mapped-Closed node n maps _))

  pub send_pdo_to-Closed : (o : Option N) → C _ (send_pdo_to lib o)
  unfolding send_pdo_to send_pdo_of tried
  send_pdo_to-Closed none = closed.pures tt
  send_pdo_to-Closed (some node) = Parts.tried-Closed lib C closed (send_pdo_of lib node) (
      closed.binds (lift (lib.rpdo_count node)) _ (closed.lifts _)
        (λ count. send_rpdo-Closed node count _))

  pub send_nmt-Closed : C _ (send_nmt lib)
  unfolding send_nmt
  send_nmt-Closed =
      closed.binds choose_node _ (choose_node-Closed lib C closed tool) send_nmt_to-Closed

  pub send_pdo-Closed : C _ (send_pdo lib)
  unfolding send_pdo
  send_pdo-Closed =
      closed.binds choose_node _ (choose_node-Closed lib C closed tool) send_pdo_to-Closed

  pub add_node_menu-Closed :
      (basename : Text → Text) (eds_files : List Text) → C _ (add_node_menu lib basename eds_files)
  unfolding add_node_menu
  add_node_menu-Closed basename eds_files = closed.binds (reading ask) _ closed.asks (λ s.
      closed.binds (lift (int s)) _ (closed.lifts _) (λ node_id.
        closed.binds (reading (choose eds_files)) _ (closed.chooses _) (λ eds.
          closed.binds (lift (lib.remote_node node_id eds)) _ (closed.lifts _) (λ node.
            closed.binds (perform lib (add_node node)) _ (tool.performs (add_node node))
              (λ u. tool.stores node_id node (basename eds))))))

  pub connected-Closed : C _ (connected lib)
  unfolding connected
  connected-Closed = closed.binds (reading ask) _ closed.asks (λ s.
      closed.binds (reading ask) _ closed.asks (λ b.
        closed.binds (lift (or_default (codes "vcan0") (λ s. ok s) (strip s))) _ (closed.lifts _)
          (λ channel.
            closed.binds (lift (or_default (pos 125000) int (strip b))) _ (closed.lifts _)
              (λ n. tool.performs (connect channel n)))))
