-- ===== src/Interactive/Menu/Kept/Access.antt =====
-- Properties that the actions on SDOs and those that only print, of canopen-interactive/co.py, have if
-- their parts have them.
use canopen_tools.Prelude.{ℕ, Option, none, some, List}
use canopen_tools.Outcome.{Result}
use canopen_tools.Interactive.Text.{Text}
use canopen_tools.Interactive.Session.{choose}
use canopen_tools.Interactive.Menu.{Menu, reading, lift, reads, attempt}
use canopen_tools.Interactive.Menu.Library.{item, write_raw, Canopen, Tool}
use canopen_tools.Interactive.Menu.Nodes.{choose_node}
use canopen_tools.Interactive.Menu.Show.{
  list_nodes, state_of, show_state_of, show_node_state, show_info_of, show_node_od_info,
}
use canopen_tools.Interactive.Menu.Sdo.Parts
use canopen_tools.Interactive.Menu.Sdo.Parts.{read_object-Closed, write_object-Closed}
use canopen_tools.Interactive.Menu.Sdo.{list_od_entries, choose_od_entry, read_sdo, write_sdo}
use canopen_tools.Interactive.Menu.Closed.{IsClosed}
use canopen_tools.Interactive.Menu.Kept.{asked-Closed, choose_node-Closed, IsClosedTool}

module _ {W N R : Type 0} (lib : Canopen W N R) (C : (A : Type 0) → Menu (Tool W N R) A → Type 0)
    (closed : IsClosed C) (tool : IsClosedTool lib C) where
  pub read_sdo-Closed : (node : N) → C _ (read_sdo lib node)
  unfolding read_sdo choose_od_entry
  read_sdo-Closed node =
      closed.binds (reading (choose (list_od_entries lib node))) _ (closed.chooses _) (λ entry.
        closed.binds _ _
          (Parts.tried-Closed lib C closed _
            (read_object-Closed lib C closed node entry.0 (tool.gets node entry.0) entry.1 _))
          (λ u. (asked-Closed lib C closed tool) tt))

  pub write_sdo-Closed :
      (encode : Text → Result (List ℕ)) (node : N) → C _ (write_sdo lib encode node)
  unfolding write_sdo choose_od_entry
  write_sdo-Closed encode node =
      closed.binds (reading (choose (list_od_entries lib node))) _ (closed.chooses _) (λ entry.
        closed.binds _ _
          (Parts.tried-Closed lib C closed _ (
            write_object-Closed lib C closed node entry.0 (tool.gets node entry.0) encode
              (λ sub r. tool.performs (write_raw node entry.0 sub r)) entry.1 _ _))
          (λ u. (asked-Closed lib C closed tool) tt))

  pub state_of-Closed : (node : N) → C _ (state_of lib node)
  unfolding state_of
  state_of-Closed node = closed.binds (reads (λ t. t.network)) _ (closed.states _) (λ w.
      closed.binds (lift (lib.nmt_state node w)) _ (closed.lifts _) (λ state.
        closed.binds (reads (λ t. t.nodes_meta)) _ (closed.states _) (λ meta.
          closed.binds (lift (item (lib.id node) meta)) _ (closed.lifts _)
            (λ name. closed.pures _))))

  pub show_state_of-Closed : (o : Option N) → C _ (show_state_of lib o)
  unfolding show_state_of
  show_state_of-Closed none = closed.pures tt
  show_state_of-Closed (some node) =
      closed.binds (attempt (state_of lib node)) _ (closed.attempts _ (state_of-Closed node))
        (λ o. (asked-Closed lib C closed tool) tt)

  pub show_info_of-Closed : (o : Option N) → C _ (show_info_of lib o)
  unfolding show_info_of
  show_info_of-Closed none = closed.pures tt
  show_info_of-Closed (some node) =
      closed.binds (reads (λ t. t.nodes_meta)) _ (closed.states _) (λ meta.
        closed.binds (lift (item (lib.id node) meta)) _ (closed.lifts _)
          (λ name. (asked-Closed lib C closed tool) tt))

  pub show_node_state-Closed : C _ (show_node_state lib)
  unfolding show_node_state
  show_node_state-Closed =
      closed.binds choose_node _ (choose_node-Closed lib C closed tool) show_state_of-Closed

  pub show_node_od_info-Closed : C _ (show_node_od_info lib)
  unfolding show_node_od_info
  show_node_od_info-Closed =
      closed.binds choose_node _ (choose_node-Closed lib C closed tool) show_info_of-Closed

  pub list_nodes-Closed : C _ (list_nodes lib)
  unfolding list_nodes
  list_nodes-Closed = (asked-Closed lib C closed tool) tt
