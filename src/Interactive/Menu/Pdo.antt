-- ===== src/Interactive/Menu/Pdo.antt =====
-- `send_pdo` of canopen-interactive/co.py.
use canopen_tools.Prelude.{ℕ, ◌==◌, Bool, true, false, Option, none, some, List, [], ◌∷◌, length}
use canopen_tools.Outcome
use canopen_tools.Outcome.{Result, ok}
use canopen_tools.Interactive.Text.{Text}
use canopen_tools.Interactive.Text.Values.{values_of}
use canopen_tools.Interactive.Session.{ask, choose_number}
use canopen_tools.Interactive.Menu.{Menu, pure, reading, lift, attempt, ◌>>=◌, ◌>>◌}
use canopen_tools.Interactive.Menu.Library.{set_data, transmit, Canopen, Tool, perform}
use canopen_tools.Interactive.Menu.Nodes.{choose_node}
pub mod Sent

-- `for v, var in zip(val_list, rpdo.maps): … values.append(dtype(v))`
unfoldable pub convert : {R : Type 0} → List Text → List (Text → Result R) → Result (List R)
convert [] maps = ok []
convert (v ∷ vs) [] = ok []
convert (v ∷ vs) (dtype ∷ maps) =
    Outcome.◌>>=◌ (dtype v) (λ r. Outcome.◌>>=◌ (convert vs maps) (λ rs. ok (r ∷ rs)))

module _ {W N R : Type 0} (lib : Canopen W N R) where
  -- Behind the test of the number of values.
  unfoldable pub send_values :
      N → ℕ → List (Text → Result R) → List Text → Bool → Menu (Tool W N R) (Unit {0})
  unfolding convert
  send_values node pdo_num maps val_list false = pure tt
  send_values node pdo_num maps val_list true = do
    values ← lift (convert val_list maps)
    perform lib (set_data node pdo_num values)
    perform lib (transmit node pdo_num)

  -- Behind the test whether a variable is mapped.
  unfoldable pub send_mapped : N → ℕ → List (Text → Result R) → Bool → Menu (Tool W N R) (Unit {0})
  unfolding send_values
  send_mapped node pdo_num maps true = pure tt
  send_mapped node pdo_num maps false = do
    vals_input ← reading ask
    let val_list = values_of vals_input
    send_values node pdo_num maps val_list (length val_list == length maps)

  -- Behind the test whether there is an RPDO.
  unfoldable pub send_rpdo : N → ℕ → Bool → Menu (Tool W N R) (Unit {0})
  unfolding send_mapped
  send_rpdo node rpdo_count true = pure tt
  send_rpdo node rpdo_count false = do
    pdo_num ← reading (choose_number rpdo_count)
    maps ← lift (lib.rpdo_maps node pdo_num)
    send_mapped node pdo_num maps (length maps == 0)

  -- The `try` block.
  unfoldable pub send_pdo_of : N → Menu (Tool W N R) (Unit {0})
  unfolding send_rpdo
  send_pdo_of node = do
    rpdo_count ← lift (lib.rpdo_count node)
    send_rpdo node rpdo_count (rpdo_count == 0)

  unfoldable pub send_pdo_to : Option N → Menu (Tool W N R) (Unit {0})
  unfolding send_pdo_of
  send_pdo_to none = pure tt
  send_pdo_to (some node) = do attempt (send_pdo_of node); pure tt

  unfoldable pub send_pdo : Menu (Tool W N R) (Unit {0})
  unfolding send_pdo_to
  send_pdo = do node ← choose_node; send_pdo_to node
