-- ===== src/Interactive/Menu/Library.antt =====
-- python-canopen as canopen-interactive/co.py calls it, and the state that the actions of the menu
-- share.
use canopen_tools.Prelude.{ℕ, Bool, Option, none, some, List, [], ◌∷◌, ◌++◌}
use canopen_tools.Outcome.{Result, ok, raise, key_error}
use canopen_tools.Firmware.Device
use canopen_tools.Interactive.Text.{Text, ℤ}
use canopen_tools.Interactive.Dict.{get}
use canopen_tools.Interactive.Monitor.{Callbacks, Feed}
use canopen_tools.Interactive.Menu.{same_int, Menu, acting}

-- What the program asks the library to do on the network, with what was built in the log.
pub data Call (N R : Type 0) : Type 0 where
  add_node : N → Call N R
  send_command : N → ℕ → Call N R
  set_data : N → ℕ → List R → Call N R
  transmit : N → ℕ → Call N R
  -- `node.sdo[index].raw`, or `node.sdo[index][sub].raw`, read and written.
  read_raw : N → ℕ → Option ℕ → Call N R
  write_raw : N → ℕ → Option ℕ → R → Call N R
  connect : Text → ℤ → Call N R
  disconnect : Call N R

-- An object of a node's dictionary: its name, `str` of its data type (empty without one), and its
-- subindices with their names, if it has any.
pub record Object : Type 0 where
  pub name : Option Text
  pub data_type : Text
  pub subindices : Option (List (ℕ × Text))

-- A network `W`, nodes `N` and raw values `R`. A call changes the network, or raises.
pub record Canopen (W N R : Type 0) : Type 0 where
  -- `canopen.RemoteNode(node_id, eds)`
  pub remote_node : ℤ → Text → Result N
  -- `node.id`
  pub id : N → ℤ
  pub call : Call N R → W → Result (Unit {0}) × W
  -- `node.nmt.state`
  pub nmt_state : N → W → Result ℕ
  -- The value that a `read_raw` gives.
  pub read : N → ℕ → Option ℕ → W → Result R × W
  -- `node.object_dictionary.items()`
  pub object_dictionary : N → List (ℕ × Object)
  -- `type(raw)(val)`, `int(val)`, a byte, `isinstance(raw, (bytes, bytearray))`, and bytes.
  pub of_type : R → Text → Result R
  pub of_int : ℤ → R
  pub of_byte : ℕ → R
  pub is_bytes : R → Bool
  pub of_bytes : List ℕ → R
  -- The callback lists of TPDOs and of heartbeats, and `len(node.tpdo)`.
  pub pdo_callbacks : Callbacks W (ℤ × ℕ)
  pub hb_callbacks : Callbacks W ℤ
  pub tpdo_count : N → Result ℕ
  -- `len(node.rpdo)`
  pub rpdo_count : N → Result ℕ
  -- `node.rpdo[pdo_num].maps`: for each variable, what makes its value of a text.
  pub rpdo_maps : N → ℕ → Result (List (Text → Result R))

-- The network with the calls that were made on it, each with what it returned, `nodes` and
-- `nodes_meta`, the tables of the monitor, whose next callback has the number `next_ref`, and the
-- updates of devices, each as the bytes of its file and its calls.
pub record Tool (W N R : Type 0) : Type 0 where
  pub network : W
  pub log : List (Call N R × Result (Unit {0}))
  pub nodes : List (ℤ × N)
  pub nodes_meta : List (ℤ × Text)
  pub pdos : Feed (ℤ × ℕ) R
  pub hbs : Feed ℤ R
  pub next_ref : ℕ
  pub flashed : List (List ℕ × Device.Log)

abbrev pub ended : {A : Type 0} → Result A → Result (Unit {0})
ended (ok a) = ok tt
ended (raise e) = raise e

module _ {W N R : Type 0} (lib : Canopen W N R) where
  -- The call, made and logged.
  unfoldable pub called : Call N R → Tool W N R → Result (Unit {0}) × Tool W N R
  called c t =
      let (r, w) = lib.call c t.network in
      (r, record t { network = w; log = t.log ++ ((c, r) ∷ []) })

  unfoldable pub perform : Call N R → Menu (Tool W N R) (Unit {0})
  unfolding called
  perform c = acting (called c)

  -- The value, read and logged.
  unfoldable pub got : N → ℕ → Option ℕ → Tool W N R → Result R × Tool W N R
  got node index sub t =
      let (r, w) = lib.read node index sub t.network in
      (r, record t { network = w; log = t.log ++ ((read_raw node index sub, ended r) ∷ []) })

  unfoldable pub read_value : N → ℕ → Option ℕ → Menu (Tool W N R) R
  unfolding got
  read_value node index sub = acting (got node index sub)

-- `d[key]`
unfoldable pub item : {V : Type 0} → ℤ → List (ℤ × V) → Result V
item k d = elim (get same_int k d) [ none ↦ raise key_error | some v ↦ ok v ]
