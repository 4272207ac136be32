-- ===== src/Tests/Menu.antt =====
-- The menu of the interactive tool: a node that has two objects and an RPDO of two variables.
use mathlib.Core.List.{Perm}
use canopen_tools.Prelude.{
  ℕ, ◌≤◌, ◌≡◌, ◌≢◌, refl, true, false, none, some, List, [], ◌∷◌, ◌++◌, map, All, arith,
}
use canopen_tools.Outcome.{IsCaught, ok, raise, other, value_error}
use canopen_tools.Interactive.Text.{Text, is_space, strip, codes, ℤ, pos, digit, int}
use canopen_tools.Interactive.Text.Decimal.{str}
use canopen_tools.Interactive.Text.Values.{has, values_of, IsValue, join, values_of-join}
use canopen_tools.Interactive.Session.{
  Inputs, Answer, blocked, done, escaped, ask, choose, choose_number,
}
use canopen_tools.Interactive.Session.Chosen.{Chosen, choose-Chosen}
use canopen_tools.Interactive.Session.Bounds.{choose_number-bounds}
use canopen_tools.Interactive.Dict.{get, set}
use canopen_tools.Interactive.Menu.Subscribe.{same_key, unsubscribe_tpdo}
use canopen_tools.Interactive.Menu.Subscribe.Hides.{unsubscribe_tpdo-hides}
use canopen_tools.Interactive.Monitor.{Callbacks, Feed}
use canopen_tools.Interactive.Menu.{◌>>=◌}
use canopen_tools.Interactive.Menu.Library.{
  Object, Call, connect, add_node, disconnect, write_raw, perform, Canopen, Tool,
}
use canopen_tools.Interactive.Menu.Nodes.{choose_node, add_node_menu}
use canopen_tools.Interactive.Menu.Nodes.Choice.{IsTool, choose_of, choose_node-values}
use canopen_tools.Interactive.Menu.Nodes.Keys.{values, Distinct}
use canopen_tools.Interactive.Menu.Pdo.{send_pdo_to}
use canopen_tools.Interactive.Menu.Pdo.Sent.{Sent, send_pdo_to-Sent}
use canopen_tools.Interactive.Menu.Objects.Sorted.{Picked, Ascending}
use canopen_tools.Interactive.Menu.Sdo.{list_od_entries, write_sdo, write_bytes, enumerate}
use canopen_tools.Interactive.Menu.Sdo.Logs.{IsAccess}
use canopen_tools.Interactive.Menu.Sdo.Chosen.{OfOne, write_sdo-OfOne, list_od_entries-Ascending}
use canopen_tools.Interactive.Menu.Sdo.Bytes.{calls, write_bytes-calls}
use canopen_tools.Interactive.Menu.Options.{Host, options_with}
use canopen_tools.Interactive.Menu.Main.{same_text, Actions, main}
use canopen_tools.Interactive.Menu.Main.Returns.{main-ends}
use canopen_tools.Interactive.Menu.Main.Closes.{Closed, main-disconnects}
use canopen_tools.Interactive.Menu.Main.Tables.{IsConforming, main-IsTool}
use canopen_tools.Interactive.Flash.{flash_node}
use canopen_tools.Interactive.Session.{prompt}
use canopen_tools.Interactive.Menu.Library.{item}
use canopen_tools.Interactive.Menu.Nodes.{listed, node_at}
use canopen_tools.Interactive.Menu.Flash.{updated, Updates, lower, flash_firmware_menu}
use canopen_tools.Interactive.Menu.Start.{eds_files_of, node_lines}
use canopen_tools.Interactive.Text.{split_on}
use canopen_tools.Tests.Firmware.{ready, ready-Ticks, image}

abbrev names : List ℕ
names = 10 ∷ 20 ∷ 30 ∷ []

-- Nothing, a number that is too large, and the second entry.
abbrev typed : Inputs
typed = raise other ∷ ok (codes "4") ∷ ok (codes " 2 ") ∷ ok (codes "1") ∷ []

choose-Chosen_example : Chosen names typed (choose names typed)
choose-Chosen_example = choose-Chosen names typed

typed_ends : choose_number 3 typed ≡ done 2 (ok (codes "1") ∷ [])
unfolding choose_number int digit is_space
typed_ends = refl

choose_number-bounds_example : (1 ≤ 2) × (2 ≤ 3)
choose_number-bounds_example = choose_number-bounds 3 typed (ok (codes "1") ∷ []) 2 typed_ends

one_IsValue : IsValue (codes "1")
unfolding has is_space
one_IsValue = record { not_empty = λ e. cc e; no_space = (refl, tt); no_comma = refl }

values_of-join_example :
    (values_of (join b' ' (codes "1" ∷ codes "1" ∷ [])) ≡ codes "1" ∷ codes "1" ∷ [])
    × (values_of (join b',' (codes "1" ∷ codes "1" ∷ [])) ≡ codes "1" ∷ codes "1" ∷ [])
values_of-join_example =
    values_of-join (codes "1" ∷ codes "1" ∷ []) (one_IsValue, (one_IsValue, tt))

abbrev var : Object
var = record { name = some (codes "Limit"); data_type = codes "7"; subindices = none }

abbrev text : Object
text = record {
  name = some (codes "Name");
  data_type = codes "ARRAY";
  subindices = some ((0, codes "count") ∷ (1, codes "value") ∷ []);
}

abbrev no_callbacks : {K : Type 0} → Callbacks Unit K
no_callbacks = record {
  find = λ k w. ok tt;
  add = λ k ref w. ok w;
  append = λ k ref w. ok w;
  remove = λ k ref w. ok w;
  live = λ k ref w. false;
}

abbrev no_feed : {K : Type 0} → Feed K ℕ
no_feed = record { subscribed = []; callbacks = []; force_refresh = false }

abbrev lib : Canopen Unit ℤ ℕ
lib = record {
  remote_node = λ i eds. ok i;
  id = λ n. n;
  call = λ c w. (ok tt, w);
  nmt_state = λ n w. ok 5;
  read = λ n index sub w. (ok 7, w);
  object_dictionary = λ n. (0x2001, text) ∷ (0x2000, var) ∷ [];
  of_type = λ r s. ok 8;
  of_int = λ i. 9;
  of_byte = λ b. b;
  is_bytes = λ r. false;
  of_bytes = λ bs. 0;
  pdo_callbacks = no_callbacks;
  hb_callbacks = no_callbacks;
  tpdo_count = λ n. ok 1;
  rpdo_count = λ n. ok 1;
  rpdo_maps = λ n k. ok ((λ s. ok 3) ∷ (λ s. ok 4) ∷ []);
}

abbrev host : Host
host = record { basename = λ s. s; encode = λ s. ok s }

abbrev empty : Tool Unit ℤ ℕ
empty = record {
  network = tt;
  log = [];
  nodes = [];
  nodes_meta = [];
  pdos = no_feed;
  hbs = no_feed;
  next_ref = 0;
  flashed = [];
}

abbrev one_node : Tool Unit ℤ ℕ
one_node = record empty { nodes = (pos 5, pos 5) ∷ []; nodes_meta = (pos 5, codes "a.eds") ∷ [] }

one_node-IsTool : IsTool one_node
unfolding Distinct
one_node-IsTool = record { same_keys = refl; distinct = (tt, tt) }

choose_node-values_example :
    choose_node one_node (ok (codes "1") ∷ [])
    ≡ (choose_of (values one_node.nodes) (ok (codes "1") ∷ []), one_node)
choose_node-values_example = choose_node-values one_node (ok (codes "1") ∷ []) one_node-IsTool

send_pdo_to-Sent_example :
    Sent lib
      (pos 5)
      []
      (send_pdo_to lib (some (pos 5)) one_node (ok (codes "1") ∷ ok (codes "1, 2") ∷ [])).1.log
send_pdo_to-Sent_example =
    send_pdo_to-Sent lib (pos 5) one_node (ok (codes "1") ∷ ok (codes "1, 2") ∷ [])

write_sdo-OfOne_example :
    OfOne lib IsAccess
      (pos 5)
      []
      (write_sdo lib host.encode (pos 5) one_node (ok (codes "1") ∷ ok (codes "12") ∷ [])).1.log
write_sdo-OfOne_example =
    write_sdo-OfOne lib host.encode (pos 5) one_node (ok (codes "1") ∷ ok (codes "12") ∷ [])

list_od_entries-Ascending_example :
    (entries : List (ℕ × Object)) × Picked (lib.object_dictionary (pos 5)) entries
    × Perm (list_od_entries lib (pos 5)) entries
    × Ascending (list_od_entries lib (pos 5))
list_od_entries-Ascending_example = list_od_entries-Ascending lib (pos 5)

never_interrupted : (c : Call ℤ ℕ) (w : Unit) → IsCaught (lib.call c w).0
unfolding IsCaught
never_interrupted c w = tt

write_bytes-calls_example :
    (calls lib (write_bytes lib (pos 5) 0x2001 (65 ∷ 66 ∷ []) one_node []).1
      ≡ []
        ++ map
            (λ p. write_raw (pos 5) 0x2001 (some p.0) (lib.of_byte p.1))
            (enumerate 1 (65 ∷ 66 ∷ [])))
    × ((write_bytes lib (pos 5) 0x2001 (65 ∷ 66 ∷ []) one_node []).0 ≡ done tt [])
write_bytes-calls_example =
    write_bytes-calls lib (pos 5) 0x2001 (65 ∷ 66 ∷ []) one_node [] never_interrupted

-- A file that is there, for a device that is ready.
abbrev dev : Updates Unit ℤ
dev = record {
  is_file = λ path. true;
  content = λ path. image;
  env = λ node w. ready;
  behind = λ node l w. w;
  fuel = 122;
}

abbrev acts : Actions (Tool Unit ℤ ℕ)
acts = options_with lib host dev (codes "a.eds" ∷ [])

-- The defaults, a node 5 of the only file, and the exit.
abbrev session : Inputs
session = ok [] ∷ ok [] ∷ ok (codes "1") ∷ ok (codes "5") ∷ ok (codes "1") ∷ ok (codes "14") ∷ []

abbrev closed : Tool Unit ℤ ℕ
closed = record one_node {
  log =
      (connect (codes "vcan0") (pos 125000), ok tt)
      ∷ (add_node (pos 5), ok tt)
      ∷ (disconnect, ok tt)
      ∷ [];
}

session_ends : main lib 7 acts empty session ≡ some (done tt [], closed)
unfolding main ◌>>=◌ ask strip perform same_text is_space add_node_menu int digit choose set
session_ends = refl

main-disconnects_example : Closed closed
main-disconnects_example = main-disconnects lib 7 acts empty closed session [] session_ends

-- A node 5, whose firmware is updated after a confirmation.
abbrev flashing : Inputs
flashing =
    ok []
    ∷ ok []
    ∷ ok (codes "1")
    ∷ ok (codes "5")
    ∷ ok (codes "1")
    ∷ ok (codes "13")
    ∷ ok (codes "1")
    ∷ ok (codes "a.bin")
    ∷ ok (codes " Y")
    ∷ ok []
    ∷ ok (codes "14")
    ∷ []

abbrev updated_node : Tool Unit ℤ ℕ
updated_node = record closed { flashed = (image, (flash_node ready 122 image []).1) ∷ [] }

flashing_ends : main lib 12 acts empty flashing ≡ some (done tt [], updated_node)
unfolding main ◌>>=◌ ask strip perform same_text is_space add_node_menu int digit choose set
    flash_firmware_menu choose_node prompt item listed node_at lower flash_node get
    canopen_tools.Firmware.Device.◌>>=◌ canopen_tools.Firmware.Device.perform
    canopen_tools.Firmware.Device.attempt canopen_tools.Firmware.Device.finally
flashing_ends = refl

main-ends_example :
    ((out : Answer (Unit {0}) × Tool Unit ℤ ℕ) × (main lib 12 acts empty flashing ≡ some out))
    × ((node : ℤ) (bin_path : Text) (u : Tool Unit ℤ ℕ) (js : Inputs)
        → (updated dev node bin_path u js).0 ≢ blocked)
main-ends_example =
    main-ends lib host dev (λ node w. ready-Ticks) (codes "a.eds" ∷ []) 12 empty flashing
      (omega arith) (omega arith)

main-IsTool_example : IsTool updated_node × All IsConforming updated_node.flashed
main-IsTool_example =
    main-IsTool lib host dev (codes "a.eds" ∷ []) 12 empty updated_node flashing (done tt []) refl
      refl refl flashing_ends

-- A node ID that is no number: the last call is the connection.
bad_node_id_ends :
    main lib 4 acts empty (ok [] ∷ ok [] ∷ ok (codes "1") ∷ ok (codes "x") ∷ [])
    ≡ some (
      escaped value_error [],
      record empty { log = (connect (codes "vcan0") (pos 125000), ok tt) ∷ [] },
    )
unfolding main ◌>>=◌ ask strip perform same_text is_space add_node_menu int digit choose set
bad_node_id_ends = refl

abbrev subscribed : Tool Unit ℤ ℕ
subscribed = record one_node {
  pdos = record {
    subscribed = ((pos 5, 1), 42) ∷ [];
    callbacks = ((pos 5, 1), 0) ∷ [];
    force_refresh = false;
  };
}

only_one : choose_number 1 (ok (codes "1") ∷ []) ≡ done 1 []
unfolding choose_number int digit is_space
only_one = refl

unsubscribe_tpdo-hides_example :
    get same_key
      (pos 5, 1)
      (unsubscribe_tpdo lib subscribed (ok (codes "1") ∷ [])).1.pdos.subscribed
    ≡ none
unfolding get IsCaught
unsubscribe_tpdo-hides_example =
    unsubscribe_tpdo-hides lib (pos 5, 1) (pos 5) 0 1 subscribed (ok (codes "1") ∷ []) [] only_one
      refl refl refl refl refl tt

-- Of the command line's files, one is there.
offers_files :
    eds_files_of (λ path. same_text path (codes "b.eds")) (codes "co.py" ∷ codes "a.eds,b.eds" ∷ [])
    ≡ codes "b.eds" ∷ []
unfolding eds_files_of split_on same_text
offers_files = refl

lists_nodes :
    node_lines one_node.nodes one_node.nodes_meta
    ≡ codes "=== Added Nodes ==="
      ∷ codes "Node ID 5 - a.eds"
      ∷ codes "========================"
      ∷ []
unfolding node_lines str get
lists_nodes = refl
