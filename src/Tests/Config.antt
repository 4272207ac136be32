-- ===== src/Tests/Config.antt =====
-- The merge of configurations at concrete inputs.
use canopen_tools.Prelude.{true, false, ◌≡◌, refl, ℕ, List, some, [], ◌∷◌}
use canopen_tools.Outcome.{Result, ok, raise, attribute_error, type_error}
use canopen_tools.Bridge.Config.{
  Scalar, Entries, integer, flag, port, can, fd, bitrate, default_config, default_can, load_config,
  get_or, client_port, scalar, node, nil, entry, merge, find,
}
use canopen_tools.Bridge.Config.Kept.{follow}
use canopen_tools.Bridge.Config.Fills.{or_default}
use canopen_tools.Bridge.Config.Loads.{load_config-Loads}
use canopen_tools.Bridge.Config.Section.{Casts, section, can_config}
use canopen_tools.Bridge.Config.Asked.{StaysDown, asked_only}
use canopen_tools.Interactive.Text.{codes}
use canopen_tools.Interactive.Text.Decimal.{str}
use canopen_tools.Interactive.Monitor.Render.{str_int}

-- Key 1 is a port, and key 2 the dictionary of the bus with keys 3 and 4.
abbrev defaults : Entries
defaults =
    entry 1 (scalar (integer 50_000))
      (entry 2 (node (entry 3 (scalar (integer 0)) (entry 4 (scalar (integer 250_000)) nil))) nil)

abbrev user : Entries
user = entry 2 (node (entry 4 (scalar (integer 500_000)) nil)) nil

user_wins :
    merge defaults user
    ≡ ok (
        entry 2
          (node (entry 4 (scalar (integer 500_000)) (entry 3 (scalar (integer 0)) nil)))
          (entry 1 (scalar (integer 50_000)) nil))
unfolding merge find
user_wins = refl

not_a_dictionary : merge defaults (entry 2 (scalar (integer 7)) nil) ≡ raise attribute_error
unfolding merge find
not_a_dictionary = refl

-- A client's file that sets `port` and one setting of the bus.
abbrev client_file : Entries
client_file =
    entry port (scalar (integer 1_234)) (entry can (node (entry fd (scalar (flag true)) nil)) nil)

abbrev loaded : Result Entries → Entries
loaded (ok d) = d
loaded (raise e) = nil

abbrev client_config : Entries
client_config = loaded (load_config (ok (node client_file)))

load_config-Loads_example :
    (m : Entries) × (load_config (ok (node client_file)) ≡ ok m)
    × ((p : List ℕ) (s : Scalar)
        → follow (some (node default_config)) p ≡ some (scalar s)
        → follow (some (node m)) p ≡ or_default (follow (some (node client_file)) p) s)
unfolding find
load_config-Loads_example = load_config-Loads client_file

default_bitrate :
    follow (some (node client_config)) (can ∷ bitrate ∷ []) ≡ some (scalar (integer 250_000))
unfolding load_config merge default_config default_can find follow
default_bitrate = refl

sets_fd : follow (some (node client_config)) (can ∷ fd ∷ []) ≡ some (scalar (flag true))
unfolding load_config merge default_config default_can find follow
sets_fd = refl

client_ignores_port : client_port client_config ≡ scalar (integer 50_000)
unfolding load_config merge default_config default_can find client_port get_or
client_ignores_port = refl

abbrev casts : Casts
casts = record { bool_other = λ i. true; int_other = λ i. raise type_error }

abbrev section_or_nil : Result Entries → Entries
section_or_nil (ok c) = c
section_or_nil (raise e) = nil

abbrev client_can : Entries
client_can = section_or_nil (section (find can client_config))

client_can_config :
    can_config casts client_can
    ≡ some (record {
      iface = codes "vcan0";
      bringup = false;
      fd = true;
      bitrate = ok (codes "250000");
      data_bitrate = ok (some (codes "2000000"));
      restart_ms = some (ok (codes "100"));
    })
unfolding load_config merge default_config default_can find section can_config str_int str
client_can_config = refl

asked_only_example :
    (c : Entries) × (section (find can client_config) ≡ ok c) × StaysDown (can_config casts c)
unfolding load_config merge default_config default_can find follow section
asked_only_example = asked_only casts client_file client_config refl refl
