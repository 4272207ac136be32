-- ===== src/Bridge/Config.antt =====
-- The merge of `load_config` in can-tcp-bridge/can-tcp-bridge-server/can_tcp_bridge.py.
use canopen_tools.Prelude.{
  ℕ, Bool, true, false, ◌==◌, Option, none, some, List, [], ◌∷◌, if◌then◌else◌,
}
use canopen_tools.Outcome.{Result, ok, raise, attribute_error, ◌>>=◌}
use canopen_tools.Interactive.Text.{Text, codes}
pub mod Kept
pub mod Fills
pub mod Loads
pub mod Section
pub mod Asked

-- A value of YAML that is no dictionary: a float with the digits after its point, and those that the
-- defaults do not use (negative numbers, lists, dates) told apart by numbers only.
pub data Scalar : Type 0 where
  text : Text → Scalar
  integer : ℕ → Scalar
  decimal : ℕ → ℕ → Scalar
  flag : Bool → Scalar
  null : Scalar
  other : ℕ → Scalar

-- A configuration read from YAML: dictionaries, whose keys are numbered.
mutual
  pub data Value : Type 0 where
    scalar : Scalar → Value
    node : Entries → Value

  pub data Entries : Type 0 where
    nil : Entries
    entry : ℕ → Value → Entries → Entries

-- `d.get(k)`
unfoldable pub find : ℕ → Entries → Option Value
find k nil = none
find k (entry j v d) = if k == j then some v else find k d

-- `d[k] = v`: a key that is there keeps its place.
unfoldable pub put : ℕ → Value → Entries → Entries
put k v nil = entry k v nil
put k v (entry j u d) = if k == j then entry j v d else entry j u (put k v d)

-- `dst.setdefault(k, v)` for a value that is no dictionary.
unfoldable pub set_default : ℕ → Value → Entries → Option Value → Entries
unfolding put
set_default k v dst none = put k v dst
set_default k v dst (some u) = dst

-- `merge(node, v)` on `node = dst.setdefault(k, {})`, which changes it in place; a value that is no
-- dictionary has no `setdefault`.
unfoldable pub merge_node : (Entries → Result Entries) → Entries → Option Value → Result Value
merge_node merge_v v none = merge_v nil >>= λ m. ok (node m)
merge_node merge_v v (some (node d)) = merge_v d >>= λ m. ok (node m)
merge_node merge_v nil (some (scalar s)) = ok (scalar s)
merge_node merge_v (entry j u v) (some (scalar s)) = raise attribute_error

-- `merge(dst, src)`, by recursion on the defaults.
unfoldable pub merge : Entries → Entries → Result Entries
unfolding set_default merge_node
merge nil dst = ok dst
merge (entry k (scalar s) src) dst = merge src (set_default k (scalar s) dst (find k dst))
merge (entry k (node v) src) dst =
    merge_node (merge v) v (find k dst) >>= λ u. merge src (put k u dst)

-- The keys, in the order of `DEFAULT_CONFIG`; any other number is another key.
abbrev pub role : ℕ
role = 0

abbrev pub bind_host : ℕ
bind_host = 1

abbrev pub port : ℕ
port = 2

abbrev pub peer_host : ℕ
peer_host = 3

abbrev pub peer_port : ℕ
peer_port = 4

abbrev pub tcp_keepalive : ℕ
tcp_keepalive = 5

abbrev pub reconnect_delay_sec : ℕ
reconnect_delay_sec = 6

abbrev pub can : ℕ
can = 7

abbrev pub iface : ℕ
iface = 8

abbrev pub bitrate : ℕ
bitrate = 9

abbrev pub fd : ℕ
fd = 10

abbrev pub data_bitrate : ℕ
data_bitrate = 11

abbrev pub brs : ℕ
brs = 12

abbrev pub bringup : ℕ
bringup = 13

abbrev pub restart_ms : ℕ
restart_ms = 14

unfoldable pub default_can : Entries
default_can = entry iface (scalar (text (codes "vcan0"))) (
    entry bitrate (scalar (integer 250_000)) (
      entry fd (scalar (flag false)) (
        entry data_bitrate (scalar (integer 2_000_000)) (
          entry brs (scalar (flag false))
            (entry bringup (scalar (flag false)) (entry restart_ms (scalar (integer 100)) nil))))))

-- `DEFAULT_CONFIG`
unfoldable pub default_config : Entries
unfolding default_can
default_config = entry role (scalar (text (codes "server"))) (
    entry bind_host (scalar (text (codes "0.0.0.0"))) (
      entry port (scalar (integer 50_000)) (
        entry peer_host (scalar (text (codes "127.0.0.1"))) (
          entry peer_port (scalar (integer 50_000)) (
            entry tcp_keepalive (scalar (flag true)) (
              entry reconnect_delay_sec (scalar (decimal 2 0))
                (entry can (node default_can) nil)))))))

-- `load_config`, given what opening, reading and parsing the file gave; only a dictionary has
-- `setdefault`.
unfoldable pub load_config : Result Value → Result Entries
unfolding merge default_config
load_config (ok (node cfg)) = merge default_config cfg
load_config (ok (scalar s)) = raise attribute_error
load_config (raise e) = raise e

unfoldable pub value_or : Value → Option Value → Value
value_or v none = v
value_or v (some u) = u

-- `d.get(k, v)`
unfoldable pub get_or : ℕ → Value → Entries → Value
unfolding find value_or
get_or k v d = value_or v (find k d)

-- The port that `_connect_once` dials, before `int(...)`.
unfoldable pub client_port : Entries → Value
unfolding get_or
client_port cfg = get_or peer_port (get_or port (scalar (integer 50_000)) cfg) cfg
