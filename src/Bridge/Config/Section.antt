-- ===== src/Bridge/Config/Section.antt =====
-- The section `can` of a configuration, as `Bridge.start` and `bring_up_interface` of
-- can-tcp-bridge/can-tcp-bridge-server/can_tcp_bridge.py read it.
use canopen_tools.Prelude.{
  ℕ, zero, suc, Bool, true, false, not, ◌&&◌, ◌==◌, Option, none, some, [], ◌∷◌, if◌then◌else◌,
}
use canopen_tools.Outcome.{Result, ok, raise, type_error, attribute_error, key_error, ◌>>=◌}
use canopen_tools.Interactive.Text.{Text, ℤ, pos, negsuc, int}
use canopen_tools.Interactive.Monitor.Render.{str_int}
use canopen_tools.Bridge.Process.{CanConfig}
use canopen_tools.Bridge.Config.{
  Scalar, text, integer, decimal, flag, null, Value, scalar, node, Entries, nil, entry, find,
  get_or, iface, bringup, bitrate, fd, data_bitrate, restart_ms,
}

-- `bool` and `int` of the values that are told apart by numbers only.
pub record Casts : Type 0 where
  pub bool_other : ℕ → Bool
  pub int_other : ℕ → Result ℤ

-- `self.cfg["can"]`, and the first `get` of it.
unfoldable pub section : Option Value → Result Entries
section none = raise key_error
section (some (scalar s)) = raise attribute_error
section (some (node d)) = ok d

module _ (casts : Casts) where
  -- `bool(v)`
  unfoldable pub truthy : Value → Bool
  truthy (scalar (text [])) = false
  truthy (scalar (text (c ∷ t))) = true
  truthy (scalar (integer n)) = not (n == 0)
  truthy (scalar (decimal n f)) = not ((n == 0) && (f == 0))
  truthy (scalar (flag b)) = b
  truthy (scalar null) = false
  truthy (scalar (Scalar.other i)) = casts.bool_other i
  truthy (node nil) = false
  truthy (node (entry k v d)) = true

  -- `int(v)`
  unfoldable pub int_of : Value → Result ℤ
  int_of (scalar (text t)) = int t
  int_of (scalar (integer n)) = ok (pos n)
  int_of (scalar (decimal n f)) = ok (pos n)
  int_of (scalar (flag b)) = ok (pos (if b then 1 else 0))
  int_of (scalar null) = raise type_error
  int_of (scalar (Scalar.other i)) = casts.int_other i
  int_of (node d) = raise type_error

  -- `data_bitrate or 2000000`
  abbrev pub nonzero : ℤ → Option Text
  nonzero (pos zero) = none
  nonzero (pos (suc n)) = some (str_int (pos (suc n)))
  nonzero (negsuc n) = some (str_int (negsuc n))

  -- `if restart_ms:`
  unfoldable pub restart_of : Option Value → Option (Result Text)
  unfolding truthy int_of
  restart_of none = none
  restart_of (some v) = if truthy v then some (int_of v >>= λ z. ok (str_int z)) else none

  -- An interface that is missing or no text is left out.
  unfoldable pub with_iface : Entries → Option Value → Option CanConfig
  unfolding truthy int_of restart_of get_or
  with_iface c (some (scalar (text name))) = some (record {
    iface = name;
    bringup = truthy (get_or bringup (scalar (flag false)) c);
    fd = truthy (get_or fd (scalar (flag false)) c);
    bitrate = int_of (get_or bitrate (scalar (integer 250_000)) c) >>= λ z. ok (str_int z);
    data_bitrate = int_of (get_or data_bitrate (scalar (integer 0)) c) >>= λ z. ok (nonzero z);
    restart_ms = restart_of (find restart_ms c);
  })
  with_iface c _ = none

  unfoldable pub can_config : Entries → Option CanConfig
  unfolding with_iface
  can_config c = with_iface c (find iface c)
