-- ===== src/Client/Streams.antt =====
-- The streams of records between can-tcp-bridge/can-tcp-bridge-client/src/main.c and
-- can-tcp-bridge/can-tcp-bridge-server/can_tcp_bridge.py, in both directions.
use canopen_tools.Prelude.{ℕ, ◌≤◌, ◌≡◌, Bool, List, map, length, flatten}
use canopen_tools.Frame.{CanMessage}
use canopen_tools.Framer.{Framer}
use canopen_tools.Framer.Front.{framed}
use canopen_tools.Client.{CanFrame}
use canopen_tools.Client.Sends.{client_record}
use canopen_tools.Client.Receives.{client_copy}

-- A frame of classic CAN: its array has eight bytes, of which `dlc` are used.
abbrev pub IsClassic : CanFrame → Type 0
IsClassic cf = (cf.dlc ≤ 8) × (length cf.bytes ≡ 8)

-- The records of some frames, each behind its length.
abbrev client_wire : List CanFrame → List ℕ
client_wire cfs = flatten (map (λ cf. framed (client_record cf)) cfs)

module _ {M : Type 0} (can : CanMessage M) (use_fd_cfg : Bool) where
  -- The frames that the client makes of some messages.
  abbrev pub client_frames : List M → List CanFrame
  client_frames ms = flatten (map (client_copy can) ms)
