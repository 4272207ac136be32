-- ===== src/Framer.antt =====
-- `TCPFramer` of can-tcp-bridge/can-tcp-bridge-server/can_tcp_bridge.py, and the loop that takes
-- records from it until none is complete.
pub mod Front
pub mod Stream
pub mod Lossless
use canopen_tools.Prelude.{
  ℕ, zero, suc, ◌+◌, ◌-◌, ◌*◌, Option, none, some, List, [], ◌∷◌, ◌++◌, ltb, if◌then◌else◌, length,
  take, drop,
}

pub record Framer : Type 0 where
  pub buf : List ℕ

abbrev pub empty : Framer
empty = record { buf = [] }

unfoldable pub feed : Framer → List ℕ → Framer
feed f chunk = record { buf = f.buf ++ chunk }

-- `struct.unpack_from("!H", buf, 0)`; the caller has tested that two bytes are there.
unfoldable pub unpack_u16 : List ℕ → ℕ
unpack_u16 (a ∷ b ∷ rest) = a * 256 + b
unpack_u16 _ = 0

-- `buf[start:stop]`
abbrev pub slice : ℕ → ℕ → List ℕ → List ℕ
slice start stop buf = take (stop - start) (drop start buf)

unfoldable pub next_record : Framer → Option (List ℕ) × Framer
unfolding unpack_u16
next_record f =
    let total = 2 + unpack_u16 f.buf in
    if ltb (length f.buf) 2
    then (none, f)
    else if ltb (length f.buf) total
    then (none, f)
    else (some (slice 2 total f.buf), record { buf = drop total f.buf })
