-- ===== src/Client/Sends.antt =====
-- The records that can-tcp-bridge/can-tcp-bridge-client/src/main.c sends, as
-- can-tcp-bridge/can-tcp-bridge-server/can_tcp_bridge.py reads them.
use canopen_tools.Prelude.{
  ℕ, zero, suc, ◌+◌, ◌/◌, ◌%◌, ◌^◌, ◌≤◌, ◌≡◌, refl, sym, ap, ◌∙◌, Bool, true, false, some, List,
  ◌∷◌, ◌++◌, ltb, ==_iff, arith, if◌then◌else◌, length, take, take-length, length-take, lt→ltb,
  append_assoc, append-nil,
}
use canopen_tools.Prelude.Bits.{bit_and_29}
use canopen_tools.Outcome.{ok}
use canopen_tools.Frame.{MessageArgs, flag_ext, flag_rtr, flag_fd, flag_brs, has_flag, parse_frame}
use canopen_tools.Frame.RoundTrip.{header_bytes, parse_header_bytes}
use canopen_tools.Framer.Front.{framed}
use canopen_tools.Client.{
  CanFrame, client_flags, be16, tcp_header, pay_len, Socket, taken, send_part, tcp_send_can_frame,
}

-- The record that the client sends for a frame.
abbrev pub client_record : CanFrame → List ℕ
client_record cf =
    header_bytes (cf.id % 2 ^ 29) (client_flags cf.ide cf.rtr) cf.dlc (take cf.dlc cf.bytes)

-- The server reads each flag as the client set it, and neither FD nor the bit rate switch.
has_flag-client_flags :
    (ide rtr : Bool)
    → (has_flag (client_flags ide rtr) flag_ext ≡ ide)
      × (has_flag (client_flags ide rtr) flag_rtr ≡ rtr)
      × (has_flag (client_flags ide rtr) flag_fd ≡ false)
      × (has_flag (client_flags ide rtr) flag_brs ≡ false)
unfolding client_flags
has_flag-client_flags ide rtr = ground arith

length-taken : (n : ℕ) (xs : List ℕ) → n ≤ length xs → length (take n xs) ≡ n
length-taken n xs h = omega (arith, length-take n xs, h)

-- The three parts of a record.
client_bytes :
    (cf : CanFrame)
    → cf.dlc ≤ 8
    → length cf.bytes ≡ 8
    → (be16 (pay_len cf) ++ tcp_header cf) ++ take cf.dlc cf.bytes ≡ framed (client_record cf)
unfolding pay_len tcp_header header_bytes
client_bytes cf fits eight =
    rw (bit_and_29 cf.id, length-taken cf.dlc cf.bytes (omega (arith, fits, eight)), short)
      (ap (λ (k : ℕ). (k / 256) ∷ (k % 256) ∷ client_record cf) (omega arith))
  where
    short : (6 + cf.dlc) % 2 ^ 16 ≡ 6 + cf.dlc
    short = omega (arith, fits)

module _ (zsock_send : Socket)
    (whole : (w buf : List ℕ) → zsock_send w buf ≡ some (length buf)) where
  send_part_whole : (buf w : List ℕ) → send_part zsock_send buf (true, w) ≡ (true, w ++ buf)
  unfolding send_part taken
  send_part_whole buf w =
      rw (whole w buf, (==_iff (length buf) (length buf)).1 refl, take-length buf) refl

  data_part_whole :
      (n : ℕ) (bytes w : List ℕ)
      → (if ltb 0 n then send_part zsock_send (take n bytes) (true, w) else (true, w))
        ≡ (true, w ++ take n bytes)
  data_part_whole zero bytes w = ap (λ l. (true, l)) (sym (append-nil w))
  data_part_whole (suc n) bytes w =
      rw (lt→ltb 0 (suc n) (omega arith)) (send_part_whole (take (suc n) bytes) w)

  pub tcp_send_can_frame_whole :
      (cf : CanFrame) (w : List ℕ)
      → cf.dlc ≤ 8
      → length cf.bytes ≡ 8
      → tcp_send_can_frame zsock_send cf w ≡ (true, w ++ framed (client_record cf))
  unfolding tcp_send_can_frame
  tcp_send_can_frame_whole cf w fits eight =
      rw
        (
          send_part_whole (be16 (pay_len cf)) w,
          send_part_whole (tcp_header cf) (w ++ be16 (pay_len cf)),
          data_part_whole cf.dlc cf.bytes ((w ++ be16 (pay_len cf)) ++ tcp_header cf),
          append_assoc w (be16 (pay_len cf)) (tcp_header cf),
          append_assoc w (be16 (pay_len cf) ++ tcp_header cf) (take cf.dlc cf.bytes),
          client_bytes cf fits eight,
        )
        refl

-- What the server hands to `can.Message` for a frame of the client.
abbrev pub args_of : CanFrame → MessageArgs
args_of cf = record {
  arbitration_id = cf.id % 2 ^ 29;
  is_extended_id = cf.ide;
  is_remote_frame = cf.rtr;
  payload = take cf.dlc cf.bytes;
  is_fd = false;
  bitrate_switch = false;
}

pub parse-client_record :
    (cf : CanFrame)
    → cf.dlc ≤ 8
    → length cf.bytes ≡ 8
    → parse_frame (client_record cf) ≡ ok (args_of cf)
parse-client_record cf fits eight =
    let n = length-taken cf.dlc cf.bytes (omega (arith, fits, eight)) in
    let (e, r, f, b) = has_flag-client_flags cf.ide cf.rtr in
    ap
      (λ (k : ℕ).
        parse_frame
          (header_bytes (cf.id % 2 ^ 29) (client_flags cf.ide cf.rtr) k (take cf.dlc cf.bytes)))
      (sym n)
    ∙ parse_header_bytes (cf.id % 2 ^ 29) (client_flags cf.ide cf.rtr) (take cf.dlc cf.bytes)
        (omega arith) (omega (arith, n, fits))
    ∙ rw (e, r, f, b) refl
