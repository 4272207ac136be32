-- ===== src/Client.antt =====
-- The records of can-tcp-bridge/can-tcp-bridge-client/src/main.c, the bridge's peer on an ESP32:
-- `tcp_send_can_frame`, `can_from_tcp_parts`, and what its loop makes of the bytes of the socket.
use canopen_tools.Prelude.{
  ℕ, zero, suc, ◌+◌, ◌-◌, ◌*◌, ◌/◌, ◌%◌, ◌^◌, Bool, true, false, ◌||◌, Option, none, some, List, [],
  ◌∷◌, ◌++◌, bit_and, bit_or, ltb, ◌==◌, if◌then◌else◌, length, take, drop,
}
use canopen_tools.Frame.{flag_ext, flag_rtr, has_flag}
pub mod Sends
pub mod Receives
pub mod Streams

-- `struct can_frame`, with its flags IDE and RTR; `bytes` is the array `data`.
pub record CanFrame : Type 0 where
  pub id : ℕ
  pub dlc : ℕ
  pub ide : Bool
  pub rtr : Bool
  pub bytes : List ℕ

-- `struct tcp_hdr`, with the number that `can_id_be` stands for.
pub record TcpHdr : Type 0 where
  pub can_id : ℕ
  pub flags : ℕ
  pub dlc : ℕ

-- The flag byte that the client sends.
unfoldable pub client_flags : Bool → Bool → ℕ
client_flags ide rtr =
    let f1 = (if ide then bit_or 0 flag_ext else 0) in if rtr then bit_or f1 flag_rtr else f1

-- `uint16_t` and `uint32_t` in network order
abbrev pub be16 : ℕ → List ℕ
be16 v = (v / 256) ∷ (v % 256) ∷ []

abbrev pub be32 : ℕ → List ℕ
be32 v = (v / 2 ^ 24) ∷ (v / 2 ^ 16 % 256) ∷ (v / 256 % 256) ∷ (v % 256) ∷ []

unfoldable pub tcp_header : CanFrame → List ℕ
unfolding client_flags
tcp_header cf = be32 (bit_and cf.id 0x1FFFFFFF) ++ (client_flags cf.ide cf.rtr ∷ cf.dlc ∷ [])

unfoldable pub pay_len : CanFrame → ℕ
pay_len cf = (6 + cf.dlc) % 2 ^ 16

-- What `zsock_send` returns for a buffer, behind the bytes sent so far: how many it took, or an error.
abbrev pub Socket : Type 0
Socket = List ℕ → List ℕ → Option ℕ

-- `zsock_send(sock, buf, n, 0) != n` is false, and the bytes sent so far.
unfoldable pub taken : Option ℕ → List ℕ → List ℕ → Bool × List ℕ
taken none buf w = (false, w)
taken (some n) buf w = (n == length buf, w ++ take n buf)

unfoldable pub send_part : Socket → List ℕ → Bool × List ℕ → Bool × List ℕ
unfolding taken
send_part zsock_send buf (true, w) = taken (zsock_send w buf) buf w
send_part zsock_send buf (false, w) = (false, w)

-- Whether it returns 0, and the bytes sent so far; a part that is not taken whole ends it with -EIO.
unfoldable pub tcp_send_can_frame : Socket → CanFrame → List ℕ → Bool × List ℕ
unfolding send_part tcp_header pay_len
tcp_send_can_frame zsock_send cf w =
    let sent =
      send_part zsock_send (tcp_header cf) (send_part zsock_send (be16 (pay_len cf)) (true, w)) in
    if ltb 0 cf.dlc then send_part zsock_send (take cf.dlc cf.bytes) sent else sent

-- The queued frames, sent in order whatever the calls return; the bytes sent so far.
unfoldable pub send_queue : Socket → List CanFrame → List ℕ → List ℕ
unfolding tcp_send_can_frame
send_queue zsock_send [] w = w
send_queue zsock_send (cf ∷ cfs) w =
    send_queue zsock_send cfs (tcp_send_can_frame zsock_send cf w).1

-- `none` is -EINVAL; of the array, the bytes that were copied.
unfoldable pub can_from_tcp_parts : TcpHdr → List ℕ → ℕ → Option CanFrame
can_from_tcp_parts hdr dat data_len =
    if ltb 8 hdr.dlc
    then none
    else if data_len == hdr.dlc
    then some (record {
      id = bit_and hdr.can_id 0x1FFFFFFF;
      dlc = hdr.dlc;
      ide = has_flag hdr.flags flag_ext;
      rtr = has_flag hdr.flags flag_rtr;
      bytes = take hdr.dlc dat;
    })
    else none

-- `recv_all(sock, buf, n)` of what the socket will still give; `none` if that is too little.
unfoldable pub recv_all : ℕ → List ℕ → Option (List ℕ × List ℕ)
recv_all n s = if ltb (length s) n then none else some (take n s, drop n s)

-- Behind the read of the data.
unfoldable pub with_data : TcpHdr → ℕ → Option (List ℕ × List ℕ) → Option (Option CanFrame × List ℕ)
with_data hdr data_len none = none
with_data hdr data_len (some (dat, rest)) = some (can_from_tcp_parts hdr dat data_len, rest)

-- The header and the data of a record whose length is in range.
unfoldable pub receive_body : ℕ → List ℕ → Option (Option CanFrame × List ℕ)
unfolding with_data
receive_body len (a ∷ b ∷ c ∷ d ∷ flags ∷ dlc ∷ s) =
    with_data (record { can_id = a * 2 ^ 24 + b * 2 ^ 16 + c * 256 + d; flags = flags; dlc = dlc })
      (len - 6) (recv_all (len - 6) s)
receive_body len _ = none

-- Behind the read of a payload of another length, in parts of 32 bytes: it is dropped.
unfoldable pub dumped : Option (List ℕ × List ℕ) → Option (Option CanFrame × List ℕ)
dumped none = none
dumped (some (dump, rest)) = some (none, rest)

unfoldable pub receive_payload : ℕ → List ℕ → Option (Option CanFrame × List ℕ)
unfolding receive_body dumped
receive_payload len s =
    if ltb len 6 || ltb 14 len then dumped (recv_all len s) else receive_body len s

-- A turn of the loop that receives: the frame for `can_send`, if any, and what is left; `none` if the
-- bytes end within the record.
unfoldable pub receive_record : List ℕ → Option (Option CanFrame × List ℕ)
unfolding receive_payload
receive_record (a ∷ b ∷ s) = receive_payload (a * 256 + b) s
receive_record _ = none

abbrev pub frames_of : Option CanFrame → List CanFrame
frames_of none = []
frames_of (some f) = f ∷ []

unfoldable pub after_record :
    (List ℕ → List CanFrame × List ℕ)
    → List ℕ
    → Option (Option CanFrame × List ℕ)
    → List CanFrame × List ℕ
after_record more s none = ([], s)
after_record more s (some (o, rest)) = let (fs, left) = more rest in (frames_of o ++ fs, left)

-- The frames that are handed to `can_send` in at most that many turns, and what is left from the
-- record on that was not whole.
unfoldable pub receive_records : ℕ → List ℕ → List CanFrame × List ℕ
unfolding receive_record after_record
receive_records zero s = ([], s)
receive_records (suc turns) s = after_record (receive_records turns) s (receive_record s)
