-- ===== src/Frame.antt =====
-- The TCP records of can-tcp-bridge/can-tcp-bridge-server/can_tcp_bridge.py: `frame_from_can` and
-- `can_from_frame`. Bytes are numbers below 256.
--
-- A `can.Message` of python-can is a parameter: the attributes that the code reads, its constructor,
-- and what the library documents of them (the constructor gives a remote frame no data).
pub mod RoundTrip
pub mod Errors
use canopen_tools.Prelude.{
  ℕ, zero, suc, ◌+◌, ◌-◌, ◌*◌, ◌/◌, ◌%◌, ◌^◌, ◌≡◌, Bool, true, false, not, ◌||◌, Option, none, some,
  List, [], ◌∷◌, ◌++◌, bit_and, bit_or, ltb, ◌==◌, if◌then◌else◌, length, take, drop,
}
use canopen_tools.Outcome.{Result, ok, raise, value_error, struct_error, ◌>>=◌, ◌>>◌}
use mathlib.Core.Option.{get_or}

-- The keyword arguments of `can.Message(…)`.
pub record MessageArgs : Type 0 where
  pub arbitration_id : ℕ
  pub is_extended_id : Bool
  pub is_remote_frame : Bool
  pub payload : List ℕ
  pub is_fd : Bool
  pub bitrate_switch : Bool

-- `is_fd` and `bitrate_switch` are read by `getattr` with a default: an old library has neither.
pub record CanMessage (M : Type 0) : Type 0 where
  pub arbitration_id : M → ℕ
  pub is_extended_id : M → Bool
  pub is_remote_frame : M → Bool
  pub payload : M → Option (List ℕ)
  pub is_fd : M → Option Bool
  pub bitrate_switch : M → Option Bool
  pub message : MessageArgs → M

-- What python-can documents of the constructor.
pub record CanMessageLaws {M : Type 0} (can : CanMessage M) : Type 0 where
  pub id_message : (a : MessageArgs) → can.arbitration_id (can.message a) ≡ a.arbitration_id
  pub ext_message : (a : MessageArgs) → can.is_extended_id (can.message a) ≡ a.is_extended_id
  pub rtr_message : (a : MessageArgs) → can.is_remote_frame (can.message a) ≡ a.is_remote_frame
  pub fd_message : (a : MessageArgs) → can.is_fd (can.message a) ≡ some a.is_fd
  pub brs_message : (a : MessageArgs) → can.bitrate_switch (can.message a) ≡ some a.bitrate_switch
  pub payload_message :
      (a : MessageArgs)
      → can.payload (can.message a) ≡ some (if a.is_remote_frame then [] else a.payload)

abbrev pub flag_ext : ℕ
flag_ext = 1

abbrev pub flag_rtr : ℕ
flag_rtr = 2

abbrev pub flag_fd : ℕ
flag_fd = 4

abbrev pub flag_brs : ℕ
flag_brs = 8

-- The fields "!H", "!I" and "B" of `struct.pack`, which raises on a number that does not fit.
unfoldable pub pack_u16 : ℕ → Result (List ℕ)
pack_u16 v = if ltb v (2 ^ 16) then ok ((v / 256) ∷ (v % 256) ∷ []) else raise struct_error

unfoldable pub pack_u32 : ℕ → Result (List ℕ)
pack_u32 v =
    if ltb v (2 ^ 32)
    then ok ((v / 2 ^ 24) ∷ (v / 2 ^ 16 % 256) ∷ (v / 256 % 256) ∷ (v % 256) ∷ [])
    else raise struct_error

unfoldable pub pack_u8 : ℕ → Result (List ℕ)
pack_u8 v = if ltb v 256 then ok (v ∷ []) else raise struct_error

-- `_RECORD_HDR.pack(length, can_id, flags, n)`
unfoldable pub pack_header : ℕ → ℕ → ℕ → ℕ → Result (List ℕ)
unfolding pack_u16 pack_u32 pack_u8
pack_header len can_id flags n = do
  a ← pack_u16 len
  b ← pack_u32 can_id
  c ← pack_u8 flags
  d ← pack_u8 n
  ok (a ++ b ++ c ++ d)

-- The flag byte of the sender.
unfoldable pub sent_flags : Bool → Bool → Bool → Bool → ℕ
sent_flags ext rtr fd brs =
    let f1 = (if ext then bit_or 0 flag_ext else 0) in
    let f2 = (if rtr then bit_or f1 flag_rtr else f1) in
    if fd then (if brs then bit_or (bit_or f2 flag_fd) flag_brs else bit_or f2 flag_fd) else f2

module _ {M : Type 0} (can : CanMessage M) where
  -- `getattr(msg, "is_fd", False) or use_fd_cfg`
  abbrev pub sends_fd : M → Bool → Bool
  sends_fd msg use_fd_cfg = get_or (can.is_fd msg) false || use_fd_cfg

  abbrev pub sends_brs : M → Bool
  sends_brs msg = get_or (can.bitrate_switch msg) false

  -- `bytes(msg.data) if msg.data is not None else b""`
  abbrev pub sent_payload : M → List ℕ
  sent_payload msg = get_or (can.payload msg) []

  unfoldable pub frame_from_can : M → Bool → Result (List ℕ)
  frame_from_can msg use_fd_cfg =
      let flags =
        sent_flags (can.is_extended_id msg) (can.is_remote_frame msg) (sends_fd msg use_fd_cfg)
          (sends_brs msg) in
      let payload = sent_payload msg in
      let n = length payload in
      if ltb 64 n then raise value_error else do
        header ← pack_header (6 + n) (bit_and (can.arbitration_id msg) 0x1FFFFFFF) flags n
        ok (header ++ payload)

-- `_HDR_NO_LEN.unpack_from(buf, 0)`, the six bytes of the header, and what stands behind them.
pub record Header : Type 0 where
  pub can_id : ℕ
  pub flags : ℕ
  pub n : ℕ

unfoldable pub unpack_header : List ℕ → Result Header
unpack_header (a ∷ b ∷ c ∷ d ∷ flags ∷ n ∷ rest) =
    ok (record { can_id = a * 2 ^ 24 + b * 2 ^ 16 + c * 256 + d; flags = flags; n = n })
unpack_header _ = raise struct_error

-- `bool(flags & flag)`
abbrev pub has_flag : ℕ → ℕ → Bool
has_flag flags flag = not (bit_and flags flag == 0)

-- The arguments with which `can_from_frame` calls `can.Message`.
unfoldable pub parse_frame : List ℕ → Result MessageArgs
unfolding unpack_header
parse_frame buf = if ltb (length buf) 6 then raise value_error else do
  h ← unpack_header buf
  if ltb 64 h.n
      then raise value_error
      else if ltb (length buf) (6 + h.n)
      then raise value_error
      else ok (record {
        arbitration_id = h.can_id;
        is_extended_id = has_flag h.flags flag_ext;
        is_remote_frame = has_flag h.flags flag_rtr;
        payload = take h.n (drop 6 buf);
        is_fd = has_flag h.flags flag_fd;
        bitrate_switch = has_flag h.flags flag_brs;
      })

module _ {M : Type 0} (can : CanMessage M) where
  unfoldable pub can_from_frame : List ℕ → Result M
  unfolding parse_frame
  can_from_frame buf = do args ← parse_frame buf; ok (can.message args)
