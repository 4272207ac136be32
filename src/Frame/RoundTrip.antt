-- ===== src/Frame/RoundTrip.antt =====
-- What the receiver reads of a frame that the sender wrote.
use canopen_tools.Prelude.{
  ℕ, ◌+◌, ◌*◌, ◌/◌, ◌%◌, ◌^◌, ◌≤◌, ◌<◌, ◌≡◌, refl, ap, Bool, ◌&&◌, List, [], ◌∷◌, ◌++◌, ◌∙◌, some,
  arith, if◌then◌else◌, length, take-length, le→ltb, lt→ltb,
}
use canopen_tools.Prelude.Bits.{bit_and_29}
use canopen_tools.Outcome.{ok}
use canopen_tools.Frame.{
  MessageArgs, CanMessage, CanMessageLaws, flag_ext, flag_rtr, flag_fd, flag_brs, sent_flags,
  has_flag, pack_header, sends_fd, sends_brs, sent_payload, frame_from_can, parse_frame,
  can_from_frame,
}

-- The flag byte fits, and each flag is read as it was set; the bit rate switch only beside FD.
sent_flags_lt : (ext rtr fd brs : Bool) → sent_flags ext rtr fd brs < 16
unfolding sent_flags
sent_flags_lt ext rtr fd brs = ground arith

pub has_flag-sent_flags :
    (ext rtr fd brs : Bool)
    → (has_flag (sent_flags ext rtr fd brs) flag_ext ≡ ext)
      × (has_flag (sent_flags ext rtr fd brs) flag_rtr ≡ rtr)
      × (has_flag (sent_flags ext rtr fd brs) flag_fd ≡ fd)
      × (has_flag (sent_flags ext rtr fd brs) flag_brs ≡ fd && brs)
unfolding sent_flags
has_flag-sent_flags ext rtr fd brs = ground arith

-- The bytes of a header whose fields fit.
unfoldable pub header_bytes : ℕ → ℕ → ℕ → List ℕ → List ℕ
header_bytes id flags n rest =
    (id / 2 ^ 24) ∷ (id / 2 ^ 16 % 256) ∷ (id / 256 % 256) ∷ (id % 256) ∷ flags ∷ n ∷ rest

pack_header_lem :
    (len id flags n : ℕ)
    → len < 2 ^ 16
    → id < 2 ^ 32
    → flags < 256
    → n < 256
    → pack_header len id flags n ≡ ok ((len / 256) ∷ (len % 256) ∷ header_bytes id flags n [])
unfolding pack_header header_bytes
pack_header_lem len id flags n hl hi hf hn =
    rw (lt→ltb _ _ hl, lt→ltb _ _ hi, lt→ltb _ _ hf, lt→ltb _ _ hn)

header-append :
    (id flags n : ℕ) (rest : List ℕ)
    → header_bytes id flags n [] ++ rest ≡ header_bytes id flags n rest
unfolding header_bytes
header-append id flags n rest = refl

module _ {M : Type 0} (can : CanMessage M) (msg : M) (use_fd_cfg : Bool) where
  abbrev pub sent_id : ℕ
  sent_id = can.arbitration_id msg % 2 ^ 29

  abbrev pub msg_flags : ℕ
  msg_flags =
      sent_flags (can.is_extended_id msg) (can.is_remote_frame msg) (sends_fd can msg use_fd_cfg)
        (sends_brs can msg)

  abbrev pub record_of : List ℕ
  record_of = header_bytes sent_id msg_flags (length (sent_payload can msg)) (sent_payload can msg)

  -- The whole record of a message of at most 64 bytes.
  pub frame_from_can_lem :
      length (sent_payload can msg) ≤ 64
      → frame_from_can can msg use_fd_cfg ≡ ok (0 ∷ (6 + length (sent_payload can msg)) ∷ record_of)
  unfolding frame_from_can header_bytes
  frame_from_can_lem fits = rw (
    le→ltb 64 _ fits,
    bit_and_29,
    pack_header_lem (6 + length (sent_payload can msg)) sent_id msg_flags
        (length (sent_payload can msg)) (omega arith) (omega arith) (omega (arith, flags_fit))
        (omega arith),
    short_record,
    short_length,
  )
    where
      flags_fit : msg_flags < 16
      flags_fit = sent_flags_lt _ _ _ _

      short_record : (6 + length (sent_payload can msg)) / 256 ≡ 0
      short_record = omega arith

      short_length : (6 + length (sent_payload can msg)) % 256 ≡ 6 + length (sent_payload can msg)
      short_length = omega arith

-- What the receiver makes of the bytes of a header and the payload behind it.
pub parse_header_bytes :
    (id flags : ℕ) (payload : List ℕ)
    → id < 2 ^ 32
    → length payload ≤ 64
    → parse_frame (header_bytes id flags (length payload) payload)
      ≡ ok (record {
        arbitration_id = id;
        is_extended_id = has_flag flags flag_ext;
        is_remote_frame = has_flag flags flag_rtr;
        payload = payload;
        is_fd = has_flag flags flag_fd;
        bitrate_switch = has_flag flags flag_brs;
      })
unfolding parse_frame header_bytes
parse_header_bytes id flags payload hi hp = ground (arith, take-length payload, big_endian)
  where
    big_endian :
        id / 2 ^ 24 * 2 ^ 24 + id / 2 ^ 16 % 256 * 2 ^ 16 + id / 256 % 256 * 256 + id % 256 ≡ id
    big_endian = omega arith

pub length-record_of :
    {M : Type 0} (can : CanMessage M) (msg : M) (use_fd_cfg : Bool)
    → length (record_of can msg use_fd_cfg) ≡ 6 + length (sent_payload can msg)
unfolding header_bytes
length-record_of can msg use_fd_cfg = omega arith

module _ {M : Type 0} (can : CanMessage M) (msg : M) (use_fd_cfg : Bool) where
  -- What the receiver hands to `can.Message` for a frame of the sender.
  abbrev pub received_args : MessageArgs
  received_args = record {
    arbitration_id = can.arbitration_id msg % 2 ^ 29;
    is_extended_id = can.is_extended_id msg;
    is_remote_frame = can.is_remote_frame msg;
    payload = sent_payload can msg;
    is_fd = sends_fd can msg use_fd_cfg;
    bitrate_switch = sends_fd can msg use_fd_cfg && sends_brs can msg;
  }

  pub can_from_frame-record_of :
      length (sent_payload can msg) ≤ 64
      → can_from_frame can (record_of can msg use_fd_cfg) ≡ ok (can.message received_args)
  unfolding can_from_frame
  can_from_frame-record_of fits = rw (
    parse_header_bytes (sent_id can msg use_fd_cfg) (msg_flags can msg use_fd_cfg)
        (sent_payload can msg) (omega arith) fits,
    seen.0,
    seen.1,
    seen.2,
    seen.3,
  )
    where
      seen :
          (has_flag (msg_flags can msg use_fd_cfg) flag_ext ≡ can.is_extended_id msg)
          × (has_flag (msg_flags can msg use_fd_cfg) flag_rtr ≡ can.is_remote_frame msg)
          × (has_flag (msg_flags can msg use_fd_cfg) flag_fd ≡ sends_fd can msg use_fd_cfg)
          × (has_flag (msg_flags can msg use_fd_cfg) flag_brs
              ≡ sends_fd can msg use_fd_cfg && sends_brs can msg)
      seen = has_flag-sent_flags _ _ _ _

-- What the far side's bus gets for a message: the attributes of `copy` beside those of `msg`.
pub record IsDelivered {M : Type 0} (can : CanMessage M) (use_fd_cfg : Bool) (msg copy : M)
    : Type 0 where
  pub same_id : can.arbitration_id copy ≡ can.arbitration_id msg % 2 ^ 29
  pub same_ext : can.is_extended_id copy ≡ can.is_extended_id msg
  pub same_rtr : can.is_remote_frame copy ≡ can.is_remote_frame msg
  pub same_fd : can.is_fd copy ≡ some (sends_fd can msg use_fd_cfg)
  pub same_brs : can.bitrate_switch copy ≡ some (sends_fd can msg use_fd_cfg && sends_brs can msg)
  pub same_payload :
      can.payload copy ≡ some (if can.is_remote_frame msg then [] else sent_payload can msg)

module _ {M : Type 0} (can : CanMessage M) (laws : CanMessageLaws can) where
  pub received_args-IsDelivered :
      (msg : M) (use_fd_cfg : Bool)
      → IsDelivered can use_fd_cfg msg (can.message (received_args can msg use_fd_cfg))
  received_args-IsDelivered msg use_fd_cfg =
      let args = received_args can msg use_fd_cfg in
      record {
        same_id = laws.id_message args;
        same_ext = laws.ext_message args;
        same_rtr = laws.rtr_message args;
        same_fd = laws.fd_message args;
        same_brs = laws.brs_message args;
        same_payload = laws.payload_message args;
      }

  -- A message of at most 64 bytes is framed as a big-endian length and a record of that many bytes;
  -- the receiver builds from the record a message with the same attributes, the identifier cut to
  -- 29 bits, the FD flag raised by the sender's setting, and the data dropped from a remote frame.
  pub can_from_frame-frame_from_can :
      (msg : M) (use_fd_cfg : Bool)
      → length (sent_payload can msg) ≤ 64
      → (body : List ℕ) × (copy : M) × (frame_from_can can msg use_fd_cfg
          ≡ ok (0 ∷ length body ∷ body))
        × (can_from_frame can body ≡ ok copy)
        × IsDelivered can use_fd_cfg msg copy
  can_from_frame-frame_from_can msg use_fd_cfg fits =
      let args = received_args can msg use_fd_cfg in
      (
        record_of can msg use_fd_cfg,
        can.message args,
        frame_from_can_lem can msg use_fd_cfg fits
            ∙ ap (λ (n : ℕ). ok (0 ∷ n ∷ record_of can msg use_fd_cfg))
                (omega (arith, length-record_of can msg use_fd_cfg)),
        can_from_frame-record_of can msg use_fd_cfg fits,
        received_args-IsDelivered msg use_fd_cfg,
      )
