-- ===== src/Client/Receives.antt =====
-- The records of can-tcp-bridge/can-tcp-bridge-server/can_tcp_bridge.py, as its peer,
-- can-tcp-bridge/can-tcp-bridge-client/src/main.c, reads them.
use canopen_tools.Prelude.{
  ℕ, ◌+◌, ◌-◌, ◌*◌, ◌/◌, ◌%◌, ◌^◌, ◌≤◌, ◌<◌, ◌≡◌, refl, ap, inl, inr, Bool, false, Option, none,
  some, List, [], ◌∷◌, ◌++◌, ltb, leb, ==_iff, arith, if◌then◌else◌, length, take, drop,
  take-length, length-append, lt→ltb, le→ltb, Bool-cases,
}
use canopen_tools.Prelude.Bits.{bit_and_29}
use canopen_tools.Frame.{
  CanMessage, flag_ext, flag_rtr, has_flag, sent_payload, sends_fd, sends_brs,
}
use canopen_tools.Frame.RoundTrip.{
  header_bytes, record_of, msg_flags, has_flag-sent_flags, length-record_of,
}
use canopen_tools.Framer.Front.{framed}
use canopen_tools.Client.{
  CanFrame, can_from_tcp_parts, recv_all, with_data, dumped, receive_body, receive_payload,
  receive_record,
}

-- The frame that the client makes of a record of the server.
abbrev pub frame_of : {M : Type 0} → CanMessage M → M → CanFrame
frame_of can m = record {
  id = can.arbitration_id m % 2 ^ 29;
  dlc = length (sent_payload can m);
  ide = can.is_extended_id m;
  rtr = can.is_remote_frame m;
  bytes = sent_payload can m;
}

-- A message of more than eight bytes is dropped.
abbrev pub client_copy : {M : Type 0} → CanMessage M → M → List CanFrame
client_copy can m = if leb (length (sent_payload can m)) 8 then frame_of can m ∷ [] else []

abbrev pub client_option : {M : Type 0} → CanMessage M → M → Option CanFrame
client_option can m = if leb (length (sent_payload can m)) 8 then some (frame_of can m) else none

take-append : (xs ys : List ℕ) → take (length xs) (xs ++ ys) ≡ xs
take-append [] ys = refl
take-append (x ∷ xs) ys = ap (λ l. x ∷ l) (take-append xs ys)

drop-append : (xs ys : List ℕ) → drop (length xs) (xs ++ ys) ≡ ys
drop-append [] ys = refl
drop-append (x ∷ xs) ys = drop-append xs ys

recv_all-append : (xs ys : List ℕ) → recv_all (length xs) (xs ++ ys) ≡ some (xs, ys)
unfolding recv_all
recv_all-append xs ys = rw (enough, take-append xs ys, drop-append xs ys) refl
  where
    enough : ltb (length (xs ++ ys)) (length xs) ≡ false
    enough = le→ltb (length (xs ++ ys)) (length xs) (omega (arith, length-append xs ys))

recv_all-append_of :
    (k : ℕ) (xs ys : List ℕ) → k ≡ length xs → recv_all k (xs ++ ys) ≡ some (xs, ys)
recv_all-append_of k xs ys e = rw e (recv_all-append xs ys)

parts_of_header :
    (id flags : ℕ) (payload : List ℕ)
    → length payload ≤ 8
    → can_from_tcp_parts
        (record { can_id = id; flags = flags; dlc = length payload })
        payload
        (length payload)
      ≡ some (record {
        id = id % 2 ^ 29;
        dlc = length payload;
        ide = has_flag flags flag_ext;
        rtr = has_flag flags flag_rtr;
        bytes = payload;
      })
unfolding can_from_tcp_parts
parts_of_header id flags payload fits =
    rw
      (
        le→ltb 8 (length payload) fits,
        (==_iff (length payload) (length payload)).1 refl,
        bit_and_29 id,
        take-length payload,
      )
      refl

receive_body_header :
    (id flags : ℕ) (payload rest : List ℕ)
    → length payload ≤ 8
    → receive_body (6 + length payload) (header_bytes id flags (length payload) payload ++ rest)
      ≡ some (
        some (record {
          id = id % 2 ^ 29;
          dlc = length payload;
          ide = has_flag flags flag_ext;
          rtr = has_flag flags flag_rtr;
          bytes = payload;
        }),
        rest,
      )
unfolding receive_body header_bytes with_data
receive_body_header id flags payload rest fits =
    rw
      (
        recv_all-append_of (6 + length payload - 6) payload rest (omega arith),
        big_endian,
        six,
        parts_of_header id flags payload fits,
      )
      refl
  where
    six : 6 + length payload - 6 ≡ length payload
    six = omega arith

    big_endian :
        id / 2 ^ 24 * 2 ^ 24 + id / 2 ^ 16 % 256 * 2 ^ 16 + id / 256 % 256 * 256 + id % 256 ≡ id
    big_endian = omega arith

module _ {M : Type 0} (can : CanMessage M) (use_fd_cfg : Bool) where
  abbrev size : M → ℕ
  size m = length (sent_payload can m)

  -- What the client takes of a record of the server.
  receive_payload_small :
      (m : M) (rest : List ℕ)
      → size m ≤ 8
      → receive_payload (6 + size m) (record_of can m use_fd_cfg ++ rest)
        ≡ some (some (frame_of can m), rest)
  unfolding receive_payload
  receive_payload_small m rest fits =
      let (e, r, f, b) =
        has_flag-sent_flags (can.is_extended_id m) (can.is_remote_frame m)
          (sends_fd can m use_fd_cfg) (sends_brs can m) in
      rw
        (
          le→ltb (6 + size m) 6 (omega arith),
          le→ltb 14 (6 + size m) (omega (arith, fits)),
          receive_body_header (can.arbitration_id m % 2 ^ 29) (msg_flags can m use_fd_cfg)
              (sent_payload can m) rest fits,
          e,
          r,
          twice,
        )
        refl
    where
      twice : can.arbitration_id m % 2 ^ 29 % 2 ^ 29 ≡ can.arbitration_id m % 2 ^ 29
      twice = omega arith

  receive_payload_large :
      (m : M) (rest : List ℕ)
      → 8 < size m
      → receive_payload (6 + size m) (record_of can m use_fd_cfg ++ rest) ≡ some (none, rest)
  unfolding receive_payload dumped
  receive_payload_large m rest large =
      rw
        (
          le→ltb (6 + size m) 6 (omega arith),
          lt→ltb 14 (6 + size m) (omega (arith, large)),
          recv_all-append_of (6 + size m) (record_of can m use_fd_cfg) rest
              (omega (arith, length-record_of can m use_fd_cfg)),
        )
        refl

  pub receive_record-framed :
      (m : M) (rest : List ℕ)
      → size m ≤ 64
      → receive_record (framed (record_of can m use_fd_cfg) ++ rest)
        ≡ some (client_option can m, rest)
  unfolding receive_record
  receive_record-framed m rest fits = elim (Bool-cases (leb (size m) 8)) [
    | inl small ↦ rw (small, len) (receive_payload_small m rest (ground arith))
    | inr large ↦ rw (large, len) (receive_payload_large m rest (ground arith))
  ]
    where
      len :
          length (record_of can m use_fd_cfg) / 256 * 256
            + length (record_of can m use_fd_cfg) % 256
          ≡ 6 + size m
      len = omega (arith, length-record_of can m use_fd_cfg)
