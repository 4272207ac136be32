-- ===== src/Tests/Bridge.antt =====
-- The bridge at concrete inputs.
use canopen_tools.Prelude.{
  ℕ, ◌≤◌, ◌≡◌, ◌≢◌, refl, sym, ◌⊎◌, true, false, none, some, List, [], ◌∷◌, ◌++◌, map, arith,
  length, flatten, All,
}
use canopen_tools.Outcome.{ok, raise, value_error}
use canopen_tools.Tests.Plain.{plain, plain_laws, deadbeef, request}
use canopen_tools.Frame.{MessageArgs, pack_header, sent_flags, frame_from_can, can_from_frame}
use canopen_tools.Frame.Errors.{IsRecord, can_from_frame_cases}
use canopen_tools.Frame.RoundTrip.{IsDelivered, can_from_frame-frame_from_can}
use canopen_tools.Framer.{feed, next_record}
use canopen_tools.Framer.Stream.{split}
use canopen_tools.Framer.Lossless.{rejoin, IsShort, split_lossless}
use canopen_tools.Bridge.Inbound.{BusLog, waiting, loop_tcp_to_can}
use canopen_tools.Bridge.Outbound.{Round, sent, running, loop_can_to_tcp}
use canopen_tools.Bridge.Wire.{bytes_to, wire, sendable, heard, IsSteady, bytes_to-loop_can_to_tcp}
use canopen_tools.Bridge.Delivery.{reads, deliver, log_of, ended_log, loop_tcp_to_can-deliver}
use canopen_tools.Bridge.EndToEnd.{accepts_all, Delivered, bridge_transfers}

-- The record of `123#DEADBEEF`: length 10, identifier, no flags, four bytes.
frame_deadbeef :
    frame_from_can plain deadbeef false
    ≡ ok (0 ∷ 10 ∷ 0 ∷ 0 ∷ 1 ∷ 0x23 ∷ 0 ∷ 4 ∷ 0xde ∷ 0xad ∷ 0xbe ∷ 0xef ∷ [])
unfolding frame_from_can pack_header sent_flags
frame_deadbeef = refl

short_header : can_from_frame plain (0 ∷ 0 ∷ 1 ∷ []) ≡ raise value_error
unfolding can_from_frame
short_header = refl

can_from_frame-frame_from_can_example :
    (body : List ℕ) × (copy : MessageArgs) × (frame_from_can plain deadbeef true
      ≡ ok (0 ∷ length body ∷ body))
    × (can_from_frame plain body ≡ ok copy)
    × IsDelivered plain true deadbeef copy
can_from_frame-frame_from_can_example =
    can_from_frame-frame_from_can plain plain_laws deadbeef true (omega arith)

can_from_frame_cases_example :
    (IsRecord (0 ∷ 0 ∷ 1 ∷ [])
      × (args : MessageArgs) × (can_from_frame plain (0 ∷ 0 ∷ 1 ∷ []) ≡ ok (plain.message args))
      × (length args.payload ≤ 64))
    ⊎ ((¬ (IsRecord (0 ∷ 0 ∷ 1 ∷ [])))
        × (can_from_frame plain (0 ∷ 0 ∷ 1 ∷ []) ≡ raise value_error))
can_from_frame_cases_example = can_from_frame_cases plain (0 ∷ 0 ∷ 1 ∷ [])

abbrev two_records : List ℕ
two_records = 0 ∷ 2 ∷ 7 ∷ 8 ∷ 0 ∷ 0 ∷ 0 ∷ 9 ∷ 1 ∷ []

split-two_records : split two_records ≡ ((7 ∷ 8 ∷ []) ∷ [] ∷ [], record { buf = 0 ∷ 9 ∷ 1 ∷ [] })
unfolding split next_record
split-two_records = refl

split_lossless_example :
    (rejoin (split two_records) ≡ two_records) × IsShort (split two_records).1.buf
split_lossless_example = split_lossless two_records (omega arith)

-- Two messages are received while socket 7 is installed, and one before.
abbrev round : MessageArgs → Round MessageArgs
round m = record { stop_set = false; recv = ok (some m); sock = some 7; send_all = sent }

abbrev early : Round MessageArgs
early = record { stop_set = false; recv = ok (some request); sock = none; send_all = sent }

abbrev rounds : List (Round MessageArgs)
rounds = early ∷ round deadbeef ∷ round request ∷ []

IsSteady-early : IsSteady 7 early
IsSteady-early = record {
  not_stopped = refl;
  not_interrupted = λ e. cc;
  whole = λ e. cc;
  calm = λ k e. cc;
}

IsSteady-round : (m : MessageArgs) → IsSteady 7 (round m)
IsSteady-round m = record {
  not_stopped = refl;
  not_interrupted = λ e. cc;
  whole = λ e. refl;
  calm = λ k e. cc;
}

IsSteady-rounds : All (IsSteady 7) rounds
IsSteady-rounds = (IsSteady-early, (IsSteady-round deadbeef, (IsSteady-round request, tt)))

bytes_to-loop_can_to_tcp_example :
    ((loop_can_to_tcp plain false rounds []).0 ≡ running)
    × (bytes_to 7 (loop_can_to_tcp plain false rounds []).1
        ≡ wire plain false (sendable plain (heard 7 rounds)))
bytes_to-loop_can_to_tcp_example = bytes_to-loop_can_to_tcp plain false 7 rounds [] IsSteady-rounds

abbrev sent_bytes : List ℕ
sent_bytes =
    0 ∷ 10 ∷ 0 ∷ 0 ∷ 1 ∷ 0x23 ∷ 0 ∷ 4 ∷ 0xde ∷ 0xad ∷ 0xbe ∷ 0xef ∷ 0 ∷ 6 ∷ 0x1a ∷ 0xbc ∷ 0xde
    ∷ 0xf0 ∷ 3 ∷ 0 ∷ []

sent_bytes_lem : bytes_to 7 (loop_can_to_tcp plain false rounds []).1 ≡ sent_bytes
unfolding loop_can_to_tcp frame_from_can pack_header sent_flags
sent_bytes_lem = refl

-- The same bytes as the network may deliver them.
abbrev chunks : List (List ℕ)
chunks =
    (0 ∷ [])
    ∷ (10 ∷ 0 ∷ 0 ∷ 1 ∷ 0x23 ∷ 0 ∷ 4 ∷ [])
    ∷ (0xde ∷ 0xad ∷ 0xbe ∷ 0xef ∷ 0 ∷ 6 ∷ 0x1a ∷ 0xbc ∷ 0xde ∷ 0xf0 ∷ 3 ∷ [])
    ∷ (0 ∷ [])
    ∷ []

chunks_full : All (λ c. c ≢ []) chunks
chunks_full = (λ e. cc, (λ e. cc, (λ e. cc, (λ e. cc, tt))))

abbrev quiet : BusLog MessageArgs
quiet = record { calls = 0; taken = [] }

loop_tcp_to_can-deliver_example :
    log_of plain accepts_all (loop_tcp_to_can plain accepts_all (map reads chunks) quiet)
    ≡ ended_log plain accepts_all (deliver plain accepts_all (split (flatten chunks)).0 quiet)
loop_tcp_to_can-deliver_example = loop_tcp_to_can-deliver plain accepts_all chunks quiet chunks_full

loop_runs :
    (loop_tcp_to_can plain accepts_all (map reads chunks) quiet).1.log.taken
    ≡ deadbeef ∷ request ∷ []
unfolding loop_tcp_to_can feed next_record can_from_frame
loop_runs = refl

bridge_transfers_example :
    (copies : List MessageArgs) × Delivered plain false (sendable plain (heard 7 rounds)) copies
    × ((loop_tcp_to_can plain accepts_all (map reads chunks) quiet).0 ≡ waiting)
    × ((loop_tcp_to_can plain accepts_all (map reads chunks) quiet).1.log.taken ≡ copies)
bridge_transfers_example =
    bridge_transfers plain plain_laws false 7 rounds chunks quiet IsSteady-rounds chunks_full
      (sym sent_bytes_lem)

abbrev broken_stream : List (List ℕ)
broken_stream = (sent_bytes ++ (0 ∷ 2 ∷ 9 ∷ 9 ∷ [])) ∷ (0 ∷ 1 ∷ 5 ∷ []) ∷ []
