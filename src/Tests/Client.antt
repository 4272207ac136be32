-- ===== src/Tests/Client.antt =====
-- The client of the bridge at concrete frames.
use canopen_tools.Prelude.{
  ◌≡◌, refl, true, false, some, ℕ, List, [], ◌∷◌, length, ◌==◌, if◌then◌else◌,
}
use canopen_tools.Outcome.{ok}
use canopen_tools.Frame.{MessageArgs, pack_header, sent_flags, frame_from_can}
use canopen_tools.Bridge.Outbound.{Round, sent, loop_can_to_tcp}
use canopen_tools.Bridge.Wire.{bytes_to}
use canopen_tools.Client.{
  CanFrame, Socket, client_flags, send_queue, receive_records, recv_all, can_from_tcp_parts,
}
use canopen_tools.Tests.Plain.{plain, deadbeef, request}

-- Nine bytes: FD for the server, and too much for the client.
abbrev nine : MessageArgs
nine = record {
  arbitration_id = 0x55;
  is_extended_id = false;
  is_remote_frame = false;
  payload = 1 ∷ 2 ∷ 3 ∷ 4 ∷ 5 ∷ 6 ∷ 7 ∷ 8 ∷ 9 ∷ [];
  is_fd = true;
  bitrate_switch = false;
}

abbrev round : MessageArgs → Round MessageArgs
round m = record { stop_set = false; recv = ok (some m); sock = some 7; send_all = sent }

abbrev rounds : List (Round MessageArgs)
rounds = round deadbeef ∷ round nine ∷ round request ∷ []

abbrev takes_all : Socket
takes_all w buf = some (length buf)

abbrev two : CanFrame
two = record {
  id = 0x181;
  dlc = 2;
  ide = false;
  rtr = false;
  bytes = 0xca ∷ 0xfe ∷ 0 ∷ 0 ∷ 0 ∷ 0 ∷ 0 ∷ 0 ∷ [];
}

abbrev asked : CanFrame
asked = record {
  id = 0x701;
  dlc = 0;
  ide = true;
  rtr = true;
  bytes = 0 ∷ 0 ∷ 0 ∷ 0 ∷ 0 ∷ 0 ∷ 0 ∷ 0 ∷ [];
}

abbrev chunks : List (List ℕ)
chunks =
    (0 ∷ 8 ∷ 0 ∷ [])
    ∷ (0 ∷ 1 ∷ 0x81 ∷ 0 ∷ 2 ∷ 0xca ∷ 0xfe ∷ 0 ∷ 6 ∷ 0 ∷ 0 ∷ 7 ∷ 1 ∷ 3 ∷ [])
    ∷ (0 ∷ [])
    ∷ []

-- The message of nine bytes is dropped, and the one behind it is read.
abbrev taken_frames : List CanFrame
taken_frames =
    record { id = 0x123; dlc = 4; ide = false; rtr = false; bytes = 0xde ∷ 0xad ∷ 0xbe ∷ 0xef ∷ [] }
    ∷ record { id = 0x1abcdef0; dlc = 0; ide = true; rtr = true; bytes = [] }
    ∷ []

client_runs :
    receive_records 3 (bytes_to 7 (loop_can_to_tcp plain true rounds []).1) ≡ (taken_frames, [])
unfolding receive_records recv_all can_from_tcp_parts loop_can_to_tcp frame_from_can pack_header
    sent_flags
client_runs = refl

-- A socket that takes five bytes of the length and the header, and all of the data.
abbrev five_of_six : Socket
five_of_six w buf = if length buf == 6 then some 5 else some (length buf)

-- A part that is taken in part is not sent again: the next record follows a record cut short.
loses_step :
    send_queue five_of_six (two ∷ asked ∷ []) []
    ≡ 0 ∷ 8 ∷ 0 ∷ 0 ∷ 1 ∷ 0x81 ∷ 0 ∷ 0 ∷ 6 ∷ 0 ∷ 0 ∷ 7 ∷ 1 ∷ 3 ∷ []
unfolding send_queue client_flags
loses_step = refl
