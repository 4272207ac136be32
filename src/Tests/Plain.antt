-- ===== src/Tests/Plain.antt =====
-- A library of messages that does what python-can documents: a message is its own attributes.
use canopen_tools.Prelude.{refl, true, false, some, [], ◌∷◌, if◌then◌else◌}
use canopen_tools.Frame.{MessageArgs, CanMessage, CanMessageLaws}

abbrev pub plain : CanMessage MessageArgs
plain = record {
  arbitration_id = λ m. m.arbitration_id;
  is_extended_id = λ m. m.is_extended_id;
  is_remote_frame = λ m. m.is_remote_frame;
  payload = λ m. some m.payload;
  is_fd = λ m. some m.is_fd;
  bitrate_switch = λ m. some m.bitrate_switch;
  message = λ a. record a { payload = if a.is_remote_frame then [] else a.payload };
}

pub plain_laws : CanMessageLaws plain
plain_laws = record {
  id_message = λ a. refl;
  ext_message = λ a. refl;
  rtr_message = λ a. refl;
  fd_message = λ a. refl;
  brs_message = λ a. refl;
  payload_message = λ a. refl;
}

-- `123#DEADBEEF`, and an extended remote frame.
abbrev pub deadbeef : MessageArgs
deadbeef = record {
  arbitration_id = 0x123;
  is_extended_id = false;
  is_remote_frame = false;
  payload = 0xde ∷ 0xad ∷ 0xbe ∷ 0xef ∷ [];
  is_fd = false;
  bitrate_switch = false;
}

abbrev pub request : MessageArgs
request = record {
  arbitration_id = 0x1abcdef0;
  is_extended_id = true;
  is_remote_frame = true;
  payload = [];
  is_fd = false;
  bitrate_switch = false;
}
