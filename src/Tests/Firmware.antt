-- ===== src/Tests/Firmware.antt =====
-- The firmware update with two devices: one that does all it is asked, and one whose flash is busy.
use canopen_tools.Prelude.{ℕ, ◌*◌, ◌≡◌, ◌⊎◌, refl, List, [], ◌∷◌, arith, length, length-append}
use canopen_tools.Outcome.{Exn, Result, ok, raise, value_error}
use canopen_tools.Firmware.Device.{
  Call, connect, read_status, read_swid, get_size, sleep, Env, Log, returned, raised, attempt,
  finally, perform, ◌>>=◌,
}
use canopen_tools.Firmware.Flash.{flash_firmware}
use canopen_tools.Firmware.Protocol.{idle, cleared, confirmed, run}
use canopen_tools.Firmware.Protocol.Transfer.{IsSafe}
use canopen_tools.Firmware.Protocol.Conforms.{flash_firmware-conforms}
use canopen_tools.Firmware.Halts.{HasEnded, Ticks, flash_firmware-Halts}
use canopen_tools.Firmware.Objects.{create_flash_object_dictionary}
use canopen_tools.Firmware.Objects.Typed.{IsTyped, flash_firmware-IsTyped}
use canopen_tools.Firmware.Release.{EndsDisconnected, flash_firmware-EndsDisconnected}

-- Every call takes half a second.
abbrev half_seconds : Log → ℕ
half_seconds l = 500 * length l

abbrev ready_reply : Log → Call → Result ℕ
ready_reply l get_size = ok 4
ready_reply l _ = ok 0

abbrev pub ready : Env
ready = record { reply = ready_reply; clock = half_seconds }

abbrev busy_reply : Log → Call → Result ℕ
busy_reply l read_status = ok 2
busy_reply l read_swid = raise value_error
busy_reply l _ = ok 3

abbrev pub busy : Env
busy = record { reply = busy_reply; clock = half_seconds }

pub ready-Ticks : Ticks ready
ready-Ticks = record {
  forward = λ l c. omega (arith, length-append l ((c, ready_reply l c) ∷ []));
  sleeps = λ l n e. omega (arith, length-append l ((sleep, ok 0) ∷ []));
}

abbrev pub image : List ℕ
image = 0x7f ∷ 0x45 ∷ 0x4c ∷ 0x46 ∷ []

ready_returns : (flash_firmware ready 122 image []).0 ≡ returned tt
unfolding flash_firmware attempt finally perform ◌>>=◌
ready_returns = refl

ready_confirms : run idle (flash_firmware ready 122 image []).1 ≡ confirmed image
unfolding flash_firmware attempt finally perform ◌>>=◌
ready_confirms = refl

busy_raises : (flash_firmware busy 122 image []).0 ≡ raised value_error
unfolding flash_firmware attempt finally perform ◌>>=◌
busy_raises = refl

busy_stays_cleared : run idle (flash_firmware busy 122 image []).1 ≡ cleared
unfolding flash_firmware attempt finally perform ◌>>=◌
busy_stays_cleared = refl

flash_firmware-conforms_example :
    IsSafe image (run idle (flash_firmware ready 122 image []).1)
    × ((flash_firmware ready 122 image []).0 ≡ returned tt
        → run idle (flash_firmware ready 122 image []).1 ≡ confirmed image)
flash_firmware-conforms_example = flash_firmware-conforms ready image 122

flash_firmware-Halts_example : HasEnded (flash_firmware ready 122 image []).0
flash_firmware-Halts_example = flash_firmware-Halts ready ready-Ticks 122 image (omega arith) []

flash_firmware-EndsDisconnected_example :
    EndsDisconnected (flash_firmware ready 122 image []).1
    ⊎ ((e : Exn) × (ready_reply [] connect ≡ raise e)
        × (flash_firmware ready 122 image [] ≡ (raised e, (connect, raise e) ∷ [])))
flash_firmware-EndsDisconnected_example =
    flash_firmware-EndsDisconnected ready 122 image ready-Ticks (omega arith)

flash_firmware-IsTyped_example :
    IsTyped create_flash_object_dictionary (flash_firmware ready 122 image []).1
flash_firmware-IsTyped_example = flash_firmware-IsTyped ready image 122
