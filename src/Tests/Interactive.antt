-- ===== src/Tests/Interactive.antt =====
-- The interactive tool at concrete inputs.
use canopen_tools.Prelude.{true, ◌≡◌, refl, some, [], arith}
use canopen_tools.Firmware.Device.{returned, attempt, finally, perform, ◌>>=◌}
use canopen_tools.Firmware.Halts.{HasEnded}
use canopen_tools.Tests.Firmware.{ready, ready-Ticks, busy, image}
use canopen_tools.Interactive.Flash.{Answers, completed, flash_error, flash_menu}
use canopen_tools.Interactive.Conforms.{IsHonest, flash_menu-IsHonest, flash_menu-Halts}

abbrev agreeing : Answers
agreeing = record { node = some 5; is_file = true; says_yes = true }

ready_completes : (flash_menu ready agreeing 122 image []).0 ≡ returned completed
unfolding flash_menu attempt finally perform ◌>>=◌
ready_completes = refl

busy_reports_error : (flash_menu busy agreeing 122 image []).0 ≡ returned flash_error
unfolding flash_menu attempt finally perform ◌>>=◌
busy_reports_error = refl

flash_menu-IsHonest_example :
    IsHonest ready image (some 5) true true (flash_menu ready agreeing 122 image [])
flash_menu-IsHonest_example = flash_menu-IsHonest ready image agreeing 122

flash_menu-Halts_example : HasEnded (flash_menu ready agreeing 122 image []).0
flash_menu-Halts_example = flash_menu-Halts ready ready-Ticks agreeing 122 image (omega arith) []
