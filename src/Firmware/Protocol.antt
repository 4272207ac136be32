-- ===== src/Firmware/Protocol.antt =====
-- The flashing protocol of a CANopen device, as an automaton over the logged calls: the
-- specification that firmware-update/co-firmware-update.py is held to.
pub mod Rules
pub mod Wait
pub mod Transfer
pub mod Conforms
use canopen_tools.Prelude.{ℕ, ◌≡◌, refl, List, [], ◌∷◌, ◌++◌, ◌==◌, if◌then◌else◌}
use canopen_tools.Outcome.{Exn, Result, ok, raise}
use canopen_tools.Firmware.Device.{
  Call, connect, disconnect, add_node, read_swid, read_status, pre_operational, wait_bootup, ctrl,
  get_size, open_file, read_file, close_file, open_transfer, write, show_progress, close_transfer,
  sleep, Event, Log,
}

-- How far the device is; `sent` is what the transfer has taken. A flash status of 0 turns `cleared`
-- into `erased` and `downloaded` into `verified`. `violation` is reached by a call out of order.
pub data Stage : Type 0 where
  idle stopped cleared erased : Stage
  downloading downloaded verified started confirmed : List ℕ → Stage
  violation : Stage

-- Program control: 0 stops, 3 clears, 1 starts and 128 confirms; nothing else is sent.
abbrev pub control : Stage → ℕ → Stage
control idle n = if n == 0 then stopped else violation
control stopped n = if n == 3 then cleared else violation
control (verified sent) n = if n == 1 then started sent else violation
control (started sent) n = if n == 128 then confirmed sent else violation
control _ n = violation

abbrev pub flash_status : Stage → ℕ → Stage
flash_status idle n = idle
flash_status cleared n = if n == 0 then erased else cleared
flash_status (downloaded sent) n = if n == 0 then verified sent else downloaded sent
flash_status _ n = violation

abbrev pub begin_transfer : Stage → Stage
begin_transfer erased = downloading []
begin_transfer _ = violation

abbrev pub transfer : Stage → List ℕ → Stage
transfer (downloading sent) bytes = downloading (sent ++ bytes)
transfer _ bytes = violation

abbrev pub end_transfer : Stage → Stage
end_transfer (downloading sent) = downloaded sent
end_transfer _ = violation

-- Pre-operational mode is entered before the program is stopped, and after it was started.
abbrev pub enter_pre_operational : Stage → Stage
enter_pre_operational idle = idle
enter_pre_operational (started sent) = started sent
enter_pre_operational _ = violation

abbrev pub boot_up : Stage → Stage
boot_up (started sent) = started sent
boot_up _ = violation

-- A call that succeeds, with the number that it returned.
abbrev pub advance : Stage → Call → ℕ → Stage
advance s (ctrl c) n = control s c
advance s read_status n = flash_status s n
advance s (open_transfer size) n = begin_transfer s
advance s (write bytes) n = transfer s bytes
advance s close_transfer n = end_transfer s
advance s pre_operational n = enter_pre_operational s
advance s wait_bootup n = boot_up s
advance s connect n = s
advance s disconnect n = s
advance s add_node n = s
advance s read_swid n = s
advance s get_size n = s
advance s open_file n = s
advance s read_file n = s
advance s close_file n = s
advance s (show_progress a b) n = s
advance s sleep n = s

-- A call that raises changes nothing, if it was in order.
abbrev pub refused : Stage → Stage → Stage
refused s violation = violation
refused s _ = s

abbrev pub next : Stage → Event → Stage
next s (c, ok n) = advance s c n
next s (c, raise e) = refused s (advance s c 0)

abbrev pub run : Stage → Log → Stage
run s [] = s
run s (e ∷ l) = run (next s e) l

pub run-append : (s : Stage) (l k : Log) → run s (l ++ k) ≡ run (run s l) k
run-append s [] k = refl
run-append s (e ∷ l) k = run-append (next s e) l k
