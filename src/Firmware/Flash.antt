-- ===== src/Firmware/Flash.antt =====
-- `wait_for_flash_status_ok` and `flash_firmware` of firmware-update/co-firmware-update.py.
use canopen_tools.Prelude.{
  ℕ, zero, suc, ◌+◌, ◌/◌, Option, none, some, List, [], ◌∷◌, ltb, ◌==◌, if◌then◌else◌, length, take,
  drop,
}
use canopen_tools.Outcome.{value_error, other}
use canopen_tools.Firmware.Device.{
  connect, disconnect, read_swid, read_status, pre_operational, wait_bootup, ctrl, get_size,
  open_file, read_file, close_file, open_transfer, write, show_progress, close_transfer, sleep, Env,
  M, exhausted, pure, throw, attempt, finally, ◌>>=◌, ◌>>◌, perform, now,
}

abbrev pub program_ctrl_stop : ℕ
program_ctrl_stop = 0x00

abbrev pub program_ctrl_start : ℕ
program_ctrl_start = 0x01

abbrev pub program_ctrl_clear : ℕ
program_ctrl_clear = 0x03

abbrev pub program_ctrl_confirm : ℕ
program_ctrl_confirm = 0x80

-- Milliseconds.
abbrev pub default_timeout : ℕ
default_timeout = 60_000

abbrev pub default_buffer_size : ℕ
default_buffer_size = 1024

abbrev pub chunk_size : ℕ
chunk_size = default_buffer_size / 2

module _ (env : Env) where
  -- The end of a round: past the end time the status is returned, whatever it is.
  unfoldable pub until_end : (ℕ → M ℕ) → ℕ → ℕ → M ℕ
  until_end again end_time status = do
    t ← now env
    if ltb end_time t then pure status else do perform env sleep; again status

  -- A round, after its read: one that raised leaves the status as it was.
  unfoldable pub poll : (ℕ → M ℕ) → ℕ → ℕ → Option ℕ → M ℕ
  unfolding until_end
  poll again end_time status (some zero) = pure 0
  poll again end_time status (some (suc n)) = until_end again end_time (suc n)
  poll again end_time status none = until_end again end_time status

  -- `while True` of `wait_for_flash_status_ok`, on fuel.
  unfoldable pub wait_loop : ℕ → ℕ → ℕ → M ℕ
  unfolding poll
  wait_loop zero end_time status = exhausted
  wait_loop (suc fuel) end_time status = do
    got ← attempt (perform env read_status)
    poll (wait_loop fuel end_time) end_time status got

  unfoldable pub wait_for_flash_status_ok : ℕ → ℕ → M ℕ
  unfolding wait_loop
  wait_for_flash_status_ok fuel timeout = do t ← now env; wait_loop fuel (t + timeout) 0xFFFFFFFF

  -- `if status != 0: raise ValueError(…)`
  unfoldable pub require_ok : ℕ → M (Unit {0})
  require_ok status = if status == 0 then pure tt else throw value_error

  -- `percent = total_sent / bin_size` raises ZeroDivisionError on an empty file.
  unfoldable pub report : ℕ → ℕ → M ℕ
  report total size = if size == 0 then throw other else perform env (show_progress total size)

  -- One round of the copy loop; `left` is what has not been read of the file.
  unfoldable pub copy_chunk : (ℕ → List ℕ → M (Unit {0})) → ℕ → ℕ → List ℕ → M (Unit {0})
  unfolding report
  copy_chunk again size total [] = do perform env read_file; pure tt
  copy_chunk again size total (b ∷ left) = do
    perform env read_file
    let chunk = take chunk_size (b ∷ left)
    perform env (write chunk)
    report (total + length chunk) size
    again (total + length chunk) (drop chunk_size (b ∷ left))

  unfoldable pub copy_loop : ℕ → ℕ → ℕ → List ℕ → M (Unit {0})
  unfolding copy_chunk
  copy_loop zero size total left = exhausted
  copy_loop (suc fuel) size total left = copy_chunk (copy_loop fuel size) size total left

  -- Both `with` blocks. A round reads a byte at least, and the last finds the end of the file.
  unfoldable pub download : ℕ → List ℕ → M (Unit {0})
  unfolding copy_loop
  download size content = do
    perform env open_file
    finally
        (do
          perform env (open_transfer size)
          finally (copy_loop (suc (length content)) size 0 content) (perform env close_transfer))
        (perform env close_file)

  -- The steps within the `try … finally`, from `[1/6]` on; `content` is the file.
  unfoldable pub update_steps : ℕ → List ℕ → M (Unit {0})
  unfolding wait_for_flash_status_ok require_ok download
  update_steps fuel content = do
    attempt (perform env read_swid)
    wait_for_flash_status_ok fuel default_timeout
    perform env pre_operational
    perform env (ctrl program_ctrl_stop)
    perform env (ctrl program_ctrl_clear)
    cleared ← wait_for_flash_status_ok fuel default_timeout
    require_ok cleared
    size ← perform env get_size
    download size content
    stored ← wait_for_flash_status_ok fuel default_timeout
    require_ok stored
    attempt (perform env read_swid)
    perform env (ctrl program_ctrl_start)
    attempt (perform env wait_bootup)
    perform env pre_operational
    perform env (ctrl program_ctrl_confirm)
    pure tt

  unfoldable pub flash_firmware : ℕ → List ℕ → M (Unit {0})
  unfolding update_steps
  flash_firmware fuel content = do
    perform env connect
    finally (update_steps fuel content) (perform env disconnect)
