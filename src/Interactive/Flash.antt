-- ===== src/Interactive/Flash.antt =====
-- `flash_firmware` of canopen-interactive/co.py. Its `wait_for_flash_status_ok` and its copy loop make
-- the same calls with the same constants as those of firmware-update/co-firmware-update.py, whose
-- definitions stand for them here.
use canopen_tools.Prelude.{ℕ, Option, none, some, Bool, true, false, List}
use canopen_tools.Firmware.Device.{
  add_node, read_swid, pre_operational, wait_bootup, ctrl, get_size, Env, M, pure, attempt, ◌>>=◌,
  ◌>>◌, perform,
}
use canopen_tools.Firmware.Flash.{
  default_timeout, program_ctrl_start, program_ctrl_stop, program_ctrl_clear, program_ctrl_confirm,
  wait_for_flash_status_ok, require_ok, download,
}

-- The answers at the prompts: the node that `choose_node` returns, whether the path is a file, and
-- whether the confirmation, stripped and in lower case, is "y".
pub record Answers : Type 0 where
  pub node : Option ℕ
  pub is_file : Bool
  pub says_yes : Bool

-- What the user is told at the end.
pub data Told : Type 0 where
  no_node no_file cancelled completed flash_error : Told

-- `except Exception as e: print(…)`
abbrev pub tell : Option (Unit {0}) → Told
tell (some u) = completed
tell none = flash_error

module _ (env : Env) where
  -- The `try` block; `content` is the file.
  unfoldable pub flash_steps : ℕ → List ℕ → M (Unit {0})
  unfolding wait_for_flash_status_ok require_ok download
  flash_steps fuel content = do
    attempt (perform env read_swid)
    wait_for_flash_status_ok env fuel default_timeout
    perform env pre_operational
    perform env (ctrl program_ctrl_stop)
    perform env (ctrl program_ctrl_clear)
    cleared ← wait_for_flash_status_ok env fuel default_timeout
    require_ok env cleared
    bin_size ← perform env get_size
    download env bin_size content
    stored ← wait_for_flash_status_ok env fuel default_timeout
    require_ok env stored
    attempt (perform env read_swid)
    perform env (ctrl program_ctrl_start)
    attempt (perform env wait_bootup)
    perform env pre_operational
    perform env (ctrl program_ctrl_confirm)
    pure tt

  -- The flash node is added to the network outside of the `try`.
  unfoldable pub flash_node : ℕ → List ℕ → M Told
  unfolding flash_steps
  flash_node fuel content = do
    perform env add_node
    done ← attempt (flash_steps fuel content)
    pure (tell done)

  -- The node, whether the path is a file, and the confirmation, asked in this order.
  unfoldable pub flash_chosen : Option ℕ → Bool → Bool → ℕ → List ℕ → M Told
  unfolding flash_node
  flash_chosen none is_file says_yes fuel content = pure no_node
  flash_chosen (some n) false says_yes fuel content = pure no_file
  flash_chosen (some n) true false fuel content = pure cancelled
  flash_chosen (some n) true true fuel content = flash_node fuel content

  unfoldable pub flash_menu : Answers → ℕ → List ℕ → M Told
  unfolding flash_chosen
  flash_menu answers fuel content =
      flash_chosen answers.node answers.is_file answers.says_yes fuel content
