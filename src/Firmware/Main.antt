-- ===== src/Firmware/Main.antt =====
-- `main` of firmware-update/co-firmware-update.py.
use canopen_tools.Prelude.{
  ℕ, zero, suc, Bool, true, false, ◌&&◌, ◌||◌, Option, none, some, List, [], ◌∷◌, if◌then◌else◌,
}
use canopen_tools.Outcome.{Result, ok, raise, attribute_error, is_exception}
use canopen_tools.Firmware.Device.{
  returned, raised, get_size, Env, M, pure, attempt, ◌>>=◌, ◌>>◌, perform,
}
use canopen_tools.Firmware.Flash.{flash_firmware}
pub mod Exits

-- What `main` takes of a configuration: the values of its two keys.
pub record Config : Type 0 where
  pub interface : Option (List ℕ)
  pub baudrate : Option ℕ

-- A configuration, or another value of YAML, which has no `get`.
pub data Loaded : Type 0 where
  mapping : Config → Loaded
  no_mapping : Loaded

-- What `parse_args` returns.
pub record Args : Type 0 where
  pub interface : Option (List ℕ)
  pub baudrate : Option ℕ
  pub yes : Bool

-- The command line, the configuration file and the answer at the prompt: whether PyYAML and the file
-- are there, what opening and parsing it gives (`none` for a value that counts as false), whether the
-- firmware's path is a file, and whether the answer, stripped and in lower case, is "y", or what `input`
-- raised. A text is a list of characters.
pub record Settings : Type 0 where
  pub args : Args
  pub has_yaml : Bool
  pub config_is_file : Bool
  pub parsed : Result (Option Loaded)
  pub is_file : Bool
  pub says_yes : Result Bool

abbrev pub empty_config : Loaded
empty_config = mapping (record { interface = none; baudrate = none })

-- `yaml.safe_load(f) or {}`, and `except Exception`
unfoldable pub read_config : Result (Option Loaded) → Result Loaded
read_config (ok none) = ok empty_config
read_config (ok (some c)) = ok c
read_config (raise e) = if is_exception e then ok empty_config else raise e

unfoldable pub load_config : Settings → Result Loaded
unfolding read_config
load_config set =
    if set.has_yaml && set.config_is_file then read_config set.parsed else ok empty_config

-- `config.get(...)`
unfoldable pub config_get : {A : Type 0} → (Config → A) → Loaded → Result A
config_get key (mapping c) = ok (key c)
config_get key no_mapping = raise attribute_error

-- `a or b` on texts: None and the empty text are false, and only then is `b` computed.
abbrev pub text_or : Option (List ℕ) → Result (Option (List ℕ)) → Result (Option (List ℕ))
text_or (some (c ∷ t)) b = ok (some (c ∷ t))
text_or _ b = b

-- `a or b` on numbers: None and 0 are false.
abbrev pub number_or : Option ℕ → Result (Option ℕ) → Result (Option ℕ)
number_or (some (suc n)) b = ok (some (suc n))
number_or _ b = b

-- The question is asked only without `--yes`.
unfoldable pub agreed : Bool → Result Bool → Result Bool
agreed given says_yes = if given then ok true else says_yes

-- `sys.exit(n)`, or the end of `main`.
pub data Ending : Type 0 where
  sys_exit : ℕ → Ending
  finished : Ending

-- An outcome that no call of the device has a part in.
abbrev pub lift : {A : Type 0} → Result A → M A
lift (ok a) l = (returned a, l)
lift (raise e) l = (raised e, l)

module _ (env : Env) where
  -- `except Exception: … sys.exit(1)`
  abbrev pub ending_of : Option (Unit {0}) → Ending
  ending_of (some u) = finished
  ending_of none = sys_exit 1

  -- The update, unless the user declines.
  unfoldable pub proceed : Bool → ℕ → List ℕ → M Ending
  unfolding flash_firmware
  proceed true fuel content = do
    done ← attempt (flash_firmware env fuel content)
    pure (ending_of done)
  proceed false fuel content = pure (sys_exit 0)

  -- The file must be there; its size is printed before the question.
  unfoldable pub check_file : Bool → Settings → ℕ → List ℕ → M Ending
  unfolding proceed agreed
  check_file true set fuel content = do
    perform env get_size
    go_on ← lift (agreed set.args.yes set.says_yes)
    proceed go_on fuel content
  check_file false set fuel content = pure (sys_exit 1)

  unfoldable pub check_baudrate : Option ℕ → Settings → ℕ → List ℕ → M Ending
  unfolding check_file
  check_baudrate (some (suc n)) set fuel content = check_file set.is_file set fuel content
  check_baudrate _ set fuel content = pure (sys_exit 1)

  unfoldable pub check_interface : Option (List ℕ) → Option ℕ → Settings → ℕ → List ℕ → M Ending
  unfolding check_baudrate
  check_interface (some (c ∷ t)) baudrate set fuel content =
      check_baudrate baudrate set fuel content
  check_interface _ baudrate set fuel content = pure (sys_exit 1)

  unfoldable pub main : Settings → ℕ → List ℕ → M Ending
  unfolding check_interface load_config config_get
  main set fuel content = do
    config ← lift (load_config set)
    interface ← lift (text_or set.args.interface (config_get (λ c. c.interface) config))
    baudrate ← lift (number_or set.args.baudrate (config_get (λ c. c.baudrate) config))
    check_interface interface baudrate set fuel content
