-- ===== src/Firmware/Device.antt =====
-- What firmware-update/co-firmware-update.py calls outside itself: the SDO and NMT services of
-- python-canopen, files and the clock. Each call and its outcome is logged; an outcome is the
-- environment's, and may depend on all that was logged before.
use canopen_tools.Prelude.{ℕ, Option, none, some, List, [], ◌∷◌, ◌++◌, if◌then◌else◌}
use canopen_tools.Outcome.{Exn, Result, ok, raise, is_exception}

-- `ctrl` writes the program control object, `write` hands bytes to the block transfer.
pub data Call : Type 0 where
  connect disconnect add_node : Call
  read_swid read_status : Call
  pre_operational wait_bootup : Call
  ctrl : ℕ → Call
  get_size open_file read_file close_file : Call
  open_transfer : ℕ → Call
  write : List ℕ → Call
  show_progress : ℕ → ℕ → Call
  close_transfer : Call
  sleep : Call

abbrev pub Event : Type 0
Event = Call × Result ℕ

abbrev pub Log : Type 0
Log = List Event

-- The outcome of a call, and the time in milliseconds, after what was logged so far.
pub record Env : Type 0 where
  pub reply : Log → Call → Result ℕ
  pub clock : Log → ℕ

-- `out_of_fuel` is no Python outcome: a loop of the model was cut off.
pub data Run {ℓ} (A : Type ℓ) : Type ℓ where
  returned : A → Run A
  raised : Exn → Run A
  out_of_fuel : Run A

abbrev pub M : Type 0 → Type 0
M A = Log → Run A × Log

abbrev pub run_of : Result ℕ → Run ℕ
run_of (ok n) = returned n
run_of (raise e) = raised e

module _ {A : Type 0} where
  abbrev pub pure : A → M A
  pure a l = (returned a, l)

  abbrev pub throw : Exn → M A
  throw e l = (raised e, l)

  abbrev pub exhausted : M A
  exhausted l = (out_of_fuel, l)

  abbrev pub after_try : Run A → Log → Run (Option A) × Log
  after_try (returned a) l = (returned (some a), l)
  after_try (raised e) l = (if is_exception e then returned none else raised e, l)
  after_try out_of_fuel l = (out_of_fuel, l)

  -- `try … except Exception: pass`
  unfoldable pub attempt : M A → M (Option A)
  attempt m l = after_try (m l).0 (m l).1

  abbrev pub after_close : Run A → Run ℕ × Log → Run A × Log
  after_close r (returned n, l) = (r, l)
  after_close r (raised e, l) = (raised e, l)
  after_close r (out_of_fuel, l) = (out_of_fuel, l)

  abbrev pub closing : M ℕ → Run A → Log → Run A × Log
  closing close out_of_fuel l = (out_of_fuel, l)
  closing close (returned a) l = after_close (returned a) (close l)
  closing close (raised e) l = after_close (raised e) (close l)

  -- `try: m finally: close`, and the exit of a `with` block.
  unfoldable pub finally : M A → M ℕ → M A
  finally m close l = closing close (m l).0 (m l).1

module _ {A B : Type 0} where
  abbrev pub continue : (A → M B) → Run A → Log → Run B × Log
  continue f (returned a) l = f a l
  continue f (raised e) l = (raised e, l)
  continue f out_of_fuel l = (out_of_fuel, l)

  infixl 5 ◌>>=◌ ◌>>◌
  unfoldable pub ◌>>=◌ : M A → (A → M B) → M B
  ◌>>=◌ m f l = continue f (m l).0 (m l).1

  abbrev pub ◌>>◌ : M A → M B → M B
  m >> k = m >>= λ _. k

-- One call: the environment answers, and the answer is logged.
unfoldable pub perform : Env → Call → M ℕ
perform env c l = (run_of (env.reply l c), l ++ ((c, env.reply l c) ∷ []))

-- `time.time()`
abbrev pub now : Env → M ℕ
now env l = (returned (env.clock l), l)
