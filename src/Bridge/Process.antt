-- ===== src/Bridge/Process.antt =====
-- `bring_up_interface`, `make_bus`, `Bridge.start`, `Bridge.stop` and `main` of
-- can-tcp-bridge/can-tcp-bridge-server/can_tcp_bridge.py, over a log of the calls that they make.
use canopen_tools.Prelude.{
  ℕ, Bool, true, false, not, ◌&&◌, Option, none, some, List, [], ◌∷◌, ◌++◌, if◌then◌else◌,
}
use canopen_tools.Outcome.{Exn, Result, ok, raise, keyboard_interrupt, is_exception}
use canopen_tools.Interactive.Text.{Text, codes}
pub mod Rules
pub mod Stops
pub mod Commands

-- `read_bus` is `_loop_can_to_tcp`, and `start_manager` starts the thread of `_tcp_manager`.
pub data Call : Type 0 where
  run_command : List Text → Call
  open_bus : Text → Bool → Call
  start_manager read_bus : Call
  set_stop : Call
  shutdown_sock close_sock : ℕ → Call
  shutdown_bus : Call

-- A command that returns an exit status other than 0 raises CalledProcessError.
pub data Reply : Type 0 where
  returned failed_command : Reply
  raised : Exn → Reply

abbrev pub Log : Type 0
Log = List (Call × Reply)

-- What a call gives, after what was logged so far.
abbrev pub Env : Type 0
Env = Log → Call → Reply

abbrev pub M : Type 0 → Type 0
M A = Log → Result A × Log

-- The section `can` of the configuration; `bitrate`, `data_bitrate` and `restart_ms` are what
-- `int(...)` gives, printed, with `none` for a data bit rate of 0 and for no restart time.
pub record CanConfig : Type 0 where
  pub iface : Text
  pub bringup : Bool
  pub fd : Bool
  pub bitrate : Result Text
  pub data_bitrate : Result (Option Text)
  pub restart_ms : Option (Result Text)

module _ {A B : Type 0} where
  abbrev pub continue : (A → M B) → Result A × Log → Result B × Log
  continue f (ok a, l) = f a l
  continue f (raise e, l) = (raise e, l)

  infixl 5 ◌>>=◌ ◌>>◌
  unfoldable pub ◌>>=◌ : M A → (A → M B) → M B
  ◌>>=◌ m f l = continue f (m l)

  abbrev pub ◌>>◌ : M A → M B → M B
  m >> k = m >>= λ _. k

abbrev pub pure : {A : Type 0} → A → M A
pure a l = (ok a, l)

abbrev pub lift : {A : Type 0} → Result A → M A
lift r l = (r, l)

abbrev pub result_of : Reply → Result (Unit {0})
result_of returned = ok tt
result_of failed_command = raise Exn.other
result_of (raised e) = raise e

-- `except subprocess.CalledProcessError`
abbrev pub unless_failed : Reply → Result (Unit {0})
unless_failed returned = ok tt
unless_failed failed_command = ok tt
unless_failed (raised e) = raise e

-- `except Exception: pass`
abbrev pub dropped : Result (Unit {0}) → Result (Unit {0})
dropped (ok u) = ok u
dropped (raise e) = if is_exception e then ok tt else raise e

-- `["ip", "link", "set", iface, ...]`
abbrev pub ip_link : Text → List Text → List Text
ip_link iface rest = codes "ip" ∷ codes "link" ∷ codes "set" ∷ iface ∷ rest

abbrev pub fd_args : Option Text → List Text
fd_args none = codes "dbitrate" ∷ codes "2000000" ∷ codes "fd" ∷ codes "on" ∷ []
fd_args (some d) = codes "dbitrate" ∷ d ∷ codes "fd" ∷ codes "on" ∷ []

unfoldable pub type_args : Bool → Text → Option Text → List Text
type_args use_fd bitrate data_bitrate =
    codes "type"
    ∷ codes "can"
    ∷ codes "bitrate"
    ∷ bitrate
    ∷ (if use_fd then fd_args data_bitrate else [])

-- `cmd += ["restart-ms", str(int(restart_ms))]`
unfoldable pub restart_args : Option (Result Text) → Result (List Text)
restart_args none = ok []
restart_args (some (ok r)) = ok (codes "restart-ms" ∷ r ∷ [])
restart_args (some (raise e)) = raise e

-- What `start` gives, and whether `self.bus` is set.
abbrev pub served : Result (Unit {0}) × Log → (Result (Unit {0}) × Bool) × Log
served (r, l) = ((r, true), l)

-- `except KeyboardInterrupt`
abbrev pub caught : Result (Unit {0}) → Result (Unit {0})
caught (ok u) = ok u
caught (raise e) = if is_exception e then raise e else ok tt

-- `finally`: an exception of `stop` takes the place of the outcome.
abbrev pub finally : Result (Unit {0}) → Result (Unit {0}) × Log → Result (Unit {0}) × Log
finally r (ok u, l) = (r, l)
finally r (raise e, l) = (raise e, l)

module _ (env : Env) where
  unfoldable pub perform : Call → M (Unit {0})
  perform c l = (result_of (env l c), l ++ ((c, env l c) ∷ []))

  unfoldable pub run : List Text → M (Unit {0})
  run cmd l = (
    unless_failed (env l (run_command cmd)),
    l ++ ((run_command cmd, env l (run_command cmd)) ∷ []),
  )

  -- The commands, for a bit rate and a data bit rate.
  unfoldable pub set_up : CanConfig → Text → Option Text → M (Unit {0})
  unfolding type_args restart_args
  set_up cfg bitrate data_bitrate = do
    run (ip_link cfg.iface (codes "down" ∷ []))
    restart ← lift (restart_args cfg.restart_ms)
    run (ip_link cfg.iface (type_args cfg.fd bitrate data_bitrate ++ restart))
    run (ip_link cfg.iface (codes "up" ∷ []))

  -- `is_root` is `os.geteuid() == 0`.
  unfoldable pub bring_up_interface : Bool → CanConfig → M (Unit {0})
  unfolding set_up
  bring_up_interface is_root cfg = do
    bitrate ← lift cfg.bitrate
    data_bitrate ← lift cfg.data_bitrate
    if cfg.bringup && is_root then set_up cfg bitrate data_bitrate else pure tt

  unfoldable pub make_bus : CanConfig → M (Unit {0})
  make_bus cfg = perform (open_bus cfg.iface cfg.fd)

  -- Behind the bus: the thread, and the loop.
  unfoldable pub serve : M (Unit {0})
  serve = do perform start_manager; perform read_bus

  unfoldable pub with_bus : Result (Unit {0}) × Log → (Result (Unit {0}) × Bool) × Log
  unfolding serve
  with_bus (raise e, l) = ((raise e, false), l)
  with_bus (ok u, l) = served (serve l)

  unfoldable pub start : Bool → CanConfig → Log → (Result (Unit {0}) × Bool) × Log
  unfolding with_bus bring_up_interface make_bus
  start is_root cfg l = with_bus ((bring_up_interface is_root cfg >> make_bus cfg) l)

  unfoldable pub tried : Call → M (Unit {0})
  unfolding perform
  tried c l = let (r, k) = perform c l in (dropped r, k)

  abbrev pub if_sock : (ℕ → Call) → Option ℕ → M (Unit {0})
  if_sock call none = pure tt
  if_sock call (some s) = tried (call s)

  abbrev pub if_bus : Bool → M (Unit {0})
  if_bus true = tried shutdown_bus
  if_bus false = pure tt

  -- `stop`; `self.sock` is read twice, and the thread of `_tcp_manager` may change it in between.
  unfoldable pub stop : Option ℕ → Option ℕ → Bool → M (Unit {0})
  unfolding tried
  stop first second bus = do
    perform set_stop
    if_sock shutdown_sock first
    if_sock close_sock second
    if_bus bus

  unfoldable pub main : Bool → CanConfig → Option ℕ → Option ℕ → M (Unit {0})
  unfolding start stop
  main is_root cfg first second l =
      let ((r, bus), k) = start is_root cfg l in finally (caught r) (stop first second bus k)
