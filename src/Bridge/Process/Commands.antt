-- ===== src/Bridge/Process/Commands.antt =====
-- The commands of `bring_up_interface` of can-tcp-bridge/can-tcp-bridge-server/can_tcp_bridge.py.
use canopen_tools.Prelude.{
  ◌≡◌, refl, sym, ap, subst, ◌∙◌, none, some, Bool, true, false, ◌&&◌, Option, List, [], ◌∷◌, ◌++◌,
  if◌then◌else◌,
}
use canopen_tools.Outcome.{Result, ok}
use canopen_tools.Interactive.Text.{Text, codes}
use canopen_tools.Bridge.Process.{
  Call, run_command, Env, Log, CanConfig, pure, unless_failed, ip_link, type_args, restart_args,
  run, set_up, bring_up_interface, ◌>>◌,
}
use canopen_tools.Bridge.Process.Rules.{calls, Adds, calls-append, then-Adds, lift-Adds, pure-Adds}

-- The settings that the interface is given, for FD or not, a data bit rate and a restart time.
abbrev pub settings : Text → Bool → Text → Option Text → Option Text → List Text
settings iface false bitrate d none =
    codes "ip"
    ∷ codes "link"
    ∷ codes "set"
    ∷ iface
    ∷ codes "type"
    ∷ codes "can"
    ∷ codes "bitrate"
    ∷ bitrate
    ∷ []
settings iface false bitrate d (some ms) =
    codes "ip"
    ∷ codes "link"
    ∷ codes "set"
    ∷ iface
    ∷ codes "type"
    ∷ codes "can"
    ∷ codes "bitrate"
    ∷ bitrate
    ∷ codes "restart-ms"
    ∷ ms
    ∷ []
settings iface true bitrate none none =
    codes "ip"
    ∷ codes "link"
    ∷ codes "set"
    ∷ iface
    ∷ codes "type"
    ∷ codes "can"
    ∷ codes "bitrate"
    ∷ bitrate
    ∷ codes "dbitrate"
    ∷ codes "2000000"
    ∷ codes "fd"
    ∷ codes "on"
    ∷ []
settings iface true bitrate none (some ms) =
    codes "ip"
    ∷ codes "link"
    ∷ codes "set"
    ∷ iface
    ∷ codes "type"
    ∷ codes "can"
    ∷ codes "bitrate"
    ∷ bitrate
    ∷ codes "dbitrate"
    ∷ codes "2000000"
    ∷ codes "fd"
    ∷ codes "on"
    ∷ codes "restart-ms"
    ∷ ms
    ∷ []
settings iface true bitrate (some d) none =
    codes "ip"
    ∷ codes "link"
    ∷ codes "set"
    ∷ iface
    ∷ codes "type"
    ∷ codes "can"
    ∷ codes "bitrate"
    ∷ bitrate
    ∷ codes "dbitrate"
    ∷ d
    ∷ codes "fd"
    ∷ codes "on"
    ∷ []
settings iface true bitrate (some d) (some ms) =
    codes "ip"
    ∷ codes "link"
    ∷ codes "set"
    ∷ iface
    ∷ codes "type"
    ∷ codes "can"
    ∷ codes "bitrate"
    ∷ bitrate
    ∷ codes "dbitrate"
    ∷ d
    ∷ codes "fd"
    ∷ codes "on"
    ∷ codes "restart-ms"
    ∷ ms
    ∷ []

-- The interface goes down, is given its settings, and goes up.
abbrev pub commands : Text → List Text → List Call
commands iface set =
    run_command (codes "ip" ∷ codes "link" ∷ codes "set" ∷ iface ∷ codes "down" ∷ [])
    ∷ run_command set
    ∷ run_command (codes "ip" ∷ codes "link" ∷ codes "set" ∷ iface ∷ codes "up" ∷ [])
    ∷ []

-- A restart time that is a number, or none.
abbrev pub given : Option Text → Option (Result Text)
given none = none
given (some ms) = some (ok ms)

-- The words of the settings, and those behind them for the restart time.
type_args-settings :
    (iface bitrate : Text) (use_fd : Bool) (d restart : Option Text)
    → (words : List Text) × (restart_args (given restart) ≡ ok words)
      × (ip_link iface (type_args use_fd bitrate d ++ words)
          ≡ settings iface use_fd bitrate d restart)
unfolding type_args restart_args
type_args-settings iface bitrate false d none = ([], refl, refl)
type_args-settings iface bitrate false d (some ms) = (codes "restart-ms" ∷ ms ∷ [], refl, refl)
type_args-settings iface bitrate true none none = ([], refl, refl)
type_args-settings iface bitrate true none (some ms) = (codes "restart-ms" ∷ ms ∷ [], refl, refl)
type_args-settings iface bitrate true (some d) none = ([], refl, refl)
type_args-settings iface bitrate true (some d) (some ms) =
    (codes "restart-ms" ∷ ms ∷ [], refl, refl)

-- The commands that a configuration stands for, as root or not.
abbrev pub expected : Bool → CanConfig → Text → Option Text → Option Text → List Call
expected is_root cfg bitrate d restart =
    if cfg.bringup
    then (if is_root then commands cfg.iface (settings cfg.iface cfg.fd bitrate d restart) else [])
    else []

module _ (env : Env)
    (runs : (l : Log) (cmd : List Text) → unless_failed (env l (run_command cmd)) ≡ ok tt) where
  run-Adds : (cmd : List Text) → Adds (run env cmd) (run_command cmd ∷ [])
  unfolding run
  run-Adds cmd l = (runs l cmd, calls-append l _)

  set_up-Adds :
      (cfg : CanConfig) (bitrate : Text) (d restart : Option Text)
      → cfg.restart_ms ≡ given restart
      → Adds
          (set_up env cfg bitrate d)
          (commands cfg.iface (settings cfg.iface cfg.fd bitrate d restart))
  unfolding set_up
  set_up-Adds cfg bitrate d restart e =
      let (words, read, same) = type_args-settings cfg.iface bitrate cfg.fd d restart in
      let set : List Text = settings cfg.iface cfg.fd bitrate d restart in
      then-Adds (run env (ip_link cfg.iface (codes "down" ∷ []))) _ (run_command _ ∷ []) _
        (run-Adds _)
        (lift-Adds (restart_args cfg.restart_ms) _ words _ (ap restart_args e ∙ read) (
          subst
            (λ cmd.
              Adds (run env cmd >> run env (ip_link cfg.iface (codes "up" ∷ [])))
                (run_command set ∷ run_command (ip_link cfg.iface (codes "up" ∷ [])) ∷ []))
            (sym same)
            (then-Adds (run env set) _ (run_command set ∷ []) _ (run-Adds _) (run-Adds _))))

  -- If the numbers of the configuration are well formed and every command can be executed, then
  -- with `bringup` and as root three commands run in order, each even if the one before it fails: the
  -- interface is taken down; it is given its bit rate, for FD also the data bit rate, which is 2000000
  -- unless it is set, and the restart time if there is one; and it is brought up. Otherwise no
  -- command runs.
  pub bring_up_interface-commands :
      (is_root : Bool) (cfg : CanConfig) (bitrate : Text) (d restart : Option Text) (l : Log)
      → cfg.bitrate ≡ ok bitrate
      → cfg.data_bitrate ≡ ok d
      → cfg.restart_ms ≡ given restart
      → ((bring_up_interface env is_root cfg l).0 ≡ ok tt)
        × (calls (bring_up_interface env is_root cfg l).1
            ≡ calls l ++ expected is_root cfg bitrate d restart)
  unfolding bring_up_interface
  bring_up_interface-commands is_root cfg bitrate d restart l e f g =
      lift-Adds cfg.bitrate _ bitrate _ e
        (lift-Adds cfg.data_bitrate _ d _ f (go cfg.bringup is_root)) l
    where
      wanted : List Call
      wanted = commands cfg.iface (settings cfg.iface cfg.fd bitrate d restart)

      go :
          (b r : Bool)
          → Adds
              (if b && r then set_up env cfg bitrate d else pure tt)
              (if b then (if r then wanted else []) else [])
      go true true = set_up-Adds cfg bitrate d restart g
      go true false = pure-Adds
      go false r = pure-Adds
