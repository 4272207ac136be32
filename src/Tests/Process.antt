-- ===== src/Tests/Process.antt =====
-- The bridge as a process: its set-up commands, and an interrupt in its loop.
use canopen_tools.Prelude.{◌≡◌, refl, true, false, none, some, [], ◌∷◌, ◌++◌}
use canopen_tools.Outcome.{IsCaught, ok, raise, value_error, keyboard_interrupt}
use canopen_tools.Interactive.Text.{codes}
use canopen_tools.Bridge.Process.{
  Call, read_bus, run_command, Reply, returned, failed_command, raised, Env, CanConfig, run,
  bring_up_interface, start, main, ◌>>=◌,
}
use canopen_tools.Bridge.Process.Rules.{calls}
use canopen_tools.Bridge.Process.Stops.{IsCalm, EndsAs, releases, main-releases}
use canopen_tools.Bridge.Process.Commands.{expected, bring_up_interface-commands}

abbrev cfg : CanConfig
cfg = record {
  iface = codes "can0";
  bringup = true;
  fd = false;
  bitrate = ok (codes "250000");
  data_bitrate = ok none;
  restart_ms = some (ok (codes "100"));
}

-- Every command fails, and the loop is interrupted.
abbrev reply : Call → Reply
reply (run_command cmd) = failed_command
reply read_bus = raised keyboard_interrupt
reply _ = returned

abbrev env : Env
env l c = reply c

calm : IsCalm env
unfolding IsCaught
calm = record {
  sets = λ l. refl;
  shuts_sock = λ l s. tt;
  closes_sock = λ l s. tt;
  shuts_bus = λ l. tt;
}

main-releases_example :
    (calls (main env true cfg (some 7) (some 7) []).1
      ≡ calls (start env true cfg []).1 ++ releases (some 7) (some 7) (start env true cfg []).0.1)
    × EndsAs (start env true cfg []).0.0 (main env true cfg (some 7) (some 7) []).0
main-releases_example = main-releases env calm true cfg (some 7) (some 7) []

-- With FD, and the data bit rate left at 0.
abbrev fd_cfg : CanConfig
fd_cfg = record cfg { fd = true }

bring_up_interface-commands_example :
    ((bring_up_interface env true fd_cfg []).0 ≡ ok tt)
    × (calls (bring_up_interface env true fd_cfg []).1
        ≡ expected true fd_cfg (codes "250000") none (some (codes "100")))
bring_up_interface-commands_example =
    bring_up_interface-commands env (λ l cmd. refl) true fd_cfg (codes "250000") none
      (some (codes "100")) [] refl refl refl

-- A restart time that is no number is found out behind the first command: the interface stays down.
stays_down :
    bring_up_interface env true (record cfg { restart_ms = some (raise value_error) }) [] ≡ (
      raise value_error,
      (
        run_command (codes "ip" ∷ codes "link" ∷ codes "set" ∷ codes "can0" ∷ codes "down" ∷ []),
        failed_command,
      )
          ∷ [],
    )
unfolding bring_up_interface ◌>>=◌ run
stays_down = refl
