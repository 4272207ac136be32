-- ===== src/Tests/Commands.antt =====
-- The commands at concrete inputs: the firmware update's `main` and the west command.
use canopen_tools.Prelude.{true, false, ◌≡◌, refl, none, some, List, [], ◌∷◌}
use canopen_tools.Outcome.{Result, ok, raise, other, attribute_error}
use canopen_tools.Firmware.Device.{returned, raised, attempt, finally, perform, ◌>>=◌}
use canopen_tools.Firmware.Protocol.{idle, run}
use canopen_tools.Firmware.Main.{Settings, sys_exit, finished, main}
use canopen_tools.Firmware.Main.Exits.{IsHonestExit, WithConsent, main-IsHonestExit}
use canopen_tools.Tests.Firmware.{ready, busy, image}
use canopen_tools.Firmware.Main.{mapping, no_mapping}
use canopen_tools.Install.{Script, oze_viewer, eds_generator, failed, Machine, do_run}
use canopen_tools.Install.Order.{StoppedAt, wanted, do_run-StoppedAt}

-- The interface is given by the command line, and the baud rate by the configuration.
abbrev settings : Settings
settings = record {
  args = record { interface = some (99 ∷ 97 ∷ 110 ∷ 48 ∷ []); baudrate = none; yes = true };
  has_yaml = true;
  config_is_file = true;
  parsed = ok (some (mapping (record { interface = none; baudrate = some 125_000 })));
  is_file = true;
  says_yes = ok false;
}

ready_finishes : (main ready settings 122 image []).0 ≡ returned finished
unfolding main attempt finally perform ◌>>=◌
ready_finishes = refl

busy_exits : (main busy settings 122 image []).0 ≡ returned (sys_exit 1)
unfolding main attempt finally perform ◌>>=◌
busy_exits = refl

-- A configuration file that holds a list: `main` ends with a traceback, unless the command line gives
-- both settings.
list_raises :
    (main ready (record settings { parsed = ok (some no_mapping) }) 122 image []).0
    ≡ raised attribute_error
unfolding main ◌>>=◌
list_raises = refl

main-IsHonestExit_example :
    IsHonestExit ready image settings 122
      (main ready settings 122 image []).0
      (run idle (main ready settings 122 image []).1)
    × WithConsent ready image settings 122 true
        (ok false)
        (run idle (main ready settings 122 image []).1)
main-IsHonestExit_example = main-IsHonestExit ready image settings 122

-- The second script fails.
abbrev failing : List Script → Script → Result (Unit {0})
failing ran eds_generator = raise other
failing ran _ = ok tt

abbrev machine : Machine
machine = record { has_repository = true; is_file = λ ran s. true; execute = failing }

second_fails : do_run machine false ≡ (failed eds_generator other, oze_viewer ∷ eds_generator ∷ [])
unfolding do_run
second_fails = refl

do_run-StoppedAt_example : StoppedAt machine (wanted false) (do_run machine false)
do_run-StoppedAt_example = do_run-StoppedAt machine false
