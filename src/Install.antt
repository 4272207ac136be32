-- ===== src/Install.antt =====
-- `do_run` of the west command in scripts/owl_install_canopen_tools.py.
use canopen_tools.Prelude.{Bool, List, [], ◌∷◌, ◌++◌, if◌then◌else◌}
use canopen_tools.Outcome.{Exn, Result, ok, raise}
pub mod Order

pub data Script : Type 0 where
  oze_viewer eds_generator eds_editor : Script

-- The list chosen by `--only-canopen-gen`.
unfoldable pub scripts_of : Bool → List Script
scripts_of only_canopen_gen =
    if only_canopen_gen then eds_generator ∷ [] else oze_viewer ∷ eds_generator ∷ eds_editor ∷ []

-- Both `no_repository` and `no_script` are `SystemExit(1)`; `failed` is what `subprocess.run` raised.
pub data Installed : Type 0 where
  no_repository finished : Installed
  no_script : Script → Installed
  failed : Script → Exn → Installed

-- What the command meets: a script may change what the next one finds, so that both answers depend
-- on the scripts executed before.
pub record Machine : Type 0 where
  pub has_repository : Bool
  pub is_file : List Script → Script → Bool
  pub execute : List Script → Script → Result (Unit {0})

module _ (machine : Machine) where
  -- An exception, CalledProcessError included, is raised on.
  unfoldable pub after_script :
      (List Script → Installed × List Script)
      → Script
      → List Script
      → Result (Unit {0})
      → Installed × List Script
  after_script again s ran (ok u) = again (ran ++ (s ∷ []))
  after_script again s ran (raise e) = (failed s e, ran ++ (s ∷ []))

  -- The loop, with the scripts executed so far.
  unfoldable pub run_scripts : List Script → List Script → Installed × List Script
  unfolding after_script
  run_scripts [] ran = (finished, ran)
  run_scripts (s ∷ scripts) ran =
      let rest = run_scripts scripts in
      if machine.is_file ran s
      then after_script rest s ran (machine.execute ran s)
      else (no_script s, ran)

  unfoldable pub do_run : Bool → Installed × List Script
  unfolding run_scripts scripts_of
  do_run only_canopen_gen =
      if machine.has_repository
      then run_scripts (scripts_of only_canopen_gen) []
      else (no_repository, [])
