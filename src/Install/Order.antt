-- ===== src/Install/Order.antt =====
-- The order in which `do_run` of scripts/owl_install_canopen_tools.py executes its scripts.
use canopen_tools.Prelude.{
  Bool, true, false, ◌≡◌, refl, sym, subst, if◌then◌else◌, ◌∙◌, inl, inr, List, [], ◌∷◌, ◌++◌,
  append_assoc, append-nil, Bool-cases,
}
use canopen_tools.Outcome.{Result, ok, raise}
use canopen_tools.Install.{
  Script, oze_viewer, eds_generator, eds_editor, scripts_of, Installed, no_repository, finished,
  no_script, failed, Machine, after_script, run_scripts, do_run,
}

-- The scripts that the command is for: with `--only-canopen-gen` the generator alone.
abbrev pub wanted : Bool → List Script
wanted true = eds_generator ∷ []
wanted false = oze_viewer ∷ eds_generator ∷ eds_editor ∷ []

module _ (machine : Machine) where
  -- Behind those executed so far, each of these scripts was there, and was executed without an error.
  abbrev pub Passed : List Script → List Script → Type 0
  Passed ran [] = Unit
  Passed ran (s ∷ more) =
      (machine.is_file ran s ≡ true)
      × (machine.execute ran s ≡ ok tt)
      × Passed (ran ++ (s ∷ [])) more

  -- How far a run over `scripts` came, and why it went no further.
  abbrev pub StoppedAt : List Script → Installed × List Script → Type 0
  StoppedAt scripts (no_repository, ran) = (machine.has_repository ≡ false) × (ran ≡ [])
  StoppedAt scripts (finished, ran) =
      (machine.has_repository ≡ true) × (ran ≡ scripts) × Passed [] scripts
  StoppedAt scripts (no_script s, ran) =
      (left : List Script) × (machine.has_repository ≡ true)
      × (ran ++ (s ∷ left) ≡ scripts)
      × Passed [] ran
      × (machine.is_file ran s ≡ false)
  StoppedAt scripts (failed s e, ran) =
      (before : List Script) × (left : List Script) × (machine.has_repository ≡ true)
      × (ran ≡ before ++ (s ∷ []))
      × (before ++ (s ∷ left) ≡ scripts)
      × Passed [] before
      × (machine.is_file before s ≡ true)
      × (machine.execute before s ≡ raise e)

  Passed-append :
      (done before more : List Script)
      → Passed done before
      → Passed (done ++ before) more
      → Passed done (before ++ more)
  Passed-append done [] more p q = subst (λ l. Passed l more) (append-nil done) q
  Passed-append done (s ∷ before) more (there, fine, p) q = (
    there,
    fine,
    Passed-append (done ++ (s ∷ [])) before more p
        (subst (λ l. Passed l more) (sym (append_assoc done (s ∷ []) before)) q),
  )

  module _ (all : List Script) (repository : machine.has_repository ≡ true) where
    after_script-StoppedAt :
        (left ran : List Script) (s : Script) (r : Result (Unit {0}))
        → ran ++ (s ∷ left) ≡ all
        → Passed [] ran
        → machine.is_file ran s ≡ true
        → machine.execute ran s ≡ r
        → (Passed [] (ran ++ (s ∷ [])) → StoppedAt all (run_scripts machine left (ran ++ (s ∷ []))))
        → StoppedAt all (after_script machine (run_scripts machine left) s ran r)
    unfolding after_script
    after_script-StoppedAt left ran s (ok u) h p there e later =
        later (Passed-append [] ran (s ∷ []) p (there, e, tt))
    after_script-StoppedAt left ran s (raise x) h p there e later =
        (ran, left, repository, refl, h, p, there, e)

    run_scripts-StoppedAt :
        (left ran : List Script)
        → ran ++ left ≡ all
        → Passed [] ran
        → StoppedAt all (run_scripts machine left ran)
    unfolding run_scripts
    run_scripts-StoppedAt [] ran h p =
        let same : ran ≡ all = sym (append-nil ran) ∙ h in
        (repository, same, subst (Passed []) same p)
    run_scripts-StoppedAt (s ∷ left) ran h p = elim (Bool-cases (machine.is_file ran s)) [
      | inr missing ↦ rw missing (left, repository, h, p, missing)
      | inl found ↦ rw found (
          after_script-StoppedAt left ran s (machine.execute ran s) h p found refl
            (run_scripts-StoppedAt left (ran ++ (s ∷ [])) (append_assoc ran (s ∷ []) left ∙ h)))
    ]

  -- The scripts that are executed are the first ones of those that the option asks for, in their
  -- order. The command finishes with all of them only if the repository is there, and each script was
  -- there and was executed without an exception, the others before it. It stops early only without
  -- the repository, and then executes nothing; at the first script that is not there; or with the
  -- exception of a script, which was the last to be executed: all scripts before that were there and
  -- were executed without an exception.
  pub do_run-StoppedAt :
      (only_canopen_gen : Bool)
      → StoppedAt (wanted only_canopen_gen) (do_run machine only_canopen_gen)
  unfolding do_run
  do_run-StoppedAt only_canopen_gen =
      subst (λ l. StoppedAt l (do_run machine only_canopen_gen)) (chosen only_canopen_gen)
        (go machine.has_repository refl)
    where
      scripts : List Script
      scripts = scripts_of only_canopen_gen

      chosen : (b : Bool) → scripts_of b ≡ wanted b
      chosen true = unfold scripts_of in refl
      chosen false = unfold scripts_of in refl

      go :
          (b : Bool)
          → machine.has_repository ≡ b
          → StoppedAt scripts (if b then run_scripts machine scripts [] else (no_repository, []))
      go true e = run_scripts-StoppedAt scripts e scripts [] refl tt
      go false e = (e, refl)
