-- ===== src/Firmware/Main/Exits.antt =====
-- How `main` of firmware-update/co-firmware-update.py ends, in the flashing protocol.
use canopen_tools.Prelude.{
  ℕ, zero, suc, Bool, true, false, ◌≡◌, ◌≢◌, refl, ◌∙◌, Option, none, some, List, [], ◌∷◌,
}
use canopen_tools.Firmware.Device.{
  get_size, Env, Run, returned, raised, out_of_fuel, attempt, M, ◌>>=◌,
}
use canopen_tools.Outcome.{Result, ok, raise}
use canopen_tools.Firmware.Protocol.{Stage, idle, confirmed, run}
use canopen_tools.Firmware.Protocol.Rules.{
  To, Leads, Tried, Leads-bind, Leads-then, Leads-quiet, Leads-attempt,
}
use canopen_tools.Firmware.Protocol.Transfer.{IsSafe}
use canopen_tools.Firmware.Protocol.Conforms.{Confirmed, flash_firmware-Leads}
use canopen_tools.Firmware.Flash.{flash_firmware}
use canopen_tools.Firmware.Main.{
  load_config, lift, Settings, text_or, number_or, Ending, sys_exit, finished, ending_of, agreed,
  proceed, check_file, check_baudrate, check_interface, main,
}

module _ (env : Env) (content : List ℕ) where
  -- What an exit status says of the device: 0 by `sys.exit` is a cancelled update.
  abbrev pub IsTold : Ending → Stage → Type 0
  IsTold finished t = t ≡ confirmed content
  IsTold (sys_exit zero) t = t ≡ idle
  IsTold (sys_exit (suc n)) t = IsSafe content t

  abbrev Ends : Run Ending → Stage → Type 0
  Ends = To (IsSafe content) IsTold

  told :
      (o : Option (Unit {0})) (t : Stage)
      → Tried (IsSafe content) (Confirmed env content) o t
      → Leads t Ends (λ l. (returned (ending_of env o), l))
  told (some u) t e l h = h ∙ e
  told none t e l h = rw h e

  module _ (set : Settings) (fuel : ℕ) where
    proceed-Ends : (agreed : Bool) → Leads idle Ends (proceed env agreed fuel content)
    unfolding proceed
    proceed-Ends true =
        Leads-bind idle (IsSafe content) (Tried (IsSafe content) (Confirmed env content)) IsTold
          (attempt (flash_firmware env fuel content)) _
          (Leads-attempt idle (IsSafe content) (Confirmed env content) _
            (flash_firmware-Leads env content fuel))
          told
    proceed-Ends false = λ l h. h

    lift-Ends :
        {A : Type 0} (r : Result A) (k : A → M Ending)
        → ((a : A) → Leads idle Ends (k a))
        → Leads idle Ends (lift r >>= k)
    unfolding ◌>>=◌
    lift-Ends (ok a) k later = later a
    lift-Ends (raise e) k later = λ l h. rw h tt

    check_file-Ends : (found : Bool) → Leads idle Ends (check_file env found set fuel content)
    unfolding check_file
    check_file-Ends true =
        Leads-then idle idle (IsSafe content) IsTold _ _
          (Leads-quiet env get_size idle (IsSafe content) (λ n. refl) tt)
          (λ n. lift-Ends (agreed set.args.yes set.says_yes) _ (λ go_on. proceed-Ends go_on))
    check_file-Ends false = λ l h. rw h tt

    check_baudrate-Ends : (b : Option ℕ) → Leads idle Ends (check_baudrate env b set fuel content)
    unfolding check_baudrate
    check_baudrate-Ends (some (suc n)) = check_file-Ends set.is_file
    check_baudrate-Ends (some zero) = λ l h. rw h tt
    check_baudrate-Ends none = λ l h. rw h tt

    check_interface-Ends :
        (i : Option (List ℕ)) (b : Option ℕ)
        → Leads idle Ends (check_interface env i b set fuel content)
    unfolding check_interface
    check_interface-Ends (some (c ∷ t)) b = check_baudrate-Ends b
    check_interface-Ends (some []) b = λ l h. rw h tt
    check_interface-Ends none b = λ l h. rw h tt

    main-Ends : Leads idle Ends (main env set fuel content)
    unfolding main
    main-Ends = lift-Ends (load_config set) _ (λ config.
        lift-Ends (text_or set.args.interface _) _
          (λ i. lift-Ends (number_or set.args.baudrate _) _ (λ b. check_interface-Ends i b)))

    -- How the command ended, an exception included, and the stage of the device.
    abbrev pub IsHonestExit : Run Ending → Stage → Type 0
    IsHonestExit (returned e) t = IsTold e t
    IsHonestExit _ t = IsSafe content t

    -- Without consent the device is as it was.
    abbrev pub WithConsent : Bool → Result Bool → Stage → Type 0
    WithConsent true says_yes t = Unit
    WithConsent false (ok true) t = Unit
    WithConsent false _ t = t ≡ idle

    abbrev Stays : Run Ending → Stage → Type 0
    Stays = To (λ t. t ≡ idle) (λ e t. t ≡ idle)

    module _ (declined : agreed set.args.yes set.says_yes ≢ ok true) where
      proceed-Stays :
          (agreed : Bool) → agreed ≡ false → Leads idle Stays (proceed env agreed fuel content)
      unfolding proceed
      proceed-Stays true e = absurd (cc e)
      proceed-Stays false e = λ l h. h

      lift-Stays :
          {A : Type 0} (r : Result A) (k : A → M Ending)
          → ((a : A) → Leads idle Stays (k a))
          → Leads idle Stays (lift r >>= k)
      unfolding ◌>>=◌
      lift-Stays (ok a) k later = later a
      lift-Stays (raise e) k later = λ l h. h

      agreed-Stays :
          (r : Result Bool)
          → r ≢ ok true
          → Leads idle Stays (lift r >>= λ go_on. proceed env go_on fuel content)
      unfolding ◌>>=◌ proceed
      agreed-Stays (ok true) refused = absurd (refused refl)
      agreed-Stays (ok false) refused = λ l h. proceed-Stays false refl l h
      agreed-Stays (raise e) refused = λ l h. h

      check_file-Stays : (found : Bool) → Leads idle Stays (check_file env found set fuel content)
      unfolding check_file
      check_file-Stays true =
          Leads-then idle idle (λ t. t ≡ idle) (λ e t. t ≡ idle) _ _
            (Leads-quiet env get_size idle (λ t. t ≡ idle) (λ n. refl) refl)
            (λ n. agreed-Stays (agreed set.args.yes set.says_yes) declined)
      check_file-Stays false = λ l h. h

      check_baudrate-Stays :
          (b : Option ℕ) → Leads idle Stays (check_baudrate env b set fuel content)
      unfolding check_baudrate
      check_baudrate-Stays (some (suc n)) = check_file-Stays set.is_file
      check_baudrate-Stays (some zero) = λ l h. h
      check_baudrate-Stays none = λ l h. h

      check_interface-Stays :
          (i : Option (List ℕ)) (b : Option ℕ)
          → Leads idle Stays (check_interface env i b set fuel content)
      unfolding check_interface
      check_interface-Stays (some (c ∷ t)) b = check_baudrate-Stays b
      check_interface-Stays (some []) b = λ l h. h
      check_interface-Stays none b = λ l h. h

      main-Stays : Leads idle Stays (main env set fuel content)
      unfolding main
      main-Stays = lift-Stays (load_config set) _ (λ config.
          lift-Stays (text_or set.args.interface _) _
            (λ i. lift-Stays (number_or set.args.baudrate _) _ (λ b. check_interface-Stays i b)))

    -- Whatever the settings, the device, the file and the clock: when `main` comes to its end, the
    -- device holds the whole file and the program is confirmed; when it exits with status 0, the
    -- device is as it was; with any other status, or by an exception, the calls made so far were in
    -- the order of the protocol and nothing was started that is not the whole file. Without `--yes`
    -- and a confirmation, also when the question is interrupted, the device is as it was, however `main`
    -- ends.
    pub main-IsHonestExit :
        IsHonestExit (main env set fuel content []).0 (run idle (main env set fuel content []).1)
        × WithConsent set.args.yes set.says_yes (run idle (main env set fuel content []).1)
    unfolding agreed
    main-IsHonestExit = (
      split (main env set fuel content []).0 _ (main-Ends [] refl),
      consent set.args.yes set.says_yes (λ refused. main-Stays refused [] refl),
    )
      where
        split : (r : Run Ending) (t : Stage) → Ends r t → IsHonestExit r t
        split (returned e) t h = h
        split (raised e) t h = h
        split out_of_fuel t h = h

        still : (r : Run Ending) (t : Stage) → Stays r t → t ≡ idle
        still (returned e) t h = h
        still (raised e) t h = h
        still out_of_fuel t h = h

        consent :
            (given : Bool) (says_yes : Result Bool)
            → (agreed given says_yes ≢ ok true
                → Stays
                    (main env set fuel content []).0
                    (run idle (main env set fuel content []).1))
            → WithConsent given says_yes (run idle (main env set fuel content []).1)
        consent true says_yes h = tt
        consent false (ok true) h = tt
        consent false (ok false) h = still (main env set fuel content []).0 _ (h (λ e. cc e))
        consent false (raise x) h = still (main env set fuel content []).0 _ (h (λ e. cc e))
