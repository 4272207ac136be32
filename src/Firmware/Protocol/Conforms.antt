-- ===== src/Firmware/Protocol/Conforms.antt =====
-- Every run of the update conforms to the protocol.
use canopen_tools.Prelude.{
  ℕ, ◌≡◌, refl, ap, ◌∙◌, inl, inr, true, false, List, [], arith, ◌==◌, ==_iff, append-nil,
  Bool-cases,
}
use canopen_tools.Firmware.Device.{
  Call, connect, disconnect, read_swid, pre_operational, wait_bootup, ctrl, get_size, Env, Run,
  returned, raised, out_of_fuel, M, pure, attempt, ◌>>=◌, ◌>>◌, perform,
}
use canopen_tools.Firmware.Protocol.{
  Stage, idle, stopped, cleared, erased, downloaded, verified, started, confirmed, advance, run,
  flash_status,
}
use canopen_tools.Firmware.Protocol.Rules.{
  To, Leads, Leads-bind, Leads-weaken, Leads-perform, Leads-finally, Leads-then, Leads-quiet,
  Leads-try_quiet, refused_self,
}
use canopen_tools.Firmware.Protocol.Wait.{CanPoll, wait_for_flash_status_ok-Leads}
use canopen_tools.Firmware.Protocol.Transfer.{IsSafe, download-Leads}
use canopen_tools.Firmware.Flash.{
  default_timeout, program_ctrl_start, program_ctrl_stop, program_ctrl_clear, program_ctrl_confirm,
  wait_for_flash_status_ok, require_ok, download, update_steps, flash_firmware,
}

module _ (env : Env) (content : List ℕ) where
  abbrev pub Safe : Stage → Type 0
  Safe = IsSafe content

  abbrev Reaches : {A : Type 0} → Stage → Run A → Stage → Type 0
  Reaches s = To Safe (λ a t. t ≡ s)

  require_ok_done :
      (n : ℕ) (t u : Stage) → (n == 0) ≡ true → t ≡ u → Leads t (Reaches u) (require_ok env n)
  unfolding require_ok
  require_ok_done n t u done e = rw done (λ l h. h ∙ e)

  require_ok_busy :
      (n : ℕ) (t u : Stage) → (n == 0) ≡ false → Safe t → Leads t (Reaches u) (require_ok env n)
  unfolding require_ok
  require_ok_busy n t u busy safe = rw busy (λ l h. rw h safe)

  -- A wait and the test of its status: only 0 goes on.
  wait_ok-Leads :
      (s u : Stage) (fuel : ℕ) (Q : Unit {0} → Stage → Type 0) (k : M (Unit {0}))
      → CanPoll s
      → Safe s
      → flash_status s 0 ≡ u
      → Leads u (To Safe Q) k
      → Leads s
          (To Safe Q)
          (do status ← wait_for_flash_status_ok env fuel default_timeout; require_ok env status; k)
  wait_ok-Leads s u fuel Q k poll_s safe zero_moves later =
      Leads-bind s Safe (λ n t. t ≡ flash_status s n) Q
        (wait_for_flash_status_ok env fuel default_timeout) _
        (wait_for_flash_status_ok-Leads env s Safe poll_s safe fuel default_timeout) tested
    where
      tested :
          (n : ℕ) (t : Stage) → t ≡ flash_status s n → Leads t (To Safe Q) (do require_ok env n; k)
      tested n t e = elim (Bool-cases (n == 0)) [
        | inl done ↦
            Leads-then t u Safe Q (require_ok env n) _
              (require_ok_done n t u done
                (e ∙ ap (flash_status s) ((==_iff n 0).0 done) ∙ zero_moves))
              (λ v. later)
        | inr busy ↦
            Leads-then t u Safe Q (require_ok env n) _
              (require_ok_busy n t u busy
                (rw (e ∙ poll_s.busy n (λ z. cc ((==_iff n 0).1 z))) safe))
              (λ v. later)
      ]

  try_quiet :
      (s : Stage) (c : Call)
      → ((n : ℕ) → advance s c n ≡ s)
      → Safe s
      → Leads s (Reaches s) (attempt (perform env c))
  try_quiet s c quiet safe =
      Leads-weaken s (λ t. t ≡ s) Safe (λ o t. t ≡ s) (λ o t. t ≡ s) (attempt (perform env c))
        (λ t e. rw e safe) (λ o t e. e) (Leads-try_quiet env c s quiet)

  idle-CanPoll : CanPoll idle
  idle-CanPoll = record { in_order = refl; busy = λ n h. refl }

  cleared-CanPoll : CanPoll cleared
  cleared-CanPoll = record { in_order = refl; busy = λ n h. ground (arith, h) }

  downloaded-CanPoll : CanPoll (downloaded content)
  downloaded-CanPoll = record { in_order = refl; busy = λ n h. ground (arith, h) }

  abbrev pub Confirmed : Unit {0} → Stage → Type 0
  Confirmed u t = t ≡ confirmed content

  -- The steps after the download, from the new software identifier on.
  last_steps-Leads : Leads (verified content) (To Safe Confirmed) (do
    attempt (perform env read_swid)
    perform env (ctrl program_ctrl_start)
    attempt (perform env wait_bootup)
    perform env pre_operational
    perform env (ctrl program_ctrl_confirm)
    pure tt)
  last_steps-Leads =
      Leads-then (verified content) (verified content) Safe Confirmed _ _
        (try_quiet (verified content) read_swid (λ n. refl) refl)
        λ o.
          Leads-then (verified content) (started content) Safe Confirmed _ _
            (Leads-perform env (ctrl program_ctrl_start) (verified content) Safe _ (λ n. refl) refl)
            λ n.
              Leads-then (started content) (started content) Safe Confirmed _ _
                (try_quiet (started content) wait_bootup (λ n. refl) refl)
                λ p.
                  Leads-then (started content) (started content) Safe Confirmed _ _
                    (Leads-perform env pre_operational (started content) Safe _ (λ n. refl) refl)
                    λ m.
                      Leads-then (started content) (confirmed content) Safe Confirmed _ _
                        (Leads-perform env (ctrl program_ctrl_confirm) (started content) Safe _
                          (λ n. refl) refl)
                        λ k l h. h

  -- The steps from the erased flash on.
  store_steps-Leads :
      (fuel : ℕ)
      → Leads erased (To Safe Confirmed) (do
        size ← perform env get_size
        download env size content
        stored ← wait_for_flash_status_ok env fuel default_timeout
        require_ok env stored
        attempt (perform env read_swid)
        perform env (ctrl program_ctrl_start)
        attempt (perform env wait_bootup)
        perform env pre_operational
        perform env (ctrl program_ctrl_confirm)
        pure tt)
  store_steps-Leads fuel =
      Leads-then erased erased Safe Confirmed _ _
        (Leads-quiet env get_size erased Safe (λ n. refl) tt)
        λ size.
          Leads-then erased (downloaded content) Safe Confirmed _ _
            (download-Leads content env size)
            λ u.
              wait_ok-Leads (downloaded content) (verified content) fuel Confirmed _
                downloaded-CanPoll ([], append-nil content) refl last_steps-Leads

  pub update_steps-Leads :
      (fuel : ℕ) → Leads idle (To Safe Confirmed) (update_steps env fuel content)
  unfolding update_steps
  update_steps-Leads fuel =
      Leads-then idle idle Safe Confirmed _ _ (try_quiet idle read_swid (λ n. refl) tt) λ o.
        Leads-then idle idle Safe Confirmed _ _
          (wait_for_flash_status_ok-Leads env idle Safe idle-CanPoll tt fuel default_timeout)
          λ st.
            Leads-then idle idle Safe Confirmed _ _
              (Leads-perform env pre_operational idle Safe _ (λ n. refl) tt)
              λ n.
                Leads-then idle stopped Safe Confirmed _ _
                  (Leads-perform env (ctrl program_ctrl_stop) idle Safe _ (λ n. refl) tt)
                  λ m.
                    Leads-then stopped cleared Safe Confirmed _ _
                      (Leads-perform env (ctrl program_ctrl_clear) stopped Safe _ (λ n. refl) tt)
                      λ k.
                        wait_ok-Leads cleared erased fuel Confirmed _ cleared-CanPoll tt refl
                          (store_steps-Leads fuel)

  pub flash_firmware-Leads :
      (fuel : ℕ) → Leads idle (To Safe Confirmed) (flash_firmware env fuel content)
  unfolding flash_firmware
  flash_firmware-Leads fuel =
      Leads-then idle idle Safe Confirmed _ _ (Leads-quiet env connect idle Safe (λ n. refl) tt)
        λ n.
          Leads-finally env disconnect idle Safe Safe Confirmed Confirmed _
            (update_steps-Leads fuel) (λ u t k e. e) (λ u t e. rw (refused_self t, e) refl)
            (λ t k e. e) (λ t e. rw (refused_self t) e) (λ t e. e)

  -- Whatever the device, the files and the clock do, and whether the update ends or raises: no call
  -- of it is out of the order of the protocol, what the transfer has taken is a front of the file, the
  -- program is started and confirmed only over a flash that holds the whole file and answered status
  -- 0 after it; and an update that returns has confirmed the program.
  pub flash_firmware-conforms :
      (fuel : ℕ)
      → IsSafe content (run idle (flash_firmware env fuel content []).1)
        × ((flash_firmware env fuel content []).0 ≡ returned tt
            → run idle (flash_firmware env fuel content []).1 ≡ confirmed content)
  flash_firmware-conforms fuel =
      split (flash_firmware env fuel content []).0 (run idle (flash_firmware env fuel content []).1)
        (flash_firmware-Leads fuel [] refl)
    where
      split :
          (r : Run (Unit {0})) (t : Stage)
          → To Safe Confirmed r t
          → IsSafe content t × (r ≡ returned tt → t ≡ confirmed content)
      split (returned u) t e = (rw e refl, λ h. e)
      split (raised x) t e = (e, λ h. cc)
      split out_of_fuel t e = (e, λ h. cc)
