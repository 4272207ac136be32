-- ===== src/Firmware/Halts.antt =====
-- The update ends: enough fuel for its waits is given by a clock that sleeping moves on.
use canopen_tools.Prelude.{
  ℕ, zero, suc, ◌+◌, ◌*◌, ◌/◌, ◌≤◌, ◌<◌, ◌≡◌, refl, inl, inr, Option, none, some, List, [], ◌∷◌,
  ◌++◌, arith, ltb, ltb→le, ◌==◌, length, length-drop, take, drop, Bool-cases,
}
use canopen_tools.Outcome.{Result, ok, raise, is_exception}
use canopen_tools.Firmware.Device.{
  Call, connect, disconnect, read_swid, read_status, pre_operational, wait_bootup, ctrl, get_size,
  open_file, read_file, close_file, open_transfer, write, show_progress, close_transfer, sleep, Env,
  Log, Run, returned, raised, out_of_fuel, M, run_of, after_try, after_close, closing, continue,
  attempt, finally, ◌>>=◌, perform,
}
use canopen_tools.Firmware.Flash.{
  default_timeout, program_ctrl_start, program_ctrl_stop, program_ctrl_clear, program_ctrl_confirm,
  until_end, poll, wait_loop, wait_for_flash_status_ok, require_ok, report, chunk_size, copy_loop,
  download, update_steps, flash_firmware,
}

abbrev pub HasEnded : {A : Type 0} → Run A → Type 0
HasEnded out_of_fuel = ⊥
HasEnded _ = Unit

-- From every log, the action ends.
abbrev pub Halts : {A : Type 0} → M A → Type 0
Halts m = (l : Log) → HasEnded (m l).0

-- The clock never runs back, and `time.sleep(0.5)` takes 500 milliseconds at least.
pub record Ticks (env : Env) : Type 0 where
  pub forward : (l : Log) (c : Call) → env.clock l ≤ env.clock (l ++ ((c, env.reply l c) ∷ []))
  pub sleeps :
      (l : Log) (n : ℕ)
      → env.reply l sleep ≡ ok n
      → env.clock l + 500 ≤ env.clock (l ++ ((sleep, env.reply l sleep) ∷ []))

pub Halts-bind :
    {A B : Type 0} (m : M A) (f : A → M B) → Halts m → ((a : A) → Halts (f a)) → Halts (m >>= f)
unfolding ◌>>=◌
Halts-bind {A} m f hm hf l = go (m l).0 (m l).1 (hm l)
  where
    go : (r : Run A) (k : Log) → HasEnded r → HasEnded (continue f r k).0
    go (returned a) k h = hf a k
    go (raised e) k h = tt
    go out_of_fuel k h = h

pub Halts-perform : (env : Env) (c : Call) → Halts (perform env c)
unfolding perform
Halts-perform env c l = go (env.reply l c)
  where
    go : (r : Result ℕ) → HasEnded (run_of r)
    go (ok n) = tt
    go (raise e) = tt

pub Halts-attempt : {A : Type 0} (m : M A) → Halts m → Halts (attempt m)
unfolding attempt
Halts-attempt {A} m hm l = go (m l).0 (m l).1 (hm l)
  where
    go : (r : Run A) (k : Log) → HasEnded r → HasEnded (after_try r k).0
    go (returned a) k h = tt
    go (raised e) k h = elim (Bool-cases (is_exception e)) [
      | inl caught ↦ rw caught tt
      | inr passed ↦ rw passed tt
    ]
    go out_of_fuel k h = h

Halts-finally :
    {A : Type 0} (m : M A) (close : M ℕ) → Halts m → Halts close → Halts (finally m close)
unfolding finally
Halts-finally {A} m close hm hc l = go (m l).0 (m l).1 (hm l)
  where
    shut :
        (r : Run A) (x : Run ℕ) (j : Log)
        → HasEnded r
        → HasEnded x
        → HasEnded (after_close r (x, j)).0
    shut r (returned n) j h hx = h
    shut r (raised e) j h hx = tt
    shut r out_of_fuel j h hx = hx

    go : (r : Run A) (k : Log) → HasEnded r → HasEnded (closing close r k).0
    go (returned a) k h = shut (returned a) (close k).0 (close k).1 tt (hc k)
    go (raised e) k h = shut (raised e) (close k).0 (close k).1 tt (hc k)
    go out_of_fuel k h = h

module _ (env : Env) (ticks : Ticks env) where
  until_end_halts :
      (again : ℕ → M ℕ) (end_time status : ℕ) (l : Log)
      → (env.clock l ≤ end_time
          → (n : ℕ) (j : Log) → env.clock l + 500 ≤ env.clock j
          → HasEnded (again n j).0)
      → HasEnded (until_end env again end_time status l).0
  unfolding until_end ◌>>=◌ perform
  until_end_halts again end_time status l later = elim (Bool-cases (ltb end_time (env.clock l))) [
    | inl over ↦ rw over tt
    | inr early ↦ rw early (go (ltb→le end_time (env.clock l) early) (env.reply l sleep) refl)
  ]
    where
      go :
          env.clock l ≤ end_time
          → (r : Result ℕ) → env.reply l sleep ≡ r
          → HasEnded (continue (λ n. again status) (run_of r) (l ++ ((sleep, r) ∷ []))).0
      go early (ok n) e = later early status _ (rw e at (ticks.sleeps l n e))
      go early (raise x) e = tt

  poll_halts :
      (again : ℕ → M ℕ) (end_time status : ℕ) (got : Option ℕ) (l : Log)
      → (env.clock l ≤ end_time
          → (n : ℕ) (j : Log) → env.clock l + 500 ≤ env.clock j
          → HasEnded (again n j).0)
      → HasEnded (poll env again end_time status got l).0
  unfolding poll
  poll_halts again end_time status (some zero) l later = tt
  poll_halts again end_time status (some (suc n)) l later =
      until_end_halts again end_time (suc n) l later
  poll_halts again end_time status none l later = until_end_halts again end_time status l later

  -- The read of a round, and then the rest.
  after_read :
      (f : Option ℕ → M ℕ) (r : Result ℕ) (j : Log)
      → ((got : Option ℕ) → HasEnded (f got j).0)
      → HasEnded (continue f (after_try (run_of r) j).0 (after_try (run_of r) j).1).0
  after_read f (ok n) j h = h (some n)
  after_read f (raise e) j h = elim (Bool-cases (is_exception e)) [
    | inl caught ↦ rw caught (h none)
    | inr passed ↦ rw passed tt
  ]

  wait_round_halts :
      (fuel end_time status : ℕ) (l : Log)
      → (env.clock (l ++ ((read_status, env.reply l read_status) ∷ [])) ≤ end_time
          → (n : ℕ) (k : Log)
          → env.clock (l ++ ((read_status, env.reply l read_status) ∷ [])) + 500 ≤ env.clock k
          → HasEnded (wait_loop env fuel end_time n k).0)
      → HasEnded (wait_loop env (suc fuel) end_time status l).0
  unfolding wait_loop ◌>>=◌ attempt perform
  wait_round_halts fuel end_time status l later =
      after_read (poll env (wait_loop env fuel end_time) end_time status) (env.reply l read_status)
        _ (λ got. poll_halts (wait_loop env fuel end_time) end_time status got _ later)

  -- The fuel outlasts the time that is left, and one round more.
  wait_loop_halts :
      (fuel end_time status : ℕ) (l : Log)
      → end_time < env.clock l + 500 * fuel
      → HasEnded (wait_loop env (suc fuel) end_time status l).0
  wait_loop_halts zero end_time status l enough =
      wait_round_halts zero end_time status l
        (λ early n k slept. absurd (omega (arith, ticks.forward l read_status)))
  wait_loop_halts (suc fuel) end_time status l enough =
      wait_round_halts (suc fuel) end_time status l (λ early n k slept.
        wait_loop_halts fuel end_time n k (omega (arith, ticks.forward l read_status)))

  -- A wait of `timeout` milliseconds ends within `timeout / 500 + 2` rounds.
  pub wait_for_flash_status_ok-Halts :
      (fuel timeout : ℕ)
      → timeout / 500 + 2 ≤ fuel
      → Halts (wait_for_flash_status_ok env fuel timeout)
  unfolding wait_for_flash_status_ok ◌>>=◌
  wait_for_flash_status_ok-Halts zero timeout enough l = absurd (omega arith)
  wait_for_flash_status_ok-Halts (suc fuel) timeout enough l =
      wait_loop_halts fuel (env.clock l + timeout) 0xFFFFFFFF l (omega arith)

  require_ok-Halts : (n : ℕ) → Halts (require_ok env n)
  unfolding require_ok
  require_ok-Halts n l = elim (Bool-cases (n == 0)) [
    | inl done ↦ rw done tt
    | inr busy ↦ rw busy tt
  ]

  report-Halts : (total size : ℕ) → Halts (report env total size)
  unfolding report
  report-Halts total size l = elim (Bool-cases (size == 0)) [
    | inl empty ↦ rw empty tt
    | inr full ↦ rw full (Halts-perform env (show_progress total size) l)
  ]

  copy_loop-Halts :
      (fuel size total : ℕ) (left : List ℕ)
      → length left < fuel
      → Halts (copy_loop env fuel size total left)
  unfolding copy_loop
  copy_loop-Halts zero size total left h = absurd (omega arith)
  copy_loop-Halts (suc fuel) size total [] h =
      Halts-bind _ _ (Halts-perform env read_file) (λ n l. tt)
  copy_loop-Halts (suc fuel) size total (b ∷ left) h =
      Halts-bind _ _ (Halts-perform env read_file) λ n.
        Halts-bind _ _ (Halts-perform env (write (take chunk_size (b ∷ left)))) λ m.
          Halts-bind _ _ (report-Halts (total + length (take chunk_size (b ∷ left))) size) λ k.
            copy_loop-Halts fuel size _ (drop chunk_size (b ∷ left))
              (omega (arith, length-drop chunk_size (b ∷ left)))

  download-Halts : (size : ℕ) (content : List ℕ) → Halts (download env size content)
  unfolding download
  download-Halts size content = Halts-bind _ _ (Halts-perform env open_file) λ n.
      Halts-finally _ _
        (Halts-bind _ _ (Halts-perform env (open_transfer size)) λ m.
          Halts-finally _ _ (copy_loop-Halts (suc (length content)) size 0 content (omega arith))
            (Halts-perform env close_transfer))
        (Halts-perform env close_file)

  wait-Halts : (fuel : ℕ) → 122 ≤ fuel → Halts (wait_for_flash_status_ok env fuel default_timeout)
  wait-Halts fuel enough = wait_for_flash_status_ok-Halts fuel default_timeout (omega arith)

  try-Halts : (c : Call) → Halts (attempt (perform env c))
  try-Halts c = Halts-attempt _ (Halts-perform env c)

  pub update_steps-Halts :
      (fuel : ℕ) (content : List ℕ) → 122 ≤ fuel → Halts (update_steps env fuel content)
  unfolding update_steps
  update_steps-Halts fuel content enough = Halts-bind _ _ (try-Halts read_swid) λ a.
      Halts-bind _ _ (wait-Halts fuel enough) λ b.
        Halts-bind _ _ (Halts-perform env pre_operational) λ c.
          Halts-bind _ _ (Halts-perform env (ctrl program_ctrl_stop)) λ d.
            Halts-bind _ _ (Halts-perform env (ctrl program_ctrl_clear)) λ e.
              Halts-bind _ _ (wait-Halts fuel enough) λ f. Halts-bind _ _ (require_ok-Halts f) λ g.
                Halts-bind _ _ (Halts-perform env get_size) λ h.
                  Halts-bind _ _ (download-Halts h content) λ i.
                    Halts-bind _ _ (wait-Halts fuel enough) λ j.
                      Halts-bind _ _ (require_ok-Halts j) λ k.
                        Halts-bind _ _ (try-Halts read_swid) λ m.
                          Halts-bind _ _ (Halts-perform env (ctrl program_ctrl_start)) λ n.
                            Halts-bind _ _ (try-Halts wait_bootup) λ o.
                              Halts-bind _ _ (Halts-perform env pre_operational) λ p.
                                Halts-bind _ _ (Halts-perform env (ctrl program_ctrl_confirm))
                                  λ q l. tt

  -- With a clock that never runs back and that each sleep moves on by 500 milliseconds at least, the
  -- update returns or raises, from every log and whatever the calls answer: a wait takes at most 122
  -- rounds, and the copy of the file as many as it has bytes, and one.
  pub flash_firmware-Halts :
      (fuel : ℕ) (content : List ℕ) → 122 ≤ fuel → Halts (flash_firmware env fuel content)
  unfolding flash_firmware
  flash_firmware-Halts fuel content enough =
      Halts-bind _ _ (Halts-perform env connect) λ n.
        Halts-finally _ _ (update_steps-Halts fuel content enough) (Halts-perform env disconnect)
