-- ===== src/Firmware/Protocol/Wait.antt =====
-- `wait_for_flash_status_ok` in the protocol: only a status of 0 moves the device on.
use canopen_tools.Prelude.{
  ℕ, zero, suc, ◌+◌, ◌≡◌, ◌≢◌, refl, sym, ◌∙◌, inl, inr, Option, none, some, arith, ltb, Bool-cases,
}
use canopen_tools.Firmware.Device.{read_status, sleep, Env, M, attempt, perform, now}
use canopen_tools.Firmware.Protocol.{Stage, refused, flash_status}
use canopen_tools.Firmware.Protocol.Rules.{
  To, Leads, Tried, Leads-bind, Leads-weaken, Leads-perform, Leads-attempt, Leads-then, Leads-quiet,
}
use canopen_tools.Firmware.Flash.{until_end, poll, wait_loop, wait_for_flash_status_ok}

-- A stage that polls the flash status: a status other than 0 leaves it.
pub record CanPoll (s : Stage) : Type 0 where
  pub in_order : refused s (flash_status s 0) ≡ s
  pub busy : (n : ℕ) → n ≢ 0 → flash_status s n ≡ s

module _ (env : Env) (s : Stage) (E : Stage → Type 0) (can_poll : CanPoll s) (safe : E s) where
  -- The status that is returned, and what it made of the stage.
  abbrev pub Settled : ℕ → Stage → Type 0
  Settled n t = t ≡ flash_status s n

  until_end-Leads :
      (again : ℕ → M ℕ) (end_time status : ℕ)
      → status ≢ 0
      → ((n : ℕ) → n ≢ 0 → Leads s (To E Settled) (again n))
      → Leads s (To E Settled) (until_end env again end_time status)
  unfolding until_end
  until_end-Leads again end_time status busy later =
      Leads-then s s E Settled (now env) _ (λ l h. h)
        λ t. elim (Bool-cases (ltb end_time t)) [
          | inl over ↦ rw over (λ l h. h ∙ sym (can_poll.busy status busy))
          | inr early ↦ rw early (
              Leads-then s s E Settled (perform env sleep) _
                (Leads-quiet env sleep s E (λ n. refl) safe) (λ n. later status busy))
        ]

  poll-Leads :
      (again : ℕ → M ℕ) (end_time status : ℕ) (got : Option ℕ) (t : Stage)
      → status ≢ 0
      → ((n : ℕ) → n ≢ 0 → Leads s (To E Settled) (again n))
      → Tried (λ t. t ≡ s) Settled got t
      → Leads t (To E Settled) (poll env again end_time status got)
  unfolding poll
  poll-Leads again end_time status (some zero) t busy later e l h = h ∙ e
  poll-Leads again end_time status (some (suc n)) t busy later e l h =
      until_end-Leads again end_time (suc n) (λ x. omega arith) later l
        (h ∙ e ∙ can_poll.busy (suc n) (λ x. omega arith))
  poll-Leads again end_time status none t busy later e l h =
      until_end-Leads again end_time status busy later l (h ∙ e)

  wait_loop-Leads :
      (fuel end_time status : ℕ)
      → status ≢ 0
      → Leads s (To E Settled) (wait_loop env fuel end_time status)
  unfolding wait_loop
  wait_loop-Leads zero end_time status busy = λ l h. rw h safe
  wait_loop-Leads (suc fuel) end_time status busy =
      Leads-bind s E (Tried (λ t. t ≡ s) Settled) Settled (attempt (perform env read_status)) _ read
        (λ got t tried.
          poll-Leads (wait_loop env fuel end_time) end_time status got t busy
            (λ n h. wait_loop-Leads fuel end_time n h) tried)
    where
      read : Leads s (To E (Tried (λ t. t ≡ s) Settled)) (attempt (perform env read_status))
      read =
          Leads-weaken s (λ t. t ≡ s) E (Tried (λ t. t ≡ s) Settled) (Tried (λ t. t ≡ s) Settled)
            (attempt (perform env read_status)) (λ t e. rw e safe) (λ o t p. p)
            (Leads-attempt s (λ t. t ≡ s) Settled (perform env read_status)
              (Leads-perform env read_status s (λ t. t ≡ s) Settled (λ n. refl) can_poll.in_order))

  pub wait_for_flash_status_ok-Leads :
      (fuel timeout : ℕ) → Leads s (To E Settled) (wait_for_flash_status_ok env fuel timeout)
  unfolding wait_for_flash_status_ok
  wait_for_flash_status_ok-Leads fuel timeout =
      Leads-then s s E Settled (now env) _ (λ l h. h)
        (λ t. wait_loop-Leads fuel (t + timeout) 0xFFFFFFFF (λ x. omega arith))
