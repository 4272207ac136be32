-- ===== src/Firmware/Release.antt =====
-- The `finally: network.disconnect()` of `flash_firmware`.
use canopen_tools.Prelude.{ℕ, ◌≤◌, ◌≡◌, ◌⊎◌, inl, inr, refl, List, [], ◌∷◌, ◌++◌}
use canopen_tools.Outcome.{Exn, Result, ok, raise}
use canopen_tools.Firmware.Device.{
  connect, disconnect, Env, Log, Run, returned, raised, out_of_fuel, M, run_of, after_close,
  closing, finally, ◌>>=◌, perform,
}
use canopen_tools.Firmware.Flash.{update_steps, flash_firmware}
use canopen_tools.Firmware.Halts.{HasEnded, Ticks, update_steps-Halts}

-- The last thing that was logged is a call of `disconnect`.
abbrev pub EndsDisconnected : Log → Type 0
EndsDisconnected l =
    (before : Log) × (answer : Result ℕ) × (l ≡ before ++ ((disconnect, answer) ∷ []))

Result-cases : (r : Result ℕ) → ((n : ℕ) × (r ≡ ok n)) ⊎ ((e : Exn) × (r ≡ raise e))
Result-cases (ok n) = inl (n, refl)
Result-cases (raise e) = inr (e, refl)

module _ (env : Env) where
  log-after_close :
      {A : Type 0} (r : Run A) (x : Result ℕ) (l : Log) → (after_close r (run_of x, l)).1 ≡ l
  log-after_close r (ok n) l = refl
  log-after_close r (raise e) l = refl

  finally-EndsDisconnected :
      {A : Type 0} (m : M A) (l : Log)
      → HasEnded (m l).0
      → EndsDisconnected (finally m (perform env disconnect) l).1
  unfolding finally perform
  finally-EndsDisconnected {A} m l h = go (m l).0 (m l).1 h
    where
      go :
          (r : Run A) (k : Log)
          → HasEnded r
          → EndsDisconnected (closing (perform env disconnect) r k).1
      go (returned a) k h =
          (k, env.reply k disconnect, log-after_close (returned a) (env.reply k disconnect) _)
      go (raised e) k h =
          (k, env.reply k disconnect, log-after_close {A = A} (raised e) (env.reply k disconnect) _)
      go out_of_fuel k h = elim h [ ]

  -- With a clock that never runs back and that each sleep moves on by 500 milliseconds at least: if
  -- the network could be connected, the last call that the update makes is `disconnect`, whether it
  -- returns or raises; and if connecting raises, that is the only call, and the update raises the same.
  pub flash_firmware-EndsDisconnected :
      (fuel : ℕ) (content : List ℕ)
      → Ticks env
      → 122 ≤ fuel
      → EndsDisconnected (flash_firmware env fuel content []).1
        ⊎ ((e : Exn) × (env.reply [] connect ≡ raise e)
            × (flash_firmware env fuel content [] ≡ (raised e, (connect, raise e) ∷ [])))
  unfolding flash_firmware ◌>>=◌ perform
  flash_firmware-EndsDisconnected fuel content ticks enough =
      elim (Result-cases (env.reply [] connect)) [
        | inl (n, connected) ↦ inl (
            rw connected (
              finally-EndsDisconnected (update_steps env fuel content) ((connect, ok n) ∷ [])
                (update_steps-Halts env ticks fuel content enough ((connect, ok n) ∷ []))))
        | inr (e, refused) ↦ inr (e, refused, rw refused)
      ]
