-- ===== src/Bridge/Process/Stops.antt =====
-- The end of `main` of can-tcp-bridge/can-tcp-bridge-server/can_tcp_bridge.py.
use canopen_tools.Prelude.{
  ℕ, ◌≡◌, refl, sym, subst, ap, ◌∙◌, Bool, true, false, Option, none, some, List, [], ◌∷◌, ◌++◌,
}
use canopen_tools.Outcome.{Result, ok, raise, keyboard_interrupt, IsCaught}
use canopen_tools.Bridge.Process.{
  Call, set_stop, shutdown_sock, close_sock, shutdown_bus, Env, Log, CanConfig, result_of, dropped,
  perform, tried, if_sock, if_bus, start, stop, caught, finally, main,
}
use canopen_tools.Bridge.Process.Rules.{calls, Adds, calls-append, then-Adds, pure-Adds}

-- The calls that release what is held.
abbrev pub for_sock : (ℕ → Call) → Option ℕ → List Call
for_sock call none = []
for_sock call (some s) = call s ∷ []

abbrev pub for_bus : Bool → List Call
for_bus true = shutdown_bus ∷ []
for_bus false = []

abbrev pub releases : Option ℕ → Option ℕ → Bool → List Call
releases first second bus =
    (set_stop ∷ []) ++ (for_sock shutdown_sock first ++ (for_sock close_sock second ++ for_bus bus))

-- Setting the event succeeds, and no interrupt arrives while sockets and the bus are released.
pub record IsCalm (env : Env) : Type 0 where
  pub sets : (l : Log) → result_of (env l set_stop) ≡ ok tt
  pub shuts_sock : (l : Log) (s : ℕ) → IsCaught (result_of (env l (shutdown_sock s)))
  pub closes_sock : (l : Log) (s : ℕ) → IsCaught (result_of (env l (close_sock s)))
  pub shuts_bus : (l : Log) → IsCaught (result_of (env l shutdown_bus))

-- How the command ends, given how `start` ended: an interrupt is passed over.
abbrev pub EndsAs : Result (Unit {0}) → Result (Unit {0}) → Type 0
EndsAs (ok u) r = r ≡ ok tt
EndsAs (raise keyboard_interrupt) r = r ≡ ok tt
EndsAs (raise e) r = r ≡ raise e

caught-EndsAs : (r : Result (Unit {0})) → EndsAs r (caught r)
caught-EndsAs (ok u) = refl
caught-EndsAs (raise keyboard_interrupt) = refl
caught-EndsAs (raise _) = refl

dropped-ok : (r : Result (Unit {0})) → IsCaught r → dropped r ≡ ok tt
unfolding IsCaught
dropped-ok (ok u) h = refl
dropped-ok (raise e) h = rw h refl

module _ (env : Env) (calm : IsCalm env) where
  tried-Adds :
      (c : Call) → ((l : Log) → IsCaught (result_of (env l c))) → Adds (tried env c) (c ∷ [])
  unfolding tried perform
  tried-Adds c h l = (dropped-ok (result_of (env l c)) (h l), calls-append l _)

  if_sock-Adds :
      (call : ℕ → Call) (o : Option ℕ)
      → ((l : Log) (s : ℕ) → IsCaught (result_of (env l (call s))))
      → Adds (if_sock env call o) (for_sock call o)
  if_sock-Adds call none h = pure-Adds
  if_sock-Adds call (some s) h = tried-Adds (call s) (λ l. h l s)

  if_bus-Adds : (bus : Bool) → Adds (if_bus env bus) (for_bus bus)
  if_bus-Adds true = tried-Adds shutdown_bus calm.shuts_bus
  if_bus-Adds false = pure-Adds

  set_stop-Adds : Adds (perform env set_stop) (set_stop ∷ [])
  unfolding perform
  set_stop-Adds l = (calm.sets l, calls-append l _)

  stop-Adds :
      (first second : Option ℕ) (bus : Bool)
      → Adds (stop env first second bus) (releases first second bus)
  unfolding stop
  stop-Adds first second bus = then-Adds (perform env set_stop) _ (set_stop ∷ []) _ set_stop-Adds (
      then-Adds (if_sock env shutdown_sock first) _ (for_sock shutdown_sock first) _
        (if_sock-Adds shutdown_sock first calm.shuts_sock)
        (then-Adds (if_sock env close_sock second) (if_bus env bus) (for_sock close_sock second)
          (for_bus bus) (if_sock-Adds close_sock second calm.closes_sock) (if_bus-Adds bus)))

  finally-ok :
      (r : Result (Unit {0})) (p : Result (Unit {0}) × Log) → p.0 ≡ ok tt → finally r p ≡ (r, p.1)
  finally-ok r (ok u, l) e = refl
  finally-ok r (raise x, l) e = absurd (cc e)

  -- However `start` ends, at an error before the bus is open, in the loop or by an interrupt: if
  -- setting the stop event succeeds and no interrupt arrives behind it, `main` sets the event, then
  -- shuts down and closes the sockets that it finds, and then the bus, if one was opened, each even
  -- if the call before it fails. `main` ends as `start` did, and returns if that was an interrupt.
  pub main-releases :
      (is_root : Bool) (cfg : CanConfig) (first second : Option ℕ) (l : Log)
      → (calls (main env is_root cfg first second l).1
          ≡ calls (start env is_root cfg l).1
            ++ releases first second (start env is_root cfg l).0.1)
        × EndsAs (start env is_root cfg l).0.0 (main env is_root cfg first second l).0
  unfolding main
  main-releases is_root cfg first second l =
      let (r, bus) = (start env is_root cfg l).0 in
      let k = (start env is_root cfg l).1 in
      let (returns, adds) = stop-Adds first second bus k in
      let whole = finally-ok (caught r) (stop env first second bus k) returns in
      (
        ap (λ p. calls p.1) whole ∙ adds,
        subst (EndsAs r) (sym (ap (λ p. p.0) whole)) (caught-EndsAs r),
      )
