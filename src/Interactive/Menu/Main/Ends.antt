-- ===== src/Interactive/Menu/Main/Ends.antt =====
-- How the loop of `main` of canopen-interactive/co.py ends.
use canopen_tools.Prelude.{
  ℕ, zero, suc, ◌≤◌, ◌<◌, ◌≡◌, refl, Bool, true, false, some, List, [], ◌∷◌, length, All,
  if◌then◌else◌, arith,
}
use canopen_tools.Outcome.{Result, ok, raise}
use canopen_tools.Interactive.Text.{Text, codes, strip, pos, int}
use canopen_tools.Interactive.Session.{Inputs, Answer, blocked, done, escaped, ask}
use canopen_tools.Interactive.Menu.{Menu, pure, reading, lift, continue, of_result, ◌>>=◌}
use canopen_tools.Interactive.Menu.Library.{
  Call, connect, disconnect, Canopen, Tool, called, perform,
}
use canopen_tools.Interactive.Menu.Main.{
  same_text, or_default, Actions, options, dispatch, leave, turn, next_turn, run_loop, on_interrupt,
  connected, looped, start_loop, main,
}

-- At most `n` inputs are left.
unfoldable pub Left : {A : Type 0} → ℕ → Answer A → Type 0
Left n blocked = Unit
Left n (done a is) = length is ≤ n
Left n (escaped e is) = length is ≤ n

-- An action reads inputs in their order, and none twice.
abbrev pub Reads : {T A : Type 0} → Menu T A → Type 0
Reads {T} m = (t : T) (is : Inputs) → Left (length is) (m t is).0

pub continue-Left :
    {T A B : Type 0} (n : ℕ) (f : A → Menu T B) (a : Answer A) (t : T)
    → Left n a
    → ((x : A) → Reads (f x))
    → Left n (continue f a t).0
unfolding Left
continue-Left n f blocked t h g = tt
continue-Left n f (escaped e is) t h g = h
continue-Left n f (done x is) t h g = weaken ((f x t is).0) (g x t is)
  where
    weaken : {B : Type 0} (b : Answer B) → Left (length is) b → Left n b
    weaken blocked k = tt
    weaken (done y js) k = omega (arith, h, k)
    weaken (escaped e js) k = omega (arith, h, k)

pub bind-Reads :
    {T A B : Type 0} (m : Menu T A) (f : A → Menu T B)
    → Reads m
    → ((x : A) → Reads (f x))
    → Reads (m >>= f)
unfolding ◌>>=◌
bind-Reads m f h g t is = continue-Left (length is) f (m t is).0 (m t is).1 (h t is) g

module _ {T : Type 0} (disconnects : Menu T (Unit {0})) (reads : Reads disconnects) where
  leave-Reads : (op : Text) → Reads (leave op disconnects)
  unfolding leave ◌>>=◌ Left
  leave-Reads op = go (same_text op (codes "14"))
    where
      go : (b : Bool) → Reads (if b then (disconnects >>= λ u. pure true) else pure false)
      go true t is =
          continue-Left (length is) _ (disconnects t is).0 (disconnects t is).1 (reads t is)
            (λ u v js. omega arith)
      go false t is = omega arith

  dispatch-Reads :
      (op : Text) (opts : List (Text × Menu T (Unit {0}))) (last : Menu T Bool)
      → All (λ p. Reads p.1) opts
      → Reads last
      → Reads (dispatch op opts last)
  unfolding dispatch ◌>>=◌ Left
  dispatch-Reads op [] last all h = h
  dispatch-Reads op ((name, act) ∷ opts) last (g, all) h =
      go (same_text op name) (dispatch-Reads op opts last all h)
    where
      go :
          (b : Bool)
          → Reads (dispatch op opts last)
          → Reads (if b then (act >>= λ u. pure false) else dispatch op opts last)
      go true rest t is =
          continue-Left (length is) _ (act t is).0 (act t is).1 (g t is) (λ u v js. omega arith)
      go false rest t is = rest t is

  turn-Reads :
      (acts : Actions T) (r : Result Text) (t : T) (is : Inputs)
      → All (λ p. Reads p.1) (options acts)
      → Left (length is) (turn acts disconnects t (r ∷ is)).0
  unfolding turn ◌>>=◌ ask Left
  turn-Reads acts (raise e) t is all = omega arith
  turn-Reads acts (ok s) t is all =
      dispatch-Reads (strip s) (options acts) _ all (leave-Reads (strip s)) t is

  -- With more turns than there are inputs, the loop does not run out of turns.
  run_loop-returns :
      (acts : Actions T) (fuel : ℕ) (t : T) (is : Inputs)
      → All (λ p. Reads p.1) (options acts)
      → length is < fuel
      → (out : Answer (Unit {0}) × T) × (run_loop fuel acts disconnects t is ≡ some out)
  unfolding run_loop turn ask ◌>>=◌ Left
  run_loop-returns acts zero t is all h = absurd (omega (arith, h))
  run_loop-returns acts (suc fuel) t [] all h = ((blocked, t), refl)
  run_loop-returns acts (suc fuel) t (r ∷ is) all h =
      go (turn acts disconnects t (r ∷ is)) (turn-Reads acts r t is all)
        (λ u js k. run_loop-returns acts fuel u js all k)
    where
      go :
          (m : Answer Bool × T)
          → Left (length is) m.0
          → ((u : T) (js : Inputs)
              → length js < fuel
              → (out : Answer (Unit {0}) × T) × (run_loop fuel acts disconnects u js ≡ some out))
          → (out : Answer (Unit {0}) × T) × (next_turn (run_loop fuel acts disconnects) m
              ≡ some out)
      go (blocked, u) k more = ((blocked, u), refl)
      go (done true js, u) k more = ((done tt js, u), refl)
      go (done false js, u) k more = more u js (omega (arith, h, k))
      go (escaped e js, u) k more = ((escaped e js, u), refl)

pub of_result-Left : {A : Type 0} (r : Result A) (is : Inputs) → Left (length is) (of_result r is)
unfolding Left
of_result-Left (ok a) is = omega arith
of_result-Left (raise e) is = omega arith

pub ask-Left : (is : Inputs) → Left (length is) (ask is)
unfolding ask Left
ask-Left [] = tt
ask-Left (ok s ∷ is) = omega arith
ask-Left (raise e ∷ is) = omega arith

module _ {W N R : Type 0} (lib : Canopen W N R) where
  pub perform-Reads : (c : Call N R) → Reads (perform lib c)
  unfolding perform
  perform-Reads c t is = of_result-Left (called lib c t).0 is

  connected-Reads : Reads (connected lib)
  unfolding connected
  connected-Reads =
      bind-Reads (reading ask) _ (λ t. ask-Left)
        (λ s.
          bind-Reads (reading ask) _ (λ t. ask-Left)
            (λ b.
              bind-Reads (lift (or_default (codes "vcan0") (λ s. ok s) (strip s))) _
                (λ t. of_result-Left (or_default (codes "vcan0") (λ s. ok s) (strip s)))
                (λ c.
                  bind-Reads (lift (or_default (pos 125000) int (strip b))) _
                    (λ t. of_result-Left (or_default (pos 125000) int (strip b)))
                    (λ n. perform-Reads (connect c n)))))

  looped-returns :
      (acts : Actions (Tool W N R)) (fuel : ℕ) (t : Tool W N R) (is : Inputs)
      → All (λ p. Reads p.1) (options acts)
      → length is < fuel
      → (out : Answer (Unit {0}) × Tool W N R) × (looped lib fuel acts t is ≡ some out)
  unfolding looped
  looped-returns acts fuel t is all h =
      let (out, e) =
        run_loop-returns (perform lib disconnect) (perform-Reads disconnect) acts fuel t is all h in
      (on_interrupt (perform lib disconnect) out, rw (e, looped) refl)

  -- With actions that read no input twice and more turns than there are inputs, `main` is never cut
  -- off: it waits for an input, returns, or ends with an exception.
  pub main-returns :
      (acts : Actions (Tool W N R)) (fuel : ℕ) (t : Tool W N R) (is : Inputs)
      → All (λ p. Reads p.1) (options acts)
      → length is < fuel
      → (out : Answer (Unit {0}) × Tool W N R) × (main lib fuel acts t is ≡ some out)
  unfolding main start_loop Left
  main-returns acts fuel t is all h = go (connected lib t is) (connected-Reads t is)
    where
      go :
          (m : Answer (Unit {0}) × Tool W N R)
          → Left (length is) m.0
          → (out : Answer (Unit {0}) × Tool W N R) × (start_loop lib fuel acts m ≡ some out)
      go (blocked, u) k = ((blocked, u), refl)
      go (escaped e js, u) k = ((escaped e js, u), refl)
      go (done x js, u) k = looped-returns acts fuel u js all (omega (arith, h, k))
