-- ===== src/Interactive/Menu/Main/Closes.antt =====
-- The connection at the end of `main` of canopen-interactive/co.py.
use canopen_tools.Prelude.{
  ℕ, zero, suc, ◌≡◌, refl, subst, Bool, true, false, Option, none, some, List, [], ◌∷◌, ◌++◌,
  if◌then◌else◌,
}
use canopen_tools.Outcome.{Result, ok, raise}
use canopen_tools.Interactive.Text.{Text, codes, strip}
use canopen_tools.Interactive.Session.{Inputs, Answer, blocked, done, escaped, ask}
use canopen_tools.Interactive.Menu.{Menu, pure, continue, of_result, ◌>>=◌}
use canopen_tools.Interactive.Menu.Library.{Call, disconnect, Canopen, Tool, called, perform}
use canopen_tools.Interactive.Menu.Main.{
  same_text, is_interrupt, Actions, options, dispatch, leave, turn, next_turn, run_loop,
  on_interrupt, connected, looped, start_loop, main,
}

module _ {W N R : Type 0} where
  -- The last call was the disconnection, and it succeeded.
  abbrev pub Closed : Tool W N R → Type 0
  Closed t =
      (before : List (Call N R × Result (Unit {0}))) × (t.log
        ≡ before ++ ((disconnect, ok tt) ∷ []))

  -- A turn that leaves the loop has disconnected.
  LeftClosed : Answer Bool × Tool W N R → Type 0
  LeftClosed (done true is, t) = Closed t
  LeftClosed _ = Unit

  ReturnedClosed : Answer (Unit {0}) × Tool W N R → Type 0
  ReturnedClosed (done u is, t) = Closed t
  ReturnedClosed _ = Unit

module _ {W N R : Type 0} (lib : Canopen W N R) where
  perform-closed : (t : Tool W N R) (is : Inputs) → ReturnedClosed (perform lib disconnect t is)
  unfolding perform called ReturnedClosed
  perform-closed t is = go (lib.call disconnect t.network)
    where
      go :
          (r : Result (Unit {0}) × W)
          → ReturnedClosed (
            of_result r.0 is,
            record t { network = r.1; log = t.log ++ ((disconnect, r.0) ∷ []) },
          )
      go (ok tt, w) = (t.log, refl)
      go (raise e, w) = tt

  leave-closed :
      (op : Text) (t : Tool W N R) (is : Inputs)
      → LeftClosed (leave op (perform lib disconnect) t is)
  unfolding leave ◌>>=◌ LeftClosed ReturnedClosed
  leave-closed op t is = go (same_text op (codes "14"))
    where
      left :
          (m : Answer (Unit {0}) × Tool W N R)
          → ReturnedClosed m
          → LeftClosed (continue (λ u. pure true) m.0 m.1)
      left (blocked, u) h = tt
      left (done x js, u) h = h
      left (escaped e js, u) h = tt

      go :
          (b : Bool)
          → LeftClosed
              ((if b then (perform lib disconnect >>= λ u. pure true) else pure false) t is)
      go true = left (perform lib disconnect t is) (perform-closed t is)
      go false = tt

  dispatch-closed :
      (op : Text) (opts : List (Text × Menu (Tool W N R) (Unit {0})))
      (last : Menu (Tool W N R) Bool) (t : Tool W N R) (is : Inputs)
      → LeftClosed (last t is)
      → LeftClosed (dispatch op opts last t is)
  unfolding dispatch ◌>>=◌ LeftClosed
  dispatch-closed op [] last t is h = h
  dispatch-closed op ((name, act) ∷ opts) last t is h =
      go (same_text op name) (dispatch-closed op opts last t is h)
    where
      stays : (m : Answer (Unit {0}) × Tool W N R) → LeftClosed (continue (λ u. pure false) m.0 m.1)
      stays (blocked, u) = tt
      stays (done x js, u) = tt
      stays (escaped e js, u) = tt

      go :
          (b : Bool)
          → LeftClosed (dispatch op opts last t is)
          → LeftClosed ((if b then (act >>= λ u. pure false) else dispatch op opts last) t is)
      go true rest = stays (act t is)
      go false rest = rest

  turn-closed :
      (acts : Actions (Tool W N R)) (t : Tool W N R) (is : Inputs)
      → LeftClosed (turn acts (perform lib disconnect) t is)
  unfolding turn ask ◌>>=◌ LeftClosed
  turn-closed acts t [] = tt
  turn-closed acts t (raise e ∷ is) = tt
  turn-closed acts t (ok s ∷ is) =
      dispatch-closed (strip s) (options acts) _ t is (leave-closed (strip s) t is)

  OptionClosed : Option (Answer (Unit {0}) × Tool W N R) → Type 0
  OptionClosed none = Unit
  OptionClosed (some out) = ReturnedClosed out

  run_loop-closed :
      (fuel : ℕ) (acts : Actions (Tool W N R)) (t : Tool W N R) (is : Inputs)
      → OptionClosed (run_loop fuel acts (perform lib disconnect) t is)
  unfolding run_loop OptionClosed LeftClosed ReturnedClosed
  run_loop-closed zero acts t is = tt
  run_loop-closed (suc fuel) acts t is =
      go (turn acts (perform lib disconnect) t is) (turn-closed acts t is)
        (run_loop-closed fuel acts)
    where
      go :
          (m : Answer Bool × Tool W N R)
          → LeftClosed m
          → ((u : Tool W N R) (js : Inputs)
              → OptionClosed (run_loop fuel acts (perform lib disconnect) u js))
          → OptionClosed (next_turn (run_loop fuel acts (perform lib disconnect)) m)
      go (blocked, u) h more = tt
      go (done true js, u) h more = h
      go (done false js, u) h more = more u js
      go (escaped e js, u) h more = tt

  on_interrupt-closed :
      (m : Answer (Unit {0}) × Tool W N R)
      → ReturnedClosed m
      → ReturnedClosed (on_interrupt (perform lib disconnect) m)
  unfolding on_interrupt ReturnedClosed
  on_interrupt-closed (blocked, t) h = tt
  on_interrupt-closed (done u is, t) h = h
  on_interrupt-closed (escaped e is, t) h = go (is_interrupt e)
    where
      go :
          (b : Bool) → ReturnedClosed (if b then perform lib disconnect t is else (escaped e is, t))
      go true = perform-closed t is
      go false = tt

  looped-closed :
      (fuel : ℕ) (acts : Actions (Tool W N R)) (t : Tool W N R) (is : Inputs)
      → OptionClosed (looped lib fuel acts t is)
  unfolding looped OptionClosed
  looped-closed fuel acts t is =
      go (run_loop fuel acts (perform lib disconnect) t is) (run_loop-closed fuel acts t is)
    where
      go :
          (o : Option (Answer (Unit {0}) × Tool W N R))
          → OptionClosed o
          → OptionClosed
              (elim o [ none ↦ none | some out ↦ some (on_interrupt (perform lib disconnect) out) ])
      go none h = tt
      go (some out) h = on_interrupt-closed out h

  -- If `main` returns, by the exit or by an interrupt of its loop, then its last call of the library
  -- was `network.disconnect()`, and that succeeded, whatever the actions do.
  pub main-disconnects :
      (fuel : ℕ) (acts : Actions (Tool W N R)) (t u : Tool W N R) (is rest : Inputs)
      → main lib fuel acts t is ≡ some (done tt rest, u)
      → Closed u
  unfolding main start_loop OptionClosed ReturnedClosed
  main-disconnects fuel acts t u is rest e = subst OptionClosed e (go (connected lib t is))
    where
      go : (m : Answer (Unit {0}) × Tool W N R) → OptionClosed (start_loop lib fuel acts m)
      go (blocked, v) = tt
      go (escaped x js, v) = tt
      go (done x js, v) = looped-closed fuel acts v js
