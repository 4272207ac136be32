-- ===== src/Interactive/Menu/Main/Returns.antt =====
-- How many inputs the actions of canopen-interactive/co.py leave, and the end of its sessions.
use canopen_tools.Prelude.{
  ℕ, ◌≤◌, ◌<◌, ◌≡◌, ◌≢◌, Bool, true, false, Option, none, some, List, [], ◌∷◌, length,
  if◌then◌else◌, arith,
}
use canopen_tools.Outcome.{Exn, Result, ok, raise, is_exception}
use canopen_tools.Interactive.Text.{Text, ℤ}
use canopen_tools.Interactive.Session.{
  Inputs, Answer, blocked, done, escaped, turn, after, prompt, choose, choose_number,
}
use canopen_tools.Interactive.Menu.{Menu, acting, after_try, attempt}
use canopen_tools.Interactive.Menu.Closed.{IsClosed}
use canopen_tools.Interactive.Menu.Subscribe.{
  monitor_subscribe_pdo, monitor_subscribe_heartbeat, monitor_unsubscribe_pdo,
  monitor_unsubscribe_heartbeat,
}
use canopen_tools.Interactive.Menu.Kept.{IsClosedTool}
use canopen_tools.Interactive.Menu.Kept.Options.{options-Closed}
use canopen_tools.Interactive.Menu.Library.{Canopen, Tool, read_value, got}
use canopen_tools.Interactive.Menu.Nodes.{stored}
use canopen_tools.Interactive.Menu.Options.{Host, options_with}
use canopen_tools.Firmware.Device.{Run, returned, raised, out_of_fuel}
use canopen_tools.Firmware.Halts.{Ticks, HasEnded}
use canopen_tools.Interactive.Conforms.{flash_node-Halts}
use canopen_tools.Interactive.Flash.{Told, flash_node}
use canopen_tools.Interactive.Menu.Flash.{Updates, answer_of, updated}
use canopen_tools.Interactive.Menu.Main.{main}
use canopen_tools.Interactive.Menu.Main.Ends.{
  Left, Reads, bind-Reads, ask-Left, of_result-Left, perform-Reads, main-returns,
}

weaken : {A : Type 0} (m n : ℕ) (a : Answer A) → m ≤ n → Left m a → Left n a
unfolding Left
weaken m n blocked h k = tt
weaken m n (done a is) h k = omega (arith, h, k)
weaken m n (escaped e is) h k = omega (arith, h, k)

prompt-Left :
    {A : Type 0} (n : ℕ) (accept : ℕ → Result A) (is : Inputs)
    → Left (length is) (prompt n accept is)
unfolding prompt Left
prompt-Left {A = A} n accept [] = tt
prompt-Left {A = A} n accept (r ∷ is) =
    go (turn n accept r) (prompt n accept is) (prompt-Left n accept is)
  where
    go :
        (o : Result (Option A)) (again : Answer A)
        → Left (length is) again
        → Left (length (r ∷ is)) (after o is again)
    go (raise e) again h = omega arith
    go (ok none) again h = weaken (length is) (length (r ∷ is)) again (omega arith) h
    go (ok (some a)) again h = omega arith

attempt-Reads : {T A : Type 0} (m : Menu T A) → Reads m → Reads (attempt m)
unfolding attempt Left
attempt-Reads {A = A} m h t is = go (m t is).0 (h t is)
  where
    caught :
        (b : Bool) (e : Exn) (js : Inputs)
        → length js ≤ length is
        → Left {A = Option A} (length is) (if b then done none js else escaped e js)
    caught true e js k = k
    caught false e js k = k

    go : (a : Answer A) → Left (length is) a → Left (length is) (after_try a (m t is).1).0
    go blocked k = tt
    go (done a js) k = k
    go (escaped e js) k = caught (is_exception e) e js k

Reads-IsClosed : {T : Type 0} → IsClosed {T = T} (λ A m. Reads m)
unfolding Left choose choose_number
Reads-IsClosed = record {
  pures = λ a t is. omega arith;
  lifts = λ r t. of_result-Left r;
  states = λ f t is. omega arith;
  asks = λ t. ask-Left;
  prompts = λ n accept t. prompt-Left n accept;
  chooses = λ xs t. prompt-Left _ _;
  numbers = λ n t. prompt-Left n (λ c. ok c);
  attempts = attempt-Reads;
  binds = bind-Reads;
}

module _ {W N R : Type 0} (lib : Canopen W N R) where
  read_value-Reads : (node : N) (index : ℕ) (sub : Option ℕ) → Reads (read_value lib node index sub)
  unfolding read_value
  read_value-Reads node index sub t = of_result-Left (got lib node index sub t).0

  stored-Reads :
      (k : ℤ) (node : N) (name : Text) → Reads (acting {T = Tool W N R} (stored k node name))
  stored-Reads k node name t = of_result-Left (stored k node name t).0

  Reads-IsClosedTool : IsClosedTool lib (λ A m. Reads m)
  Reads-IsClosedTool = record {
    performs = perform-Reads lib;
    gets = read_value-Reads;
    stores = stored-Reads;
    subscribes_pdo = λ node n t. of_result-Left (monitor_subscribe_pdo lib node n t).0;
    subscribes_hb = λ node t. of_result-Left (monitor_subscribe_heartbeat lib node t).0;
    unsubscribes_pdo = λ node n t. of_result-Left (monitor_unsubscribe_pdo lib node n t).0;
    unsubscribes_hb = λ node t. of_result-Left (monitor_unsubscribe_heartbeat lib node t).0;
  }

  updated-Reads :
      (dev : Updates W N) (node : N) (bin_path : Text) → Reads (updated {R = R} dev node bin_path)
  unfolding updated Left
  updated-Reads dev node bin_path t is =
      go (flash_node (dev.env node t.network) dev.fuel (dev.content bin_path) []).0
    where
      go : (r : Run Told) → Left (length is) (answer_of r is)
      go (returned told) = omega arith
      go (raised e) = omega arith
      go out_of_fuel = tt

  updated-not_blocked :
      (dev : Updates W N) (ticks : (node : N) (w : W) → Ticks (dev.env node w)) (node : N)
      (bin_path : Text) (t : Tool W N R) (is : Inputs)
      → 122 ≤ dev.fuel
      → (updated dev node bin_path t is).0 ≢ blocked
  unfolding updated
  updated-not_blocked dev ticks node bin_path t is enough =
      go (flash_node (dev.env node t.network) dev.fuel (dev.content bin_path) []).0 (
        flash_node-Halts (dev.env node t.network) (ticks node t.network) dev.fuel
          (dev.content bin_path) enough [])
    where
      go : (r : Run Told) → HasEnded r → answer_of r is ≢ blocked
      go (returned told) h = λ e. cc e
      go (raised x) h = λ e. cc e
      go out_of_fuel h = absurd h

  -- With fuel for 122 rounds in each wait of an update, clocks that never run back, and sleeps that
  -- take half a second at least: a session with more turns than inputs is never cut off, so that
  -- `main` blocks, returns, or ends with an exception; and no update blocks in it.
  pub main-ends :
      (host : Host) (dev : Updates W N) (ticks : (node : N) (w : W) → Ticks (dev.env node w))
      (eds_files : List Text) (fuel : ℕ) (t : Tool W N R) (is : Inputs)
      → 122 ≤ dev.fuel
      → length is < fuel
      → ((out : Answer (Unit {0}) × Tool W N R) × (main lib fuel
              (options_with lib host dev eds_files)
              t
              is
            ≡ some out))
        × ((node : N) (bin_path : Text) (u : Tool W N R) (js : Inputs)
            → (updated dev node bin_path u js).0 ≢ blocked)
  main-ends host dev ticks eds_files fuel t is enough h = (
    main-returns lib (options_with lib host dev eds_files) fuel t is
        (options-Closed lib (λ A m. Reads m) Reads-IsClosed Reads-IsClosedTool host dev eds_files
          (updated-Reads dev))
        h,
    λ node bin_path u js. updated-not_blocked dev ticks node bin_path u js enough,
  )
