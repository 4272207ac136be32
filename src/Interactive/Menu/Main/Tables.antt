-- ===== src/Interactive/Menu/Main/Tables.antt =====
-- `nodes` and `nodes_meta` in the sessions of `main` of canopen-interactive/co.py.
use canopen_tools.Prelude.{
  ℕ, sym, subst, Option, none, some, List, [], ◌≡◌, ap, ◌∙◌, All, All-append,
}
use canopen_tools.Interactive.Text.{Text, ℤ}
use canopen_tools.Interactive.Session.{Inputs, Answer, blocked, done, escaped}
use canopen_tools.Interactive.Menu.{acting}
use canopen_tools.Interactive.Menu.Library.{
  read_value, got, Call, Canopen, Tool, called, perform, disconnect,
}
use canopen_tools.Interactive.Menu.Nodes.{stored}
use canopen_tools.Interactive.Menu.Nodes.Keys.{set-same_keys, set-Distinct, keys, Distinct}
use canopen_tools.Interactive.Menu.Nodes.Choice.{IsTool}
use canopen_tools.Interactive.Menu.Options.{Host, options_with}
use canopen_tools.Firmware.Device.{Log}
use canopen_tools.Firmware.Protocol.{idle, run}
use canopen_tools.Firmware.Protocol.Transfer.{IsSafe}
use canopen_tools.Interactive.Conforms.{flash_node-IsSafe}
use canopen_tools.Interactive.Menu.Flash.{Updates, updated}
use canopen_tools.Interactive.Menu.Main.{
  connected, Actions, options, run_loop, on_interrupt, looped, start_loop, main,
}
use canopen_tools.Interactive.Menu.Main.Keeps.{
  Keeps, OptionKeeps, run_loop-keeps, on_interrupt-keeps, Keeps-IsClosed,
}
use canopen_tools.Interactive.Menu.Subscribe.{
  monitor_subscribe_pdo, monitor_subscribe_heartbeat, monitor_unsubscribe_pdo,
  monitor_unsubscribe_heartbeat,
}
use canopen_tools.Interactive.Menu.Kept.{IsClosedTool}
use canopen_tools.Interactive.Menu.Kept.Sending.{connected-Closed}
use canopen_tools.Interactive.Menu.Kept.Options.{options-Closed}

-- An update whose calls are in the order of the protocol.
abbrev pub IsConforming : List ℕ × Log → Type 0
IsConforming (content, l) = IsSafe content (run idle l)

-- What each action of the program keeps.
record AreKept {N : Type 0} (nodes : List (ℤ × N)) (nodes_meta : List (ℤ × Text))
    (flashed : List (List ℕ × Log)) : Type 0 where
  same_keys : keys nodes ≡ keys nodes_meta
  distinct : Distinct (keys nodes)
  conforming : All IsConforming flashed

abbrev Kept : {W N R : Type 0} → Tool W N R → Type 0
Kept t = AreKept t.nodes t.nodes_meta t.flashed

module _ {W N R : Type 0} (lib : Canopen W N R) where
  perform-Keeps : (c : Call N R) → Keeps Kept (perform lib c)
  unfolding perform called
  perform-Keeps c t is h = h

  stored-Keeps :
      (k : ℤ) (node : N) (name : Text) → Keeps Kept (acting {T = Tool W N R} (stored k node name))
  unfolding stored
  stored-Keeps k node name t is h = record {
    same_keys = set-same_keys k node name t.nodes t.nodes_meta h.same_keys;
    distinct = set-Distinct k node t.nodes h.distinct;
    conforming = h.conforming;
  }

  read_value-Keeps :
      (node : N) (index : ℕ) (sub : Option ℕ) → Keeps Kept (read_value lib node index sub)
  unfolding read_value got
  read_value-Keeps node index sub t is h = h

  Kept-IsClosedTool : IsClosedTool lib (λ A m. Keeps Kept m)
  unfolding monitor_subscribe_pdo monitor_subscribe_heartbeat monitor_unsubscribe_pdo
      monitor_unsubscribe_heartbeat
  Kept-IsClosedTool = record {
    performs = perform-Keeps;
    gets = read_value-Keeps;
    stores = stored-Keeps;
    subscribes_pdo = λ node n t is h. h;
    subscribes_hb = λ node t is h. h;
    unsubscribes_pdo = λ node n t is h. h;
    unsubscribes_hb = λ node t is h. h;
  }

  updated-Keeps :
      (dev : Updates W N) (node : N) (bin_path : Text)
      → Keeps Kept (updated {R = R} dev node bin_path)
  unfolding updated
  updated-Keeps dev node bin_path t is h = record {
    same_keys = h.same_keys;
    distinct = h.distinct;
    conforming =
        All-append IsConforming t.flashed _ h.conforming
          (flash_node-IsSafe (dev.env node t.network) (dev.content bin_path) dev.fuel, tt);
  }

  looped-keeps :
      (fuel : ℕ) (acts : Actions (Tool W N R)) (t : Tool W N R) (is : Inputs)
      → All (λ p. Keeps Kept p.1) (options acts)
      → Kept t
      → OptionKeeps Kept
          (perform lib disconnect)
          (perform-Keeps disconnect)
          (looped lib fuel acts t is)
  unfolding looped OptionKeeps
  looped-keeps fuel acts t is all h =
      go (run_loop fuel acts (perform lib disconnect) t is) (
        run_loop-keeps Kept (perform lib disconnect) (perform-Keeps disconnect) fuel acts t is all
          h)
    where
      go :
          (o : Option (Answer (Unit {0}) × Tool W N R))
          → OptionKeeps Kept (perform lib disconnect) (perform-Keeps disconnect) o
          → OptionKeeps Kept
              (perform lib disconnect)
              (perform-Keeps disconnect)
              (elim o [ none ↦ none | some out ↦ some (on_interrupt (perform lib disconnect) out) ])
      go none k = tt
      go (some out) k =
          on_interrupt-keeps Kept (perform lib disconnect) (perform-Keeps disconnect) out k

  main-keeps :
      (fuel : ℕ) (acts : Actions (Tool W N R)) (t u : Tool W N R) (is : Inputs)
      (a : Answer (Unit {0}))
      → All (λ p. Keeps Kept p.1) (options acts)
      → Kept t
      → main lib fuel acts t is ≡ some (a, u)
      → Kept u
  unfolding main start_loop OptionKeeps
  main-keeps fuel acts t u is a all h e =
      subst (OptionKeeps Kept (perform lib disconnect) (perform-Keeps disconnect)) e (
        go (connected lib t is) (
          connected-Closed lib (λ A m. Keeps Kept m) (Keeps-IsClosed Kept) Kept-IsClosedTool t is
            h))
    where
      go :
          (m : Answer (Unit {0}) × Tool W N R)
          → Kept m.1
          → OptionKeeps Kept
              (perform lib disconnect)
              (perform-Keeps disconnect)
              (start_loop lib fuel acts m)
      go (blocked, v) k = k
      go (escaped x js, v) k = k
      go (done x js, v) k = looped-keeps fuel acts v js all k

  -- From a start with no nodes, no names and no update yet, wherever a session of the program's own
  -- options stands: `nodes` and `nodes_meta` have the same keys, each once; and in each update that was
  -- made, no call was out of the order of the protocol, and nothing was started that is not the whole
  -- file.
  pub main-IsTool :
      (host : Host) (dev : Updates W N) (eds_files : List Text) (fuel : ℕ) (t u : Tool W N R)
      (is : Inputs) (a : Answer (Unit {0}))
      → t.nodes ≡ []
      → t.nodes_meta ≡ []
      → t.flashed ≡ []
      → main lib fuel (options_with lib host dev eds_files) t is ≡ some (a, u)
      → IsTool u × All IsConforming u.flashed
  unfolding Distinct
  main-IsTool host dev eds_files fuel t u is a no_nodes no_meta no_updates e =
      let kept =
        main-keeps fuel (options_with lib host dev eds_files) t u is a
          (options-Closed lib (λ A m. Keeps Kept m) (Keeps-IsClosed Kept) Kept-IsClosedTool host dev
            eds_files (updated-Keeps dev))
          (record {
            same_keys = ap keys no_nodes ∙ sym (ap keys no_meta);
            distinct = subst (λ d. Distinct (keys d)) (sym no_nodes) empty;
            conforming = subst (All IsConforming) (sym no_updates) tt;
          })
          e in
      (record { same_keys = kept.same_keys; distinct = kept.distinct }, kept.conforming)
    where
      empty : Distinct []
      empty = tt
