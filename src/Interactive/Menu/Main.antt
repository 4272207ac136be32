-- ===== src/Interactive/Menu/Main.antt =====
-- `main` of canopen-interactive/co.py: the connection, the loop of the menu, and its end.
use canopen_tools.Prelude.{
  ℕ, zero, suc, Bool, true, false, ◌&&◌, ◌==◌, Option, none, some, List, [], ◌∷◌, if◌then◌else◌,
}
use canopen_tools.Outcome.{Exn, Result, ok, raise, keyboard_interrupt}
use canopen_tools.Interactive.Text.{Text, codes, strip, ℤ, pos, int}
use canopen_tools.Interactive.Session.{Inputs, Answer, blocked, done, escaped, ask}
use canopen_tools.Interactive.Menu.{Menu, pure, reading, lift, continue, ◌>>=◌, ◌>>◌}
use canopen_tools.Interactive.Menu.Library.{connect, disconnect, Canopen, Tool, perform}
pub mod Ends
pub mod Returns
pub mod Closes
pub mod Keeps
pub mod Tables

-- `except KeyboardInterrupt`
abbrev pub is_interrupt : Exn → Bool
is_interrupt keyboard_interrupt = true
is_interrupt _ = false

-- `==` of texts.
unfoldable pub same_text : Text → Text → Bool
same_text [] [] = true
same_text (c ∷ s) (d ∷ t) = c == d && same_text s t
same_text [] (d ∷ t) = false
same_text (c ∷ s) [] = false

-- What the options 1 to 13 do; 3 and 4 call `choose_node` before `read_sdo` and `write_sdo`.
pub record Actions (T : Type 0) : Type 0 where
  pub add_node : Menu T (Unit {0})
  pub send_nmt : Menu T (Unit {0})
  pub read_sdo : Menu T (Unit {0})
  pub write_sdo : Menu T (Unit {0})
  pub send_pdo : Menu T (Unit {0})
  pub subscribe_tpdo : Menu T (Unit {0})
  pub subscribe_heartbeat : Menu T (Unit {0})
  pub unsubscribe_tpdo : Menu T (Unit {0})
  pub unsubscribe_heartbeat : Menu T (Unit {0})
  pub list_nodes : Menu T (Unit {0})
  pub show_node_state : Menu T (Unit {0})
  pub show_node_od_info : Menu T (Unit {0})
  pub flash_firmware : Menu T (Unit {0})

-- A text that is stripped, or the default if nothing is left.
unfoldable pub or_default : {A : Type 0} → A → (Text → Result A) → Text → Result A
or_default d f [] = ok d
or_default d f (c ∷ s) = f (c ∷ s)

module _ {T : Type 0} (acts : Actions T) where
  -- The `elif` chain of the options that are not the exit, with what is called.
  abbrev pub options : List (Text × Menu T (Unit {0}))
  options =
      (codes "1", acts.add_node)
      ∷ (codes "2", acts.send_nmt)
      ∷ (codes "3", acts.read_sdo)
      ∷ (codes "4", acts.write_sdo)
      ∷ (codes "5", acts.send_pdo)
      ∷ (codes "6", acts.subscribe_tpdo)
      ∷ (codes "7", acts.subscribe_heartbeat)
      ∷ (codes "8", acts.unsubscribe_tpdo)
      ∷ (codes "9", acts.unsubscribe_heartbeat)
      ∷ (codes "10", acts.list_nodes)
      ∷ (codes "11", acts.show_node_state)
      ∷ (codes "12", acts.show_node_od_info)
      ∷ (codes "13", acts.flash_firmware)
      ∷ []

module _ {T : Type 0} where
  -- The first option that `op` is, and otherwise `last`.
  unfoldable pub dispatch : Text → List (Text × Menu T (Unit {0})) → Menu T Bool → Menu T Bool
  dispatch op [] last = last
  dispatch op ((name, act) ∷ rest) last =
      if same_text op name then (act >>= λ u. pure false) else dispatch op rest last

  unfoldable pub leave : Text → Menu T (Unit {0}) → Menu T Bool
  leave op disconnects =
      if same_text op (codes "14") then (disconnects >>= λ u. pure true) else pure false

  -- A turn of the loop; it returns whether the loop is left.
  unfoldable pub turn : Actions T → Menu T (Unit {0}) → Menu T Bool
  unfolding dispatch leave
  turn acts disconnects = do
    s ← reading ask
    let op = strip s
    dispatch op (options acts) (leave op disconnects)

  -- Behind a turn: `break`, the next turn, or an exception.
  abbrev pub next_turn :
      (T → Inputs → Option (Answer (Unit {0}) × T))
      → Answer Bool × T
      → Option (Answer (Unit {0}) × T)
  next_turn more (blocked, t) = some (blocked, t)
  next_turn more (done true is, t) = some (done tt is, t)
  next_turn more (done false is, t) = more t is
  next_turn more (escaped e is, t) = some (escaped e is, t)

  -- `while True:`, as many turns as there is fuel for; `none` if the loop goes on behind them.
  unfoldable pub run_loop :
      ℕ → Actions T → Menu T (Unit {0}) → T → Inputs → Option (Answer (Unit {0}) × T)
  unfolding turn
  run_loop zero acts disconnects t is = none
  run_loop (suc fuel) acts disconnects t is =
      next_turn (run_loop fuel acts disconnects) (turn acts disconnects t is)

  -- `except KeyboardInterrupt: network.disconnect()`
  unfoldable pub on_interrupt : Menu T (Unit {0}) → Answer (Unit {0}) × T → Answer (Unit {0}) × T
  on_interrupt disconnects (blocked, t) = (blocked, t)
  on_interrupt disconnects (done u is, t) = (done u is, t)
  on_interrupt disconnects (escaped e is, t) =
      if is_interrupt e then disconnects t is else (escaped e is, t)

module _ {W N R : Type 0} (lib : Canopen W N R) where
  -- Before the loop: the interface, the bit rate and the connection.
  unfoldable pub connected : Menu (Tool W N R) (Unit {0})
  unfolding or_default
  connected = do
    interface ← reading ask
    baud_str ← reading ask
    channel ← lift (or_default (codes "vcan0") (λ s. ok s) (strip interface))
    baudrate ← lift (or_default (pos 125000) int (strip baud_str))
    perform lib (connect channel baudrate)

  -- The loop, and what follows it.
  unfoldable pub looped :
      ℕ → Actions (Tool W N R) → Tool W N R → Inputs → Option (Answer (Unit {0}) × Tool W N R)
  unfolding run_loop on_interrupt
  looped fuel acts t is = elim (run_loop fuel acts (perform lib disconnect) t is) [
    | none ↦ none
    | some out ↦ some (on_interrupt (perform lib disconnect) out)
  ]

  unfoldable pub start_loop :
      ℕ
      → Actions (Tool W N R)
      → Answer (Unit {0}) × Tool W N R
      → Option (Answer (Unit {0}) × Tool W N R)
  unfolding looped
  start_loop fuel acts (done u is, t) = looped fuel acts t is
  start_loop fuel acts out = some out

  unfoldable pub main :
      ℕ → Actions (Tool W N R) → Tool W N R → Inputs → Option (Answer (Unit {0}) × Tool W N R)
  unfolding connected start_loop
  main fuel acts t is = start_loop fuel acts (connected t is)
