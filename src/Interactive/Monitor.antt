-- ===== src/Interactive/Monitor.antt =====
-- `EventMonitor` of canopen-interactive/co.py: what it shows, and the callbacks that it registers
-- with the nodes.
use canopen_tools.Prelude.{
  ℕ, Bool, true, ◌&&◌, ◌==◌, Option, none, some, List, [], ◌∷◌, if◌then◌else◌,
}
use canopen_tools.Outcome.{Result, ok, raise, attribute_error, is_exception, ◌>>◌}
use canopen_tools.Interactive.Dict.{get, set, pop}
pub mod Laws
pub mod Hidden
pub mod Tracked
pub mod Removal
pub mod Races
pub mod Render

-- (node_id, pdo_num)
abbrev pub PdoKey : Type 0
PdoKey = ℕ × ℕ

abbrev pub same_pdo : PdoKey → PdoKey → Bool
same_pdo (a, b) (c, d) = (a == c) && (b == d)

-- The callback lists of python-canopen, in a state `N`; a callback is known by a number. `remove` may
-- fail and leave a callback where it is: a PDO of the library has no documented `remove_callback`. `append` is
-- the fallback for older versions, and `remove` for heartbeats is the one of the two calls that
-- `hasattr` selects.
pub record Callbacks (N K : Type 0) : Type 0 where
  -- `node.tpdo[pdo_num]`, which raises KeyError for a number that is not there.
  pub find : K → N → Result (Unit {0})
  pub add : K → ℕ → N → Result N
  pub append : K → ℕ → N → Result N
  pub remove : K → ℕ → N → Result N
  -- Whether the library calls the callback when something arrives for the key.
  pub live : K → ℕ → N → Bool

-- The two dictionaries for one kind of event (`subscribed_pdos` and `pdo_callbacks`, or
-- `subscribed_hbs` and `hb_callbacks`), and `force_refresh`.
pub record Feed (K V : Type 0) : Type 0 where
  pub subscribed : List (K × V)
  pub callbacks : List (K × ℕ)
  pub force_refresh : Bool

abbrev pub State : Type 0 → Type 0 → Type 0 → Type 0
State N K V = N × Feed K V

-- `except AttributeError`: older versions have a list only.
unfoldable pub or_append : {N K : Type 0} → Callbacks N K → K → ℕ → N → Result N → Result N
or_append lib key ref w (raise attribute_error) = lib.append key ref w
or_append lib key ref w r = r

module _ {N K V : Type 0} (lib : Callbacks N K) (same : K → K → Bool) where
  -- The callback's body: the value is shown, under the lock, and the screen refreshed. One that raises
  -- while the value is made stores nothing, and is no event here.
  unfoldable pub callback : K → V → Feed K V → Feed K V
  callback key v f = record {
    subscribed = set same key v f.subscribed;
    callbacks = f.callbacks;
    force_refresh = true;
  }

  -- The callback is recorded once it is registered.
  unfoldable pub recorded : K → ℕ → State N K V → Result N → Result (Unit {0}) × State N K V
  recorded key ref (w, f) (ok n) = (
    ok tt,
    (
      n,
      record {
        subscribed = f.subscribed;
        callbacks = set same key ref f.callbacks;
        force_refresh = f.force_refresh;
      },
    ),
  )
  recorded key ref s (raise e) = (raise e, s)

  unfoldable pub subscribe_pdo : K → ℕ → State N K V → Result (Unit {0}) × State N K V
  unfolding recorded
  subscribe_pdo key ref s = recorded key ref s (lib.find key s.0 >> lib.add key ref s.0)

  unfoldable pub subscribe_heartbeat : K → ℕ → State N K V → Result (Unit {0}) × State N K V
  unfolding recorded or_append
  subscribe_heartbeat key ref s =
      recorded key ref s (or_append lib key ref s.0 (lib.add key ref s.0))

  -- Both entries are dropped, under the lock, and the screen is refreshed.
  unfoldable pub forget : K → Feed K V → Feed K V
  forget key f = record {
    subscribed = pop same key f.subscribed;
    callbacks = pop same key f.callbacks;
    force_refresh = true;
  }

  -- `except Exception: pass` around the removal.
  unfoldable pub removed : K → State N K V → Result N → Result (Unit {0}) × State N K V
  unfolding forget
  removed key (w, f) (ok n) = (ok tt, (n, forget key f))
  removed key (w, f) (raise e) =
      if is_exception e then (ok tt, (w, forget key f)) else (raise e, (w, f))

  unfoldable pub unsubscribe_found : K → State N K V → Option ℕ → Result (Unit {0}) × State N K V
  unfolding removed
  unsubscribe_found key s none = (ok tt, s)
  unsubscribe_found key s (some ref) = removed key s (lib.remove key ref s.0)

  -- Behind the lookup of the PDO, which is outside of the `try`.
  unfoldable pub unsubscribe_looked_up :
      K → State N K V → Result (Unit {0}) → Result (Unit {0}) × State N K V
  unfolding unsubscribe_found
  unsubscribe_looked_up key s (ok u) = unsubscribe_found key s (get same key s.1.callbacks)
  unsubscribe_looked_up key s (raise e) = (raise e, s)

  unfoldable pub unsubscribe_pdo : K → State N K V → Result (Unit {0}) × State N K V
  unfolding unsubscribe_looked_up
  unsubscribe_pdo key s = unsubscribe_looked_up key s (lib.find key s.0)

  unfoldable pub unsubscribe_heartbeat : K → State N K V → Result (Unit {0}) × State N K V
  unfolding unsubscribe_found
  unsubscribe_heartbeat key s = unsubscribe_found key s (get same key s.1.callbacks)

  -- Something arrives: the library calls a callback that is registered with it.
  unfoldable pub arrive : K → ℕ → V → State N K V → State N K V
  unfolding callback
  arrive key ref v (w, f) = if lib.live key ref w then (w, callback key v f) else (w, f)
