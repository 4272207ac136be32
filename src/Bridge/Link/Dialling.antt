-- ===== src/Bridge/Link/Dialling.antt =====
-- How `_accept_once` and `_connect_once` of can-tcp-bridge/can-tcp-bridge-server/can_tcp_bridge.py
-- go on after a call that made no connection.
use canopen_tools.Prelude.{ℕ, Bool, true, false, ◌≡◌, refl, some, List, [], ◌∷◌, ◌++◌}
use canopen_tools.Outcome.{Exn, ok, raise, timeout, is_os_error}
use canopen_tools.Bridge.Link.{
  Link, install, Dial, dialled, settle_accept, accept_turns, accept_once, settle_connect,
  connect_turns, connect_once,
}

-- Rounds that end with no connection, each with an exception that `P` holds of, while no stop is
-- asked for.
pub data AllFail (keep : Bool) (P : Exn → Type 0) : List Dial → Type 0 where
  nil : AllFail keep P []
  cons :
      {d : Dial} {ds : List Dial} (e : Exn)
      → d.stop_set ≡ false
      → dialled keep d ≡ raise e
      → P e
      → AllFail keep P ds
      → AllFail keep P (d ∷ ds)

abbrev pub IsTimeout : Exn → Type 0
IsTimeout e = e ≡ timeout

abbrev pub IsOsError : Exn → Type 0
IsOsError e = is_os_error e ≡ true

module _ (keep : Bool) (d : Dial) (later : List Dial) (c : ℕ) (st : Link) where
  accept_turns-after_timeouts :
      (ds : List Dial)
      → AllFail keep IsTimeout ds
      → d.stop_set ≡ false
      → dialled keep d ≡ ok c
      → accept_turns keep (ds ++ (d ∷ later)) st ≡ (some (ok tt), install c st)
  unfolding accept_turns settle_accept
  accept_turns-after_timeouts [] nil go made = rw (go, made) refl
  accept_turns-after_timeouts (x ∷ ds) (cons e clear failed t rest) go made =
      rw (clear, failed, t, accept_turns-after_timeouts ds rest go made) refl

  connect_turns-after_errors :
      (ds : List Dial)
      → AllFail keep IsOsError ds
      → d.stop_set ≡ false
      → dialled keep d ≡ ok c
      → connect_turns keep (ds ++ (d ∷ later)) st ≡ (some (ok tt), install c st)
  unfolding connect_turns settle_connect
  connect_turns-after_errors [] nil go made = rw (go, made) refl
  connect_turns-after_errors (x ∷ ds) (cons e clear failed t rest) go made =
      rw (clear, failed, t, connect_turns-after_errors ds rest go made) refl

-- The server's `_accept_once` installs the first connection that it accepts, after any number of
-- timeouts; the client's `_connect_once` the first that it makes, after any number of errors of the
-- class OSError. Both as long as no stop is asked for, once the port is read, and the server once
-- `bind` and `listen` succeeded.
pub dial-after_failures :
    (keep : Bool) (timeouts errors : List Dial) (d : Dial) (later : List Dial) (c : ℕ) (st : Link)
    → AllFail keep IsTimeout timeouts
    → AllFail keep IsOsError errors
    → d.stop_set ≡ false
    → dialled keep d ≡ ok c
    → (accept_once keep (ok tt) (timeouts ++ (d ∷ later)) st ≡ (some (ok tt), install c st))
      × (connect_once keep (ok tt) (errors ++ (d ∷ later)) st ≡ (some (ok tt), install c st))
unfolding accept_once connect_once
dial-after_failures keep timeouts errors d later c st ht he go made = (
  accept_turns-after_timeouts keep d later c st timeouts ht go made,
  connect_turns-after_errors keep d later c st errors he go made,
)
