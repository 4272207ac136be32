-- ===== src/Interactive/Menu/Subscribe/Hides.antt =====
-- `unsubscribe_tpdo` of canopen-interactive/co.py on a subscription that has a callback.
use canopen_tools.Prelude.{
  ℕ, ◌-◌, ◌≡◌, refl, sym, subst, none, some, List, [], ◌∷◌, map, length, get_elem?,
}
use canopen_tools.Outcome.{IsCaught, Result, ok, raise}
use canopen_tools.Interactive.Text.{ℤ}
use canopen_tools.Interactive.Dict.{get, get-pop}
use canopen_tools.Interactive.Monitor.{
  Feed, removed, unsubscribe_found, unsubscribe_looked_up, unsubscribe_pdo, forget,
}
use canopen_tools.Interactive.Session.{Inputs, done, choose_number}
use canopen_tools.Interactive.Session.Chosen.{index_lem}
use canopen_tools.Interactive.Menu.{same_int, ◌>>=◌}
use canopen_tools.Interactive.Menu.Library.{Canopen, Tool}
use canopen_tools.Interactive.Menu.Subscribe.{
  same_key, monitor_unsubscribe_pdo, unsubscribe_pdo_at, unsubscribe_pdo_among, unsubscribe_tpdo,
}

module _ {W N R : Type 0} (lib : Canopen W N R) where
  removed-hides :
      (k : ℤ × ℕ) (w : W) (f : Feed (ℤ × ℕ) R) (r : Result W)
      → IsCaught r
      → get same_key k (removed lib.pdo_callbacks same_key k (w, f) r).1.1.subscribed ≡ none
  unfolding removed forget IsCaught
  removed-hides k w f (ok v) h = get-pop same_key k f.subscribed
  removed-hides k w f (raise e) h = rw h (get-pop same_key k f.subscribed)

  unsubscribe_pdo-hides :
      (k : ℤ × ℕ) (ref : ℕ) (w : W) (f : Feed (ℤ × ℕ) R)
      → lib.pdo_callbacks.find k w ≡ ok tt
      → get same_key k f.callbacks ≡ some ref
      → IsCaught (lib.pdo_callbacks.remove k ref w)
      → get same_key k (unsubscribe_pdo lib.pdo_callbacks same_key k (w, f)).1.1.subscribed ≡ none
  unfolding unsubscribe_pdo unsubscribe_looked_up unsubscribe_found
  unsubscribe_pdo-hides k ref w f found e h =
      rw (found, e) (removed-hides k w f (lib.pdo_callbacks.remove k ref w) h)

  at-hides :
      (node : N) (k : ℤ × ℕ) (ref : ℕ) (t : Tool W N R) (is : Inputs)
      → lib.id node ≡ k.0
      → lib.pdo_callbacks.find k t.network ≡ ok tt
      → get same_key k t.pdos.callbacks ≡ some ref
      → IsCaught (lib.pdo_callbacks.remove k ref t.network)
      → get same_key k (unsubscribe_pdo_at lib k.1 (some node) t is).1.pdos.subscribed ≡ none
  unfolding unsubscribe_pdo_at monitor_unsubscribe_pdo
  at-hides node k ref t is i found e h =
      subst
        (λ j.
          get same_key k
            (unsubscribe_pdo lib.pdo_callbacks same_key (j, k.1) (t.network, t.pdos)).1.1.subscribed
          ≡ none)
        (sym i) (unsubscribe_pdo-hides k ref t.network t.pdos found e h)

  among-at :
      (current : List (ℤ × ℕ)) (k : ℤ × ℕ) (node : N) (c : ℕ) (t : Tool W N R) (is rest : Inputs)
      → choose_number (length current) is ≡ done c rest
      → get_elem? current (c - 1) ≡ some k
      → get same_int k.0 t.nodes ≡ some node
      → unsubscribe_pdo_among lib current t is ≡ unsubscribe_pdo_at lib k.1 (some node) t rest
  unfolding unsubscribe_pdo_among ◌>>=◌
  among-at [] k node c t is rest e f g = absurd (cc f)
  among-at (j ∷ current) k node c t is rest e f g =
      rw (e, index_lem (j ∷ current) (c - 1) k f, g) refl

  -- Choosing the number of a subscription drops its entry, so that it is no longer among those that are
  -- shown, if its callback is recorded, the key's node is there under its own ID, the lookup of its
  -- PDO raises nothing, and no interrupt arrives while the callback is removed, whether the library
  -- can remove it or not. That no event shows it again is not said.
  pub unsubscribe_tpdo-hides :
      (k : ℤ × ℕ) (node : N) (ref c : ℕ) (t : Tool W N R) (is rest : Inputs)
      → choose_number (length (map (λ p. p.0) t.pdos.subscribed)) is ≡ done c rest
      → get_elem? (map (λ p. p.0) t.pdos.subscribed) (c - 1) ≡ some k
      → get same_int k.0 t.nodes ≡ some node
      → lib.id node ≡ k.0
      → lib.pdo_callbacks.find k t.network ≡ ok tt
      → get same_key k t.pdos.callbacks ≡ some ref
      → IsCaught (lib.pdo_callbacks.remove k ref t.network)
      → get same_key k (unsubscribe_tpdo lib t is).1.pdos.subscribed ≡ none
  unfolding unsubscribe_tpdo ◌>>=◌
  unsubscribe_tpdo-hides k node ref c t is rest e f g i found m h =
      rw (among-at (map (λ p. p.0) t.pdos.subscribed) k node c t is rest e f g)
        (at-hides node k ref t rest i found m h)
