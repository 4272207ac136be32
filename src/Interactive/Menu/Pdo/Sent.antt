-- ===== src/Interactive/Menu/Pdo/Sent.antt =====
-- What `send_pdo` of canopen-interactive/co.py sends.
use canopen_tools.Prelude.{
  ℕ, suc, ◌≤◌, ◌≡◌, refl, sym, ap, subst, ◌∙◌, ◌==◌, ==_iff, Bool, true, false, some, List, [], ◌∷◌,
  ◌++◌, length, arith,
}
use canopen_tools.Outcome
use canopen_tools.Outcome.{Exn, Result, ok, raise}
use canopen_tools.Interactive.Text.{Text}
use canopen_tools.Interactive.Text.Values.{values_of}
use canopen_tools.Interactive.Session.{Inputs, ask, choose_number}
use canopen_tools.Interactive.Session.Bounds.{choose_number-bounds}
use canopen_tools.Interactive.Menu.{Menu, of_result, continue, ◌>>=◌}
use canopen_tools.Interactive.Menu.Rules.{continue-ends, of_result-done, tried-state}
use canopen_tools.Interactive.Menu.Library.{
  Call, set_data, transmit, Canopen, Tool, called, perform,
}
use canopen_tools.Interactive.Menu.Pdo.{
  convert, send_values, send_mapped, send_rpdo, send_pdo_of, send_pdo_to,
}

module _ {W N R : Type 0} (lib : Canopen W N R) where
  -- An RPDO that the node has, and a value for each variable that is mapped to it, one at least.
  pub record Fits (node : N) (n : ℕ) (values : List R) : Type 0 where
    pub count : ℕ
    pub has_count : lib.rpdo_count node ≡ ok count
    pub first : 1 ≤ n
    pub last : n ≤ count
    pub maps : List (Text → Result R)
    pub has_maps : lib.rpdo_maps node n ≡ ok maps
    pub not_empty : 1 ≤ length values
    pub same_length : length values ≡ length maps

  -- The calls that may be logged: none, the values, or the values and behind them the RPDO.
  pub data Sent (node : N) (before : List (Call N R × Result (Unit {0})))
      : List (Call N R × Result (Unit {0})) → Type 0 where
    quiet : Sent node before before
    refused :
        (n : ℕ) (values : List R) (e : Exn)
        → Fits node n values
        → Sent node before (before ++ ((set_data node n values, raise e) ∷ []))
    sent :
        (n : ℕ) (values : List R) (r : Result (Unit {0}))
        → Fits node n values
        → Sent node before
            ((before ++ ((set_data node n values, ok tt) ∷ [])) ++ ((transmit node n, r) ∷ []))

bind-ok :
    {A B : Type 0} (m : Result A) (f : A → Result B) (b : B)
    → Outcome.◌>>=◌ m f ≡ ok b
    → (a : A) × (m ≡ ok a) × (f a ≡ ok b)
bind-ok (ok a) f b e = (a, refl, e)
bind-ok (raise x) f b e = absurd (cc e)

ok-length :
    {R : Type 0} (qs rs : List R)
    → ◌≡◌ {A = Result (List R)} (ok qs) (ok rs)
    → length qs ≡ length rs
ok-length {R = R} qs rs e = ap list_length e
  where
    list_length : Result (List R) → ℕ
    list_length (ok ps) = length ps
    list_length (raise x) = 0

convert-length :
    {R : Type 0} (vs : List Text) (maps : List (Text → Result R)) (rs : List R)
    → length vs ≡ length maps
    → convert vs maps ≡ ok rs
    → length rs ≡ length maps
unfolding convert
convert-length [] [] rs h e = sym (ok-length [] rs e)
convert-length [] (dtype ∷ maps) rs h e = absurd (omega (arith, h))
convert-length (v ∷ vs) [] rs h e = absurd (omega (arith, h))
convert-length (v ∷ vs) (dtype ∷ maps) rs h e =
    let (r, value, rest) = bind-ok (dtype v) _ rs e in
    let (qs, others, whole) = bind-ok (convert vs maps) _ rs rest in
    sym (ok-length (r ∷ qs) rs whole) ∙ ap suc (convert-length vs maps qs (omega (arith, h)) others)

module _ {W N R : Type 0} (lib : Canopen W N R) (node : N) where
  -- The last part: the values, and behind them the RPDO.
  transmits :
      (n : ℕ) (values : List R) (t : Tool W N R) (is : Inputs)
      → Fits lib node n values
      → Sent lib node t.log
          ((perform lib (set_data node n values) >>= λ u. perform lib (transmit node n)) t is).1.log
  unfolding perform called ◌>>=◌
  transmits n values t is h = go (lib.call (set_data node n values) t.network)
    where
      go :
          (r : Result (Unit {0}) × W)
          → Sent lib node t.log
              (continue
                (λ u. perform lib (transmit node n))
                (of_result r.0 is)
                (record t {
                  network = r.1;
                  log = t.log ++ ((set_data node n values, r.0) ∷ []);
                })).1.log
      go (ok u, w) = sent n values _ h
      go (raise e, w) = refused n values e h

  abbrev Sends : Menu (Tool W N R) (Unit {0}) → Type 0
  Sends m = (t : Tool W N R) (is : Inputs) → Sent lib node t.log (m t is).1.log

  send_values-Sends :
      (count n : ℕ) (maps : List (Text → Result R)) (vs : List Text) (b : Bool)
      → (length vs == length maps) ≡ b
      → (length maps == 0) ≡ false
      → lib.rpdo_count node ≡ ok count
      → (1 ≤ n) × (n ≤ count)
      → lib.rpdo_maps node n ≡ ok maps
      → Sends (send_values lib node n maps vs b)
  unfolding send_values ◌>>=◌
  send_values-Sends count n maps vs false same some_mapped e range f t is = quiet
  send_values-Sends count n maps vs true same some_mapped e range f t is =
      continue-ends (λ u. Sent lib node t.log u.log) _ (of_result (convert vs maps) is) t quiet
        (λ values js g. transmits n values t js (fits values (of_result-done _ is js values g)))
    where
      fits : (values : List R) → convert vs maps ≡ ok values → Fits lib node n values
      fits values g = record {
        count = count;
        has_count = e;
        first = range.0;
        last = range.1;
        maps = maps;
        has_maps = f;
        not_empty =
            ground (arith, some_mapped, convert-length vs maps values ((==_iff _ _).0 same) g);
        same_length = convert-length vs maps values ((==_iff _ _).0 same) g;
      }

  send_mapped-Sends :
      (count n : ℕ) (maps : List (Text → Result R)) (b : Bool)
      → (length maps == 0) ≡ b
      → lib.rpdo_count node ≡ ok count
      → (1 ≤ n) × (n ≤ count)
      → lib.rpdo_maps node n ≡ ok maps
      → Sends (send_mapped lib node n maps b)
  unfolding send_mapped ◌>>=◌
  send_mapped-Sends count n maps true none_mapped e range f t is = quiet
  send_mapped-Sends count n maps false some_mapped e range f t is =
      continue-ends (λ u. Sent lib node t.log u.log) _ (ask is) t quiet
        (λ s js g. send_values-Sends count n maps (values_of s) _ refl some_mapped e range f t js)

  send_rpdo-Sends :
      (count : ℕ) (b : Bool) → lib.rpdo_count node ≡ ok count → Sends (send_rpdo lib node count b)
  unfolding send_rpdo ◌>>=◌
  send_rpdo-Sends count true e t is = quiet
  send_rpdo-Sends count false e t is =
      continue-ends (λ u. Sent lib node t.log u.log) _ (choose_number count is) t quiet
        (λ n js g.
          continue-ends (λ u. Sent lib node t.log u.log) _ (of_result (lib.rpdo_maps node n) js) t
            quiet
            (λ maps ks h.
              send_mapped-Sends count n maps _ refl e (choose_number-bounds count is js n g)
                (of_result-done _ js ks maps h) t ks))

  send_pdo_of-Sends : Sends (send_pdo_of lib node)
  unfolding send_pdo_of ◌>>=◌
  send_pdo_of-Sends t is =
      continue-ends (λ u. Sent lib node t.log u.log) _ (of_result (lib.rpdo_count node) is) t quiet
        (λ count js g. send_rpdo-Sends count (count == 0) (of_result-done _ is js count g) t js)

  -- For a node, `send_pdo` hands over values at most once, as many as there are variables mapped to
  -- an RPDO that the node has, one at least, and transmits that RPDO at most once, and only behind
  -- values that were taken. It makes no other call.
  pub send_pdo_to-Sent :
      (t : Tool W N R) (is : Inputs) → Sent lib node t.log (send_pdo_to lib (some node) t is).1.log
  unfolding send_pdo_to ◌>>=◌
  send_pdo_to-Sent t is =
      subst (λ (u : Tool W N R). Sent lib node t.log u.log)
        (sym (tried-state (send_pdo_of lib node) t is)) (send_pdo_of-Sends t is)
