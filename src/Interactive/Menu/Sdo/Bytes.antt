-- ===== src/Interactive/Menu/Sdo/Bytes.antt =====
-- The string that `write_sdo` of canopen-interactive/co.py writes to an array.
use canopen_tools.Prelude.{
  ℕ, ◌≡◌, refl, sym, ap, ◌∙◌, some, List, [], ◌∷◌, ◌++◌, map, append_assoc, append-nil,
}
use canopen_tools.Outcome.{IsCaught, Result, ok, raise}
use canopen_tools.Interactive.Session.{Inputs, done}
use canopen_tools.Interactive.Menu.{pure, after_try, attempt, continue, of_result, ◌>>=◌}
use canopen_tools.Interactive.Menu.Library.{Call, write_raw, Canopen, Tool, called, perform}
use canopen_tools.Interactive.Menu.Sdo.{enumerate, for_each, tried, write_bytes}

module _ {W N R : Type 0} (lib : Canopen W N R) where
  -- The calls that were made.
  abbrev pub calls : Tool W N R → List (Call N R)
  calls t = map (λ p. p.0) t.log

  map-append : {A B : Type 0} (f : A → B) (xs ys : List A) → map f (xs ++ ys) ≡ map f xs ++ map f ys
  map-append f [] ys = refl
  map-append f (x ∷ xs) ys = ap (λ l. f x ∷ l) (map-append f xs ys)

  called-calls : (c : Call N R) (t : Tool W N R) → calls (called lib c t).1 ≡ calls t ++ (c ∷ [])
  unfolding called
  called-calls c t = map-append (λ p. p.0) t.log _

  tried-caught :
      (r : Result (Unit {0})) (u : Tool W N R) (is : Inputs)
      → IsCaught r
      → continue (λ o. pure tt) (after_try (of_result r is) u).0 (after_try (of_result r is) u).1
        ≡ (done tt is, u)
  unfolding IsCaught
  tried-caught (ok x) u is h = refl
  tried-caught (raise e) u is h = rw h refl

  tried-perform :
      (c : Call N R) (t : Tool W N R) (is : Inputs)
      → IsCaught (lib.call c t.network).0
      → tried (perform lib c) t is ≡ (done tt is, (called lib c t).1)
  unfolding tried perform attempt called ◌>>=◌
  tried-perform c t is h = tried-caught (lib.call c t.network).0 (called lib c t).1 is h

  for_each-calls :
      {A : Type 0} (call_of : A → Call N R) (xs : List A) (t : Tool W N R) (is : Inputs)
      → ((c : Call N R) (w : W) → IsCaught (lib.call c w).0)
      → (calls (for_each (λ x. tried (perform lib (call_of x))) xs t is).1
          ≡ calls t ++ map call_of xs)
        × ((for_each (λ x. tried (perform lib (call_of x))) xs t is).0 ≡ done tt is)
  unfolding for_each ◌>>=◌
  for_each-calls call_of [] t is h = (sym (append-nil (calls t)), refl)
  for_each-calls call_of (x ∷ xs) t is h =
      let (logged, ended) = for_each-calls call_of xs (called lib (call_of x) t).1 is h in
      rw (tried-perform (call_of x) t is (h (call_of x) t.network)) (
        logged
            ∙ ap (λ l. l ++ map call_of xs) (called-calls (call_of x) t)
            ∙ append_assoc (calls t) (call_of x ∷ []) (map call_of xs),
        ended,
      )

  -- If no call is interrupted, a string is written byte by byte: each byte is written once, at the
  -- subindices from 1, in order, whatever the writes before it returned, and the loop ends.
  pub write_bytes-calls :
      (node : N) (index : ℕ) (bval : List ℕ) (t : Tool W N R) (is : Inputs)
      → ((c : Call N R) (w : W) → IsCaught (lib.call c w).0)
      → (calls (write_bytes lib node index bval t is).1
          ≡ calls t
            ++ map (λ p. write_raw node index (some p.0) (lib.of_byte p.1)) (enumerate 1 bval))
        × ((write_bytes lib node index bval t is).0 ≡ done tt is)
  unfolding write_bytes
  write_bytes-calls node index bval t is h =
      for_each-calls (λ p. write_raw node index (some p.0) (lib.of_byte p.1)) (enumerate 1 bval) t
        is h
