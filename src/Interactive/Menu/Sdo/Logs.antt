-- ===== src/Interactive/Menu/Sdo/Logs.antt =====
-- Which calls `read_sdo` and `write_sdo` of canopen-interactive/co.py make.
use canopen_tools.Prelude.{ℕ, Option, List, [], ◌∷◌, ◌++◌}
use canopen_tools.Outcome.{Result}
use canopen_tools.Interactive.Menu.Library.{
  Call, read_raw, write_raw, Canopen, Tool, perform, called, read_value, got,
}
use canopen_tools.Interactive.Menu.Main.Keeps.{Keeps}

module _ {N R : Type 0} where
  -- The log has grown by calls of a kind.
  pub data Grows (Q : Call N R → Type 0) (before : List (Call N R × Result (Unit {0})))
      : List (Call N R × Result (Unit {0})) → Type 0 where
    same : Grows Q before before
    more :
        (l : List (Call N R × Result (Unit {0}))) (c : Call N R) (r : Result (Unit {0}))
        → Grows Q before l
        → Q c
        → Grows Q before (l ++ ((c, r) ∷ []))

  -- A reading of an object of a node.
  pub data IsRead (node : N) (index : ℕ) : Call N R → Type 0 where
    is_read : (sub : Option ℕ) → IsRead node index (read_raw node index sub)

  -- An access to an object of a node.
  pub data IsAccess (node : N) (index : ℕ) : Call N R → Type 0 where
    reads_object : (sub : Option ℕ) → IsAccess node index (read_raw node index sub)
    writes_object : (sub : Option ℕ) (r : R) → IsAccess node index (write_raw node index sub r)

module _ {W N R : Type 0} (lib : Canopen W N R) (Q : Call N R → Type 0)
    (before : List (Call N R × Result (Unit {0}))) where
  abbrev pub Since : Tool W N R → Type 0
  Since t = Grows Q before t.log

  pub perform-Since : (c : Call N R) → Q c → Keeps Since (perform lib c)
  unfolding perform called
  perform-Since c q t is h = more t.log c _ h q

  pub read_value-Since :
      (node : N) (index : ℕ) (sub : Option ℕ)
      → Q (read_raw node index sub)
      → Keeps Since (read_value lib node index sub)
  unfolding read_value got
  read_value-Since node index sub q t is h = more t.log (read_raw node index sub) _ h q
