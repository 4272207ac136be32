-- ===== src/Interactive/Menu/Sdo/Chosen.antt =====
-- The object that `read_sdo` and `write_sdo` of canopen-interactive/co.py access.
use mathlib.Core.List.{Perm}
use canopen_tools.Prelude.{ℕ, ◌≡◌, refl, some, List, get_elem?}
use canopen_tools.Outcome.{Result}
use canopen_tools.Interactive.Text.{Text}
use canopen_tools.Interactive.Session.{Inputs, ask, choose}
use canopen_tools.Interactive.Session.Bounds.{choose-entry}
use canopen_tools.Interactive.Menu.{Menu, reading, ◌>>=◌}
use canopen_tools.Interactive.Menu.Rules.{continue-ends}
use canopen_tools.Interactive.Menu.Library.{Object, Call, write_raw, Canopen, Tool}
use canopen_tools.Interactive.Menu.Objects.{named}
use canopen_tools.Interactive.Menu.Objects.Sorted.{
  Ascending, sort-Ascending, sort-Perm, Picked, named-Picked,
}
use canopen_tools.Interactive.Menu.Main.Keeps.{Keeps, Keeps-IsClosed, bind-Keeps}
use canopen_tools.Interactive.Menu.Sdo.{list_od_entries, choose_od_entry, read_sdo, write_sdo}
use canopen_tools.Interactive.Menu.Sdo.Parts.{tried-Closed, read_object-Closed, write_object-Closed}
use canopen_tools.Interactive.Menu.Sdo.Logs.{
  Grows, same, IsRead, is_read, IsAccess, reads_object, writes_object, Since, perform-Since,
  read_value-Since,
}

module _ {W N R : Type 0} (lib : Canopen W N R) where
  -- The log has grown by calls that are all of a kind for one object that the node's menu lists, or
  -- not at all.
  pub data OfOne (Kind : N → ℕ → Call N R → Type 0) (node : N)
      (before after : List (Call N R × Result (Unit {0}))) : Type 0 where
    none_made : after ≡ before → OfOne Kind node before after
    of_one :
        (i index : ℕ) (obj : Object)
        → get_elem? (list_od_entries lib node) i ≡ some (index, obj)
        → Grows (Kind node index) before after
        → OfOne Kind node before after

  chosen-OfOne :
      (Kind : N → ℕ → Call N R → Type 0) (node : N) (m : ℕ × Object → Menu (Tool W N R) (Unit {0}))
      (t : Tool W N R) (is : Inputs)
      → ((index : ℕ) (obj : Object) (js : Inputs)
          → Grows (Kind node index) t.log (m (index, obj) t js).1.log)
      → OfOne Kind node t.log ((choose_od_entry lib node >>= m) t is).1.log
  unfolding choose_od_entry ◌>>=◌
  chosen-OfOne Kind node m t is h =
      continue-ends (λ (u : Tool W N R). OfOne Kind node t.log u.log) m
        (choose (list_od_entries lib node) is) t (none_made refl)
        (λ entry js e.
          let (i, g) = choose-entry (list_od_entries lib node) is js entry e in
          of_one i entry.0 entry.1 g (h entry.0 entry.1 js))

  -- `read_sdo` calls the library only to read, and only one object, which is in the node's menu.
  pub read_sdo-OfOne :
      (node : N) (t : Tool W N R) (is : Inputs)
      → OfOne IsRead node t.log (read_sdo lib node t is).1.log
  unfolding read_sdo
  read_sdo-OfOne node t is = chosen-OfOne IsRead node _ t is (λ index obj js.
      bind-Keeps (Since lib (IsRead node index) t.log) _ _
        (tried-Closed lib (λ A m. Keeps (Since lib (IsRead node index) t.log) m)
          (Keeps-IsClosed (Since lib (IsRead node index) t.log)) _
          (read_object-Closed lib (λ A m. Keeps (Since lib (IsRead node index) t.log) m)
            (Keeps-IsClosed (Since lib (IsRead node index) t.log)) node index
            (λ sub. read_value-Since lib (IsRead node index) t.log node index sub (is_read sub)) obj
            _))
        (λ u.
          bind-Keeps (Since lib (IsRead node index) t.log) (reading ask) _ (λ v ks p. p)
            (λ s v ks p. p))
        t js same)

  -- `write_sdo` calls the library only to read and to write one object, which is in the node's menu.
  pub write_sdo-OfOne :
      (encode : Text → Result (List ℕ)) (node : N) (t : Tool W N R) (is : Inputs)
      → OfOne IsAccess node t.log (write_sdo lib encode node t is).1.log
  unfolding write_sdo
  write_sdo-OfOne encode node t is = chosen-OfOne IsAccess node _ t is (λ index obj js.
      bind-Keeps (Since lib (IsAccess node index) t.log) _ _
        (tried-Closed lib (λ A m. Keeps (Since lib (IsAccess node index) t.log) m)
          (Keeps-IsClosed (Since lib (IsAccess node index) t.log)) _
          (write_object-Closed lib (λ A m. Keeps (Since lib (IsAccess node index) t.log) m)
            (Keeps-IsClosed (Since lib (IsAccess node index) t.log)) node index
            (λ sub.
              read_value-Since lib (IsAccess node index) t.log node index sub (reads_object sub))
            encode
            (λ sub r.
              perform-Since lib (IsAccess node index) t.log (write_raw node index sub r)
                (writes_object sub r))
            obj _ _))
        (λ u.
          bind-Keeps (Since lib (IsAccess node index) t.log) (reading ask) _ (λ v ks p. p)
            (λ s v ks p. p))
        t js same)

  -- The menu of objects: those of the node's dictionary that have a name which is not empty, each as
  -- often as there, and no others, in ascending order of their indexes.
  pub list_od_entries-Ascending :
      (node : N)
      → (entries : List (ℕ × Object)) × Picked (lib.object_dictionary node) entries
        × Perm (list_od_entries lib node) entries
        × Ascending (list_od_entries lib node)
  unfolding list_od_entries
  list_od_entries-Ascending node = (
    named (lib.object_dictionary node),
    named-Picked (lib.object_dictionary node),
    sort-Perm (named (lib.object_dictionary node)),
    sort-Ascending (named (lib.object_dictionary node)),
  )
