-- ===== src/Interactive/Monitor/Render/Lines.antt =====
-- The lines of `render_monitor` in canopen-interactive/co.py.
use mathlib.Core.List.{Perm}
use canopen_tools.Prelude.{
  ℕ, Bool, true, false, ◌≡◌, refl, inl, inr, Bool-cases, List, [], ◌∷◌, ◌++◌, map, arith,
}
use canopen_tools.Interactive.Text.{Text, codes, ℤ, pos, negsuc}
use canopen_tools.Interactive.Sorting.{
  insert_item, IsOrder, Ascending, sorted, sorted-Perm, sorted-Ascending,
}
use canopen_tools.Interactive.Monitor.Render.{
  leb_int, leb_key, Shown, Formats, pdo_line, hb_line, bar, pdo_lines, hb_lines, render_monitor,
}

leb_int-total : (a b : ℤ) → leb_int a b ≡ false → leb_int b a ≡ true
leb_int-total (pos m) (pos n) e = ground arith
leb_int-total a b e = ground arith

leb_int-transitive : (a b c : ℤ) → leb_int a b ≡ true → leb_int b c ≡ true → leb_int a c ≡ true
leb_int-transitive (pos m) (pos n) (pos k) e f = ground arith
leb_int-transitive a b c e f = ground arith

leb_int-IsOrder : IsOrder leb_int
leb_int-IsOrder = record { total = leb_int-total; transitive = leb_int-transitive }

leb_key-total : (p q : ℤ × ℕ) → leb_key p q ≡ false → leb_key q p ≡ true
leb_key-total (pos a, m) (pos b, n) e = ground arith
leb_key-total (negsuc a, m) (negsuc b, n) e = ground arith
leb_key-total (a, m) (b, n) e = ground arith

leb_key-transitive : (p q r : ℤ × ℕ) → leb_key p q ≡ true → leb_key q r ≡ true → leb_key p r ≡ true
leb_key-transitive (pos a, m) (pos b, n) (pos c, k) e f = ground arith
leb_key-transitive (a, m) (b, n) (c, k) e f = ground arith

leb_key-IsOrder : IsOrder leb_key
leb_key-IsOrder = record { total = leb_key-total; transitive = leb_key-transitive }

-- The lines of a table, or one line that says that there are none.
abbrev pub or_line : Text → List Text → List Text
or_line nothing [] = nothing ∷ []
or_line nothing (l ∷ ls) = l ∷ ls

insert_item-or_line :
    {K V : Type 0} (below : K → K → Bool) (f : K × V → Text) (nothing : Text) (p : K × V)
    (ps : List (K × V))
    → map f (insert_item below p ps) ≡ or_line nothing (map f (insert_item below p ps))
unfolding insert_item
insert_item-or_line below f nothing p [] = refl
insert_item-or_line below f nothing p (q ∷ qs) = elim (Bool-cases (below p.0 q.0)) [
  | inl e ↦ rw e refl
  | inr e ↦ rw e refl
]

module _ {V Time : Type 0} (formats : Formats V Time) where
  pdo_lines-or_line :
      (pdos : List ((ℤ × ℕ) × Shown V Time))
      → pdo_lines formats pdos
        ≡ or_line (codes "(no PDO subscriptions)") (map (pdo_line formats) (sorted leb_key pdos))
  unfolding pdo_lines sorted
  pdo_lines-or_line [] = refl
  pdo_lines-or_line (p ∷ ps) =
      insert_item-or_line leb_key (pdo_line formats) _ p (sorted leb_key ps)

  hb_lines-or_line :
      (hbs : List (ℤ × Shown ℕ Time))
      → hb_lines formats hbs
        ≡ or_line
            (codes "(no heartbeat subscriptions)")
            (map (hb_line formats) (sorted leb_int hbs))
  unfolding hb_lines sorted
  hb_lines-or_line [] = refl
  hb_lines-or_line (p ∷ ps) = insert_item-or_line leb_int (hb_line formats) _ p (sorted leb_int ps)

  -- A screen of the monitor with the lines of the two tables.
  abbrev pub screen : List Text → List Text → List Text
  screen pdos hbs =
      (bar formats ∷ codes "=== Subscribed PDOs ===" ∷ [])
      ++ or_line (codes "(no PDO subscriptions)") pdos
      ++ (codes "=== Subscribed Heartbeats ===" ∷ [])
      ++ or_line (codes "(no heartbeat subscriptions)") hbs
      ++ (bar formats ∷ [])

  -- Whatever the two tables hold: the monitor prints one line for each entry of each table and no
  -- other, in ascending order of the node IDs, and of the PDO numbers of one node; for a table with no
  -- entry it prints that there are none.
  pub render_monitor-screen :
      (pdos : List ((ℤ × ℕ) × Shown V Time)) (hbs : List (ℤ × Shown ℕ Time))
      → (ps : List ((ℤ × ℕ) × Shown V Time)) × (hs : List (ℤ × Shown ℕ Time)) × (Perm ps pdos
          × Ascending leb_key ps)
        × (Perm hs hbs × Ascending leb_int hs)
        × (render_monitor formats pdos hbs
            ≡ screen (map (pdo_line formats) ps) (map (hb_line formats) hs))
  unfolding render_monitor
  render_monitor-screen pdos hbs = (
    sorted leb_key pdos,
    sorted leb_int hbs,
    (sorted-Perm leb_key pdos, sorted-Ascending leb_key leb_key-IsOrder pdos),
    (sorted-Perm leb_int hbs, sorted-Ascending leb_int leb_int-IsOrder hbs),
    rw (pdo_lines-or_line pdos, hb_lines-or_line hbs) refl,
  )
