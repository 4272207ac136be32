-- ===== src/Interactive/Monitor/Render.antt =====
-- `render_monitor` of `EventMonitor` in canopen-interactive/co.py: the lines that it prints.
use canopen_tools.Prelude.{
  ℕ, suc, Bool, true, false, not, ◌&&◌, ◌||◌, ◌==◌, leb, Option, none, some, List, [], ◌∷◌, ◌++◌,
  map,
}
use canopen_tools.Interactive.Dict.{get}
use canopen_tools.Interactive.Text.{Text, codes, ℤ, pos, negsuc}
use canopen_tools.Interactive.Text.Decimal.{str}
use canopen_tools.Interactive.Menu.{same_int}
use canopen_tools.Interactive.Sorting.{sorted}
pub mod Lines

-- `str(n)` of an integer.
unfoldable pub str_int : ℤ → Text
str_int (pos n) = str n
str_int (negsuc n) = codes "-" ++ str (suc n)

-- `NMT_STATE_TEXT`
abbrev pub nmt_state_text : List (ℕ × Text)
nmt_state_text =
    (0, codes "Initializing")
    ∷ (4, codes "Stopped")
    ∷ (5, codes "Operational")
    ∷ (127, codes "Pre-operational")
    ∷ []

unfoldable pub text_or_unknown : ℕ → Option Text → Text
text_or_unknown state none = codes "Unknown(" ++ str state ++ codes ")"
text_or_unknown state (some s) = s

-- `NMT_STATE_TEXT.get(state, f"Unknown({state})")`
unfoldable pub state_txt : ℕ → Text
unfolding text_or_unknown get
state_txt state = text_or_unknown state (get (λ a b. a == b) state nmt_state_text)

-- The comparison of keys in `sorted`: node IDs, and pairs of a node ID and a PDO number.
abbrev pub leb_int : ℤ → ℤ → Bool
leb_int (pos m) (pos n) = leb m n
leb_int (negsuc m) (pos n) = true
leb_int (pos m) (negsuc n) = false
leb_int (negsuc m) (negsuc n) = leb n m

abbrev pub leb_key : ℤ × ℕ → ℤ × ℕ → Bool
leb_key (a, m) (b, n) = same_int a b && leb m n || not (same_int a b) && leb_int a b

-- What is kept of an event: its value, when it arrived, and the name of the node's EDS file.
pub record Shown (V Time : Type 0) : Type 0 where
  pub value : V
  pub ts : Time
  pub eds_name : Text

-- The print of a list of values, and `ts.strftime('%H:%M:%S.%f')[:-3]`.
pub record Formats (V Time : Type 0) : Type 0 where
  pub show : V → Text
  pub clock : Time → Text

module _ {V Time : Type 0} (formats : Formats V Time) where
  unfoldable pub pdo_line : (ℤ × ℕ) × Shown V Time → Text
  unfolding str_int
  pdo_line ((node_id, pdo_num), e) =
      codes "Node "
      ++ str_int node_id
      ++ codes " ("
      ++ e.eds_name
      ++ codes ") - PDO"
      ++ str pdo_num
      ++ codes ": "
      ++ formats.show e.value
      ++ codes ", "
      ++ formats.clock e.ts

  unfoldable pub hb_line : ℤ × Shown ℕ Time → Text
  unfolding str_int state_txt
  hb_line (node_id, e) =
      codes "Node "
      ++ str_int node_id
      ++ codes " ("
      ++ e.eds_name
      ++ codes "): state="
      ++ state_txt e.value
      ++ codes ", "
      ++ formats.clock e.ts

  -- `"="*50`
  abbrev pub bar : Text
  bar = codes "=================================================="

  unfoldable pub pdo_lines : List ((ℤ × ℕ) × Shown V Time) → List Text
  unfolding sorted pdo_line
  pdo_lines [] = codes "(no PDO subscriptions)" ∷ []
  pdo_lines (p ∷ ps) = map pdo_line (sorted leb_key (p ∷ ps))

  unfoldable pub hb_lines : List (ℤ × Shown ℕ Time) → List Text
  unfolding sorted hb_line
  hb_lines [] = codes "(no heartbeat subscriptions)" ∷ []
  hb_lines (p ∷ ps) = map hb_line (sorted leb_int (p ∷ ps))

  unfoldable pub render_monitor :
      List ((ℤ × ℕ) × Shown V Time) → List (ℤ × Shown ℕ Time) → List Text
  unfolding pdo_lines hb_lines
  render_monitor subscribed_pdos subscribed_hbs =
      (bar ∷ codes "=== Subscribed PDOs ===" ∷ [])
      ++ pdo_lines subscribed_pdos
      ++ (codes "=== Subscribed Heartbeats ===" ∷ [])
      ++ hb_lines subscribed_hbs
      ++ (bar ∷ [])
