-- ===== src/Interactive/Menu/Start.antt =====
-- What canopen-interactive/co.py reads before its first prompt, and what it prints around them: the
-- EDS files of the command line, the text of the menu, and the list of the nodes.
use canopen_tools.Prelude.{
  ℕ, zero, suc, ◌+◌, ◌≡◌, refl, Bool, true, inl, inr, Option, none, some, List, [], ◌∷◌, ◌++◌, map,
  All, length, Bool-cases, if◌then◌else◌,
}
use canopen_tools.Interactive.Dict.{get}
use canopen_tools.Interactive.Text.{Text, codes, split_on, ℤ}
use canopen_tools.Interactive.Text.Decimal.{str}
use canopen_tools.Interactive.Menu.{same_int}
use canopen_tools.Interactive.Menu.Main.{Actions, options}
use canopen_tools.Interactive.Monitor.Render.{str_int}

-- `is_file` is `os.path.isfile`; a path that is none is warned of and left out.
unfoldable pub load_eds_files : (Text → Bool) → List Text → List Text
load_eds_files is_file [] = []
load_eds_files is_file (path ∷ paths) =
    let rest = load_eds_files is_file paths in if is_file path then path ∷ rest else rest

-- `load_eds_files(sys.argv[1].split(',')) if len(sys.argv) > 1 else []`
unfoldable pub eds_files_of : (Text → Bool) → List Text → List Text
unfolding load_eds_files
eds_files_of is_file (program ∷ paths ∷ more) = load_eds_files is_file (split_on b',' paths)
eds_files_of is_file _ = []

load_eds_files-All :
    (is_file : Text → Bool) (paths : List Text)
    → All (λ path. is_file path ≡ true) (load_eds_files is_file paths)
unfolding load_eds_files
load_eds_files-All is_file [] = tt
load_eds_files-All is_file (path ∷ paths) = elim (Bool-cases (is_file path)) [
  | inl e ↦ rw e (e, load_eds_files-All is_file paths)
  | inr e ↦ rw e (load_eds_files-All is_file paths)
]

-- Only files are offered, whatever the command line.
eds_files_of-All :
    (is_file : Text → Bool) (argv : List Text)
    → All (λ path. is_file path ≡ true) (eds_files_of is_file argv)
unfolding eds_files_of
eds_files_of-All is_file [] = tt
eds_files_of-All is_file (program ∷ []) = tt
eds_files_of-All is_file (program ∷ paths ∷ more) = load_eds_files-All is_file (split_on b',' paths)

-- The options of `MENU_TEXT`, which stand behind the numbers from 1 on.
abbrev pub menu_entries : List Text
menu_entries =
    codes "Add node"
    ∷ codes "Send NMT command"
    ∷ codes "Read SDO"
    ∷ codes "Write SDO"
    ∷ codes "Send PDO"
    ∷ codes "Subscribe to TPDO"
    ∷ codes "Subscribe to Heartbeat"
    ∷ codes "Unsubscribe from TPDO"
    ∷ codes "Unsubscribe from Heartbeat"
    ∷ codes "List added nodes"
    ∷ codes "Show node state"
    ∷ codes "Show node OD info"
    ∷ codes "Flash firmware"
    ∷ codes "Exit"
    ∷ []

unfoldable pub numbered : ℕ → List Text → List Text
numbered n [] = []
numbered n (entry ∷ entries) = (str n ++ codes ") " ++ entry) ∷ numbered (n + 1) entries

-- `MENU_TEXT`, line by line
unfoldable pub menu_text : List Text
unfolding numbered
menu_text =
    [] ∷ codes "=== Main Menu ===" ∷ numbered 1 menu_entries
    ++ (codes "Choose an option: " ∷ [] ∷ [])

abbrev numbers_from : ℕ → ℕ → List Text
numbers_from n zero = []
numbers_from n (suc k) = str n ∷ numbers_from (n + 1) k

-- The options that the loop tells apart, and the exit, are those that the menu shows.
options-menu_entries :
    {T : Type 0} (acts : Actions T)
    → map (λ p. p.0) (options acts) ++ (codes "14" ∷ []) ≡ numbers_from 1 (length menu_entries)
unfolding str
options-menu_entries acts = refl

unfoldable pub name_or : Option Text → Text
name_or none = codes "?"
name_or (some name) = name

-- `f"Node ID {node_id} - {eds_name}"`
unfoldable pub node_line : {N : Type 0} → List (ℤ × Text) → ℤ × N → Text
unfolding str_int name_or get
node_line meta (node_id, node) =
    codes "Node ID " ++ str_int node_id ++ codes " - " ++ name_or (get same_int node_id meta)

-- The lines of `list_nodes`.
unfoldable pub node_lines : {N : Type 0} → List (ℤ × N) → List (ℤ × Text) → List Text
unfolding node_line
node_lines [] meta = codes "No nodes have been added yet." ∷ []
node_lines (n ∷ nodes) meta =
    codes "=== Added Nodes ===" ∷ map (node_line meta) (n ∷ nodes)
    ++ (codes "========================" ∷ [])
