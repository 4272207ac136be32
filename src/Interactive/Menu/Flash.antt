-- ===== src/Interactive/Menu/Flash.antt =====
-- `flash_firmware` of canopen-interactive/co.py as an option of the menu: its questions, and the
-- update in between.
use canopen_tools.Prelude.{
  ℕ, ◌+◌, Bool, true, false, ◌&&◌, Option, none, some, List, [], ◌∷◌, ◌++◌, leb, if◌then◌else◌,
}
use canopen_tools.Firmware.Device.{Env, Log, Run, returned, raised, out_of_fuel}
use canopen_tools.Interactive.Flash.{Told, flash_node}
use canopen_tools.Interactive.Text.{Text, codes, strip}
use canopen_tools.Interactive.Session.{Inputs, Answer, blocked, done, escaped, ask}
use canopen_tools.Interactive.Menu.{Menu, pure, reading, ◌>>=◌, ◌>>◌}
use canopen_tools.Interactive.Menu.Library.{Tool}
use canopen_tools.Interactive.Menu.Nodes.{choose_node}
use canopen_tools.Interactive.Menu.Main.{same_text}

-- What the updates of a session meet: `os.path.isfile`, the bytes of a file, what a node on the
-- network answers to the calls of the update and when, and the network behind these calls.
pub record Updates (W N : Type 0) : Type 0 where
  pub is_file : Text → Bool
  pub content : Text → List ℕ
  pub env : N → W → Env
  pub behind : N → Log → W → W
  -- The rounds that a wait may take; 122 are enough.
  pub fuel : ℕ

-- `s.lower()` of ASCII.
unfoldable pub lower : Text → Text
lower [] = []
lower (c ∷ s) = (if leb b'A' c && leb c b'Z' then c + 32 else c) ∷ lower s

-- `confirm != "y"` is false.
unfoldable pub is_confirmed : Text → Bool
unfolding lower
is_confirmed s = same_text (lower (strip s)) (codes "y")

-- The end of the update's calls; a wait that was cut off never ends.
abbrev pub answer_of : Run Told → Inputs → Answer Told
answer_of (returned told) is = done told is
answer_of (raised e) is = escaped e is
answer_of out_of_fuel is = blocked

module _ {W N R : Type 0} (dev : Updates W N) where
  -- The update of a node with a file; its calls are kept beside the bytes.
  unfoldable pub updated : N → Text → Menu (Tool W N R) Told
  unfolding flash_node
  updated node bin_path t is =
      let (r, l) = flash_node (dev.env node t.network) dev.fuel (dev.content bin_path) [] in
      (
        answer_of r is,
        record t {
          network = dev.behind node l t.network;
          flashed = t.flashed ++ ((dev.content bin_path, l) ∷ []);
        },
      )

  -- "Press Enter to go back to the main menu."
  abbrev pub back_to_menu : Menu (Tool W N R) (Unit {0})
  back_to_menu = do reading ask; pure tt

  unfoldable pub flash_confirmed : N → Text → Bool → Menu (Tool W N R) (Unit {0})
  unfolding updated
  flash_confirmed node bin_path true = do updated node bin_path; back_to_menu
  flash_confirmed node bin_path false = back_to_menu

  unfoldable pub flash_file : N → Text → Bool → Menu (Tool W N R) (Unit {0})
  unfolding flash_confirmed is_confirmed
  flash_file node bin_path true = do
    confirm ← reading ask
    flash_confirmed node bin_path (is_confirmed confirm)
  flash_file node bin_path false = back_to_menu

  unfoldable pub flash_to : Option N → Menu (Tool W N R) (Unit {0})
  unfolding flash_file
  flash_to none = back_to_menu
  flash_to (some node) = do s ← reading ask; flash_file node (strip s) (dev.is_file (strip s))

  unfoldable pub flash_firmware_menu : Menu (Tool W N R) (Unit {0})
  unfolding flash_to
  flash_firmware_menu = do node ← choose_node; flash_to node
