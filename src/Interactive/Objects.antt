-- ===== src/Interactive/Objects.antt =====
-- The object dictionary of `create_flash_object_dictionary` in canopen-interactive/co.py, and the
-- accesses of its firmware update.
use canopen_tools.Prelude.{ℕ, ◌≡◌, refl, Bool, true, false, Option, none, some, List, [], ◌∷◌}
use canopen_tools.Firmware.Device.{Env, Log, Run}
use canopen_tools.Firmware.Objects as Firmware
use canopen_tools.Firmware.Objects.{
  domain, unsigned8, unsigned32, ObjectDictionary, array_of, h1f50_program_data, h1f51_program_ctrl,
  h1f56_program_swid, h1f57_flash_status,
}
use canopen_tools.Firmware.Objects.Typed.{IsTyped, run-IsTyped, IsSafe-in_order}
use canopen_tools.Firmware.Protocol.{idle, run}
use canopen_tools.Interactive.Flash.{Answers, Told, flash_menu}
use canopen_tools.Interactive.Conforms.{IsTruthful-IsSafe, IsHonest, flash_menu-IsHonest}

unfoldable pub create_flash_object_dictionary : ObjectDictionary
create_flash_object_dictionary =
    array_of h1f50_program_data 1 domain
    ∷ array_of h1f51_program_ctrl 1 unsigned8
    ∷ array_of h1f56_program_swid 1 unsigned32
    ∷ array_of h1f57_flash_status 1 unsigned32
    ∷ []

-- The two tools declare the same objects.
same_objects : create_flash_object_dictionary ≡ Firmware.create_flash_object_dictionary
unfolding create_flash_object_dictionary Firmware.create_flash_object_dictionary
same_objects = refl

IsHonest-IsTyped :
    (env : Env) (content : List ℕ) (node : Option ℕ) (is_file says_yes : Bool) (r : Run Told × Log)
    → IsHonest env content node is_file says_yes r
    → IsTyped create_flash_object_dictionary r.1
IsHonest-IsTyped env content none is_file says_yes (r, l) (e, h) = rw h tt
IsHonest-IsTyped env content (some n) false says_yes (r, l) (e, h) = rw h tt
IsHonest-IsTyped env content (some n) true false (r, l) (e, h) = rw h tt
IsHonest-IsTyped env content (some n) true true (r, l) h = rw same_objects (
    run-IsTyped idle l (IsSafe-in_order content _ (IsTruthful-IsSafe env content r (run idle l) h)))

-- Whatever the answers at the prompts, the device, the file and the clock: each object that the
-- interactive tool's update accesses is declared with a type that admits the use.
pub flash_menu-IsTyped :
    (env : Env) (content : List ℕ) (answers : Answers) (fuel : ℕ)
    → IsTyped create_flash_object_dictionary (flash_menu env answers fuel content []).1
flash_menu-IsTyped env content answers fuel =
    IsHonest-IsTyped env content answers.node answers.is_file answers.says_yes _
      (flash_menu-IsHonest env content answers fuel)
