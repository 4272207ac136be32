-- ===== src/Firmware/Objects.antt =====
-- The object dictionary of `create_flash_object_dictionary` in
-- firmware-update/co-firmware-update.py, and the accesses to it that the calls of the update stand
-- for.
use canopen_tools.Prelude.{ℕ, ◌<◌, Bool, Option, none, some, List, [], ◌∷◌, ◌==◌, if◌then◌else◌}
use canopen_tools.Firmware.Device.{Call, read_swid, read_status, ctrl, open_transfer, Event}
pub mod Typed

-- Object dictionary indexes
abbrev pub h1f50_program_data : ℕ
h1f50_program_data = 0x1F50

abbrev pub h1f51_program_ctrl : ℕ
h1f51_program_ctrl = 0x1F51

abbrev pub h1f56_program_swid : ℕ
h1f56_program_swid = 0x1F56

abbrev pub h1f57_flash_status : ℕ
h1f57_flash_status = 0x1F57

abbrev pub program_number : ℕ
program_number = 1

-- The types of CiA 301 that are declared.
pub data DataType : Type 0 where
  domain unsigned8 unsigned32 : DataType

-- A `Variable`, and an `Array` with the members that were added.
pub record Variable : Type 0 where
  pub index : ℕ
  pub subindex : ℕ
  pub data_type : DataType

pub record ObjectArray : Type 0 where
  pub index : ℕ
  pub members : List Variable

-- The objects of an `ObjectDictionary`, in the order in which they were added.
abbrev pub ObjectDictionary : Type 0
ObjectDictionary = List ObjectArray

-- An `Array` with one member.
abbrev pub array_of : ℕ → ℕ → DataType → ObjectArray
array_of i k t = record {
  index = i;
  members = record { index = i; subindex = k; data_type = t } ∷ [];
}

unfoldable pub create_flash_object_dictionary : ObjectDictionary
create_flash_object_dictionary =
    array_of h1f50_program_data 1 domain
    ∷ array_of h1f51_program_ctrl 1 unsigned8
    ∷ array_of h1f56_program_swid 1 unsigned32
    ∷ array_of h1f57_flash_status 1 unsigned32
    ∷ []

-- The declared type at an index and a subindex.
abbrev pub type_of_member : ℕ → List Variable → Option DataType
type_of_member k [] = none
type_of_member k (v ∷ vs) = if k == v.subindex then some v.data_type else type_of_member k vs

abbrev pub declared : ℕ → ℕ → ObjectDictionary → Option DataType
declared i k [] = none
declared i k (a ∷ od) = if i == a.index then type_of_member k a.members else declared i k od

-- How an object is used: `….raw` is read, `….raw = n`, and `….open('wb', …)`.
pub data Use : Type 0 where
  reading : Use
  writing : ℕ → Use
  streaming : Use

pub record Access : Type 0 where
  pub index : ℕ
  pub subindex : ℕ
  pub use_made : Use

-- `flash_node.sdo[index][subindex]`, for the calls that go through it.
abbrev pub accessed : Call → Option Access
accessed read_swid =
    some (record { index = h1f56_program_swid; subindex = program_number; use_made = reading })
accessed read_status =
    some (record { index = h1f57_flash_status; subindex = program_number; use_made = reading })
accessed (ctrl n) =
    some (record { index = h1f51_program_ctrl; subindex = program_number; use_made = writing n })
accessed (open_transfer size) =
    some (record { index = h1f50_program_data; subindex = program_number; use_made = streaming })
accessed _ = none
