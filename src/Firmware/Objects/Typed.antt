-- ===== src/Firmware/Objects/Typed.antt =====
-- The accesses of firmware-update/co-firmware-update.py fit the types of its object dictionary.
use canopen_tools.Prelude.{
  ℕ, ◌^◌, ◌<◌, ap, ◌∙◌, subst, ◌≡◌, ◌≢◌, refl, Option, none, some, List, [], ◌∷◌, arith,
}
use canopen_tools.Outcome.{Result, ok, raise}
use canopen_tools.Firmware.Device.{Call, read_swid, ctrl, Log, Env}
use canopen_tools.Firmware.Objects.{
  DataType, domain, unsigned8, unsigned32, ObjectDictionary, create_flash_object_dictionary,
  declared, Use, reading, writing, streaming, Access, accessed,
}
use canopen_tools.Firmware.Protocol.{Stage, idle, violation, control, advance, refused, next, run}
use canopen_tools.Firmware.Protocol.Transfer.{IsSafe}
use canopen_tools.Firmware.Protocol.Conforms.{flash_firmware-conforms}
use canopen_tools.Firmware.Flash.{flash_firmware}

-- An object is there, and its type admits the use: numbers are read, a byte is written, and only a
-- domain is streamed to.
abbrev pub Admits : Option DataType → Use → Type 0
Admits (some unsigned32) reading = Unit
Admits (some unsigned8) (writing n) = n < 2 ^ 8
Admits (some domain) streaming = Unit
Admits _ _ = ⊥

abbrev pub IsDeclared : ObjectDictionary → Option Access → Type 0
IsDeclared od none = Unit
IsDeclared od (some a) = Admits (declared a.index a.subindex od) a.use_made

abbrev pub IsTyped : ObjectDictionary → Log → Type 0
IsTyped od [] = Unit
IsTyped od ((c, r) ∷ l) = IsDeclared od (accessed c) × IsTyped od l

-- A call out of order is never made good.
advance-violation : (c : Call) (n : ℕ) → advance violation c n ≡ violation
advance-violation read_swid n = refl
advance-violation c n = ground arith

run-violation : (l : Log) → run violation l ≡ violation
run-violation [] = refl
run-violation ((c, ok n) ∷ l) = rw (advance-violation c n) (run-violation l)
run-violation ((c, raise x) ∷ l) = rw (advance-violation c 0) (run-violation l)

control-byte : (s : Stage) (n : ℕ) → control s n ≢ violation → n < 2 ^ 8
control-byte idle n h = ground arith
control-byte s n h = ground arith

-- The protocol lets no other value through than the types do.
advance-IsDeclared :
    (s : Stage) (c : Call) (n : ℕ)
    → advance s c n ≢ violation
    → IsDeclared create_flash_object_dictionary (accessed c)
unfolding create_flash_object_dictionary
advance-IsDeclared s read_swid n h = tt
advance-IsDeclared s (ctrl k) n h = control-byte s k h
advance-IsDeclared s c n h = ground arith

next-IsDeclared :
    (s : Stage) (c : Call) (r : Result ℕ)
    → next s (c, r) ≢ violation
    → IsDeclared create_flash_object_dictionary (accessed c)
next-IsDeclared s c (ok n) h = advance-IsDeclared s c n h
next-IsDeclared s c (raise x) h = advance-IsDeclared s c 0 (λ e. h (ap (refused s) e))

pub run-IsTyped :
    (s : Stage) (l : Log) → run s l ≢ violation → IsTyped create_flash_object_dictionary l
run-IsTyped s [] h = tt
run-IsTyped s ((c, r) ∷ l) h = (
  next-IsDeclared s c r (λ e. h (ap (λ t. run t l) e ∙ run-violation l)),
  run-IsTyped (next s (c, r)) l h,
)

pub IsSafe-in_order : (content : List ℕ) (t : Stage) → IsSafe content t → t ≢ violation
IsSafe-in_order content t safe e = subst (IsSafe content) e safe

-- Whatever the device, the file and the clock do: each object that the update reads, writes or
-- streams to is declared, at the index and the subindex at which it is accessed, with a type that
-- admits this use; every number that it writes fits in the one byte of its object.
pub flash_firmware-IsTyped :
    (env : Env) (content : List ℕ) (fuel : ℕ)
    → IsTyped create_flash_object_dictionary (flash_firmware env fuel content []).1
flash_firmware-IsTyped env content fuel =
    run-IsTyped idle _ (IsSafe-in_order content _ (flash_firmware-conforms env content fuel).0)
