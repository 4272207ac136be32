-- ===== src/Interactive/Menu/Sdo.antt =====
-- `read_sdo` and `write_sdo` of canopen-interactive/co.py, with the choice of an object.
use canopen_tools.Prelude.{
  ℕ, zero, suc, ◌+◌, ◌==◌, Bool, true, false, not, ◌&&◌, ◌||◌, Option, none, some, List, [], ◌∷◌,
  length, ltb, leb, ◌-◌, if◌then◌else◌,
}
use canopen_tools.Outcome.{Result, ok, raise, attribute_error, type_error}
use canopen_tools.Interactive.Text.{Text, codes, int}
use canopen_tools.Interactive.Text.Values.{values_of}
use canopen_tools.Interactive.Session.{ask, choose}
use canopen_tools.Interactive.Menu.{Menu, pure, reading, lift, attempt, ◌>>=◌, ◌>>◌}
use canopen_tools.Interactive.Menu.Library.{Object, write_raw, Canopen, Tool, perform, read_value}
use canopen_tools.Interactive.Menu.Objects.{
  is_record, is_array, is_octet_string, subindices_of, named, sort, has_sub, skipped,
}
pub mod Logs
pub mod Parts
pub mod Chosen
pub mod Bytes

-- `enumerate(xs, start=i)`
unfoldable pub enumerate {ℓ} : {A : Type ℓ} → ℕ → List A → List (ℕ × A)
enumerate i [] = []
enumerate i (x ∷ xs) = (i, x) ∷ enumerate (suc i) xs

-- `for x in xs`
unfoldable pub for_each : {T A : Type 0} → (A → Menu T (Unit {0})) → List A → Menu T (Unit {0})
for_each body [] = pure tt
for_each body (x ∷ xs) = body x >>= λ u. for_each body xs

-- `except Exception as e: print(...)` around a part of a loop.
unfoldable pub tried : {T A : Type 0} → Menu T A → Menu T (Unit {0})
tried m = attempt m >>= λ o. pure tt

module _ {W N R : Type 0} (lib : Canopen W N R) where
  unfoldable pub list_od_entries : N → List (ℕ × Object)
  unfolding named sort
  list_od_entries node = sort (named (lib.object_dictionary node))

  unfoldable pub choose_od_entry : N → Menu (Tool W N R) (ℕ × Object)
  unfolding list_od_entries
  choose_od_entry node = reading (choose (list_od_entries node))

  unfoldable pub read_sub : N → ℕ → ℕ → Bool → Menu (Tool W N R) (Unit {0})
  unfolding tried
  read_sub node index sub true = pure tt
  read_sub node index sub false = tried (read_value lib node index (some sub))

  unfoldable pub read_object : N → ℕ → Object → Bool → Menu (Tool W N R) (Unit {0})
  unfolding for_each skipped read_sub subindices_of
  read_object node index obj true = do
    subs ← lift (subindices_of obj.subindices)
    for_each (λ p. read_sub node index p.0 (skipped p.0 subs)) subs
  read_object node index obj false = do read_value lib node index none; pure tt

  unfoldable pub read_sdo : N → Menu (Tool W N R) (Unit {0})
  unfolding read_object is_array is_record tried choose_od_entry
  read_sdo node = do
    entry ← choose_od_entry node
    tried (read_object node entry.0 entry.1 (is_array entry.1 || is_record entry.1))
    reading ask
    pure tt

  -- The string of an array, a byte to each subindex.
  unfoldable pub write_bytes : N → ℕ → List ℕ → Menu (Tool W N R) (Unit {0})
  unfolding for_each enumerate tried
  write_bytes node index bval =
      for_each (λ p. tried (perform lib (write_raw node index (some p.0) (lib.of_byte p.1))))
        (enumerate 1 bval)

  -- The value of an element, of the type that it has now.
  unfoldable pub element_value : N → ℕ → ℕ → Text → Bool → Menu (Tool W N R) R
  element_value node index i val true = do
    current ← read_value lib node index (some i)
    lift (lib.of_type current val)
  element_value node index i val false = do n ← lift (int val); pure (lib.of_int n)

  unfoldable pub write_element : N → ℕ → Object → ℕ × Text → Menu (Tool W N R) (Unit {0})
  unfolding element_value subindices_of has_sub
  write_element node index obj p = do
    subs ← lift (subindices_of obj.subindices)
    value ← element_value node index p.0 p.1 (has_sub p.0 subs)
    perform lib (write_raw node index (some p.0) value)

  unfoldable pub write_elements : N → ℕ → Object → List Text → Menu (Tool W N R) (Unit {0})
  unfolding for_each enumerate tried write_element
  write_elements node index obj values =
      for_each (λ p. tried (write_element node index obj p)) (enumerate 1 values)

  -- `type(current_val)(val)`, where `None` has no such call.
  unfoldable pub of_current : Option R → Text → Result R
  of_current none val = raise type_error
  of_current (some current) val = lib.of_type current val

  -- `if val != ""`
  unfoldable pub write_field_value : N → ℕ → ℕ → Option R → Text → Menu (Tool W N R) (Unit {0})
  unfolding of_current
  write_field_value node index sub current [] = pure tt
  write_field_value node index sub current (c ∷ s) = do
    value ← lift (of_current current (c ∷ s))
    perform lib (write_raw node index (some sub) value)

  unfoldable pub write_field : N → ℕ → ℕ → Bool → Menu (Tool W N R) (Unit {0})
  unfolding tried write_field_value
  write_field node index sub true = pure tt
  write_field node index sub false = do
    current ← attempt (read_value lib node index (some sub))
    val ← reading ask
    tried (write_field_value node index sub current val)

  unfoldable pub write_record : N → ℕ → Object → Menu (Tool W N R) (Unit {0})
  unfolding for_each skipped write_field subindices_of
  write_record node index obj = do
    subs ← lift (subindices_of obj.subindices)
    for_each (λ p. write_field node index p.0 (skipped p.0 subs)) subs

-- `encode` is `val.encode('utf-8')`.
module _ {W N R : Type 0} (lib : Canopen W N R) (encode : Text → Result (List ℕ)) where
  unfoldable pub variable_value : R → R → Text → Result R
  variable_value first second val =
      if lib.is_bytes second
      then elim (encode val) [ raise e ↦ raise e | ok bs ↦ ok (lib.of_bytes bs) ]
      else lib.of_type first val

  -- The value is read once for its type, and again in the inner `try`.
  unfoldable pub write_variable : N → ℕ → Menu (Tool W N R) (Unit {0})
  unfolding tried variable_value
  write_variable node index = do
    val ← reading ask
    first ← read_value lib node index none
    tried (do
      second ← read_value lib node index none
      value ← lift (variable_value first second val)
      perform lib (write_raw node index none value))

  unfoldable pub write_array : N → ℕ → Object → Bool → Menu (Tool W N R) (Unit {0})
  unfolding write_bytes write_elements
  write_array node index obj true = do
    val ← reading ask
    bval ← lift (encode val)
    write_bytes lib node index bval
  write_array node index obj false = do
    arr ← reading ask
    write_elements lib node index obj (values_of arr)

  unfoldable pub write_object : N → ℕ → Object → Bool → Bool → Menu (Tool W N R) (Unit {0})
  unfolding write_array write_record write_variable is_octet_string
  write_object node index obj true r = write_array node index obj (is_octet_string obj)
  write_object node index obj false true = write_record lib node index obj
  write_object node index obj false false = write_variable node index

  unfoldable pub write_sdo : N → Menu (Tool W N R) (Unit {0})
  unfolding write_object is_array is_record tried choose_od_entry
  write_sdo node = do
    entry ← choose_od_entry lib node
    tried (write_object node entry.0 entry.1 (is_array entry.1) (is_record entry.1))
    reading ask
    pure tt
