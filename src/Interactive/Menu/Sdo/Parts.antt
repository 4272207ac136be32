-- ===== src/Interactive/Menu/Sdo/Parts.antt =====
-- What the parts of `read_sdo` and `write_sdo` of canopen-interactive/co.py keep, if each of their
-- calls keeps it.
use canopen_tools.Prelude.{ℕ, Bool, true, false, Option, none, some, List, [], ◌∷◌}
use canopen_tools.Outcome.{Result}
use canopen_tools.Interactive.Text.{Text, int}
use canopen_tools.Interactive.Text.Values.{values_of}
use canopen_tools.Interactive.Session.{ask}
use canopen_tools.Interactive.Menu.{Menu, reading, lift, attempt}
use canopen_tools.Interactive.Menu.Library.{Object, write_raw, Canopen, Tool, perform, read_value}
use canopen_tools.Interactive.Menu.Closed.{IsClosed}
use canopen_tools.Interactive.Menu.Objects.{is_octet_string, subindices_of, skipped}
use canopen_tools.Interactive.Menu.Sdo.{
  enumerate, for_each, tried, write_bytes, element_value, write_element, write_elements,
  write_field_value, write_field, write_record, variable_value, write_variable, write_array,
  write_object, read_sub, read_object,
}

module _ {W N R : Type 0} (lib : Canopen W N R) (C : (A : Type 0) → Menu (Tool W N R) A → Type 0)
    (closed : IsClosed C) where
  pub tried-Closed : {A : Type 0} (m : Menu (Tool W N R) A) → C _ m → C _ (tried m)
  unfolding tried
  tried-Closed m h = closed.binds (attempt m) _ (closed.attempts m h) (λ o. closed.pures tt)

  for_each-Closed :
      {A : Type 0} (body : A → Menu (Tool W N R) (Unit {0})) (xs : List A)
      → ((x : A) → C _ (body x))
      → C _ (for_each body xs)
  unfolding for_each
  for_each-Closed body [] h = closed.pures tt
  for_each-Closed body (x ∷ xs) h = closed.binds (body x) _ (h x) (λ u. for_each-Closed body xs h)

  module _ (node : N) (index : ℕ)
      (read : (sub : Option ℕ) → C _ (read_value lib node index sub)) where
    read_sub-Closed : (sub : ℕ) (b : Bool) → C _ (read_sub lib node index sub b)
    unfolding read_sub
    read_sub-Closed sub true = closed.pures tt
    read_sub-Closed sub false = tried-Closed _ (read (some sub))

    pub read_object-Closed : (obj : Object) (b : Bool) → C _ (read_object lib node index obj b)
    unfolding read_object
    read_object-Closed obj true =
        closed.binds (lift (subindices_of obj.subindices)) _ (closed.lifts _)
          (λ subs. for_each-Closed _ subs (λ p. read_sub-Closed p.0 (skipped p.0 subs)))
    read_object-Closed obj false =
        closed.binds (read_value lib node index none) _ (read none) (λ r. closed.pures _)

    module _ (encode : Text → Result (List ℕ))
        (write : (sub : Option ℕ) (r : R) → C _ (perform lib (write_raw node index sub r))) where
      element_value-Closed :
          (i : ℕ) (val : Text) (b : Bool) → C _ (element_value lib node index i val b)
      unfolding element_value
      element_value-Closed i val true =
          closed.binds (read_value lib node index (some i)) _ (read (some i)) (λ r. closed.lifts _)
      element_value-Closed i val false =
          closed.binds (lift (int val)) _ (closed.lifts _) (λ n. closed.pures _)

      write_element-Closed :
          (obj : Object) (p : ℕ × Text) → C _ (write_element lib node index obj p)
      unfolding write_element
      write_element-Closed obj p =
          closed.binds (lift (subindices_of obj.subindices)) _ (closed.lifts _) (λ subs.
            closed.binds (element_value lib node index p.0 p.1 _) _ (element_value-Closed p.0 p.1 _)
              (write (some p.0)))

      write_field_value-Closed :
          (sub : ℕ) (current : Option R) (val : Text)
          → C _ (write_field_value lib node index sub current val)
      unfolding write_field_value
      write_field_value-Closed sub current [] = closed.pures tt
      write_field_value-Closed sub current (c ∷ s) =
          closed.binds (lift _) _ (closed.lifts _) (write (some sub))

      write_field-Closed : (sub : ℕ) (b : Bool) → C _ (write_field lib node index sub b)
      unfolding write_field
      write_field-Closed sub true = closed.pures tt
      write_field-Closed sub false =
          closed.binds (attempt (read_value lib node index (some sub))) _
            (closed.attempts _ (read (some sub)))
            (λ current.
              closed.binds (reading ask) _ closed.asks
                (λ val. tried-Closed _ (write_field_value-Closed sub current val)))

      write_variable-Closed : C _ (write_variable lib encode node index)
      unfolding write_variable
      write_variable-Closed = closed.binds (reading ask) _ closed.asks (λ val.
          closed.binds (read_value lib node index none) _ (read none) (λ first. tried-Closed _ (
            closed.binds (read_value lib node index none) _ (read none) (λ second.
              closed.binds (lift (variable_value lib encode first second val)) _ (closed.lifts _)
                (write none)))))

      write_array-Closed : (obj : Object) (b : Bool) → C _ (write_array lib encode node index obj b)
      unfolding write_array write_bytes write_elements
      write_array-Closed obj true = closed.binds (reading ask) _ closed.asks (λ val.
          closed.binds (lift (encode val)) _ (closed.lifts _) (λ bval.
            for_each-Closed _ (enumerate 1 bval)
              (λ p. tried-Closed _ (write (some p.0) (lib.of_byte p.1)))))
      write_array-Closed obj false = closed.binds (reading ask) _ closed.asks (λ arr.
          for_each-Closed _ (enumerate 1 (values_of arr))
            (λ p. tried-Closed _ (write_element-Closed obj p)))

      pub write_object-Closed :
          (obj : Object) (a r : Bool) → C _ (write_object lib encode node index obj a r)
      unfolding write_object write_record
      write_object-Closed obj true r = write_array-Closed obj (is_octet_string obj)
      write_object-Closed obj false true =
          closed.binds (lift (subindices_of obj.subindices)) _ (closed.lifts _)
            (λ subs. for_each-Closed _ subs (λ p. write_field-Closed p.0 (skipped p.0 subs)))
      write_object-Closed obj false false = write_variable-Closed
