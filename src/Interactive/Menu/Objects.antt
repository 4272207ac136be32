-- ===== src/Interactive/Menu/Objects.antt =====
-- The objects of a node's dictionary in canopen-interactive/co.py: `list_od_entries`, and the tests
-- `is_array`, `is_record` and `is_octet_string`.
use canopen_tools.Prelude.{
  ℕ, ◌==◌, Bool, true, false, not, ◌&&◌, ◌||◌, Option, none, some, List, [], ◌∷◌, length, ltb, leb,
  ◌-◌, if◌then◌else◌,
}
use canopen_tools.Outcome.{Result, ok, raise, attribute_error}
use canopen_tools.Interactive.Text.{Text, codes}
use canopen_tools.Interactive.Menu.Library.{Object}
use canopen_tools.Interactive.Menu.Main.{same_text}
pub mod Sorted

-- `s.upper()` of ASCII.
unfoldable pub upper : Text → Text
upper [] = []
upper (c ∷ s) = (if leb b'a' c && leb c b'z' then c - 32 else c) ∷ upper s

unfoldable pub starts_with : Text → Text → Bool
starts_with [] s = true
starts_with (c ∷ p) [] = false
starts_with (c ∷ p) (d ∷ s) = c == d && starts_with p s

-- `p in s`
unfoldable pub contains : Text → Text → Bool
unfolding starts_with
contains p [] = starts_with p []
contains p (c ∷ s) = starts_with p (c ∷ s) || contains p s

unfoldable pub is_record : Object → Bool
unfolding upper same_text
is_record obj = same_text (upper obj.data_type) (codes "RECORD")

-- `hasattr(obj, 'subindices') and len(obj.subindices) > 1`
unfoldable pub has_several : Option (List (ℕ × Text)) → Bool
has_several none = false
has_several (some subs) = ltb 1 (length subs)

unfoldable pub is_array : Object → Bool
unfolding upper same_text has_several is_record
is_array obj =
    same_text (upper obj.data_type) (codes "ARRAY")
    || has_several obj.subindices && not (is_record obj)

unfoldable pub is_octet_string : Object → Bool
unfolding upper contains
is_octet_string obj =
    contains (codes "OCTET_STRING") (upper obj.data_type)
    || contains (codes "STRING") (upper obj.data_type)

-- `obj.subindices`
unfoldable pub subindices_of : Option (List (ℕ × Text)) → Result (List (ℕ × Text))
subindices_of none = raise attribute_error
subindices_of (some subs) = ok subs

-- `hasattr(obj, "name") and obj.name != ""`
unfoldable pub is_named : Option Text → Bool
is_named none = false
is_named (some []) = false
is_named (some (c ∷ s)) = true

unfoldable pub named : List (ℕ × Object) → List (ℕ × Object)
unfolding is_named
named [] = []
named (p ∷ ps) = if is_named p.1.name then p ∷ named ps else named ps

-- `entries.sort(key=lambda x: x[0])`, a stable sort.
unfoldable pub insert : ℕ × Object → List (ℕ × Object) → List (ℕ × Object)
insert p [] = p ∷ []
insert p (q ∷ qs) = if leb p.0 q.0 then p ∷ q ∷ qs else q ∷ insert p qs

unfoldable pub sort : List (ℕ × Object) → List (ℕ × Object)
unfolding insert
sort [] = []
sort (p ∷ ps) = insert p (sort ps)

-- `subindices.get(i)`, as whether it is there.
unfoldable pub has_sub : ℕ → List (ℕ × Text) → Bool
has_sub i [] = false
has_sub i ((j, name) ∷ subs) = i == j || has_sub i subs

-- `sub == 0 and len(obj.subindices) > 1`: the number of subindices is not shown, nor written.
unfoldable pub skipped : ℕ → List (ℕ × Text) → Bool
skipped sub subs = sub == 0 && ltb 1 (length subs)
