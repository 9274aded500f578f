-- ===== src/Diff/Edit.antt =====
-- The functions of diff.rs that edit a value at a pointer: the path down is a list of segments, and
-- what is done at its end is a function.
pub mod Lookup
use Prim.Native.String.{◌++◌}
use trilithon.Base.{
  ℕ, zero, suc, ◌-◌, ◌^◌, String, List, [], ◌∷◌, Option, none, some, if◌then◌else◌, str_eq, leb,
  ◌==◌, Result, ok, err, ◌>>=◌, is_some,
}
use trilithon.Base.Text.{split, is_empty_str}
use trilithon.Base.IpAddr.{take_digits, strip_plus}
use trilithon.Model.Json.{
  Value, null, bool, number, string, array, object, Items, nil, cons, Fields, end, field,
}
use trilithon.Model.Pointer.{JsonPointer, unescape_segment}
use trilithon.Diff.Canonical.{get_field, insert_field}
use trilithon.Diff.Summary.{trim_slashes}
use trilithon.Diff.Compare.{DiffError, incompatible_shape, missing_parent_path}

abbrev pub kind_name : Value → String
kind_name null = "null"
kind_name (bool b) = "bool"
kind_name (number n) = "number"
kind_name (string s) = "string"
kind_name (array vs) = "array"
kind_name (object fs) = "object"

-- `s.parse::<usize>()`
unfoldable pub parse_usize : String → Option ℕ
unfolding take_digits
parse_usize s =
    let r = take_digits 10 0 0 (strip_plus s) in
    if r.count == 0
    then none
    else if is_empty_str r.rest
    then (if leb r.value (2 ^ 64 - 1) then some r.value else none)
    else none

-- `raw.trim_start_matches('/').split('/')`
abbrev pub segments : JsonPointer → List String
segments ptr = split (λ c. c == b'/') (trim_slashes ptr)

-- All but the last, and the last.
unfoldable pub parents : List String → List String
parents [] = []
parents (s ∷ []) = []
parents (s ∷ t ∷ rest) = s ∷ parents (t ∷ rest)

unfoldable pub last_of : List String → String
last_of [] = ""
last_of (s ∷ []) = s
last_of (s ∷ t ∷ rest) = last_of (t ∷ rest)

abbrev pub Edit : Type 0
Edit = Value → Result DiffError Value

abbrev pub put_first : String → Fields → Result DiffError Value → Result DiffError Fields
put_first k fs (ok v) = ok (field k v fs)
put_first k fs (err e) = err e

abbrev pub put_rest : String → Value → Result DiffError Fields → Result DiffError Fields
put_rest k v (ok fs) = ok (field k v fs)
put_rest k v (err e) = err e

-- The edit of a member, or of an element, that must be there.
unfoldable pub in_fields : Fields → String → DiffError → Edit → Result DiffError Fields
in_fields end key missing edit = err missing
in_fields (field k v fs) key missing edit =
    let rest = in_fields fs key missing edit in
    if str_eq k key then put_first k fs (edit v) else put_rest k v rest

unfoldable pub in_items : Items → ℕ → DiffError → Edit → Result DiffError Items
in_items nil i missing edit = err missing
in_items (cons v vs) zero missing edit = do w ← edit v; ok (cons w vs)
in_items (cons v vs) (suc i) missing edit = do rest ← in_items vs i missing edit; ok (cons v rest)

abbrev pub as_object : Result DiffError Fields → Result DiffError Value
as_object (ok fs) = ok (object fs)
as_object (err e) = err e

abbrev pub as_array : Result DiffError Items → Result DiffError Value
as_array (ok vs) = ok (array vs)
as_array (err e) = err e

abbrev pub in_indexed : Items → Option ℕ → DiffError → Edit → Result DiffError Value
in_indexed vs none missing edit = err missing
in_indexed vs (some i) missing edit = as_array (in_items vs i missing edit)

unfoldable pub navigate_mut : Value → String → JsonPointer → Edit → Result DiffError Value
navigate_mut (object fs) segment reconstructed edit =
    as_object (in_fields fs segment (missing_parent_path reconstructed) edit)
navigate_mut (array vs) segment reconstructed edit =
    in_indexed vs (parse_usize segment) (missing_parent_path reconstructed) edit
navigate_mut other segment reconstructed edit =
    err (incompatible_shape reconstructed (kind_name other) "object")

-- The loop that navigates to the parent; the edit there is told the path to it.
unfoldable pub edit_at : List String → JsonPointer → (JsonPointer → Edit) → Edit
edit_at [] reconstructed edit v = edit reconstructed v
edit_at (s ∷ rest) reconstructed edit v =
    let down = edit_at rest (reconstructed ++ ("/" ++ s)) edit in
    navigate_mut v (unescape_segment s) (reconstructed ++ ("/" ++ s)) down

unfoldable pub set_item : Items → ℕ → Value → Items
set_item nil zero new_val = cons new_val nil
set_item nil (suc i) new_val = cons null (set_item nil i new_val)
set_item (cons v vs) zero new_val = cons new_val vs
set_item (cons v vs) (suc i) new_val = cons v (set_item vs i new_val)

abbrev pub set_indexed : Items → Option ℕ → JsonPointer → Value → Result DiffError Value
set_indexed vs none leaf_path new_val = err (missing_parent_path leaf_path)
set_indexed vs (some i) leaf_path new_val = ok (array (set_item vs i new_val))

unfoldable pub set_leaf : String → Value → JsonPointer → Edit
set_leaf last new_val reconstructed (object fs) =
    ok (object (insert_field (unescape_segment last) new_val fs))
set_leaf last new_val reconstructed (array vs) =
    set_indexed vs (parse_usize (unescape_segment last)) (reconstructed ++ ("/" ++ last)) new_val
set_leaf last new_val reconstructed other =
    err (incompatible_shape (reconstructed ++ ("/" ++ last)) (kind_name other) (kind_name new_val))

unfoldable pub pointer_set : Value → JsonPointer → Value → Result DiffError Value
pointer_set root ptr new_val =
    let parts = segments ptr in
    if is_empty_str ptr
    then ok new_val
    else edit_at (parents parts) "" (set_leaf (last_of parts) new_val) root

unfoldable pub remove_field : Fields → String → Fields
remove_field end key = end
remove_field (field k v fs) key =
    let rest = remove_field fs key in if str_eq k key then rest else field k v rest

unfoldable pub remove_item : Items → ℕ → Option Items
remove_item nil i = none
remove_item (cons v vs) zero = some vs
remove_item (cons v vs) (suc i) = elim (remove_item vs i) [
  | none ↦ none
  | some rest ↦ some (cons v rest)
]

abbrev pub removed_or : Option Items → DiffError → Result DiffError Value
removed_or none missing = err missing
removed_or (some vs) missing = ok (array vs)

abbrev pub remove_indexed : Items → Option ℕ → DiffError → Result DiffError Value
remove_indexed vs none missing = err missing
remove_indexed vs (some i) missing = removed_or (remove_item vs i) missing

unfoldable pub remove_leaf : String → JsonPointer → JsonPointer → Edit
remove_leaf last ptr reconstructed (object fs) =
    ok (object (remove_field fs (unescape_segment last)))
remove_leaf last ptr reconstructed (array vs) =
    remove_indexed vs (parse_usize (unescape_segment last)) (missing_parent_path ptr)
remove_leaf last ptr reconstructed other = err (incompatible_shape ptr (kind_name other) "none")

unfoldable pub pointer_remove : Value → JsonPointer → Result DiffError Value
pointer_remove root ptr =
    let parts = segments ptr in
    if is_empty_str ptr
    then ok root
    else edit_at (parents parts) "" (remove_leaf (last_of parts) ptr) root

-- A container that is missing is put in.
abbrev pub or_insert : Fields → String → Fields
or_insert fs key = if is_some (get_field fs key) then fs else insert_field key (object end) fs

-- The array is extended until it is longer than the index: `extend_items vs (i + 1)`.
unfoldable pub extend_items : Items → ℕ → Items
extend_items vs zero = vs
extend_items nil (suc n) = cons (object end) (extend_items nil n)
extend_items (cons v vs) (suc n) = cons v (extend_items vs n)

abbrev pub ensure_indexed : Items → Option ℕ → DiffError → Edit → Result DiffError Value
ensure_indexed vs none missing edit = err missing
ensure_indexed vs (some i) missing edit =
    as_array (in_items (extend_items vs (suc i)) i missing edit)

unfoldable pub ensure_in : Value → String → JsonPointer → Edit → Result DiffError Value
ensure_in (object fs) segment reconstructed edit =
    as_object (in_fields (or_insert fs segment) segment (missing_parent_path reconstructed) edit)
ensure_in (array vs) segment reconstructed edit =
    ensure_indexed vs (parse_usize segment) (missing_parent_path reconstructed) edit
ensure_in other segment reconstructed edit =
    err (incompatible_shape reconstructed (kind_name other) "object")

unfoldable pub ensure_from : List String → JsonPointer → Edit
ensure_from [] reconstructed v = ok v
ensure_from (s ∷ rest) reconstructed v =
    let down = ensure_from rest (reconstructed ++ ("/" ++ s)) in
    ensure_in v (unescape_segment s) (reconstructed ++ ("/" ++ s)) down

unfoldable pub ensure_parent : Value → JsonPointer → Result DiffError Value
ensure_parent root ptr =
    if is_empty_str ptr
    then ok root
    else if str_eq ptr "/"
    then ok root
    else ensure_from (parents (segments ptr)) "" root
