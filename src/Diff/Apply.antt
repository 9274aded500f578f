-- ===== src/Diff/Apply.antt =====
-- `apply_diff` of diff.rs. A slice of a text that ends inside a character panics: `none`.
pub mod Panics
use Prim.Native.String.{len, ◌++◌}
use trilithon.Base.{
  ℕ, suc, ◌-◌, String, code, Bool, true, false, not, ◌&&◌, ◌||◌, List, [], ◌∷◌, Option, none, some,
  if◌then◌else◌, leb, ltb, ◌==◌, Result, ok, err, ◌>>=◌,
}
use trilithon.Base.Text.{is_empty_str, starts_with_char, strip_prefix}
use trilithon.Base.BTreeMap.{BTreeMap, BTreeSet, contains, insert_set}
use trilithon.Model.Json.{Value}
use trilithon.Model.State.{DesiredState}
use trilithon.Storage.Tables.{order_by}
use trilithon.Diff.Flatten.{flatten}
use trilithon.Diff.Compare.{
  DiffError, serialisation, DiffEntry, added, removed, modified, Diff, Engine, state_to_value,
}
use trilithon.Diff.Edit.{pointer_set, pointer_remove, ensure_parent}

-- The first `n` bytes of a text, which panics when they end inside a character.
abbrev pub cons_some : String → Option String → Option String
cons_some c none = none
cons_some c (some s) = some (c ++ s)

unfoldable pub slice_to : ℕ → String → Option String
slice_to n String.[] = if n == 0 then some String.[] else none
slice_to n (String.◌∷◌ c s) =
    let first = String.◌∷◌ c String.[] in
    let rest = slice_to (n - len first) s in
    if n == 0 then some String.[] else if leb (len first) n then cons_some first rest else none

abbrev pub insert_slice : Option BTreeSet → Option String → Option BTreeSet
insert_slice none slice = none
insert_slice (some set) none = none
insert_slice (some set) (some slice) = some (insert_set set slice)

-- The loop over the characters of a path, of which `depth` were seen.
unfoldable pub add_prefixes : String → ℕ → String → Option BTreeSet → Option BTreeSet
add_prefixes path depth String.[] candidates = candidates
add_prefixes path depth (String.◌∷◌ c s) candidates = add_prefixes path (suc depth) s (
    if code c == b'/' && ltb 1 (suc depth)
    then insert_slice candidates (slice_to depth path)
    else candidates)

unfoldable pub add_candidates : BTreeSet → Option BTreeSet → Option BTreeSet
add_candidates [] candidates = candidates
add_candidates (path ∷ paths) candidates =
    add_candidates paths (insert_slice (add_prefixes path 0 path candidates) (some path))

abbrev pub at_boundary : Option String → Bool
at_boundary none = false
at_boundary (some rest) = is_empty_str rest || starts_with_char b'/' rest

-- The path is the root, or is under it.
unfoldable pub is_under : String → String → Bool
is_under path root = at_boundary (strip_prefix root path)

unfoldable pub any_covers : List String → String → Bool
any_covers [] path = false
any_covers (root ∷ roots) path = is_under path root || any_covers roots path

-- `flat_before.keys().all(…)` and `any(…)`
unfoldable pub all_removed : BTreeMap Value → BTreeSet → String → Bool
all_removed [] leaves candidate = true
all_removed ((k, _) ∷ flat) leaves candidate =
    (not (is_under k candidate) || contains leaves k) && all_removed flat leaves candidate

unfoldable pub has_leaves : BTreeMap Value → String → Bool
has_leaves [] candidate = false
has_leaves ((k, _) ∷ flat) candidate = is_under k candidate || has_leaves flat candidate

unfoldable pub choose : BTreeMap Value → BTreeSet → List String → List String → List String
choose flat leaves [] chosen = chosen
choose flat leaves (candidate ∷ rest) chosen = choose flat leaves rest (
    if not (any_covers chosen candidate)
      && all_removed flat leaves candidate
      && has_leaves flat candidate
    then candidate ∷ chosen
    else chosen)

unfoldable pub reverse_onto : List String → List String → List String
reverse_onto acc [] = acc
reverse_onto acc (s ∷ l) = reverse_onto (s ∷ acc) l

abbrev pub shorter : String → String → Bool
shorter a b = ltb (len a) (len b)

abbrev pub choose_from : BTreeMap Value → BTreeSet → Option BTreeSet → Option (List String)
choose_from flat leaves none = none
choose_from flat leaves (some candidates) =
    some (reverse_onto [] (choose flat leaves (order_by shorter candidates) []))

unfoldable pub fully_removed_subtrees : BTreeMap Value → BTreeSet → Option (List String)
fully_removed_subtrees flat_before removed_leaves =
    choose_from flat_before removed_leaves (add_candidates removed_leaves (some []))

unfoldable pub removed_leaves : List DiffEntry → BTreeSet
removed_leaves [] = []
removed_leaves (removed path _ ∷ entries) = insert_set (removed_leaves entries) path
removed_leaves (added path _ ∷ entries) = removed_leaves entries
removed_leaves (modified path _ _ ∷ entries) = removed_leaves entries

unfoldable pub remove_all : List String → Value → Result DiffError Value
remove_all [] root = ok root
remove_all (path ∷ paths) root = do next ← pointer_remove root path; remove_all paths next

unfoldable pub apply_entry : List String → DiffEntry → Value → Result DiffError Value
apply_entry subtrees (added path after) root = do
  parent ← ensure_parent root path
  pointer_set parent path after
apply_entry subtrees (removed path _) root =
    if any_covers subtrees path then ok root else pointer_remove root path
apply_entry subtrees (modified path _ after) root = pointer_set root path after

unfoldable pub apply_entries : List String → List DiffEntry → Value → Result DiffError Value
apply_entries subtrees [] root = ok root
apply_entries subtrees (entry ∷ entries) root = do
  next ← apply_entry subtrees entry root
  apply_entries subtrees entries next

-- The edits of a diff, on the value of the state.
abbrev pub edited : Option (List String) → List DiffEntry → Value → Option (Result DiffError Value)
edited none entries root = none
edited (some subtrees) entries root =
    some (remove_all subtrees root >>= λ next. apply_entries subtrees entries next)

unfoldable pub apply_to_value : Value → Diff → Option (Result DiffError Value)
apply_to_value root diff =
    edited (fully_removed_subtrees (flatten root) (removed_leaves diff.entries)) diff.entries root

module _ (engine : Engine) (from_value : Value → Result String DesiredState) where
  abbrev pub reparsed : Result DiffError Value → Result DiffError DesiredState
  reparsed (err e) = err e
  reparsed (ok root) = elim (from_value root) [
    | ok state ↦ ok state
    | err detail ↦ err (serialisation detail)
  ]

  abbrev pub reparse : Option (Result DiffError Value) → Option (Result DiffError DesiredState)
  reparse none = none
  reparse (some r) = some (reparsed r)

  abbrev pub apply_value : Result DiffError Value → Diff → Option (Result DiffError DesiredState)
  apply_value (err e) diff = some (err e)
  apply_value (ok root) diff = reparse (apply_to_value root diff)

  unfoldable pub apply_diff : DesiredState → Diff → Option (Result DiffError DesiredState)
  apply_diff state diff = apply_value (state_to_value engine state) diff
