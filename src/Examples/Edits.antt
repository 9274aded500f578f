-- ===== src/Examples/Edits.antt =====
-- Runs of the application of a diff.
use trilithon.Base.{◌≡◌, refl, none, some, [], ◌∷◌, ok, err}
use trilithon.Base.BTreeMap.{get, insert, insert_set, contains}
use trilithon.Model.Json.{
  Value, null, string, number, Number, array, object, Items, nil, cons, end, field,
}
use trilithon.Model.Pointer.{unescape_segment}
use trilithon.Model.State.{empty}
use trilithon.Diff.Compare.{Diff, DiffEntry, missing_parent_path, diff_caddy_values, state_to_value}
use trilithon.Diff.Edit.{pointer_set, pointer_remove, remove_item, remove_leaf, in_items}
use trilithon.Diff.Edit.Lookup.{at_pointer, at_pointer-pointer_set}
use trilithon.Storage.Tables.{insert_row, order_by}
use trilithon.Diff.Apply.{
  fully_removed_subtrees, add_candidates, add_prefixes, slice_to, remove_all, reverse_onto, choose,
  any_covers, all_removed, has_leaves, is_under, apply_entries, apply_entry, apply_to_value,
  apply_diff, removed_leaves,
}
use trilithon.Diff.Apply.Panics.{all_single, apply_diff-panics}
use trilithon.Examples.Diffs.{engine}
use trilithon.Diff.Compare.{
  after_loop, before_loop, diff_flat, insert_entry, is_caddy_managed, sort_entries,
}
use trilithon.Diff.Flatten.{flatten, flatten_into}
use trilithon.Diff.Canonical.{canonicalise_value, insert_field}
use trilithon.Model.Pointer.{escape_segment, push, replace_pair}
use trilithon.Base.Text.{replace_char, split, strip_prefix}
use trilithon.Base.Text.Decimal.{to_string}
use trilithon.Diff.Edit.{
  edit_at, in_fields, last_of, navigate_mut, parents, parse_usize, set_item, set_leaf,
}
use trilithon.Diff.Summary.{trim_slashes}

abbrev items : Items → Value
items vs = object (field "a" (array vs) end)

abbrev triple : Value
triple = items (cons (string "x") (cons (string "y") (cons (string "z") nil)))

abbrev single : Value
single = items (cons (string "x") nil)

-- The two removals that the comparison of the two values reports.
abbrev shorten : Diff
shorten = record {
  entries = DiffEntry.removed "/a/1" (string "y") ∷ DiffEntry.removed "/a/2" (string "z") ∷ [];
  ignored_count = 0;
}

shorten_reported : diff_caddy_values engine triple single ≡ shorten
unfolding diff_caddy_values diff_flat sort_entries before_loop flatten flatten_into
    canonicalise_value insert_field insert push escape_segment replace_char to_string
    is_caddy_managed get after_loop insert_entry
shorten_reported = refl

-- The second is out of place after the first.
shorten_refused : apply_to_value triple shorten ≡ some (err (missing_parent_path "/a/2"))
unfolding apply_to_value fully_removed_subtrees add_candidates removed_leaves insert_set
    add_prefixes slice_to remove_all reverse_onto choose order_by insert_row any_covers all_removed
    flatten flatten_into insert contains to_string replace_char split strip_prefix has_leaves
    is_under edit_at in_fields in_items last_of navigate_mut parents parse_usize pointer_remove
    remove_item remove_leaf trim_slashes escape_segment push replace_pair unescape_segment
    apply_entries apply_entry get
shorten_refused = refl

extended :
    pointer_set single "/a/2" null ≡ ok (items (cons (string "x") (cons null (cons null nil))))
unfolding pointer_set edit_at parents split trim_slashes navigate_mut in_fields unescape_segment
    replace_pair set_leaf parse_usize last_of set_item
extended = refl

at_pointer-pointer_set_example :
    at_pointer (items (cons (string "x") (cons null (cons null nil)))) "/a/2" ≡ some null
at_pointer-pointer_set_example =
    at_pointer-pointer_set single (items (cons (string "x") (cons null (cons null nil)))) null
      "/a/2" extended

-- A leaf below the member "é".
abbrev drop_leaf : Diff
drop_leaf = record { entries = DiffEntry.removed "/é/x" null ∷ []; ignored_count = 0 }

apply_diff-panics_example : apply_diff engine (λ v. ok empty) empty drop_leaf ≡ none
unfolding state_to_value canonicalise_value contains removed_leaves insert_set all_single
apply_diff-panics_example =
    apply_diff-panics engine (λ v. ok empty) empty (number (Number.unsigned 0)) drop_leaf "/" "x"
      "é" refl refl refl refl
