-- ===== src/Diff/Edit/Lookup.antt =====
-- What is found at a pointer after an edit there.
use Prim.Native.String.{◌++◌}
use trilithon.Base.{
  ℕ, zero, suc, String, List, [], ◌∷◌, Option, none, some, if◌then◌else◌, str_eq, eq_refl, Result,
  ok, ◌≡◌, refl, ◌∙◌, inl, inr, Bool-cases, Option-cases, Result-split,
}
use trilithon.Base.Text.{is_empty_str}
use trilithon.Model.Json.{
  Value, null, bool, number, string, array, object, Items, nil, cons, Fields, end, field,
}
use trilithon.Model.Pointer.{JsonPointer, unescape_segment}
use trilithon.Diff.Canonical.{get_field, insert_field}
use trilithon.Diff.Canonical.Member.{get_field-insert_field}
use trilithon.Diff.Compare.{DiffError, missing_parent_path}
use trilithon.Diff.Edit.{
  Edit, parse_usize, segments, parents, last_of, in_fields, in_items, navigate_mut, edit_at,
  set_item, set_leaf, pointer_set,
}

unfoldable pub get_item : Items → ℕ → Option Value
get_item nil i = none
get_item (cons v vs) zero = some v
get_item (cons v vs) (suc i) = get_item vs i

abbrev pub get_indexed : Items → Option ℕ → Option Value
get_indexed vs none = none
get_indexed vs (some i) = get_item vs i

-- One step down, and the value below a list of segments.
unfoldable pub child : Value → String → Option Value
child (object fs) segment = get_field fs (unescape_segment segment)
child (array vs) segment = get_indexed vs (parse_usize (unescape_segment segment))
child other segment = none

unfoldable pub below : Option Value → List String → Option Value
below v [] = v
below none (s ∷ rest) = none
below (some v) (s ∷ rest) = below (child v s) rest

-- RFC 6901's evaluation, as the source splits a pointer.
unfoldable pub at_pointer : Value → JsonPointer → Option Value
at_pointer root ptr =
    let parts = segments ptr in
    if is_empty_str ptr
    then some root
    else below (below (some root) (parents parts)) (last_of parts ∷ [])

-- A member that was edited.
in_fields-eq-ok :
    (fs gs : Fields) (key : String) (missing : DiffError) (edit : Edit)
    → in_fields fs key missing edit ≡ ok gs
    → (v w : Value) × (edit v ≡ ok w) × (get_field gs key ≡ some w)
unfolding in_fields get_field
in_fields-eq-ok end gs key missing edit h = cc
in_fields-eq-ok (field k v fs) gs key missing edit h = elim (Bool-cases (str_eq k key)) [
  | inl e ↦ elim (Result-split (edit v)) [
    | inr (f, d) ↦ cc (rw (e, d) at h)
    | inl (w, d) ↦
        let done : ◌≡◌ {A = Result DiffError Fields} (ok (field k w fs)) (ok gs) = rw (e, d) at h in
        let same : field k w fs ≡ gs = cc in (v, w, d, rw (← same) (rw e refl))
  ]
  | inr e ↦ elim (Result-split (in_fields fs key missing edit)) [
    | inr (f, d) ↦ cc (rw (e, d) at h)
    | inl (rest, d) ↦
        let (u, w, edited, found) = in_fields-eq-ok fs rest key missing edit d in
        let done : ◌≡◌ {A = Result DiffError Fields} (ok (field k v rest)) (ok gs) =
          rw (e, d) at h in
        let same : field k v rest ≡ gs = cc in (u, w, edited, rw (← same) (rw e found))
  ]
]

in_items-eq-ok :
    (vs ws : Items) (i : ℕ) (missing : DiffError) (edit : Edit)
    → in_items vs i missing edit ≡ ok ws
    → (v w : Value) × (edit v ≡ ok w) × (get_item ws i ≡ some w)
unfolding in_items get_item
in_items-eq-ok nil ws i missing edit h = cc
in_items-eq-ok (cons v vs) ws zero missing edit h = elim (Result-split (edit v)) [
  | inr (f, d) ↦ cc (rw d at h)
  | inl (w, d) ↦
      let done : ◌≡◌ {A = Result DiffError Items} (ok (cons w vs)) (ok ws) = rw d at h in
      let same : cons w vs ≡ ws = cc in (v, w, d, rw (← same) refl)
]
in_items-eq-ok (cons v vs) ws (suc i) missing edit h =
    elim (Result-split (in_items vs i missing edit)) [
      | inr (f, d) ↦ cc (rw d at h)
      | inl (rest, d) ↦
          let (u, w, edited, found) = in_items-eq-ok vs rest i missing edit d in
          let done : ◌≡◌ {A = Result DiffError Items} (ok (cons v rest)) (ok ws) = rw d at h in
          let same : cons v rest ≡ ws = cc in (u, w, edited, rw (← same) found)
    ]

navigate_mut-eq-ok :
    (v w : Value) (s : String) (reconstructed : JsonPointer) (edit : Edit)
    → navigate_mut v (unescape_segment s) reconstructed edit ≡ ok w
    → (u x : Value) × (edit u ≡ ok x) × (child w s ≡ some x)
unfolding navigate_mut child
navigate_mut-eq-ok (object fs) w s reconstructed edit h =
    elim (Result-split
      (in_fields fs (unescape_segment s) (missing_parent_path reconstructed) edit)) [
        | inr (f, d) ↦ cc (rw d at h)
        | inl (gs, d) ↦
            let (u, x, edited, found) = in_fields-eq-ok fs gs _ _ edit d in
            let done : ◌≡◌ {A = Result DiffError Value} (ok (object gs)) (ok w) = rw d at h in
            let same : object gs ≡ w = cc in (u, x, edited, rw (← same) found)
      ]
navigate_mut-eq-ok (array vs) w s reconstructed edit h =
    elim (Option-cases (parse_usize (unescape_segment s))) [
      | inl none_there ↦ cc (rw none_there at h)
      | inr (i, index) ↦
          elim (Result-split (in_items vs i (missing_parent_path reconstructed) edit)) [
            | inr (f, d) ↦ cc (rw (index, d) at h)
            | inl (ws, d) ↦
                let (u, x, edited, found) = in_items-eq-ok vs ws i _ edit d in
                let done : ◌≡◌ {A = Result DiffError Value} (ok (array ws)) (ok w) =
                  rw (index, d) at h in
                let same : array ws ≡ w = cc in (u, x, edited, rw (← same) (rw index found))
          ]
    ]
navigate_mut-eq-ok null w s reconstructed edit h = cc
navigate_mut-eq-ok (bool b) w s reconstructed edit h = cc
navigate_mut-eq-ok (number n) w s reconstructed edit h = cc
navigate_mut-eq-ok (string t) w s reconstructed edit h = cc

edit_at-eq-ok :
    (parts : List String) (reconstructed : JsonPointer) (edit : JsonPointer → Edit) (v w : Value)
    → edit_at parts reconstructed edit v ≡ ok w
    → (p : JsonPointer) × (u x : Value) × (edit p u ≡ ok x) × (below (some w) parts ≡ some x)
unfolding edit_at below
edit_at-eq-ok [] reconstructed edit v w h = (reconstructed, v, w, h, refl)
edit_at-eq-ok (s ∷ rest) reconstructed edit v w h =
    let here = reconstructed ++ ("/" ++ s) in
    let (u, x, down, found) = navigate_mut-eq-ok v w s here (edit_at rest here edit) h in
    let (p, t, y, edited, under) = edit_at-eq-ok rest here edit u x down in
    (p, t, y, edited, rw found under)

get_item-set_item : (vs : Items) (i : ℕ) (v : Value) → get_item (set_item vs i v) i ≡ some v
unfolding get_item set_item
get_item-set_item nil zero v = refl
get_item-set_item nil (suc i) v = get_item-set_item nil i v
get_item-set_item (cons w vs) zero v = refl
get_item-set_item (cons w vs) (suc i) v = get_item-set_item vs i v

child-set_leaf :
    (last : String) (new_val : Value) (reconstructed : JsonPointer) (v w : Value)
    → set_leaf last new_val reconstructed v ≡ ok w
    → child w last ≡ some new_val
unfolding set_leaf child
child-set_leaf last new_val reconstructed (object fs) w h =
    let key = unescape_segment last in
    let same : object (insert_field key new_val fs) ≡ w = cc in
    rw (← same) (get_field-insert_field fs key new_val key ∙ rw (eq_refl key) refl)
child-set_leaf last new_val reconstructed (array vs) w h =
    elim (Option-cases (parse_usize (unescape_segment last))) [
      | inl none_there ↦ cc (rw none_there at h)
      | inr (i, index) ↦
          let done : ◌≡◌ {A = Result DiffError Value} (ok (array (set_item vs i new_val))) (ok w) =
            rw index at h in
          let same : array (set_item vs i new_val) ≡ w = cc in
          rw (← same) (rw index (get_item-set_item vs i new_val))
    ]
child-set_leaf last new_val reconstructed null w h = cc
child-set_leaf last new_val reconstructed (bool b) w h = cc
child-set_leaf last new_val reconstructed (number n) w h = cc
child-set_leaf last new_val reconstructed (string t) w h = cc

-- A value that was set is found at its pointer, whatever the pointer: in an object, in an array, at
-- an index beyond its end, or at the root.
pub at_pointer-pointer_set :
    (root after new_val : Value) (ptr : JsonPointer)
    → pointer_set root ptr new_val ≡ ok after
    → at_pointer after ptr ≡ some new_val
unfolding pointer_set at_pointer below
at_pointer-pointer_set root after new_val ptr h = elim (Bool-cases (is_empty_str ptr)) [
  | inl e ↦
      let done : ◌≡◌ {A = Result DiffError Value} (ok new_val) (ok after) = rw e at h in
      let same : new_val ≡ after = cc in rw (e, ← same) refl
  | inr e ↦
      let parts = segments ptr in
      let leaf = set_leaf (last_of parts) new_val in
      let (p, u, x, edited, found) = edit_at-eq-ok (parents parts) "" leaf root after (rw e at h) in
      rw (e, found) (child-set_leaf (last_of parts) new_val p u x edited)
]
