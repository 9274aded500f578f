-- ===== src/Reconciler/Render/Owned.antt =====
-- The keys that the renderer owns, under the extensions.
use Prim.Native.String.{◌++◌}
use Prim.Native.String.append
use trilithon.Base.{
  ℕ, String, code, true, false, ◌&&◌, ◌||◌, List, [], ◌∷◌, Option, none, some, str_eq, eq_iff, ◌==◌,
  map, Result, ok, refuse_if, ◌≡◌, refl, inl, inr, Bool-cases, Option-cases, >>=-eq-ok, >>-eq-ok,
  refuse_if-eq-ok, sym, ap, ◌∙◌, subst, arith,
}
use trilithon.Base.BTreeMap.{BTreeMap}
use trilithon.Base.Text.{contains_char, split, strip_prefix, is_empty_str}
use trilithon.Model.Json.{Value, object, string, Fields}
use trilithon.Model.Pointer.{JsonPointer, replace_pair, unescape_segment}
use trilithon.Model.State.{DesiredState}
use trilithon.Diff.Canonical.{get_field, insert_field}
use trilithon.Diff.Canonical.Member.{get_field-insert_field}
use trilithon.Reconciler.Render.{
  extension_collision, ownership_sentinel, is_owned, inner_object, and_in, put_back, set_path,
  json_pointer_set, first_of, first_key, or_collision, apply_unknown_extensions, apps_value,
  skeleton, build_http_servers, render_state,
}

-- A replacement that put its text in would show in the result.
replace_pair-inert :
    (a b x : ℕ) (r s : String)
    → ((t : String) → contains_char x (r ++ t) ≡ true)
    → contains_char x (replace_pair a b r s) ≡ false
    → replace_pair a b r s ≡ s
unfolding replace_pair contains_char
replace_pair-inert a b x r String.[] shows h = refl
replace_pair-inert a b x r (String.◌∷◌ c String.[]) shows h = refl
replace_pair-inert a b x r (String.◌∷◌ c (String.◌∷◌ d s)) shows h =
    elim (Bool-cases (code c == a && code d == b)) [
      | inl e ↦ cc (rw e at h, shows (replace_pair a b r s))
      | inr e ↦
          let rest = replace_pair-inert a b x r (String.◌∷◌ d s) shows (ground arith) in
          rw e (ap (λ (t : String). String.◌∷◌ c t) rest)
    ]

unescape_segment-plain :
    (s k : String)
    → contains_char b'~' k ≡ false
    → contains_char b'/' k ≡ false
    → unescape_segment s ≡ k
    → s ≡ k
unfolding unescape_segment contains_char
unescape_segment-plain s k tilde slash h =
    let inner = replace_pair b'~' b'1' "/" s in
    let outer =
      replace_pair-inert b'~' b'0' b'~' "~" inner (λ t. rw append.cons refl)
        (subst (λ x. contains_char b'~' x ≡ false) (sym h) tilde) in
    let is_k : inner ≡ k = sym outer ∙ h in
    sym (
      replace_pair-inert b'~' b'1' b'/' "/" s (λ t. rw append.cons refl)
        (subst (λ x. contains_char b'/' x ≡ false) (sym is_k) slash))
    ∙ is_k

first_of-map : (l : List String) → first_of (map unescape_segment l) ≡ unescape_segment (first_of l)
unfolding unescape_segment replace_pair
first_of-map [] = refl
first_of-map (s ∷ l) = refl

written_at :
    (fs after : Fields) (s k : String) (v : Value)
    → str_eq s k ≡ false
    → insert_field s v fs ≡ after
    → get_field after k ≡ get_field fs k
written_at fs after s k v apart h =
    ap (λ (x : Fields). get_field x k) (sym h) ∙ (get_field-insert_field fs s v k ∙ rw apart refl)

put_back-some :
    (s : String) (fs : Fields) (o : Option Fields) (after : Fields)
    → put_back s fs o ≡ some after
    → (inner : Fields) × (insert_field s (object inner) fs ≡ after)
put_back-some s fs none after h = cc
put_back-some s fs (some inner) after h = (inner, cc)

set_path-other :
    (segments : List String) (v : Value) (fs after : Fields) (k : String)
    → str_eq (first_of segments) k ≡ false
    → set_path segments v fs ≡ some after
    → get_field after k ≡ get_field fs k
unfolding set_path
set_path-other [] v fs after k apart h = let same : fs ≡ after = cc in rw same refl
set_path-other (s ∷ []) v fs after k apart h = written_at fs after s k v apart (cc)
set_path-other (s ∷ t ∷ rest) v fs after k apart h =
    let (inner, found) =
      put_back-some s fs (and_in (inner_object (get_field fs s)) (set_path (t ∷ rest) v)) after h in
    written_at fs after s k (object inner) apart found

first_apart :
    (raw : List String) (k : String)
    → contains_char b'~' k ≡ false
    → contains_char b'/' k ≡ false
    → str_eq (first_of raw) k ≡ false
    → str_eq (first_of (map unescape_segment raw)) k ≡ false
first_apart raw k tilde slash apart =
    elim (Bool-cases (str_eq (first_of (map unescape_segment raw)) k)) [
      | inr e ↦ e
      | inl e ↦
          let unescaped =
            sym (first_of-map raw) ∙ (eq_iff (first_of (map unescape_segment raw)) k).0 e in
          let same = unescape_segment-plain (first_of raw) k tilde slash unescaped in
          cc ((eq_iff (first_of raw) k).1 same)
    ]

-- A write below a first segment that is not owned leaves the owned keys.
json_pointer_set-owned :
    (fs after : Fields) (pointer k : String) (v : Value)
    → contains_char b'~' k ≡ false
    → contains_char b'/' k ≡ false
    → str_eq (first_key pointer) k ≡ false
    → json_pointer_set fs pointer v ≡ some after
    → get_field after k ≡ get_field fs k
unfolding json_pointer_set first_key
json_pointer_set-owned fs after pointer k v tilde slash apart h =
    elim (Bool-cases (is_empty_str pointer || str_eq pointer "/")) [
      | inl e ↦ cc (rw e at h)
      | inr e ↦ elim (Option-cases (strip_prefix "/" pointer)) [
        | inl f ↦ cc (rw (e, f) at h)
        | inr (rest, f) ↦
            let raw = split (λ c. c == b'/') rest in
            set_path-other (map unescape_segment raw) v fs after k
              (first_apart raw k tilde slash (rw (f, first_key) at apart)) (rw (e, f) at h)
      ]
    ]

or_collision-ok :
    (o : Option Fields) (p : JsonPointer) (fs : Fields) → or_collision o p ≡ ok fs → o ≡ some fs
or_collision-ok none p fs h = cc
or_collision-ok (some w) p fs h = cc

-- A key that the renderer owns, `k`, is the same after the extensions.
extensions-owned :
    (fs after : Fields) (extensions : BTreeMap Value) (k : String)
    → contains_char b'~' k ≡ false
    → contains_char b'/' k ≡ false
    → ((s : String) → is_owned s ≡ false → str_eq s k ≡ false)
    → apply_unknown_extensions fs extensions ≡ ok after
    → get_field after k ≡ get_field fs k
unfolding apply_unknown_extensions
extensions-owned fs after [] k tilde slash owned h = let same : fs ≡ after = cc in rw same refl
extensions-owned fs after ((pointer, v) ∷ extensions) k tilde slash owned h =
    let (allowed, more) =
      >>-eq-ok (refuse_if (is_owned (first_key pointer)) (extension_collision pointer)) _ h in
    let (written, set, rest) =
      >>=-eq-ok (or_collision (json_pointer_set fs pointer v) pointer) _ more in
    let apart =
      owned (first_key pointer) (refuse_if-eq-ok (is_owned (first_key pointer)) _ allowed) in
    extensions-owned written after extensions k tilde slash owned rest
    ∙ json_pointer_set-owned fs written pointer k v tilde slash apart
        (or_collision-ok (json_pointer_set fs pointer v) pointer written set)

module _ (parse : String → Result String Value) where
  -- Whatever the extensions are, a document that is rendered has the ownership sentinel at its key
  -- `@id`, and at `apps` exactly what the routes and the TLS configuration give.
  pub render_state-owned :
      (state : DesiredState) (document : Value)
      → render_state parse state ≡ ok document
      → (root : Fields) × (servers : Fields) × (document ≡ object root)
        × (build_http_servers parse state ≡ ok servers)
        × (get_field root "@id" ≡ some (string ownership_sentinel))
        × (get_field root "apps" ≡ some (apps_value servers state.tls))
  unfolding render_state skeleton contains_char get_field insert_field
  render_state-owned state document h =
      let (servers, built, more) = >>=-eq-ok (build_http_servers parse state) _ h in
      let (root, merged, done) =
        >>=-eq-ok (apply_unknown_extensions (skeleton servers state.tls) state.unknown_extensions) _
          more in
      (
        root,
        servers,
        cc,
        built,
        extensions-owned (skeleton servers state.tls) root state.unknown_extensions "@id" refl refl
            (λ s e. ground arith) merged,
        extensions-owned (skeleton servers state.tls) root state.unknown_extensions "apps" refl refl
            (λ s e. ground arith) merged,
      )
