-- ===== src/Diff/Compare/Values.antt =====
-- The diff of two JSON values.
use trilithon.Base.{
  ◌≡◌, ap, ◌↔◌, inl, inr, true, false, [], Option, none, some, All, Result, Result-split, ok, err,
  String,
}
use trilithon.Base.BTreeMap.{get}
use trilithon.Model.Json.{Value}
use trilithon.Model.State.{DesiredState}
use trilithon.Model.Pointer.{JsonPointer}
use trilithon.Diff.Canonical.{canonicalise_value}
use trilithon.Diff.Flatten.{flatten, flatten-IsSorted}
use trilithon.Diff.Compare.{
  DiffError, serialisation, Diff, structural_diff, state_to_value, DiffEntry, added, removed,
  modified, Engine, is_caddy_managed, diff_caddy_values,
}
use trilithon.Diff.Compare.Report.{Explained, diff_flat-Explained}
use trilithon.Diff.Compare.Justified.{IsJustified, diff_flat-IsJustified, All-absurd}

module _ (engine : Engine) where
  -- The scalar at a path of the canonical form.
  abbrev pub leaf : Value → JsonPointer → Option Value
  leaf v p = get (flatten (canonicalise_value engine.whole v)) p

  -- At every path that is not ignored, the diff says how the scalar there changed, unless it did not.
  pub diff_caddy_values-Explained :
      (before after : Value) (p : JsonPointer)
      → is_caddy_managed engine p ≡ false
      → Explained engine p
          (leaf before p)
          (leaf after p)
          (diff_caddy_values engine before after).entries
  unfolding diff_caddy_values
  diff_caddy_values-Explained before after p n = diff_flat-Explained engine _ _ p n

  -- Every entry of the diff is at a path that is not ignored, and shows what the two values hold
  -- there: a scalar in one of them only, or two that are not equal.
  pub diff_caddy_values-IsJustified :
      (before after : Value)
      → All
          (IsJustified engine
            (flatten (canonicalise_value engine.whole before))
            (flatten (canonicalise_value engine.whole after)))
          (diff_caddy_values engine before after).entries
  unfolding diff_caddy_values
  diff_caddy_values-IsJustified before after =
      diff_flat-IsJustified engine _ _ (flatten-IsSorted _) (flatten-IsSorted _)

  -- Both absent, or equal.
  abbrev pub SameLeaf : Option Value → Option Value → Type 0
  SameLeaf none none = Unit
  SameLeaf (some b) (some a) = engine.eq a b ≡ true
  SameLeaf _ _ = ⊥

  Explained-nil : (p : JsonPointer) (b a : Option Value) → Explained engine p b a [] → SameLeaf b a
  Explained-nil p none none h = tt
  Explained-nil p (some b) none h = h
  Explained-nil p none (some a) h = h
  Explained-nil p (some b) (some a) h = elim h [ inl e ↦ e | inr e ↦ absurd e ]

  same_unjustified :
      (before after : Value)
      → ((p : JsonPointer)
          → is_caddy_managed engine p ≡ false
          → SameLeaf (leaf before p) (leaf after p))
      → (e : DiffEntry)
      → IsJustified engine
          (flatten (canonicalise_value engine.whole before))
          (flatten (canonicalise_value engine.whole after))
          e
      → ⊥
  same_unjustified before after s (added p a) (n, (f, g)) =
      let leaves : SameLeaf (leaf before p) (leaf after p) = s p n in rw (f, g) at leaves
  same_unjustified before after s (removed p b) (n, (f, g)) =
      let leaves : SameLeaf (leaf before p) (leaf after p) = s p n in rw (f, g) at leaves
  same_unjustified before after s (modified p b a) (n, (f, g, e)) =
      let leaves : SameLeaf (leaf before p) (leaf after p) = s p n in
      let equal : engine.eq a b ≡ true = rw (f, g) at leaves in cc

  -- The diff has no entry exactly when the two values have equal scalars at every path that is not
  -- ignored.
  pub diff_caddy_values-empty_iff :
      (before after : Value)
      → ((diff_caddy_values engine before after).entries ≡ []) ↔ (
          (p : JsonPointer)
          → is_caddy_managed engine p ≡ false
          → SameLeaf (leaf before p) (leaf after p))
  diff_caddy_values-empty_iff before after = (
    λ h p n.
        Explained-nil p (leaf before p) (leaf after p)
          (rw h at (diff_caddy_values-Explained before after p n)),
    λ s.
        All-absurd engine _ _ (same_unjustified before after s)
          (diff_caddy_values-IsJustified before after),
  )

  -- The two states have the JSON values whose diff it is.
  abbrev pub IsValueDiff : DesiredState → DesiredState → Diff → Type 0
  IsValueDiff before after d =
      (b : Value) × (a : Value) × (engine.to_value before ≡ ok b)
      × (engine.to_value after ≡ ok a)
      × (diff_caddy_values engine b a ≡ d)

  value_of :
      (s : DesiredState) (v : Value)
      → engine.to_value s ≡ ok v
      → state_to_value engine s ≡ ok (canonicalise_value engine.whole v)
  unfolding state_to_value
  value_of s v f = rw (f, state_to_value)

  no_value_of :
      (s : DesiredState) (detail : String)
      → engine.to_value s ≡ err detail
      → state_to_value engine s ≡ err (serialisation detail)
  unfolding state_to_value
  no_value_of s detail f = rw (f, state_to_value)

  values_of :
      (before after : DesiredState) (d : Diff)
      → structural_diff engine before after ≡ ok d
      → IsValueDiff before after d
  unfolding structural_diff diff_caddy_values
  values_of before after d h = elim (Result-split (engine.to_value before)) [
    | inr (x, f) ↦ failed x (rw (no_value_of before x f) at h)
    | inl (b, f) ↦ elim (Result-split (engine.to_value after)) [
      | inr (y, g) ↦ failed y (rw (value_of before b f, no_value_of after y g) at h)
      | inl (a, g) ↦
          let same : ok (diff_caddy_values engine b a) ≡ ok d =
            rw (value_of before b f, value_of after a g) at h in
          let one : diff_caddy_values engine b a ≡ d = cc in (b, a, f, g, one)
    ]
  ]
    where
      failed :
          (detail : String)
          → ◌≡◌ {A = Result DiffError Diff} (err (serialisation detail)) (ok d)
          → IsValueDiff before after d
      failed detail e = cc

  -- The diff of two states succeeds with the diff of their JSON values, exactly when both have one.
  pub structural_diff_iff :
      (before after : DesiredState) (d : Diff)
      → (structural_diff engine before after ≡ ok d) ↔ IsValueDiff before after d
  unfolding structural_diff diff_caddy_values
  structural_diff_iff before after d = (
    values_of before after d,
    λ (b, a, f, g, e). rw (value_of before b f, value_of after a g) (ap ok e),
  )
