-- ===== src/Diff/Compare/Justified.antt =====
-- Every entry of a diff is there for a reason.
use trilithon.Base.{
  ◌≡◌, refl, inl, inr, false, List, [], ◌∷◌, none, some, All, All-append, Bool-cases, Option-cases,
}
use trilithon.Base.BTreeMap.{BTreeMap, get}
use trilithon.Base.BTreeMap.Order.{IsSorted, IsSorted-get}
use trilithon.Model.Json.{Value}
use trilithon.Model.Pointer.{JsonPointer}
use trilithon.Diff.Compare.{
  DiffEntry, added, removed, modified, path, Engine, is_caddy_managed, before_entry, before_loop,
  after_loop, diff_flat,
}
use trilithon.Diff.Compare.Report.{All-sort_entries}

module _ (engine : Engine) where
  -- What the two maps hold at the path of an entry that is not ignored.
  abbrev Shows : BTreeMap Value → BTreeMap Value → DiffEntry → Type 0
  Shows before after (added p a) = (get before p ≡ none) × (get after p ≡ some a)
  Shows before after (removed p b) = (get before p ≡ some b) × (get after p ≡ none)
  Shows before after (modified p b a) =
      (get before p ≡ some b) × (get after p ≡ some a) × (engine.eq a b ≡ false)

  abbrev pub IsJustified : BTreeMap Value → BTreeMap Value → DiffEntry → Type 0
  IsJustified before after e = (is_caddy_managed engine (path e) ≡ false) × Shows before after e

  before_entry-IsJustified :
      (before after : BTreeMap Value) (p : JsonPointer) (b : Value)
      → get before p ≡ some b
      → is_caddy_managed engine p ≡ false
      → All (IsJustified before after) (before_entry engine p b (get after p))
  before_entry-IsJustified before after p b f n = elim (Option-cases (get after p)) [
    | inl g ↦ rw g ((n, (f, g)), tt)
    | inr (a, g) ↦ elim (Bool-cases (engine.eq a b)) [
      | inl e ↦ rw g (rw e tt)
      | inr e ↦ rw g (rw e ((n, (f, g, e)), tt))
    ]
  ]

  before_loop-IsJustified :
      (before after m : BTreeMap Value)
      → All (λ x. get before x.0 ≡ some x.1) m
      → All (IsJustified before after) (before_loop engine after m).0
  unfolding before_loop
  before_loop-IsJustified before after [] h = tt
  before_loop-IsJustified before after ((p, b) ∷ m) h =
      let rest = before_loop-IsJustified before after m h.1 in
      elim (Bool-cases (is_caddy_managed engine p)) [
        | inl i ↦ rw i rest
        | inr i ↦ rw i (
            All-append (IsJustified before after) (before_entry engine p b (get after p)) _
              (before_entry-IsJustified before after p b h.0 i) rest)
      ]

  after_loop-IsJustified :
      (before after m : BTreeMap Value)
      → All (λ x. get after x.0 ≡ some x.1) m
      → All (IsJustified before after) (after_loop engine before m).0
  unfolding after_loop
  after_loop-IsJustified before after [] h = tt
  after_loop-IsJustified before after ((p, a) ∷ m) h =
      let rest = after_loop-IsJustified before after m h.1 in
      elim (Bool-cases (is_caddy_managed engine p)) [
        | inl i ↦ rw i rest
        | inr i ↦ elim (Option-cases (get before p)) [
          | inl f ↦ rw i (rw f ((i, (f, h.0)), rest))
          | inr (b, f) ↦ rw i (rw f rest)
        ]
      ]

  -- Every entry of the diff of two sorted maps is at a path that is not ignored, and shows what the
  -- maps hold there: one of them only, or two values that are not equal.
  pub diff_flat-IsJustified :
      (before after : BTreeMap Value)
      → IsSorted before
      → IsSorted after
      → All (IsJustified before after) (diff_flat engine before after).entries
  unfolding diff_flat
  diff_flat-IsJustified before after h k = All-sort_entries (IsJustified before after) _ (
      All-append (IsJustified before after) (before_loop engine after before).0 _
        (before_loop-IsJustified before after before (IsSorted-get before h))
        (after_loop-IsJustified before after after (IsSorted-get after k)))

  pub All-absurd :
      (P : DiffEntry → Type 0) (l : List DiffEntry) → ((e : DiffEntry) → P e → ⊥) → All P l → l ≡ []
  All-absurd P [] f h = refl
  All-absurd P (e ∷ l) f h = absurd (f e h.0)
