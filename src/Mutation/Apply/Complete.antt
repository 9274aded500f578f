-- ===== src/Mutation/Apply/Complete.antt =====
-- The changes that `apply_mutation` reports against the change of the state.
pub mod Variants
pub mod Mutations
use mathlib.Core.List.{◌++◌ as append}
use trilithon.Base.{
  String, ◌≡◌, refl, ◌∙◌, ◌⊎◌, inl, inr, false, List, [], ◌∷◌, Option, none, arith, str_eq, eq_iff,
  eq_refl, ap, Any, Bool-cases,
}
use trilithon.Base.BTreeMap.{
  BTreeMap, BTreeSet, get, insert, remove, contains_key, contains, insert_set,
}
use trilithon.Base.BTreeMap.Lookup.{get-insert, get-remove, contains-insert_set}
use trilithon.Model.Json.{Value}
use trilithon.Model.Pointer.{JsonPointer}
use trilithon.Mutation.Types.{DiffChange}
use trilithon.Mutation.Steps.{and_then}

-- The changes have one at the pointer, between the two values.
abbrev pub Reports : JsonPointer → Option Value → Option Value → List DiffChange → Type 0
Reports pointer old new = Any λ c. (c.path ≡ pointer) × (c.before ≡ old) × (c.after ≡ new)

pub Reports-append :
    (p : JsonPointer) (a b : Option Value) (d e : List DiffChange)
    → Reports p a b d
    → Reports p a b (append d e)
Reports-append p a b (c ∷ d) e h = elim h [
  | inl q ↦ inl q
  | inr q ↦ inr (Reports-append p a b d e q)
]
Reports-append p a b [] e h = absurd h

pub Reports-last :
    (p : JsonPointer) (a b : Option Value) (d : List DiffChange)
    → Reports p a b (append d (record { path = p; before = a; after = b } ∷ []))
Reports-last p a b [] = inl (refl, refl, refl)
Reports-last p a b (c ∷ d) = inr (Reports-last p a b d)

module _ {V : Type 0} (ser : V → Option Value) (at : String → JsonPointer) where
  -- An entry is as it was, or the change of it is reported.
  abbrev pub Tracked : BTreeMap V → BTreeMap V → List DiffChange → String → Type 0
  Tracked old new d k =
      (get new k ≡ get old k)
      ⊎ Reports (at k) (and_then (get old k) ser) (and_then (get new k) ser) d

  -- One write, reported.
  pub insert-Tracked :
      (m : BTreeMap V) (id : String) (v : V) (before : Option Value)
      → before ≡ and_then (get m id) ser
      → (k : String)
      → Tracked m (insert m id v) (record { path = at id; before = before; after = ser v } ∷ []) k
  insert-Tracked m id v before e k = elim (Bool-cases (str_eq id k)) [
    | inl q ↦
        let same : id ≡ k = (eq_iff id k).0 q in
        inr (inl (ap at same, e ∙ ap (λ x. and_then (get m x) ser) same, rw get-insert (rw q)))
    | inr q ↦ inl (rw get-insert (rw q))
  ]

  pub remove-Tracked :
      (m : BTreeMap V) (id : String) (k : String)
      → Tracked m
          (remove m id)
          (record { path = at id; before = and_then (get m id) ser; after = none } ∷ [])
          k
  remove-Tracked m id k = elim (Bool-cases (str_eq id k)) [
    | inl q ↦
        let same : id ≡ k = (eq_iff id k).0 q in
        inr (inl (ap at same, ap (λ x. and_then (get m x) ser) same, rw get-remove (rw q)))
    | inr q ↦ inl (rw get-remove (rw q))
  ]

  -- Untouched and not seen yet, or new and reported.
  abbrev pub Imported : BTreeMap V → BTreeMap V → BTreeSet → List DiffChange → String → Type 0
  Imported old new seen d k =
      ((contains seen k ≡ false) × (get new k ≡ get old k))
      ⊎ (get old k ≡ none) × Reports (at k) none (and_then (get new k) ser) d

  pub Imported-Tracked :
      (old new : BTreeMap V) (seen : BTreeSet) (d : List DiffChange) (k : String)
      → Imported old new seen d k
      → Tracked old new d k
  Imported-Tracked old new seen d k h = elim h [ inl (_, e) ↦ inl e | inr (e, r) ↦ inr (rw e r) ]

  -- One write of an import.
  pub insert-Imported :
      (old new : BTreeMap V) (seen : BTreeSet) (d : List DiffChange) (id : String) (v : V)
      → contains_key old id ≡ false
      → contains seen id ≡ false
      → ((k : String) → Imported old new seen d k)
      → (k : String)
      → Imported old
          (insert new id v)
          (insert_set seen id)
          (append d (record { path = at id; before = none; after = ser v } ∷ []))
          k
  insert-Imported old new seen d id v fresh unseen h k = elim (Bool-cases (str_eq id k)) [
    | inl q ↦
        let same : id ≡ k = (eq_iff id k).0 q in
        let last = Reports-last (at id) none (ser v) d in
        inr (rw (← same) (absent old id fresh), rw (← same) (rw (get-insert, eq_refl) last))
    | inr q ↦ elim (h k) [
      | inl (u, e) ↦ inl (rw (contains-insert_set, q) u, rw (get-insert, q) e)
      | inr (e, r) ↦ inr (e, rw (get-insert, q) (Reports-append (at k) none _ d _ r))
    ]
  ]
    where
      absent : (m : BTreeMap V) (j : String) → contains_key m j ≡ false → get m j ≡ none
      absent m j e = ground (arith)
