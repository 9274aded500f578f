-- ===== src/Diff/Canonical/Twice.antt =====
-- The canonical form is in order, and its canonical form is itself.
use Prim.Native.String.{compare}
use text.Mathlib.TextEquality.{path_by_compare}
use mathlib.Core.Path.{ap₂}
use trilithon.Base.{ℕ, String, ◌≡◌, refl, ap, inl, inr, Option, some, Ordering-cases, Option-cases}
use trilithon.Base.BTreeMap.Order.{◌<ₛ◌, lt_of_gt}
use trilithon.Model.Json.{
  Number, unsigned, negative, float, Value, null, bool, number, string, array, object, Items, nil,
  cons, Fields, end, field,
}
use trilithon.Diff.Canonical.{
  insert_field, canonical_number, canonicalise_value, canonicalise_items, canonicalise_fields,
}

-- An integer, no float.
abbrev pub IsInteger : Number → Type 0
IsInteger (unsigned _) = Unit
IsInteger (negative _) = Unit
IsInteger (float _) = ⊥

abbrev IsBefore : String → Fields → Type 0
IsBefore k end = Unit
IsBefore k (field j _ _) = k <ₛ j

module _ (whole : ℕ → Option Number) where
  mutual
    -- Numbers in their canonical form and the keys of objects in order, at every level.
    pub IsCanonical : Value → Type 0
    IsCanonical (number n) = canonical_number whole n ≡ n
    IsCanonical (array vs) = AreCanonical vs
    IsCanonical (object fs) = FieldsCanonical fs
    IsCanonical null = Unit
    IsCanonical (bool _) = Unit
    IsCanonical (string _) = Unit

    AreCanonical : Items → Type 0
    AreCanonical nil = Unit
    AreCanonical (cons v vs) = IsCanonical v × AreCanonical vs

    FieldsCanonical : Fields → Type 0
    FieldsCanonical end = Unit
    FieldsCanonical (field k v fs) = IsCanonical v × IsBefore k fs × FieldsCanonical fs

  IsBefore-insert_field :
      (i k : String) (v : Value) (fs : Fields)
      → i <ₛ k
      → IsBefore i fs
      → IsBefore i (insert_field k v fs)
  unfolding insert_field
  IsBefore-insert_field i k v end h b = h
  IsBefore-insert_field i k v (field j w fs) h b = elim (Ordering-cases (compare k j)) [
    | inl e ↦ rw (e, insert_field) h
    | inr (inl e) ↦ rw (e, insert_field) h
    | inr (inr e) ↦ rw (e, insert_field) b
  ]

  insert_field-FieldsCanonical :
      (k : String) (v : Value) (fs : Fields)
      → IsCanonical v
      → FieldsCanonical fs
      → FieldsCanonical (insert_field k v fs)
  unfolding insert_field IsCanonical
  insert_field-FieldsCanonical k v end c h = (c, tt, tt)
  insert_field-FieldsCanonical k v (field j w fs) c h = elim (Ordering-cases (compare k j)) [
    | inl e ↦ rw (e, insert_field) (c, e, h)
    | inr (inl e) ↦ rw (e, insert_field) (c, rw (path_by_compare k j e) h.1, h.2)
    | inr (inr e) ↦
        rw (e, insert_field)
          (
            h.0,
            IsBefore-insert_field j k v fs (lt_of_gt k j e) h.1,
            insert_field-FieldsCanonical k v fs c h.2,
          )
  ]

  integer-canonical : (n : Number) → IsInteger n → canonical_number whole n ≡ n
  integer-canonical (unsigned n) h = refl
  integer-canonical (negative n) h = refl
  integer-canonical (float bits) h = absurd h

  insert_field-front :
      (k : String) (v : Value) (fs : Fields) → IsBefore k fs → insert_field k v fs ≡ field k v fs
  unfolding insert_field
  insert_field-front k v end b = refl
  insert_field-front k v (field j w fs) b = rw (b, insert_field)

  mutual
    unfolding canonicalise_value IsCanonical

    value-fixed : (v : Value) → IsCanonical v → canonicalise_value whole v ≡ v
    value-fixed null h = refl
    value-fixed (bool b) h = refl
    value-fixed (number n) h = ap number h
    value-fixed (string s) h = refl
    value-fixed (array vs) h = ap array (items-fixed vs h)
    value-fixed (object fs) h = ap object (fields-fixed fs h)

    items-fixed : (vs : Items) → AreCanonical vs → canonicalise_items whole vs ≡ vs
    items-fixed nil h = refl
    items-fixed (cons v vs) h = ap₂ cons (value-fixed v h.0) (items-fixed vs h.1)

    fields-fixed : (fs : Fields) → FieldsCanonical fs → canonicalise_fields whole fs ≡ fs
    fields-fixed end h = refl
    fields-fixed (field k v fs) h =
        rw (value-fixed v h.0, fields-fixed fs h.2) (insert_field-front k v fs h.1)

  module _ (whole_is_int : (bits : ℕ) (n : Number) → whole bits ≡ some n → IsInteger n) where
    number-canonical :
        (n : Number) → canonical_number whole (canonical_number whole n) ≡ canonical_number whole n
    number-canonical (unsigned n) = refl
    number-canonical (negative n) = refl
    number-canonical (float bits) = elim (Option-cases (whole bits)) [
      | inl e ↦ rw e (rw e)
      | inr (n, e) ↦ rw e (integer-canonical n (whole_is_int bits n e))
    ]

    mutual
      unfolding canonicalise_value IsCanonical

      canonicalise_value-IsCanonical : (v : Value) → IsCanonical (canonicalise_value whole v)
      canonicalise_value-IsCanonical null = tt
      canonicalise_value-IsCanonical (bool b) = tt
      canonicalise_value-IsCanonical (number n) = number-canonical n
      canonicalise_value-IsCanonical (string s) = tt
      canonicalise_value-IsCanonical (array vs) = canonicalise_items-AreCanonical vs
      canonicalise_value-IsCanonical (object fs) = canonicalise_fields-FieldsCanonical fs

      canonicalise_items-AreCanonical : (vs : Items) → AreCanonical (canonicalise_items whole vs)
      canonicalise_items-AreCanonical nil = tt
      canonicalise_items-AreCanonical (cons v vs) =
          (canonicalise_value-IsCanonical v, canonicalise_items-AreCanonical vs)

      canonicalise_fields-FieldsCanonical :
          (fs : Fields) → FieldsCanonical (canonicalise_fields whole fs)
      canonicalise_fields-FieldsCanonical end = tt
      canonicalise_fields-FieldsCanonical (field k v fs) =
          insert_field-FieldsCanonical k (canonicalise_value whole v) (canonicalise_fields whole fs)
            (canonicalise_value-IsCanonical v) (canonicalise_fields-FieldsCanonical fs)

    -- The canonical form of a value has canonical numbers and the keys of objects in order at every
    -- level, and is its own canonical form, if the integer of a whole float is no float.
    pub canonicalise_value-twice :
        (v : Value)
        → IsCanonical (canonicalise_value whole v)
          × (canonicalise_value whole (canonicalise_value whole v) ≡ canonicalise_value whole v)
    canonicalise_value-twice v = (
      canonicalise_value-IsCanonical v,
      value-fixed (canonicalise_value whole v) (canonicalise_value-IsCanonical v),
    )
