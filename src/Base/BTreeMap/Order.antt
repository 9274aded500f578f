-- ===== src/Base/BTreeMap/Order.antt =====
-- The order of texts, and that the operations keep the keys of a map in it.
use Prim.Native.Nat.{ℕ, Ordering, compare as compare_ℕ}
use Prim.Native.Char.{code}
use Prim.Native.String.{String, compare, then as combine}
use Prim.Native.String.compare as compare_str
use text.Mathlib.Text.{◌==◌ as str_eq}
use text.Mathlib.TextEquality.{path_by_compare, eq_iff}
use text.Mathlib.TextPositions.{compare_refl, eq_refl}
use mathlib.Core.Bool.{false}
use mathlib.Core.Option.{some}
use trilithon.Base.Lists.{All}
use mathlib.Core.Path.{◌≡◌, sym, ◌∙◌}
use mathlib.Core.Logic.{inl, inr}
use mathlib.Core.List.{[], ◌∷◌}
use native.Mathlib.Omega.{arith}
use trilithon.Base.Tests.{Bool-cases, Ordering-cases}
use trilithon.Base.BTreeMap.{BTreeMap, get, insert, remove}

infix 50 ◌<ₛ◌
abbrev pub ◌<ₛ◌ : String → String → Type 0
◌<ₛ◌ s t = compare s t ≡ Ordering.lt

then_flip :
    (m n : ℕ) (o p : Ordering)
    → (o ≡ Ordering.gt → p ≡ Ordering.lt)
    → combine (compare_ℕ m n) o ≡ Ordering.gt
    → combine (compare_ℕ n m) p ≡ Ordering.lt
then_flip m n o p f h = ground arith

then_lt :
    (l m n : ℕ) (o p q : Ordering)
    → (o ≡ Ordering.lt → p ≡ Ordering.lt → q ≡ Ordering.lt)
    → combine (compare_ℕ l m) o ≡ Ordering.lt
    → combine (compare_ℕ m n) p ≡ Ordering.lt
    → combine (compare_ℕ l n) q ≡ Ordering.lt
then_lt l m n o p q f h k = ground arith

pub lt_of_gt : (s t : String) → compare s t ≡ Ordering.gt → t <ₛ s
lt_of_gt String.[] String.[] h = cc compare_str.nil-nil
lt_of_gt String.[] (String.◌∷◌ d t) h = cc (compare_str.nil-cons d t)
lt_of_gt (String.◌∷◌ c s) String.[] h = compare_str.nil-cons c s
lt_of_gt (String.◌∷◌ c s) (String.◌∷◌ d t) h =
    compare_str.cons-cons d c t s
    ∙ then_flip (code c) (code d) (compare s t) (compare t s) (lt_of_gt s t)
        (sym (compare_str.cons-cons c d s t) ∙ h)

pub <ₛ_trans : (s t u : String) → s <ₛ t → t <ₛ u → s <ₛ u
<ₛ_trans String.[] String.[] u h k = cc
<ₛ_trans String.[] (String.◌∷◌ d t) String.[] h k = cc (compare_str.cons-nil d t)
<ₛ_trans String.[] (String.◌∷◌ d t) (String.◌∷◌ e u) h k = compare_str.nil-cons e u
<ₛ_trans (String.◌∷◌ c s) String.[] u h k = cc (compare_str.cons-nil c s)
<ₛ_trans (String.◌∷◌ c s) (String.◌∷◌ d t) String.[] h k = cc (compare_str.cons-nil d t)
<ₛ_trans (String.◌∷◌ c s) (String.◌∷◌ d t) (String.◌∷◌ e u) h k =
    compare_str.cons-cons c e s u
    ∙ then_lt (code c) (code d) (code e) (compare s t) (compare t u) (compare s u) (<ₛ_trans s t u)
        (sym (compare_str.cons-cons c d s t) ∙ h) (sym (compare_str.cons-cons d e t u) ∙ k)

ne_of_lt : (s t : String) → s <ₛ t → str_eq s t ≡ false
ne_of_lt s t h = elim (Bool-cases (str_eq s t)) [
  | inr e ↦ e
  | inl e ↦
      let same : s ≡ t = (eq_iff s t).0 e in
      let two : Ordering.eq ≡ Ordering.lt = sym (compare_refl t) ∙ (rw same at h) in cc
]

-- `k` comes before every key.
abbrev pub IsBelow {ℓ} : {V : Type ℓ} → String → BTreeMap V → Type 0
IsBelow k [] = Unit
IsBelow k ((j, _) ∷ _) = k <ₛ j

-- The keys grow along the map, so no key stands twice.
abbrev pub IsSorted {ℓ} : {V : Type ℓ} → BTreeMap V → Type 0
IsSorted [] = Unit
IsSorted ((k, _) ∷ m) = IsBelow k m × IsSorted m

module _ {ℓ} {V : Type ℓ} where
  IsBelow-insert :
      (i : String) (m : BTreeMap V) (k : String) (v : V)
      → i <ₛ k
      → IsBelow i m
      → IsBelow i (insert m k v)
  unfolding insert
  IsBelow-insert i [] k v h b = h
  IsBelow-insert i ((j, w) ∷ m) k v h b = elim (Ordering-cases (compare k j)) [
    | inl e ↦ rw (e, insert) h
    | inr (inl e) ↦ rw (e, insert) h
    | inr (inr e) ↦ rw (e, insert) b
  ]

  pub insert-IsSorted : (m : BTreeMap V) (k : String) (v : V) → IsSorted m → IsSorted (insert m k v)
  unfolding insert
  insert-IsSorted [] k v h = (tt, tt)
  insert-IsSorted ((j, w) ∷ m) k v h = elim (Ordering-cases (compare k j)) [
    | inl e ↦ rw (e, insert) (e, (h.0, h.1))
    | inr (inl e) ↦ rw (e, insert) (rw (path_by_compare k j e) h.0, h.1)
    | inr (inr e) ↦
        rw (e, insert) (IsBelow-insert j m k v (lt_of_gt k j e) h.0, insert-IsSorted m k v h.1)
  ]

  IsBelow-trans : (i j : String) (m : BTreeMap V) → i <ₛ j → IsBelow j m → IsBelow i m
  IsBelow-trans i j [] h b = tt
  IsBelow-trans i j ((k, _) ∷ m) h b = <ₛ_trans i j k h b

  IsBelow-remove :
      (i : String) (m : BTreeMap V) (k : String) → IsBelow i m → IsSorted m → IsBelow i (remove m k)
  unfolding remove
  IsBelow-remove i [] k b h = tt
  IsBelow-remove i ((j, w) ∷ m) k b h = elim (Bool-cases (str_eq j k)) [
    | inl e ↦ rw (e, remove) (IsBelow-remove i m k (IsBelow-trans i j m b h.0) h.1)
    | inr e ↦ rw (e, remove) b
  ]

  pub remove-IsSorted : (m : BTreeMap V) (k : String) → IsSorted m → IsSorted (remove m k)
  unfolding remove
  remove-IsSorted [] k h = tt
  remove-IsSorted ((j, w) ∷ m) k h = elim (Bool-cases (str_eq j k)) [
    | inl e ↦ rw (e, remove) (remove-IsSorted m k h.1)
    | inr e ↦ rw (e, remove) (IsBelow-remove j m k h.0 h.1, remove-IsSorted m k h.1)
  ]

  keys_above : (j : String) (m : BTreeMap V) → IsBelow j m → IsSorted m → All (λ e. j <ₛ e.0) m
  keys_above j [] b h = tt
  keys_above j ((k, _) ∷ m) b h = (b, keys_above j m (IsBelow-trans j k m b h.0) h.1)

  -- In a sorted map, every entry is what `get` finds at its key.
  pub IsSorted-get : (m : BTreeMap V) → IsSorted m → All (λ e. get m e.0 ≡ some e.1) m
  unfolding get
  IsSorted-get [] h = tt
  IsSorted-get ((j, w) ∷ m) h =
      (rw (eq_refl j), later m (keys_above j m h.0 h.1) (IsSorted-get m h.1))
    where
      later :
          (l : BTreeMap V)
          → All (λ e. j <ₛ e.0) l
          → All (λ e. get m e.0 ≡ some e.1) l
          → All (λ e. get ((j, w) ∷ m) e.0 ≡ some e.1) l
      later [] a b = tt
      later ((k, v) ∷ l) a b = (rw (ne_of_lt j k a.0) b.0, later l a.1 b.1)
