-- ===== src/Base/BTreeMap.antt =====
-- `BTreeMap<K, V>` and `BTreeSet<K>` over text keys: association lists in the order of the keys.
pub mod Lookup
pub mod Order
use Prim.Native.Nat.{Ordering}
use Prim.Native.String.{String, compare}
use text.Mathlib.Text.{◌==◌ as str_eq}
use mathlib.Core.Bool.{Bool, false, ◌||◌}
use mathlib.Core.Option.{Option, none, some}
use mathlib.Core.List.{List, [], ◌∷◌}
use trilithon.Base.Tests.{if◌then◌else◌, is_some}

abbrev pub BTreeMap {ℓ} : Type ℓ → Type ℓ
BTreeMap V = List (String × V)

module _ {ℓ} {V : Type ℓ} where
  unfoldable pub get : BTreeMap V → String → Option V
  get [] k = none
  get ((j, v) ∷ m) k = if str_eq j k then some v else get m k

  abbrev pub contains_key : BTreeMap V → String → Bool
  contains_key m k = is_some (get m k)

  unfoldable pub insert : BTreeMap V → String → V → BTreeMap V
  insert [] k v = (k, v) ∷ []
  insert ((j, w) ∷ m) k v = elim (compare k j) [
    | Ordering.lt ↦ (k, v) ∷ (j, w) ∷ m
    | Ordering.eq ↦ (k, v) ∷ m
    | Ordering.gt ↦ (j, w) ∷ insert m k v
  ]

  unfoldable pub remove : BTreeMap V → String → BTreeMap V
  remove [] k = []
  remove ((j, w) ∷ m) k = let rest = remove m k in if str_eq j k then rest else (j, w) ∷ rest

abbrev pub BTreeSet : Type 0
BTreeSet = List String

unfoldable pub contains : BTreeSet → String → Bool
contains [] k = false
contains (j ∷ s) k = str_eq j k || contains s k

unfoldable pub insert_set : BTreeSet → String → BTreeSet
insert_set [] k = k ∷ []
insert_set (j ∷ s) k = elim (compare k j) [
  | Ordering.lt ↦ k ∷ j ∷ s
  | Ordering.eq ↦ k ∷ s
  | Ordering.gt ↦ j ∷ insert_set s k
]

-- `s.extend(t)`
unfoldable pub extend : BTreeSet → BTreeSet → BTreeSet
extend s [] = s
extend s (k ∷ t) = extend (insert_set s k) t
