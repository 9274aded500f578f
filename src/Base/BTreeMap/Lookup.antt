-- ===== src/Base/BTreeMap/Lookup.antt =====
-- What `get` finds after `insert` and `remove`, and `contains` after the operations on sets.
use Prim.Native.String.{String}
use text.Mathlib.Text.{◌==◌ as str_eq}
use text.Mathlib.TextEquality.{eq_iff, path_by_compare}
use text.Mathlib.TextPositions.{eq_refl}
use mathlib.Core.Path.{◌≡◌, refl}
use mathlib.Core.Bool.{◌||◌}
use mathlib.Core.Option.{none, some}
use mathlib.Core.List.{[], ◌∷◌}
use native.Mathlib.Omega.{arith}
use trilithon.Base.Tests.{if◌then◌else◌}
use trilithon.Base.BTreeMap.{BTreeMap, BTreeSet, get, insert, remove, contains, insert_set, extend}

module _ {ℓ} {V : Type ℓ} where
  pub get-insert :
      (m : BTreeMap V) (k : String) (v : V) (j : String)
      → get (insert m k v) j ≡ (if str_eq k j then some v else get m j)
  unfolding get insert
  get-insert [] k v j = refl
  get-insert ((i, w) ∷ m) k v j =
      ground (arith, get-insert m k v j, path_by_compare k i, eq_iff i j, eq_iff k j)

  pub get-remove :
      (m : BTreeMap V) (k j : String) → get (remove m k) j ≡ (if str_eq k j then none else get m j)
  unfolding get remove
  get-remove [] k j = ground arith
  get-remove ((i, w) ∷ m) k j = ground (arith, get-remove m k j, eq_iff i k, eq_iff i j, eq_iff k j)

  pub get-insert_self : (m : BTreeMap V) (k : String) (v : V) → get (insert m k v) k ≡ some v
  get-insert_self m k v = simp (get-insert, eq_refl)

pub contains-insert_set :
    (s : BTreeSet) (k j : String) → contains (insert_set s k) j ≡ (str_eq k j || contains s j)
unfolding contains insert_set
contains-insert_set [] k j = refl
contains-insert_set (i ∷ s) k j =
    ground (arith, contains-insert_set s k j, path_by_compare k i, eq_iff i j, eq_iff k j)

pub contains-extend :
    (s t : BTreeSet) (j : String) → contains (extend s t) j ≡ (contains s j || contains t j)
unfolding contains extend
contains-extend s [] j = ground arith
contains-extend s (k ∷ t) j =
    ground (arith, contains-extend (insert_set s k) t j, contains-insert_set s k j)
