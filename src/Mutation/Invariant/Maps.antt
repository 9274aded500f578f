-- ===== src/Mutation/Invariant/Maps.antt =====
-- A relation that every entry of a map satisfies, under `insert` and `remove`.
use trilithon.Base.{
  String, ◌≡◌, refl, eq_refl, if◌then◌else◌, Bool, true, false, some, str_eq, eq_iff, arith,
}
use trilithon.Base.BTreeMap.{BTreeMap, get, contains_key, insert, remove}
use trilithon.Base.BTreeMap.Lookup.{get-insert, get-remove}

abbrev pub Holds : {V : Type 0} → (String → V → Type 0) → BTreeMap V → Type 0
Holds {V} P m = (k : String) (v : V) → get m k ≡ some v → P k v

module _ {V : Type 0} where
  pub Holds-insert :
      (P : String → V → Type 0) (m : BTreeMap V) (k : String) (v : V)
      → Holds P m
      → P k v
      → Holds P (insert m k v)
  Holds-insert P m k v h p j w e = entry (str_eq k j) (λ q. (eq_iff k j).0 q) (rw get-insert at e)
    where
      entry : (b : Bool) → (b ≡ true → k ≡ j) → (if b then some v else get m j) ≡ some w → P j w
      entry true q e = let same : v ≡ w = cc in rw (← q refl, ← same) p
      entry false q e = h j w e

  pub Holds-remove :
      (P : String → V → Type 0) (m : BTreeMap V) (k : String) → Holds P m → Holds P (remove m k)
  Holds-remove P m k h j w e = h j w (ground (arith, get-remove m k j))

  pub Holds-map :
      (P Q : String → V → Type 0) (m : BTreeMap V)
      → ((k : String) (v : V) → P k v → Q k v)
      → Holds P m
      → Holds Q m
  Holds-map P Q m f h k v e = f k v (h k v e)

  pub contains_key-insert_self :
      (m : BTreeMap V) (k : String) (v : V) → contains_key (insert m k v) k ≡ true
  contains_key-insert_self m k v = ground (arith, get-insert m k v k, eq_refl k)

  pub contains_key-insert :
      (m : BTreeMap V) (k : String) (v : V) (j : String)
      → contains_key m j ≡ true
      → contains_key (insert m k v) j ≡ true
  contains_key-insert m k v j h = ground (arith, get-insert m k v j)

  pub contains_key-remove :
      (m : BTreeMap V) (k j : String)
      → contains_key m j ≡ true
      → str_eq k j ≡ false
      → contains_key (remove m k) j ≡ true
  contains_key-remove m k j h ne = ground (arith, get-remove m k j)
