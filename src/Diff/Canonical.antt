-- ===== src/Diff/Canonical.antt =====
-- `canonicalise_value` of canonical_json.rs. The text of a map's keys is in order already, so the sort
-- and the collection put each field in its place.
pub mod Twice
pub mod Member
use Prim.Native.Nat.{Ordering}
use Prim.Native.String.{compare}
use trilithon.Base.{ℕ, String, Option, none, some, if◌then◌else◌, str_eq}
use trilithon.Model.Json.{
  Number, float, Value, null, bool, number, string, array, object, Items, nil, cons, Fields, end,
  field,
}

-- `Map::get`
unfoldable pub get_field : Fields → String → Option Value
get_field end k = none
get_field (field j v fs) k = if str_eq j k then some v else get_field fs k

-- `Map::insert`
unfoldable pub insert_field : String → Value → Fields → Fields
insert_field k v end = field k v end
insert_field k v (field j w fs) = elim (compare k j) [
  | Ordering.lt ↦ field k v (field j w fs)
  | Ordering.eq ↦ field k v fs
  | Ordering.gt ↦ field j w (insert_field k v fs)
]

-- `whole` is the float arithmetic of the language: the integer that a float is, if it is whole and
-- from -2^53 to 2^53.
module _ (whole : ℕ → Option Number) where
  abbrev pub canonical_float : ℕ → Option Number → Number
  canonical_float bits none = float bits
  canonical_float bits (some n) = n

  abbrev pub canonical_number : Number → Number
  canonical_number (float bits) = canonical_float bits (whole bits)
  canonical_number n = n

  unfoldable mutual
    pub canonicalise_value : Value → Value
    canonicalise_value null = null
    canonicalise_value (bool b) = bool b
    canonicalise_value (number n) = number (canonical_number n)
    canonicalise_value (string s) = string s
    canonicalise_value (array vs) = array (canonicalise_items vs)
    canonicalise_value (object fs) = object (canonicalise_fields fs)

    pub canonicalise_items : Items → Items
    canonicalise_items nil = nil
    canonicalise_items (cons v vs) = cons (canonicalise_value v) (canonicalise_items vs)

    pub canonicalise_fields : Fields → Fields
    canonicalise_fields end = end
    canonicalise_fields (field k v fs) =
        insert_field k (canonicalise_value v) (canonicalise_fields fs)
