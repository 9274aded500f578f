-- ===== src/Diff/Flatten.antt =====
-- diff/flatten.rs: the scalar leaves of a value by their pointers.
use trilithon.Base.{ℕ, suc, []}
use trilithon.Base.Text.Decimal.{to_string}
use trilithon.Base.BTreeMap.{BTreeMap, insert}
use trilithon.Base.BTreeMap.Order.{IsSorted, insert-IsSorted}
use trilithon.Model.Json.{Value, array, object, Items, nil, cons, Fields, end, field}
use trilithon.Model.Pointer.{JsonPointer, root, push}
use trilithon.Model.Json.{null, bool, number, string}

unfoldable mutual
  pub flatten_into : JsonPointer → Value → BTreeMap Value → BTreeMap Value
  flatten_into ptr (object fs) out = flatten_fields ptr fs out
  flatten_into ptr (array vs) out = flatten_items ptr 0 vs out
  flatten_into ptr null out = insert out ptr null
  flatten_into ptr (bool b) out = insert out ptr (bool b)
  flatten_into ptr (number n) out = insert out ptr (number n)
  flatten_into ptr (string s) out = insert out ptr (string s)

  -- The loop over an array from an index on.
  pub flatten_items : JsonPointer → ℕ → Items → BTreeMap Value → BTreeMap Value
  flatten_items ptr i nil out = out
  flatten_items ptr i (cons v vs) out =
      flatten_items ptr (suc i) vs (flatten_into (push ptr (to_string i)) v out)

  pub flatten_fields : JsonPointer → Fields → BTreeMap Value → BTreeMap Value
  flatten_fields ptr end out = out
  flatten_fields ptr (field key child fs) out =
      flatten_fields ptr fs (flatten_into (push ptr key) child out)

unfoldable pub flatten : Value → BTreeMap Value
flatten value = flatten_into root value []

mutual
  unfolding flatten_into

  into-IsSorted :
      (p : JsonPointer) (v : Value) (m : BTreeMap Value)
      → IsSorted m
      → IsSorted (flatten_into p v m)
  into-IsSorted p (object fs) m h = fields-IsSorted p fs m h
  into-IsSorted p (array vs) m h = items-IsSorted p 0 vs m h
  into-IsSorted p null m h = insert-IsSorted m p null h
  into-IsSorted p (bool b) m h = insert-IsSorted m p (bool b) h
  into-IsSorted p (number n) m h = insert-IsSorted m p (number n) h
  into-IsSorted p (string s) m h = insert-IsSorted m p (string s) h

  items-IsSorted :
      (p : JsonPointer) (i : ℕ) (vs : Items) (m : BTreeMap Value)
      → IsSorted m
      → IsSorted (flatten_items p i vs m)
  items-IsSorted p i nil m h = h
  items-IsSorted p i (cons v vs) m h =
      items-IsSorted p (suc i) vs _ (into-IsSorted (push p (to_string i)) v m h)

  fields-IsSorted :
      (p : JsonPointer) (fs : Fields) (m : BTreeMap Value)
      → IsSorted m
      → IsSorted (flatten_fields p fs m)
  fields-IsSorted p end m h = h
  fields-IsSorted p (field k v fs) m h = fields-IsSorted p fs _ (into-IsSorted (push p k) v m h)

-- The leaves are in the order of their pointers, and no pointer stands twice.
pub flatten-IsSorted : (v : Value) → IsSorted (flatten v)
unfolding flatten
flatten-IsSorted v = into-IsSorted root v [] tt
