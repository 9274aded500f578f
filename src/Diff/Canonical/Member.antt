-- ===== src/Diff/Canonical/Member.antt =====
-- A member of an object after an insertion.
use text.Mathlib.TextEquality.{path_by_compare}
use trilithon.Base.{String, if◌then◌else◌, str_eq, eq_iff, some, ◌≡◌, refl, arith}
use trilithon.Model.Json.{Value, Fields, end, field}
use trilithon.Diff.Canonical.{get_field, insert_field}

pub get_field-insert_field :
    (fs : Fields) (k : String) (v : Value) (j : String)
    → get_field (insert_field k v fs) j ≡ (if str_eq k j then some v else get_field fs j)
unfolding get_field insert_field
get_field-insert_field end k v j = refl
get_field-insert_field (field i w fs) k v j =
    ground (arith, get_field-insert_field fs k v j, path_by_compare k i, eq_iff i j, eq_iff k j)
