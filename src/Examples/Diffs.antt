-- ===== src/Examples/Diffs.antt =====
-- The diff of two small JSON values, and the theorems on diffs at them.
use trilithon.Base.{
  ℕ, ◌≡◌, ◌&&◌, refl, Bool, true, false, [], ◌∷◌, none, some, str_eq, ◌==◌, if◌then◌else◌, arith,
  All, ok, String,
}
use trilithon.Base.Int.{ℤ, pos, negsuc}
use trilithon.Base.BTreeMap.{get, insert}
use trilithon.Base.Text.{replace_char}
use trilithon.Base.Text.Decimal.{to_string}
use trilithon.Model.Json.{
  Number, unsigned, float, Value, null, number, string, array, object, nil, cons, end, field,
}
use trilithon.Model.Pointer.{push, escape_segment}
use trilithon.Diff.Canonical.{canonicalise_value, insert_field}
use trilithon.Diff.Canonical.Twice.{IsInteger}
use trilithon.Diff.Flatten.{flatten, flatten_into}
use trilithon.Diff.Compare.{
  Engine, added, removed, is_caddy_managed, before_loop, after_loop, sort_entries, insert_entry,
  diff_flat, diff_caddy_values,
}
use trilithon.Diff.Compare.Report.{Explained}
use trilithon.Diff.Compare.Justified.{IsJustified}
use trilithon.Diff.Compare.Values.{leaf, diff_caddy_values-Explained, diff_caddy_values-IsJustified}

abbrev same_number : Number → Number → Bool
same_number (unsigned a) (unsigned b) = a == b
same_number _ _ = false

abbrev same_scalar : Value → Value → Bool
same_scalar (string s) (string t) = str_eq s t
same_scalar (number a) (number b) = same_number a b
same_scalar null null = true
same_scalar _ _ = false

abbrev version_value : ℤ → Value
version_value (pos n) = number (unsigned n)
version_value (negsuc n) = null

-- The bits of 1.0
abbrev one : ℕ
one = 0x3ff0000000000000

abbrev pub engine : Engine
engine = record {
  is_match =
      λ pattern_text p. str_eq pattern_text "^/storage/acme(/.*)?$" && str_eq p "/storage/acme";
  eq = same_scalar;
  to_value = λ s. ok (version_value s.version);
  whole = λ bits. if bits == one then some (unsigned 1) else none;
}

abbrev storage : String → Value
storage s = object (field "acme" (string s) end)

abbrev old : Value
old = object (
    field "listen" (array (cons (string ":80") (cons (string ":81") nil)))
      (field "storage" (storage "a") (field "weight" (number (float one)) end)))

abbrev new : Value
new = object (
    field "listen" (array (cons (string ":80") nil)) (
      field "name" (string "x")
        (field "storage" (storage "b") (field "weight" (number (unsigned 1)) end))))

-- The certificate storage is ignored, and 1.0 is 1.
diff_test : diff_caddy_values engine old new ≡ record {
  entries = removed "/listen/1" (string ":81") ∷ added "/name" (string "x") ∷ [];
  ignored_count = 1;
}
unfolding diff_caddy_values diff_flat before_loop after_loop sort_entries insert_entry flatten
    flatten_into canonicalise_value insert_field get insert is_caddy_managed push escape_segment
    replace_char to_string
diff_test = refl

not_ignored : is_caddy_managed engine "/name" ≡ false
unfolding is_caddy_managed
not_ignored = refl

diff_caddy_values-Explained_example :
    Explained engine "/name"
      (leaf engine old "/name")
      (leaf engine new "/name")
      (diff_caddy_values engine old new).entries
diff_caddy_values-Explained_example = diff_caddy_values-Explained engine old new "/name" not_ignored

diff_caddy_values-IsJustified_example :
    All
      (IsJustified engine
        (flatten (canonicalise_value engine.whole old))
        (flatten (canonicalise_value engine.whole new)))
      (diff_caddy_values engine old new).entries
diff_caddy_values-IsJustified_example = diff_caddy_values-IsJustified engine old new

whole_is_int : (bits : ℕ) (n : Number) → engine.whole bits ≡ some n → IsInteger n
whole_is_int bits (unsigned n) h = tt
whole_is_int bits (Number.negative n) h = tt
whole_is_int bits (float n) h = ground arith
