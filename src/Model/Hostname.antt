-- ===== src/Model/Hostname.antt =====
-- Host patterns and their validation, of model/route.rs.
pub mod Grammar
pub mod Exact
use Prim.Native.String.{len}
use trilithon.Base.{
  String, Char, code, not, ◌&&◌, ◌||◌, List, [], ◌∷◌, Option, none, some, ltb, ◌==◌, Result, ok,
  ◌>>◌, refuse_if,
}
use trilithon.Base.Text.{
  is_empty_str, contains_char, starts_with_char, ends_with_char, split, strip_prefix,
  is_alphanumeric,
}

pub data HostPattern : Type 0 where
  exact : String → HostPattern
  wildcard : String → HostPattern

pub data HostnameError : Type 0 where
  empty : HostnameError
  empty_label : HostnameError
  hyphen_boundary : String → HostnameError
  label_too_long : String → HostnameError
  total_too_long : HostnameError
  invalid_character : Char → HostnameError
  invalid_wildcard : String → HostnameError

-- The loop over the characters of a label.
unfoldable pub check_chars : String → Result HostnameError (Unit {0})
check_chars String.[] = ok tt
check_chars (String.◌∷◌ c s) = do
  refuse_if (not (is_alphanumeric (code c)) && not (code c == b'-')) (invalid_character c)
  check_chars s

-- The body of the loop over the labels.
unfoldable pub check_label : String → Result HostnameError (Unit {0})
check_label label = do
  refuse_if (is_empty_str label) empty_label
  refuse_if (starts_with_char b'-' label || ends_with_char b'-' label) (hyphen_boundary label)
  refuse_if (ltb 63 (len label)) (label_too_long label)
  check_chars label

unfoldable pub check_labels : List String → Result HostnameError (Unit {0})
check_labels [] = ok tt
check_labels (label ∷ labels) = do check_label label; check_labels labels

unfoldable pub validate_labels : String → Result HostnameError (Unit {0})
validate_labels s = do
  refuse_if (ltb 253 (len s)) total_too_long
  check_labels (split (λ c. c == b'.') s)

-- What follows the test for the prefix "*.", with and without it.
unfoldable pub validate_pattern : String → Option String → Result HostnameError HostPattern
validate_pattern s (some rest) = do
  refuse_if (contains_char b'*' rest) (invalid_wildcard s)
  refuse_if (is_empty_str rest || not (contains_char b'.' rest)) (invalid_wildcard s)
  validate_labels rest
  ok (wildcard s)
validate_pattern s none = do
  refuse_if (contains_char b'*' s) (invalid_wildcard s)
  validate_labels s
  ok (exact s)

unfoldable pub validate_hostname : String → Result HostnameError HostPattern
validate_hostname s = do
  refuse_if (is_empty_str s) empty
  refuse_if (ltb 253 (len s)) total_too_long
  validate_pattern s (strip_prefix "*." s)
