-- ===== src/Model/Hostname/Grammar.antt =====
-- The grammar of labels of RFC 1123, and that `check_label` accepts exactly its texts of at most 63
-- bytes.
use Prim.Native.String.{len}
use trilithon.Base.{◌≤◌, String, Char, code, ◌≡◌, ◌↔◌, ◌⊎◌, Bool, true, false, ◌==◌, arith, ok}
use trilithon.Base.Text.{ends_with_char, is_alphanumeric}
use trilithon.Model.Hostname.{check_chars, check_label}

-- After a letter or digit (`false`) or a hyphen (`true`): a label does not end at a hyphen.
abbrev pub LabelRest : Bool → String → Type 0
LabelRest true String.[] = ⊥
LabelRest false String.[] = Unit
LabelRest h (String.◌∷◌ c s) =
    ((is_alphanumeric (code c) ≡ true) × LabelRest false s) ⊎ ((code c ≡ b'-') × LabelRest true s)

-- A letter or digit, then letters, digits and hyphens, the last of them no hyphen.
abbrev pub LabelText : String → Type 0
LabelText String.[] = ⊥
LabelText (String.◌∷◌ c s) = (is_alphanumeric (code c) ≡ true) × LabelRest false s

abbrev pub IsLabel : String → Type 0
IsLabel s = LabelText s × (len s ≤ 63)

LabelRest-of_check_chars :
    (c : Char) (s : String)
    → check_chars s ≡ ok tt
    → ends_with_char b'-' (String.◌∷◌ c s) ≡ false
    → LabelRest (code c == b'-') s
unfolding check_chars ends_with_char
LabelRest-of_check_chars c String.[] h e = ground arith
LabelRest-of_check_chars c (String.◌∷◌ d s) h e = ground (arith, LabelRest-of_check_chars d s)

check_chars-of_LabelRest :
    (c : Char) (s : String)
    → LabelRest (code c == b'-') s
    → (check_chars s ≡ ok tt) × (ends_with_char b'-' (String.◌∷◌ c s) ≡ false)
unfolding check_chars ends_with_char
check_chars-of_LabelRest c String.[] h = ground arith
check_chars-of_LabelRest c (String.◌∷◌ d s) h = ground (arith, check_chars-of_LabelRest d s)

-- `check_label` accepts a text exactly when it is a label.
pub check_label_iff : (s : String) → (check_label s ≡ ok tt) ↔ IsLabel s
unfolding check_label check_chars
check_label_iff String.[] = (λ h. cc, λ h. absurd h.0)
check_label_iff (String.◌∷◌ c s) = (
  λ h. ground (arith, LabelRest-of_check_chars c s),
  λ h. ground (arith, check_chars-of_LabelRest c s),
)
