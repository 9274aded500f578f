-- ===== src/Base/Text.antt =====
-- Rust's `str`: the native `String`, whose `len` counts bytes, and the methods that the program
-- calls. A character is tested by its code point.
pub mod Decimal
pub mod Prefix
use Prim.Native.Nat.{ℕ}
use Prim.Native.Char.{Char, code}
use Prim.Native.String.{String, ◌++◌}
use mathlib.Core.Bool.{Bool, true, false, ◌&&◌, ◌||◌}
use mathlib.Core.Option.{Option, none, some}
use mathlib.Core.List.{List, [], ◌∷◌}
use trilithon.Base.Tests.{◌==◌, leb, if◌then◌else◌}

-- `s.is_empty()`
abbrev pub is_empty_str : String → Bool
is_empty_str String.[] = true
is_empty_str (String.◌∷◌ _ _) = false

-- `s.contains(c)` for a character
unfoldable pub contains_char : ℕ → String → Bool
contains_char x String.[] = false
contains_char x (String.◌∷◌ c s) = code c == x || contains_char x s

-- `s.starts_with(c)`
abbrev pub starts_with_char : ℕ → String → Bool
starts_with_char x String.[] = false
starts_with_char x (String.◌∷◌ c s) = code c == x

-- `s.ends_with(c)`
unfoldable pub ends_with_char : ℕ → String → Bool
ends_with_char x String.[] = false
ends_with_char x (String.◌∷◌ c String.[]) = code c == x
ends_with_char x (String.◌∷◌ c (String.◌∷◌ d s)) = ends_with_char x (String.◌∷◌ d s)

abbrev pub cons_head : Char → List String → List String
cons_head c [] = String.◌∷◌ c String.[] ∷ []
cons_head c (w ∷ ws) = String.◌∷◌ c w ∷ ws

-- `s.split(p)`: the pieces between the characters that pass the test, at least one.
unfoldable pub split : (ℕ → Bool) → String → List String
split p String.[] = String.[] ∷ []
split p (String.◌∷◌ c s) =
    let rest = split p s in if p (code c) then String.[] ∷ rest else cons_head c rest

-- The first piece of `s.split(p)`.
unfoldable pub before : (ℕ → Bool) → String → String
before p String.[] = String.[]
before p (String.◌∷◌ c s) =
    let rest = before p s in if p (code c) then String.[] else String.◌∷◌ c rest

-- `s.strip_prefix(p)`
unfoldable pub strip_prefix : String → String → Option String
strip_prefix String.[] s = some s
strip_prefix (String.◌∷◌ d p) String.[] = none
strip_prefix (String.◌∷◌ d p) (String.◌∷◌ c s) =
    let rest = strip_prefix p s in if code c == code d then rest else none

abbrev push_left : Char → Option (String × String) → Option (String × String)
push_left c none = none
push_left c (some (a, b)) = some (String.◌∷◌ c a, b)

-- `s.split_once(p)` for a text that is not empty: at its first occurrence.
unfoldable pub split_once : String → String → Option (String × String)
unfolding strip_prefix
split_once p String.[] = none
split_once p (String.◌∷◌ c s) =
    let rest = split_once p s in
    elim (strip_prefix p (String.◌∷◌ c s)) [
      | some tail ↦ some (String.[], tail)
      | none ↦ push_left c rest
    ]

-- `s.replace(x, with)` for a character
unfoldable pub replace_char : ℕ → String → String → String
replace_char x r String.[] = String.[]
replace_char x r (String.◌∷◌ c s) =
    let rest = replace_char x r s in if code c == x then r ++ rest else String.◌∷◌ c rest

-- `c.is_ascii_digit()`
abbrev pub is_digit : ℕ → Bool
is_digit c = leb b'0' c && leb c b'9'

-- `c.is_ascii_alphanumeric()`
abbrev pub is_alphanumeric : ℕ → Bool
is_alphanumeric c = is_digit c || (leb b'A' c && leb c b'Z' || leb b'a' c && leb c b'z')

-- `s.chars().all(p)`
unfoldable pub all_chars : (ℕ → Bool) → String → Bool
all_chars p String.[] = true
all_chars p (String.◌∷◌ c s) = p (code c) && all_chars p s
