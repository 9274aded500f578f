-- ===== src/Model/Pointer.antt =====
-- model/primitive.rs: JSON pointers (RFC 6901) and module names. `unescape_segment` is of diff.rs.
pub mod Escape
use Prim.Native.String.{◌++◌}
use trilithon.Base.{ℕ, String, code, ◌&&◌, ◌==◌, if◌then◌else◌}
use trilithon.Base.Text.{replace_char}

-- The struct wraps its text.
abbrev pub JsonPointer : Type 0
JsonPointer = String

abbrev pub root : JsonPointer
root = ""

-- `segment.replace('~', "~0").replace('/', "~1")`
unfoldable pub escape_segment : String → String
escape_segment segment = replace_char b'/' "~1" (replace_char b'~' "~0" segment)

unfoldable pub push : JsonPointer → String → JsonPointer
push pointer segment = pointer ++ ("/" ++ escape_segment segment)

-- `s.replace("ab", r)` for a pattern of two characters and one character for `r`.
unfoldable pub replace_pair : ℕ → ℕ → String → String → String
replace_pair a b r String.[] = String.[]
replace_pair a b r (String.◌∷◌ c String.[]) = String.◌∷◌ c String.[]
replace_pair a b r (String.◌∷◌ c (String.◌∷◌ d s)) =
    let skip = replace_pair a b r s in
    let keep = replace_pair a b r (String.◌∷◌ d s) in
    if code c == a && code d == b then r ++ skip else String.◌∷◌ c keep

unfoldable pub unescape_segment : String → String
unescape_segment segment = replace_pair b'~' b'0' "~" (replace_pair b'~' b'1' "/" segment)

abbrev pub CaddyModule : Type 0
CaddyModule = String
