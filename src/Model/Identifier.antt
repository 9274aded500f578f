-- ===== src/Model/Identifier.antt =====
-- model/identifiers.rs: the newtypes over a text, and the ULID format at a trust boundary.
use Prim.Native.String.{len}
use trilithon.Base.{ℕ, String, Bool, ◌&&◌, ◌||◌, ◌==◌, leb, if◌then◌else◌, Result, ok, err}
use trilithon.Base.Text.{is_digit, all_chars}

-- `id_newtype!` gives each its own struct over a text.
abbrev pub RouteId : Type 0
RouteId = String

abbrev pub UpstreamId : Type 0
UpstreamId = String

abbrev pub PolicyId : Type 0
PolicyId = String

abbrev pub PresetId : Type 0
PresetId = String

pub data InvalidIdentifier : Type 0 where
  invalid_identifier : InvalidIdentifier

-- `matches!(c, '0'..='9' | 'A'..='Z')`
abbrev pub is_ulid_char : ℕ → Bool
is_ulid_char c = is_digit c || (leb b'A' c && leb c b'Z')

unfoldable pub is_valid_ulid : String → Bool
is_valid_ulid s = len s == 26 && all_chars is_ulid_char s

-- `TryFrom<String>` of each newtype.
unfoldable pub try_from : String → Result InvalidIdentifier String
try_from s = if is_valid_ulid s then ok s else err invalid_identifier
