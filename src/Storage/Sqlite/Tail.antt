-- ===== src/Storage/Sqlite/Tail.antt =====
-- `tail_audit_log` of sqlite_storage.rs, with `glob_prefix` of the core's storage.rs and SQLite's
-- `LIKE … ESCAPE '\'`, which does not tell the cases of ASCII letters apart.
pub mod Glob
pub mod Bounded
pub mod Complete
use Prim.Native.Nat.{Ordering}
use Prim.Native.String.{◌++◌, compare}
use trilithon.Base.{
  ℕ, ◌+◌, String, Char, code, Bool, true, false, not, ◌&&◌, ◌||◌, List, Option, none, some,
  if◌then◌else◌, str_eq, ltb, leb, ◌==◌,
}
use trilithon.Base.Int.{ltb_ℤ}
use trilithon.Base.Text.{is_empty_str, replace_char}
use trilithon.Model.Route.{UnixSeconds}
use trilithon.Storage.Types.{AuditEventRow, AuditSelector}
use trilithon.Storage.Tables.{select, order_by, limit}
use trilithon.Storage.Sqlite.{Database}

-- `pattern.strip_suffix('*')`
abbrev pub cons_prefix : Char → Option String → Option String
cons_prefix c none = none
cons_prefix c (some s) = some (String.◌∷◌ c s)

unfoldable pub glob_prefix : String → Option String
glob_prefix String.[] = none
glob_prefix (String.◌∷◌ c String.[]) = if code c == b'*' then some String.[] else none
glob_prefix (String.◌∷◌ c (String.◌∷◌ d s)) = cons_prefix c (glob_prefix (String.◌∷◌ d s))

unfoldable pub escaped : String → String
escaped g = replace_char b'_' "\\_" (replace_char b'%' "\\%" (replace_char b'\\' "\\\\" g))

abbrev pub like_of : Option String → String → String
like_of none g = escaped g
like_of (some prefix) g = escaped prefix ++ "%"

unfoldable pub kind_like : String → String
kind_like g = like_of (glob_prefix g) g

-- ASCII letters in one case
abbrev pub folded : ℕ → ℕ
folded n = if leb b'A' n && leb n b'Z' then n + 32 else n

abbrev pub same_letter : Char → Char → Bool
same_letter c d = folded (code c) == folded (code d)

-- A character of the pattern, and then the rest of it.
abbrev pub literal : Char → (String → Bool) → String → Bool
literal c rest String.[] = false
literal c rest (String.◌∷◌ d s) = same_letter c d && rest s

abbrev pub any_one : (String → Bool) → String → Bool
any_one rest String.[] = false
any_one rest (String.◌∷◌ d s) = rest s

unfoldable pub any_tail : (String → Bool) → String → Bool
any_tail rest String.[] = rest String.[]
any_tail rest (String.◌∷◌ d s) = rest (String.◌∷◌ d s) || any_tail rest s

abbrev pub step : Char → (String → Bool) → String → Bool
step c rest s =
    if code c == b'%'
    then any_tail rest s
    else if code c == b'_'
    then any_one rest s
    else literal c rest s

-- The pattern, and then the text. A pattern that ends in the escape matches nothing.
unfoldable pub like : String → String → Bool
like String.[] s = is_empty_str s
like (String.◌∷◌ c String.[]) s = if code c == b'\\' then false else step c is_empty_str s
like (String.◌∷◌ c (String.◌∷◌ d p)) s =
    if code c == b'\\' then literal d (like p) s else step c (like (String.◌∷◌ d p)) s

abbrev pub since_ok : Option UnixSeconds → AuditEventRow → Bool
since_ok none row = true
since_ok (some since) row = not (ltb_ℤ row.occurred_at since)

abbrev pub until_ok : Option UnixSeconds → AuditEventRow → Bool
until_ok none row = true
until_ok (some until) row = ltb_ℤ row.occurred_at until

abbrev pub equals_ok : Option String → String → Bool
equals_ok none s = true
equals_ok (some t) s = str_eq s t

abbrev pub kind_ok : Option String → String → Bool
kind_ok none kind = true
kind_ok (some glob) kind = like (kind_like glob) kind

abbrev pub id_below : String → String → Bool
id_below a b = elim (compare a b) [ Ordering.lt ↦ true | _ ↦ false ]

abbrev pub cursor_ok : Option String → String → Bool
cursor_ok none id = true
cursor_ok (some cursor) id = id_below id cursor

-- The `WHERE` of `TAIL_AUDIT_LOG_SQL`
unfoldable pub is_selected : AuditSelector → AuditEventRow → Bool
is_selected selector row =
    since_ok selector.since row
    && until_ok selector.until row
    && equals_ok selector.correlation_id row.correlation_id
    && equals_ok selector.actor_id row.actor_id
    && kind_ok selector.kind_glob row.kind
    && cursor_ok selector.cursor_before row.id

abbrev pub effective_limit : ℕ → ℕ
effective_limit n = if n == 0 then 100 else if ltb n 1000 then n else 1000

abbrev pub by_id_desc : AuditEventRow → AuditEventRow → Bool
by_id_desc a b = id_below b.id a.id

unfoldable pub tail_audit_log : Database → AuditSelector → ℕ → List AuditEventRow
tail_audit_log db selector n =
    limit (effective_limit n) (order_by by_id_desc (select (is_selected selector) db.audit_log))
