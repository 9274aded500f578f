-- ===== src/Mutation/Cidr.antt =====
-- `parse_cidr` and `check_matchers_valid` of mutation/validate.rs.
pub mod Accepted
use Prim.Native.String.{◌++◌}
use trilithon.Base.{
  ℕ, suc, String, code, List, [], ◌∷◌, Option, none, some, ◌==◌, ltb, is_some, if◌then◌else◌,
  Result, ok, err,
}
use trilithon.Base.Text.Decimal.{to_string}
use trilithon.Base.IpAddr.{parse_ipv4, parse_ipv6, parse_u8}
use trilithon.Model.Pointer.{root, push}
use trilithon.Model.Route.{MatcherSet}
use trilithon.Mutation.Types.{MutationError, validation, cidr_invalid}

-- `rfind(c)` and `split_at`: what is before and behind the last such character.
unfoldable pub rsplit_once : ℕ → String → Option (String × String)
rsplit_once x String.[] = none
rsplit_once x (String.◌∷◌ c s) = elim (rsplit_once x s) [
  | some (a, b) ↦ some (String.◌∷◌ c a, b)
  | none ↦ if code c == x then some (String.[], s) else none
]

-- The tests on the address, once the prefix length is read.
unfoldable pub check_prefix : String → String → ℕ → Result String (Unit {0})
check_prefix cidr addr prefix =
    if is_some (parse_ipv4 addr)
    then (if ltb 32 prefix
        then err
            ("IPv4 prefix length " ++ (to_string prefix ++ (" exceeds 32 in '" ++ (cidr ++ "'"))))
        else ok tt)
    else if is_some (parse_ipv6 addr)
    then (if ltb 128 prefix
        then err
            ("IPv6 prefix length " ++ (to_string prefix ++ (" exceeds 128 in '" ++ (cidr ++ "'"))))
        else ok tt)
    else err ("'" ++ (addr ++ ("' is not a valid IPv4 or IPv6 address in '" ++ (cidr ++ "'"))))

unfoldable pub parse_cidr : String → Result String (Unit {0})
parse_cidr cidr = elim (rsplit_once b'/' cidr) [
  | none ↦ err ("'" ++ (cidr ++ "' is missing a prefix length (expected 'address/prefix')"))
  | some (addr, digits) ↦ elim (parse_u8 digits) [
    | none ↦
        err ("prefix length '" ++ (digits ++ ("' is not a valid integer in '" ++ (cidr ++ "'"))))
    | some prefix ↦ check_prefix cidr addr prefix
  ]
]

-- `map_err` on one matcher.
unfoldable pub cidr_error : ℕ → Result String (Unit {0}) → Result MutationError (Unit {0})
cidr_error i (ok _) = ok tt
cidr_error i (err e) =
    err (validation cidr_invalid (push (push (push root "matchers") "remote") (to_string i)) e)

-- The loop over `matchers.remote` from an index on.
unfoldable pub check_cidrs : ℕ → List String → Result MutationError (Unit {0})
check_cidrs i [] = ok tt
check_cidrs i (cidr ∷ cidrs) =
    let rest = check_cidrs (suc i) cidrs in
    elim (cidr_error i (parse_cidr cidr)) [ err e ↦ err e | ok _ ↦ rest ]

unfoldable pub check_matchers_valid : MatcherSet → Result MutationError (Unit {0})
check_matchers_valid matchers = check_cidrs 0 matchers.remote
