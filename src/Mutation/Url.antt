-- ===== src/Mutation/Url.antt =====
-- The URL checks of mutation/validate.rs.
pub mod Accepted
pub mod Userinfo
use Prim.Native.String.{◌++◌}
use Prim.Native.Nat.{bit_and}
use trilithon.Base.{
  ℕ, String, code, Bool, false, not, ◌&&◌, ◌||◌, List, [], ◌∷◌, Option, none, some, str_eq, ◌==◌,
  leb, if◌then◌else◌, Result, ok, err, ◌>>=◌, ◌>>◌, refuse_if, ok_or,
}
use trilithon.Base.Text.{before, split_once}
use trilithon.Base.IpAddr.{Ipv4Addr, Ipv6Addr, IpAddr, v4, v6, parse_ip}
use trilithon.Model.Pointer.{root, push}
use trilithon.Mutation.Types.{
  MutationError, validation, redirect_url_invalid, on_demand_ask_url_invalid,
}

unfoldable pub parse_url_scheme : String → Option String
parse_url_scheme url = elim (split_once "://" url) [ none ↦ none | some (scheme, _) ↦ some scheme ]

-- The end of the authority: "/", "?" or "#".
abbrev pub ends_authority : ℕ → Bool
ends_authority c = c == b'/' || (c == b'?' || c == b'#')

-- The host of an authority: what is between the brackets, or what is before the port.
unfoldable pub host_of : String → String
host_of String.[] = String.[]
host_of (String.◌∷◌ c s) =
    if code c == b'[' then before (λ x. x == b']') s else before (λ x. x == b':') (String.◌∷◌ c s)

unfoldable pub parse_url_scheme_and_host : String → Option (String × String)
unfolding host_of
parse_url_scheme_and_host url = elim (split_once "://" url) [
  | none ↦ none
  | some (scheme, rest) ↦ some (scheme, host_of (before ends_authority rest))
]

unfoldable pub is_private_v4 : Ipv4Addr → Bool
is_private_v4 ip =
    ip.a == 10 || (ip.a == 172 && (leb 16 ip.b && leb ip.b 31) || ip.a == 192 && ip.b == 168)

-- The group at the front, `ip.segments()[0]`.
abbrev pub first_segment : List ℕ → ℕ
first_segment [] = 0
first_segment (g ∷ _) = g

unfoldable pub is_private_v6 : Ipv6Addr → Bool
is_private_v6 ip = bit_and (first_segment ip.segments) 0xfe00 == 0xfc00

-- `Ipv4Addr::is_loopback`
abbrev pub is_loopback_v4 : Ipv4Addr → Bool
is_loopback_v4 ip = ip.a == 127

abbrev pub is_one : List ℕ → Bool
is_one [] = false
is_one (g ∷ []) = g == 1
is_one (g ∷ h ∷ gs) = g == 0 && is_one (h ∷ gs)

-- `Ipv6Addr::is_loopback`: the address ::1.
unfoldable pub is_loopback_v6 : Ipv6Addr → Bool
is_loopback_v6 ip = is_one ip.segments

unfoldable pub is_blocked_ip : IpAddr → Bool
unfolding is_private_v4 is_private_v6 is_loopback_v6
is_blocked_ip (v4 ip) = is_loopback_v4 ip || is_private_v4 ip
is_blocked_ip (v6 ip) = is_loopback_v6 ip || is_private_v6 ip

unfoldable pub is_loopback_or_private : String → Bool
is_loopback_or_private host = elim (parse_ip host) [
  | some ip ↦ is_blocked_ip ip
  | none ↦ str_eq host "localhost" || (str_eq host "ip6-localhost" || str_eq host "ip6-loopback")
]

unfoldable pub ask_url_error : String → MutationError
ask_url_error hint = validation on_demand_ask_url_invalid (push root "on_demand_ask_url") hint

unfoldable pub check_on_demand_ask_url : String → Result MutationError (Unit {0})
check_on_demand_ask_url url = do
  (scheme, host) ←
      ok_or (parse_url_scheme_and_host url)
        (ask_url_error ("on-demand ask URL '" ++ (url ++ "' is not a valid URL")))
  refuse_if (not (str_eq scheme "https"))
      (ask_url_error ("on-demand ask URL must use https; got '" ++ (scheme ++ "'")))
  refuse_if (is_loopback_or_private host) (
      ask_url_error
        ("on-demand ask URL must not target a loopback or private address; got '" ++ (host ++ "'")))

unfoldable pub redirect_error : String → String → MutationError
redirect_error member hint =
    validation redirect_url_invalid (push (push root "redirects") member) hint

unfoldable pub check_redirect_url : String → Result MutationError (Unit {0})
check_redirect_url url = elim (parse_url_scheme url) [
  | some scheme ↦
      if str_eq scheme "http" || str_eq scheme "https"
      then ok tt
      else err (
          redirect_error "to" (
            "redirect URL scheme '"
            ++ (scheme ++ "' is not allowed; only http and https are accepted")))
  | none ↦ err (redirect_error "to" ("redirect URL '" ++ (url ++ "' is not a valid URL")))
]
