-- ===== src/Examples/Texts.antt =====
-- The checks on texts: tests, and the theorems at concrete texts.
use Prim.Native.String.{◌++◌}
use trilithon.Base.{◌≡◌, ◌↔◌, refl, none, some, ok, [], ◌∷◌}
use trilithon.Base.Text.{contains_char, before, strip_prefix}
use trilithon.Base.Text.Decimal.{to_string}
use trilithon.Base.IpAddr.{
  parse_ip, read_ipv4_addr, read_ipv6_addr, read_number, read_separator, read_groups, read_tail,
  take_digits, v4, v6,
}
use trilithon.Model.Hostname.{wildcard, validate_hostname}
use trilithon.Model.Hostname.Exact.{IsHostPattern, raw, validate_hostname_iff}
use trilithon.Mutation.Url.{check_on_demand_ask_url, host_of}
use trilithon.Mutation.Url.Accepted.{IsAskUrl, check_on_demand_ask_url_iff}
use trilithon.Mutation.Url.Userinfo.{check_on_demand_ask_url-userinfo}

to_string_test : to_string 1080 ≡ "1080"
unfolding to_string
to_string_test = refl

parse_ip_test :
    (parse_ip "127.0.0.1" ≡ some (v4 (record { a = 127; b = 0; c = 0; d = 1 })))
    × (parse_ip "::1" ≡ some (v6 (record { segments = 0 ∷ 0 ∷ 0 ∷ 0 ∷ 0 ∷ 0 ∷ 0 ∷ 1 ∷ [] })))
    × (parse_ip "::ffff:10.0.0.1"
        ≡ some (v6 (record { segments = 0 ∷ 0 ∷ 0 ∷ 0 ∷ 0 ∷ 0xffff ∷ 0x0a00 ∷ 1 ∷ [] })))
    × (parse_ip "010.0.0.1" ≡ none)
    × (parse_ip "1::2::3" ≡ none)
    × (parse_ip "256.0.0.1" ≡ none)
unfolding parse_ip read_ipv4_addr read_ipv6_addr read_number read_separator read_groups read_tail
    take_digits strip_prefix
parse_ip_test = (refl, refl, refl, refl, refl, refl)

validate_hostname_iff_example :
    (validate_hostname "*.a.example" ≡ ok (wildcard "*.a.example"))
    ↔ ((raw (wildcard "*.a.example") ≡ "*.a.example") × IsHostPattern (wildcard "*.a.example"))
validate_hostname_iff_example = validate_hostname_iff "*.a.example" (wildcard "*.a.example")

check_on_demand_ask_url_iff_example :
    (check_on_demand_ask_url "https://10.1.2.3/ask" ≡ ok tt) ↔ IsAskUrl "https://10.1.2.3/ask"
check_on_demand_ask_url_iff_example = check_on_demand_ask_url_iff "https://10.1.2.3/ask"

-- The host behind the user information is the loopback address.
check_on_demand_ask_url-userinfo_example :
    check_on_demand_ask_url ("https://" ++ "user@127.0.0.1/ask") ≡ ok tt
unfolding contains_char host_of before
check_on_demand_ask_url-userinfo_example =
    check_on_demand_ask_url-userinfo "user@127.0.0.1/ask" refl
