-- ===== src/Mutation/Url/Accepted.antt =====
-- Which redirect targets and which ask URLs are accepted.
use Prim.Native.String.{◌++◌}
use Prim.Native.String.append
use text.Mathlib.TextLemmas.{append_assoc}
use Prim.Native.Nat.{bit_and}
use trilithon.Base.{
  ℕ, zero, suc, ◌<◌, Bool-cases, true, List, [], ◌∷◌, String, ◌≡◌, ◌≢◌, refl, sym, ap, ◌∙◌, ◌↔◌,
  ◌⊎◌, inl, inr, false, Option, none, some, eq_iff, arith, ok, Option-cases,
}
use trilithon.Base.Text.{before, split_once}
use trilithon.Base.Text.Prefix.{split_once-eq_some}
use trilithon.Base.IpAddr.{IpAddr, v4, v6, parse_ip}
use trilithon.Mutation.Url.{
  check_redirect_url, parse_url_scheme, parse_url_scheme_and_host, host_of, ends_authority,
  check_on_demand_ask_url, is_loopback_or_private, is_blocked_ip, is_private_v4, is_private_v6,
  is_loopback_v6, is_one, first_segment,
}

-- An http or https URL.
abbrev pub IsWebUrl : String → Type 0
IsWebUrl url = (rest : String) × ((url ≡ "http://" ++ rest) ⊎ (url ≡ "https://" ++ rest))

http_scheme : (rest : String) → split_once "://" ("http://" ++ rest) ≡ some ("http", rest)
unfolding split_once
http_scheme rest = rw (
  append.cons, append.cons, append.cons, append.cons, append.cons, append.cons, append.cons,
  append.nil,
)

https_scheme : (rest : String) → split_once "://" ("https://" ++ rest) ≡ some ("https", rest)
unfolding split_once
https_scheme rest = rw (
  append.cons, append.cons, append.cons, append.cons, append.cons, append.cons, append.cons,
  append.cons, append.nil,
)

redirect_at :
    (url scheme rest : String)
    → split_once "://" url ≡ some (scheme, rest)
    → (check_redirect_url url ≡ ok tt) ↔ ((scheme ≡ "http") ⊎ (scheme ≡ "https"))
unfolding check_redirect_url parse_url_scheme
redirect_at url scheme rest e = (
  λ h. ground (arith, eq_iff scheme "http", eq_iff scheme "https"),
  λ h. ground (arith, eq_iff scheme "http", eq_iff scheme "https"),
)

redirect_none : (url : String) → split_once "://" url ≡ none → check_redirect_url url ≢ ok tt
unfolding check_redirect_url parse_url_scheme
redirect_none url e h = ground arith

-- A redirect target is accepted exactly when it begins with "http://" or "https://".
pub check_redirect_url_iff : (url : String) → (check_redirect_url url ≡ ok tt) ↔ IsWebUrl url
check_redirect_url_iff url = (
  λ h. elim (Option-cases (split_once "://" url)) [
    | inl e ↦ absurd (redirect_none url e h)
    | inr (q, e) ↦
        let shape = split_once-eq_some "://" url q.0 q.1 e in
        (
          q.1,
          elim ((redirect_at url q.0 q.1 e).0 h) [
            | inl p ↦
                inl
                  (shape ∙ (ap (λ x. x ++ ("://" ++ q.1)) p ∙ sym (append_assoc "http" "://" q.1)))
            | inr p ↦
                inr
                  (shape ∙ (ap (λ x. x ++ ("://" ++ q.1)) p ∙ sym (append_assoc "https" "://" q.1)))
          ],
        )
  ],
  λ (rest, e). elim e [
    | inl p ↦ (redirect_at url "http" rest (rw p (http_scheme rest))).1 (inl refl)
    | inr p ↦ (redirect_at url "https" rest (rw p (https_scheme rest))).1 (inr refl)
  ],
)

-- The groups of ::1, which has seven zeros before the one, and of its likes.
abbrev pub one_after : ℕ → List ℕ
one_after zero = 1 ∷ []
one_after (suc n) = 0 ∷ one_after n

abbrev pub IsOne : List ℕ → Type 0
IsOne segments = (n : ℕ) × (segments ≡ one_after n)

is_one-one_after : (n : ℕ) → is_one (one_after n) ≡ true
is_one-one_after zero = refl
is_one-one_after (suc zero) = refl
is_one-one_after (suc (suc n)) = is_one-one_after (suc n)

is_one-IsOne : (segments : List ℕ) → is_one segments ≡ true → IsOne segments
is_one-IsOne [] h = cc
is_one-IsOne (g ∷ []) h = let same : g ≡ 1 = ground arith in (0, rw same refl)
is_one-IsOne (g ∷ k ∷ gs) h =
    let same : g ≡ 0 = ground arith in
    let (n, rest) = is_one-IsOne (k ∷ gs) (ground arith) in
    (suc n, ap (λ (x : ℕ). x ∷ k ∷ gs) same ∙ ap (λ (l : List ℕ). 0 ∷ l) rest)

not-IsOne_iff : (segments : List ℕ) → (is_one segments ≡ false) ↔ (¬ IsOne segments)
not-IsOne_iff segments = (
  λ h (n, same). let one : is_one segments ≡ true = rw same (is_one-one_after n) in cc,
  λ apart. elim (Bool-cases (is_one segments)) [
    | inl e ↦ absurd (apart (is_one-IsOne segments e))
    | inr e ↦ e
  ],
)

-- An address outside the ranges that the guard knows: 127.0.0.0/8, 10.0.0.0/8, 172.16.0.0/12,
-- 192.168.0.0/16, ::1 and fc00::/7. Others that are not public, such as 0.0.0.0, 169.254.0.0/16 or
-- ::ffff:127.0.0.1, are outside of them.
abbrev pub IsFreeIp : IpAddr → Type 0
IsFreeIp (v4 ip) =
    (ip.a ≢ 127)
    × (ip.a ≢ 10)
    × (ip.a ≡ 172 → (ip.b < 16) ⊎ (31 < ip.b))
    × (ip.a ≡ 192 → ip.b ≢ 168)
IsFreeIp (v6 ip) = (¬ IsOne ip.segments) × (bit_and (first_segment ip.segments) 0xfe00 ≢ 0xfc00)

-- A host that is no address is free unless it is one of three names, to the letter.
abbrev pub IsFree : Option IpAddr → String → Type 0
IsFree none host = (host ≢ "localhost") × (host ≢ "ip6-localhost") × (host ≢ "ip6-loopback")
IsFree (some ip) host = IsFreeIp ip

abbrev pub IsFreeHost : String → Type 0
IsFreeHost host = IsFree (parse_ip host) host

-- The host of what follows "://".
abbrev pub url_host : String → String
url_host rest = host_of (before ends_authority rest)

blocked_ip_iff : (ip : IpAddr) → (is_blocked_ip ip ≡ false) ↔ IsFreeIp ip
unfolding is_blocked_ip is_private_v4 is_private_v6 is_loopback_v6
blocked_ip_iff (v4 ip) = (λ h. ground arith, λ h. ground arith)
blocked_ip_iff (v6 ip) =
    let one = not-IsOne_iff ip.segments in
    (
      λ h.
          let loopback : is_one ip.segments ≡ false = ground arith in
          (one.0 loopback, ground arith),
      λ (apart, other). let loopback = one.1 apart in ground arith,
    )

blocked_iff :
    (host : String) (o : Option IpAddr)
    → parse_ip host ≡ o
    → (is_loopback_or_private host ≡ false) ↔ IsFree o host
unfolding is_loopback_or_private
blocked_iff host none e =
    let a = eq_iff host "localhost" in
    let b = eq_iff host "ip6-localhost" in
    let c = eq_iff host "ip6-loopback" in
    (λ h. (ground arith, ground arith, ground arith), λ h. ground arith)
blocked_iff host (some ip) e =
    let i = blocked_ip_iff ip in
    (λ h. i.0 (ground arith), λ h. rw (e, is_loopback_or_private) (i.1 h))

ask_url_at :
    (url scheme rest : String)
    → split_once "://" url ≡ some (scheme, rest)
    → (check_on_demand_ask_url url ≡ ok tt)
      ↔ ((scheme ≡ "https") × (is_loopback_or_private (url_host rest) ≡ false))
unfolding check_on_demand_ask_url parse_url_scheme_and_host
ask_url_at url scheme rest e =
    (λ h. ground (arith, eq_iff scheme "https"), λ h. ground (arith, eq_iff scheme "https"))

ask_url_none : (url : String) → split_once "://" url ≡ none → check_on_demand_ask_url url ≢ ok tt
unfolding check_on_demand_ask_url parse_url_scheme_and_host
ask_url_none url e h = ground arith

-- An https URL with a free host.
abbrev pub IsAskUrl : String → Type 0
IsAskUrl url = (rest : String) × (url ≡ "https://" ++ rest) × IsFreeHost (url_host rest)

-- An ask URL is accepted exactly when it begins with "https://" and its host is free: read as an
-- address, the host lies in none of 127.0.0.0/8, 10.0.0.0/8, 172.16.0.0/12, 192.168.0.0/16, ::1 and
-- fc00::/7; and if it is no address, it is none of the texts "localhost", "ip6-localhost" and
-- "ip6-loopback". The host is the text up to a colon, or within brackets, so that user information,
-- another spelling or another address that is not public is free as well.
pub check_on_demand_ask_url_iff :
    (url : String) → (check_on_demand_ask_url url ≡ ok tt) ↔ IsAskUrl url
check_on_demand_ask_url_iff url = (
  λ h. elim (Option-cases (split_once "://" url)) [
    | inl e ↦ absurd (ask_url_none url e h)
    | inr (q, e) ↦
        let (p, free) = (ask_url_at url q.0 q.1 e).0 h in
        let shape = split_once-eq_some "://" url q.0 q.1 e in
        (
          q.1,
          shape ∙ (ap (λ x. x ++ ("://" ++ q.1)) p ∙ sym (append_assoc "https" "://" q.1)),
          (blocked_iff (url_host q.1) _ refl).0 free,
        )
  ],
  λ (rest, e, free).
      (ask_url_at url "https" rest (rw e (https_scheme rest))).1
        (refl, (blocked_iff (url_host rest) _ refl).1 free),
)
