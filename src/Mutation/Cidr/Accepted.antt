-- ===== src/Mutation/Cidr/Accepted.antt =====
-- Which CIDR texts are accepted.
use Prim.Native.String.{◌++◌}
use Prim.Native.String.append
use text.Mathlib.TextEquality.{Char-path}
use trilithon.Base.Text.{contains_char}
use trilithon.Base.{
  Char, ap, sym, Result-cases, ℕ, suc, ◌≤◌, String, code, ◌≡◌, refl, ◌↔◌, ◌⊎◌, inl, inr, true,
  false, List, [], ◌∷◌, none, some, arith, All, is_some, ok, Option-cases,
}
use trilithon.Base.IpAddr.{parse_ipv4, parse_ipv6, parse_u8}
use trilithon.Model.Route.{MatcherSet}
use trilithon.Mutation.Cidr.{
  rsplit_once, check_prefix, parse_cidr, cidr_error, check_cidrs, check_matchers_valid,
}

-- An address before the last "/", and behind it a length that fits the address.
abbrev pub IsCidr : String → Type 0
IsCidr cidr =
    (addr : String) × (digits : String) × (prefix : ℕ) × (cidr ≡ addr ++ ("/" ++ digits))
    × (contains_char b'/' digits ≡ false)
    × (parse_u8 digits ≡ some prefix)
    × ((is_some (parse_ipv4 addr) ≡ true) × (prefix ≤ 32)
        ⊎ (is_some (parse_ipv4 addr) ≡ false) × (is_some (parse_ipv6 addr) ≡ true) × (prefix ≤ 128))

prefix_iff :
    (cidr addr : String) (p : ℕ)
    → (check_prefix cidr addr p ≡ ok tt) ↔ (
        (is_some (parse_ipv4 addr) ≡ true) × (p ≤ 32)
        ⊎ (is_some (parse_ipv4 addr) ≡ false) × (is_some (parse_ipv6 addr) ≡ true) × (p ≤ 128))
unfolding check_prefix
prefix_iff cidr addr p = (λ h. ground arith, λ h. ground arith)

rsplit_none : (x : ℕ) (s : String) → rsplit_once x s ≡ none → contains_char x s ≡ false
unfolding rsplit_once contains_char
rsplit_none x String.[] h = refl
rsplit_none x (String.◌∷◌ c s) h = ground (arith, rsplit_none x s)

none_rsplit : (x : ℕ) (s : String) → contains_char x s ≡ false → rsplit_once x s ≡ none
unfolding rsplit_once contains_char
none_rsplit x String.[] h = refl
none_rsplit x (String.◌∷◌ c s) h = ground (arith, none_rsplit x s)

rsplit_step :
    (x : ℕ) (c : Char) (s a b : String)
    → rsplit_once x (String.◌∷◌ c s) ≡ some (a, b)
    → ((a' : String) × (a ≡ String.◌∷◌ c a') × (rsplit_once x s ≡ some (a', b)))
      ⊎ ((a ≡ String.[]) × (b ≡ s) × (rsplit_once x s ≡ none) × (code c ≡ x))
unfolding rsplit_once
rsplit_step x c s a b h = ground arith

slash : (c : Char) → code c ≡ b'/' → (s : String) → "/" ++ s ≡ String.◌∷◌ c s
slash c e s = rw (append.cons, append.nil) (ap (λ d. String.◌∷◌ d s) (Char-path _ c (sym e)))

split_at :
    (s a b : String)
    → rsplit_once b'/' s ≡ some (a, b)
    → (s ≡ a ++ ("/" ++ b)) × (contains_char b'/' b ≡ false)
unfolding rsplit_once
split_at String.[] a b h = cc
split_at (String.◌∷◌ c s) a b h = elim (rsplit_step b'/' c s a b h) [
  | inl (a', e, f) ↦
      let (p, q) = split_at s a' b f in (rw (e, append.cons) (ap (String.◌∷◌ c) p), q)
  | inr (e, f, g, k) ↦ (rw (e, append.nil) (rw f (sym (slash c k s))), rw f (rsplit_none b'/' s g))
]

at_split :
    (a b : String) → contains_char b'/' b ≡ false → rsplit_once b'/' (a ++ ("/" ++ b)) ≡ some (a, b)
unfolding rsplit_once
at_split String.[] b h = rw (append.nil, append.cons, append.nil) (rw (none_rsplit b'/' b h))
at_split (String.◌∷◌ c a) b h = rw append.cons (ground (arith, at_split a b h))

-- A text is accepted exactly when it is an address, the last "/" and a length of at most 32 for IPv4 or
-- 128 for IPv6.
pub parse_cidr_iff : (cidr : String) → (parse_cidr cidr ≡ ok tt) ↔ IsCidr cidr
unfolding parse_cidr
parse_cidr_iff cidr = (
  λ h. elim (Option-cases (rsplit_once b'/' cidr)) [
    | inl e ↦ ground arith
    | inr (q, e) ↦ elim (Option-cases (parse_u8 q.1)) [
      | inl f ↦ ground arith
      | inr (p, f) ↦
          let (shape, last) = split_at cidr q.0 q.1 e in
          (q.0, q.1, p, shape, last, f, (prefix_iff cidr q.0 p).0 (ground arith))
    ]
  ],
  λ (addr, digits, p, shape, last, f, fits).
      let e : rsplit_once b'/' cidr ≡ some (addr, digits) = rw shape (at_split addr digits last) in
      rw (e, parse_cidr) (rw f ((prefix_iff cidr addr p).1 fits)),
)

cidrs_ok : (i : ℕ) (l : List String) → check_cidrs i l ≡ ok tt → All IsCidr l
unfolding check_cidrs cidr_error
cidrs_ok i [] h = tt
cidrs_ok i (c ∷ l) h = elim (Result-cases (parse_cidr c)) [
  | inl e ↦ ((parse_cidr_iff c).0 e, cidrs_ok (suc i) l (rw (e, check_cidrs) at h))
  | inr (e, f) ↦ cc (rw (f, check_cidrs) at h)
]

-- The matchers that pass hold CIDR blocks only.
pub check_matchers_valid-ok :
    (m : MatcherSet) → check_matchers_valid m ≡ ok tt → All IsCidr m.remote
unfolding check_matchers_valid
check_matchers_valid-ok m h = cidrs_ok 0 m.remote h
