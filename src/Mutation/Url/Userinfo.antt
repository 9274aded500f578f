-- ===== src/Mutation/Url/Userinfo.antt =====
-- A host text that holds "@" is no address, so the guard on ask URLs does not see the host behind
-- the user information of a URL.
use Prim.Native.String.{◌++◌}
use trilithon.Base.{
  ℕ, zero, suc, ◌+◌, ◌*◌, ◌-◌, String, code, ◌≡◌, ◌≢◌, refl, inl, inr, Bool, true, false, Option,
  none, some, List, length, arith, ◌==◌, Bool-cases, Option-cases, ok,
}
use trilithon.Base.Text.{contains_char, strip_prefix}
use trilithon.Base.IpAddr.{
  ◌>>=◌, Ipv4Addr, Ipv6Addr, group, embedded, or_v6, read_tail, all_read, take_digits, read_number,
  read_separator, read_ipv4_addr, read_groups, read_ipv6_addr, parse_ip,
}
use trilithon.Mutation.Url.{check_on_demand_ask_url}
use trilithon.Mutation.Url.Accepted.{url_host, check_on_demand_ask_url_iff}

abbrev HasAt : String → Type 0
HasAt s = contains_char b'@' s ≡ true

-- A reader that leaves "@" in the text.
abbrev KeepsAt : {A : Type 0} → Option (A × String) → Type 0
KeepsAt none = Unit
KeepsAt (some (_, rest)) = HasAt rest

digits_at : (radix v n : ℕ) (s : String) → HasAt s → HasAt (take_digits radix v n s).rest
unfolding take_digits contains_char
digits_at radix v n String.[] h = h
digits_at radix v n (String.◌∷◌ c s) h = ground (
  arith,
  digits_at radix (v * radix + (code c - 48)) (suc n) s,
  digits_at radix (v * radix + (code c - 87)) (suc n) s,
  digits_at radix (v * radix + (code c - 55)) (suc n) s,
)

number_at :
    (radix most : ℕ) (zeros_ok : Bool) (top : ℕ) (s : String)
    → HasAt s
    → KeepsAt (read_number radix most zeros_ok top s)
unfolding read_number
number_at radix most z top s h = ground (arith, digits_at radix 0 0 s h)

separator_at :
    (sep : ℕ) (first : Bool) (s t : String)
    → sep ≢ b'@'
    → read_separator sep first s ≡ some t
    → HasAt s
    → HasAt t
unfolding read_separator contains_char
separator_at sep true s t ne e h = ground arith
separator_at sep false String.[] t ne e h = cc
separator_at sep false (String.◌∷◌ c s) t ne e h = ground arith

keeps_bind :
    {A B : Type 0} (m : Option (A × String)) (f : A × String → Option (B × String))
    → KeepsAt m
    → ((a : A) (s : String) → HasAt s → KeepsAt (f (a, s)))
    → KeepsAt (m >>= f)
keeps_bind none f h k = tt
keeps_bind (some (a, s)) f h k = k a s h

-- A separator, and then a reader that keeps "@".
separated_at :
    {A : Type 0} (sep : ℕ) (first : Bool) (read : String → Option (A × String)) (s : String)
    → sep ≢ b'@'
    → HasAt s
    → ((t : String) → HasAt t → KeepsAt (read t))
    → KeepsAt (read_separator sep first s >>= read)
separated_at sep first read s ne h k = elim (Option-cases (read_separator sep first s)) [
  | inl e ↦ rw e tt
  | inr (t, e) ↦ rw e (k t (separator_at sep first s t ne e h))
]

dot_not_at : ◌≢◌ {A = ℕ} b'.' b'@'
dot_not_at = omega arith

colon_not_at : ◌≢◌ {A = ℕ} b':' b'@'
colon_not_at = omega arith

dotted_at :
    {A : Type 0} (s : String) (f : ℕ × String → Option (A × String))
    → HasAt s
    → ((a : ℕ) (t : String) → HasAt t → KeepsAt (f (a, t)))
    → KeepsAt (read_separator b'.' false s >>= λ t. read_number 10 3 false 255 t >>= f)
dotted_at s f h k =
    separated_at b'.' false (λ t. read_number 10 3 false 255 t >>= f) s dot_not_at h
      λ t at. keeps_bind (read_number 10 3 false 255 t) f (number_at 10 3 false 255 t at) k

ipv4_at : (s : String) → HasAt s → KeepsAt (read_ipv4_addr s)
unfolding read_ipv4_addr
ipv4_at s h = keeps_bind (read_number 10 3 false 255 s) _ (number_at 10 3 false 255 s h) λ a s₁ h₁.
    dotted_at s₁ _ h₁ λ b s₂ h₂. dotted_at s₂ _ h₂ λ c s₃ h₃. dotted_at s₃ _ h₃ λ d s₄ h₄. h₄

group_at : (first : Bool) (s : String) → HasAt s → KeepsAt (group first s)
group_at first s h =
    separated_at b':' first (read_number 16 4 true 65535) s colon_not_at h
      (λ t at. number_at 16 4 true 65535 t at)

embedded_at : (first : Bool) (s : String) → HasAt s → KeepsAt (embedded first s)
embedded_at first s h = separated_at b':' first read_ipv4_addr s colon_not_at h ipv4_at

groups_at : (left : ℕ) (first : Bool) (s : String) → HasAt s → HasAt (read_groups left first s).rest
unfolding read_groups
groups_at zero first s h = h
groups_at (suc zero) first s h = ground (arith, group_at first s h)
groups_at (suc (suc left)) first s h = elim (Option-cases (embedded first s)) [
  | inr (q, e) ↦
      let kept : KeepsAt (embedded first s) = embedded_at first s h in
      rw (e, read_groups) (rw e at kept)
  | inl e ↦ elim (Option-cases (group first s)) [
    | inl f ↦ rw (e, read_groups) (rw f h)
    | inr (q, f) ↦
        let kept : KeepsAt (group first s) = group_at first s h in
        rw (e, read_groups) (rw f (groups_at (suc left) false q.1 (rw f at kept)))
  ]
]

double_colon_at : (s t : String) → strip_prefix "::" s ≡ some t → HasAt s → HasAt t
unfolding strip_prefix contains_char
double_colon_at String.[] t e h = cc
double_colon_at (String.◌∷◌ c String.[]) t e h = ground arith
double_colon_at (String.◌∷◌ c (String.◌∷◌ d s)) t e h = ground arith

tail_at : (head : List ℕ) (t : String) → HasAt t → HasAt (read_tail head t).1
unfolding read_tail
tail_at head t h = groups_at (8 - (length head + 1)) true t h

behind_at :
    (head : List ℕ) (s : String)
    → HasAt s
    → KeepsAt (strip_prefix "::" s >>= λ t. some (read_tail head t))
behind_at head s h =
    keeps_strip (strip_prefix "::" s) λ t e. tail_at head t (double_colon_at s t e h)
  where
    keeps_strip :
        (o : Option String)
        → ((t : String) → o ≡ some t → HasAt (read_tail head t).1)
        → KeepsAt (o >>= λ t. some (read_tail head t))
    keeps_strip none k = tt
    keeps_strip (some t) k = k t refl

ipv6_at : (s : String) → HasAt s → KeepsAt (read_ipv6_addr s)
unfolding read_ipv6_addr
ipv6_at s h =
    let head = read_groups 8 true s in
    let kept : HasAt (read_groups 8 true s).rest = groups_at 8 true s h in
    elim (Bool-cases (length head.values == 8)) [
      | inl e ↦ rw e kept
      | inr e ↦ elim (Bool-cases head.ended_v4) [
        | inl f ↦ rw e (rw f tt)
        | inr f ↦ rw e (rw f (behind_at head.values head.rest kept))
      ]
    ]

either_at :
    (a : Option (Ipv4Addr × String)) (b : Option (Ipv6Addr × String))
    → KeepsAt a
    → KeepsAt b
    → all_read (or_v6 a b) ≡ none
unfolding contains_char
either_at (some (ip, String.[])) b h k = cc
either_at (some (ip, String.◌∷◌ c s)) b h k = refl
either_at none (some (ip, String.[])) h k = cc
either_at none (some (ip, String.◌∷◌ c s)) h k = refl
either_at none none h k = refl

-- A text with "@" is no IP address.
pub parse_ip-at : (s : String) → HasAt s → parse_ip s ≡ none
unfolding parse_ip
parse_ip-at s h = either_at (read_ipv4_addr s) (read_ipv6_addr s) (ipv4_at s h) (ipv6_at s h)

no_name : (s name : String) → contains_char b'@' name ≡ false → HasAt s → s ≢ name
no_name s name n h e = cc

-- An https URL whose host text holds user information is accepted, whatever host follows it.
pub check_on_demand_ask_url-userinfo :
    (rest : String)
    → contains_char b'@' (url_host rest) ≡ true
    → check_on_demand_ask_url ("https://" ++ rest) ≡ ok tt
unfolding contains_char
check_on_demand_ask_url-userinfo rest h = (check_on_demand_ask_url_iff ("https://" ++ rest)).1 (
  rest,
  refl,
  rw (parse_ip-at (url_host rest) h) (
    no_name (url_host rest) "localhost" refl h,
    no_name (url_host rest) "ip6-localhost" refl h,
    no_name (url_host rest) "ip6-loopback" refl h,
  ),
)
