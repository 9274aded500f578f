-- ===== src/Base/IpAddr.antt =====
-- `std::net`: IPv4 and IPv6 addresses and `str::parse` for them, and `str::parse::<u8>`.
use Prim.Native.String.{len}
use trilithon.Base.Tests.{◌==◌, ltb, leb, if◌then◌else◌}
use trilithon.Base.Lists.{length}
use trilithon.Base.Text.{is_digit, is_empty_str, starts_with_char, strip_prefix}
use Prim.Native.Nat.{ℕ, zero, suc, ◌+◌, ◌-◌, ◌*◌}
use Prim.Native.Char.{code}
use Prim.Native.String.{String}
use mathlib.Core.Bool.{Bool, true, false, not, ◌&&◌, ◌||◌}
use mathlib.Core.Option.{Option, none, some}
use mathlib.Core.List.{List, [], ◌∷◌, ◌++◌}

pub record Ipv4Addr : Type 0 where
  pub a : ℕ
  pub b : ℕ
  pub c : ℕ
  pub d : ℕ

-- Eight groups of 16 bits.
pub record Ipv6Addr : Type 0 where
  pub segments : List ℕ

pub data IpAddr : Type 0 where
  v4 : Ipv4Addr → IpAddr
  v6 : Ipv6Addr → IpAddr

infixl 5 ◌>>=◌
abbrev pub ◌>>=◌ : {A B : Type 0} → Option A → (A → Option B) → Option B
none >>= f = none
some a >>= f = f a

-- `char::to_digit(radix)` for a radix of 10 or 16.
unfoldable pub to_digit : ℕ → ℕ → Option ℕ
to_digit radix c =
    if is_digit c
    then some (c - b'0')
    else if radix == 16 && (leb b'a' c && leb c b'f')
    then some (c - 87)
    else if radix == 16 && (leb b'A' c && leb c b'F')
    then some (c - 55)
    else none

-- What has been read of a numeral: its value, the number of its digits, and the rest of the text.
pub record Digits : Type 0 where
  pub value : ℕ
  pub count : ℕ
  pub rest : String

unfoldable pub take_digits : ℕ → ℕ → ℕ → String → Digits
unfolding to_digit
take_digits radix value count String.[] = record { value = value; count = count; rest = String.[] }
take_digits radix value count (String.◌∷◌ c s) = elim (to_digit radix (code c)) [
  | none ↦ record { value = value; count = count; rest = String.◌∷◌ c s }
  | some x ↦ take_digits radix (value * radix + x) (suc count) s
]

-- `read_number(radix, Some(max_digits), allow_zero_prefix)` into a type with the greatest value `top`.
unfoldable pub read_number : ℕ → ℕ → Bool → ℕ → String → Option (ℕ × String)
unfolding take_digits
read_number radix max_digits allow_zero_prefix top s =
    let r = take_digits radix 0 0 s in
    if ltb max_digits r.count || r.count == 0
    then none
    else if not allow_zero_prefix && (starts_with_char b'0' s && ltb 1 r.count)
    then none
    else if ltb top r.value
    then none
    else some (r.value, r.rest)

-- `read_given_char`, with `read_separator`'s test that the part is not the first.
unfoldable pub read_separator : ℕ → Bool → String → Option String
read_separator sep true s = some s
read_separator sep false String.[] = none
read_separator sep false (String.◌∷◌ c s) = if code c == sep then some s else none

unfoldable pub read_ipv4_addr : String → Option (Ipv4Addr × String)
read_ipv4_addr s = do
  (a, s₁) ← read_number 10 3 false 255 s
  t₁ ← read_separator b'.' false s₁
  (b, s₂) ← read_number 10 3 false 255 t₁
  t₂ ← read_separator b'.' false s₂
  (c, s₃) ← read_number 10 3 false 255 t₂
  t₃ ← read_separator b'.' false s₃
  (d, s₄) ← read_number 10 3 false 255 t₃
  some (record { a = a; b = b; c = c; d = d }, s₄)

-- What `read_groups` has read: the groups, whether an IPv4 address ended them, and the rest.
pub record Groups : Type 0 where
  pub values : List ℕ
  pub ended_v4 : Bool
  pub rest : String

abbrev pub group : Bool → String → Option (ℕ × String)
group first s = do t ← read_separator b':' first s; read_number 16 4 true 65535 t

abbrev pub embedded : Bool → String → Option (Ipv4Addr × String)
embedded first s = do t ← read_separator b':' first s; read_ipv4_addr t

-- `read_groups` with so many groups left; an embedded IPv4 address wants two.
unfoldable pub read_groups : ℕ → Bool → String → Groups
read_groups zero first s = record { values = []; ended_v4 = false; rest = s }
read_groups (suc zero) first s = elim (group first s) [
  | none ↦ record { values = []; ended_v4 = false; rest = s }
  | some (g, t) ↦ record { values = g ∷ []; ended_v4 = false; rest = t }
]
read_groups (suc (suc left)) first s = elim (embedded first s) [
  | some (ip, t) ↦ record {
    values = (ip.a * 256 + ip.b) ∷ (ip.c * 256 + ip.d) ∷ [];
    ended_v4 = true;
    rest = t;
  }
  | none ↦ elim (group first s) [
    | none ↦ record { values = []; ended_v4 = false; rest = s }
    | some (g, t) ↦
        let more = read_groups (suc left) false t in
        record { values = g ∷ more.values; ended_v4 = more.ended_v4; rest = more.rest }
  ]
]

zeros : ℕ → List ℕ
zeros zero = []
zeros (suc n) = 0 ∷ zeros n

-- The part of `read_ipv6_addr` behind the double colon.
unfoldable pub read_tail : List ℕ → String → Ipv6Addr × String
unfolding zeros
read_tail head s =
    let tail = read_groups (8 - (length head + 1)) true s in
    (
      record { segments = head ++ (zeros (8 - length head - length tail.values) ++ tail.values) },
      tail.rest,
    )

unfoldable pub read_ipv6_addr : String → Option (Ipv6Addr × String)
read_ipv6_addr s =
    let head = read_groups 8 true s in
    if length head.values == 8
    then some (record { segments = head.values }, head.rest)
    else if head.ended_v4
    then none
    else do t ← strip_prefix "::" head.rest; some (read_tail head.values t)

-- `parse_with`: the whole text must be read.
abbrev pub all_read : {A : Type 0} → Option (A × String) → Option A
all_read none = none
all_read (some (a, rest)) = if is_empty_str rest then some a else none

-- `s.parse::<Ipv4Addr>()`
unfoldable pub parse_ipv4 : String → Option Ipv4Addr
unfolding read_ipv4_addr read_number read_separator
parse_ipv4 s = if ltb 15 (len s) then none else all_read (read_ipv4_addr s)

-- `s.parse::<Ipv6Addr>()`
unfoldable pub parse_ipv6 : String → Option Ipv6Addr
unfolding read_ipv6_addr read_ipv4_addr read_number read_separator read_groups read_tail
    strip_prefix
parse_ipv6 s = all_read (read_ipv6_addr s)

abbrev pub or_v6 :
    Option (Ipv4Addr × String) → Option (Ipv6Addr × String) → Option (IpAddr × String)
or_v6 (some (ip, rest)) other = some (v4 ip, rest)
or_v6 none (some (ip, rest)) = some (v6 ip, rest)
or_v6 none none = none

-- `s.parse::<IpAddr>()`
unfoldable pub parse_ip : String → Option IpAddr
parse_ip s = all_read (or_v6 (read_ipv4_addr s) (read_ipv6_addr s))

abbrev pub strip_plus : String → String
strip_plus String.[] = String.[]
strip_plus (String.◌∷◌ c s) = if code c == b'+' then s else String.◌∷◌ c s

-- `s.parse::<u8>()`: a sign "+" is accepted, and leading zeros are.
unfoldable pub parse_u8 : String → Option ℕ
unfolding take_digits
parse_u8 s =
    let r = take_digits 10 0 0 (strip_plus s) in
    if r.count == 0
    then none
    else if is_empty_str r.rest && leb r.value 255
    then some r.value
    else none
