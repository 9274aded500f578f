-- ===== src/Model/Hostname/Exact.antt =====
-- Which texts `validate_hostname` accepts, and as which pattern.
use Prim.Native.String.{◌++◌, len}
use trilithon.Base.{
  ℕ, ◌≤◌, String, Char, code, ◌≡◌, refl, ◌∙◌, ◌↔◌, Bool, true, false, ◌||◌, List, [], ◌∷◌, none,
  some, ◌==◌, arith, All, ok,
}
use trilithon.Base.Text.{
  contains_char, split, cons_head, strip_prefix, is_alphanumeric, all_chars, is_empty_str,
}
use trilithon.Base.Text.Prefix.{strip_prefix-append, strip_prefix-eq_some}
use trilithon.Model.Hostname.{
  HostPattern, exact, wildcard, check_labels, validate_labels, validate_hostname, validate_pattern,
}
use trilithon.Model.Hostname.Grammar.{LabelRest, LabelText, IsLabel, check_label_iff}

abbrev is_dot : ℕ → Bool
is_dot c = c == b'.'

-- Labels joined by dots, of at most 253 bytes.
abbrev pub IsHostname : String → Type 0
IsHostname s = All IsLabel (split is_dot s) × (len s ≤ 253)

-- An exact pattern is a host name; a wildcard is "*." before a host name of two labels or more.
abbrev pub IsHostPattern : HostPattern → Type 0
IsHostPattern (exact s) = IsHostname s
IsHostPattern (wildcard s) =
    (rest : String) × (s ≡ "*." ++ rest)
    × (contains_char b'.' rest ≡ true)
    × IsHostname rest
    × (len s ≤ 253)

abbrev pub raw : HostPattern → String
raw (exact s) = s
raw (wildcard s) = s

pub check_labels_iff : (l : List String) → (check_labels l ≡ ok tt) ↔ All IsLabel l
unfolding check_labels
check_labels_iff [] = (λ h. tt, λ h. refl)
check_labels_iff (w ∷ ws) =
    let step = check_label_iff w in
    let rest = check_labels_iff ws in
    (λ h. ground (arith, step, rest), λ h. ground (arith, step, rest))

pub validate_labels_iff : (s : String) → (validate_labels s ≡ ok tt) ↔ IsHostname s
unfolding validate_labels
validate_labels_iff s =
    let labels = check_labels_iff (split is_dot s) in
    (λ h. ground (arith, labels), λ h. ground (arith, labels))

abbrev label_char : ℕ → Bool
label_char c = is_alphanumeric c || c == b'-'

LabelRest-all_chars : (h : Bool) (s : String) → LabelRest h s → all_chars label_char s ≡ true
unfolding all_chars
LabelRest-all_chars true String.[] r = refl
LabelRest-all_chars false String.[] r = refl
LabelRest-all_chars true (String.◌∷◌ c s) r =
    ground (arith, LabelRest-all_chars false s, LabelRest-all_chars true s)
LabelRest-all_chars false (String.◌∷◌ c s) r =
    ground (arith, LabelRest-all_chars false s, LabelRest-all_chars true s)

LabelText-all_chars : (s : String) → LabelText s → all_chars label_char s ≡ true
unfolding all_chars
LabelText-all_chars String.[] h = refl
LabelText-all_chars (String.◌∷◌ c s) h = ground (arith, LabelRest-all_chars false s)

abbrev LabelChars : List String → Type 0
LabelChars = All (λ w. all_chars label_char w ≡ true)

All-LabelChars : (l : List String) → All IsLabel l → LabelChars l
All-LabelChars [] h = tt
All-LabelChars (w ∷ ws) h = (LabelText-all_chars w h.0.0, All-LabelChars ws h.1)

LabelChars-tail :
    (c : Char) (l : List String)
    → LabelChars (cons_head c l)
    → (label_char (code c) ≡ true) × LabelChars l
unfolding all_chars
LabelChars-tail c [] h = ground arith
LabelChars-tail c (w ∷ ws) h = ground arith

no_star_in : (s : String) → LabelChars (split is_dot s) → contains_char b'*' s ≡ false
unfolding contains_char split
no_star_in String.[] h = refl
no_star_in (String.◌∷◌ c s) h = ground (arith, no_star_in s, LabelChars-tail c (split is_dot s))

-- A host name has no "*".
no_star : (s : String) → All IsLabel (split is_dot s) → contains_char b'*' s ≡ false
no_star s h = no_star_in s (All-LabelChars (split is_dot s) h)

exact_inv :
    (s t : String) → validate_hostname s ≡ ok (exact t) → (validate_labels s ≡ ok tt) × (t ≡ s)
unfolding validate_hostname validate_pattern
exact_inv s t h = ground arith

wildcard_inv :
    (s t : String)
    → validate_hostname s ≡ ok (wildcard t)
    → (rest : String) × (strip_prefix "*." s ≡ some rest)
      × (contains_char b'.' rest ≡ true)
      × (validate_labels rest ≡ ok tt)
      × (t ≡ s)
      × (len s ≤ 253)
unfolding validate_hostname validate_pattern
wildcard_inv s t h = ground arith

validate_exact :
    (s : String)
    → validate_labels s ≡ ok tt
    → contains_char b'*' s ≡ false
    → strip_prefix "*." s ≡ none
    → is_empty_str s ≡ false
    → len s ≤ 253
    → validate_hostname s ≡ ok (exact s)
unfolding validate_hostname validate_pattern
validate_exact s l n p e b = ground arith

validate_wildcard :
    (s rest : String)
    → strip_prefix "*." s ≡ some rest
    → contains_char b'*' rest ≡ false
    → contains_char b'.' rest ≡ true
    → validate_labels rest ≡ ok tt
    → is_empty_str s ≡ false
    → is_empty_str rest ≡ false
    → len s ≤ 253
    → validate_hostname s ≡ ok (wildcard s)
unfolding validate_hostname validate_pattern
validate_wildcard s rest p n d l e f b = ground arith

no_prefix : (s : String) → contains_char b'*' s ≡ false → strip_prefix "*." s ≡ none
unfolding strip_prefix contains_char
no_prefix String.[] h = refl
no_prefix (String.◌∷◌ c s) h = ground arith

not_empty_of_label : (s : String) → All IsLabel (split is_dot s) → is_empty_str s ≡ false
unfolding split
not_empty_of_label String.[] h = absurd h.0.0
not_empty_of_label (String.◌∷◌ c s) h = refl

not_empty_of_contains : (x : ℕ) (s : String) → contains_char x s ≡ true → is_empty_str s ≡ false
unfolding contains_char
not_empty_of_contains x String.[] h = cc
not_empty_of_contains x (String.◌∷◌ c s) h = refl

not_empty_of_prefix : (s rest : String) → strip_prefix "*." s ≡ some rest → is_empty_str s ≡ false
unfolding strip_prefix
not_empty_of_prefix String.[] rest h = cc
not_empty_of_prefix (String.◌∷◌ c s) rest h = refl

accepts : (p : HostPattern) → IsHostPattern p → validate_hostname (raw p) ≡ ok p
accepts (exact s) h =
    validate_exact s ((validate_labels_iff s).1 h) (no_star s h.0) (no_prefix s (no_star s h.0))
      (not_empty_of_label s h.0) h.1
accepts (wildcard s) (rest, e, dot, h, b) =
    let p : strip_prefix "*." s ≡ some rest = rw e (strip_prefix-append "*." rest) in
    validate_wildcard s rest p (no_star rest h.0) dot ((validate_labels_iff rest).1 h)
      (not_empty_of_prefix s rest p) (not_empty_of_contains b'.' rest dot) b

accepted_shape :
    (s : String) (p : HostPattern) → validate_hostname s ≡ ok p → (raw p ≡ s) × IsHostPattern p
accepted_shape s (exact t) h =
    let (l, e) = exact_inv s t h in (e, rw e ((validate_labels_iff s).0 l))
accepted_shape s (wildcard t) h =
    let (rest, p, dot, l, e, b) = wildcard_inv s t h in
    (e, (rest, e ∙ strip_prefix-eq_some "*." s rest p, dot, (validate_labels_iff rest).0 l, rw e b))

-- A text is accepted as a pattern exactly when it is that pattern's text and the pattern follows
-- the grammar.
pub validate_hostname_iff :
    (s : String) (p : HostPattern) → (validate_hostname s ≡ ok p) ↔ ((raw p ≡ s) × IsHostPattern p)
validate_hostname_iff s p = (accepted_shape s p, λ h. rw (← h.0) (accepts p h.1))
