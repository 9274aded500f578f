-- ===== src/Model/Pointer/Escape.antt =====
-- Escaping a segment loses nothing.
use Prim.Native.Char.{char}
use Prim.Native.String.{◌++◌}
use Prim.Native.String.append
use text.Mathlib.TextEquality.{Char-path}
use trilithon.Base.{
  ℕ, String, Char, code, ◌≡◌, refl, ◌==◌, true, false, Bool-cases, inl, inr, ap, ◌∙◌, ==_iff,
}
use trilithon.Base.Text.{replace_char}
use trilithon.Model.Pointer.{replace_pair, escape_segment, unescape_segment}

abbrev two : Char → Char → String → String
two c d s = String.◌∷◌ c (String.◌∷◌ d s)

two-append : (c d : Char) (s : String) → two c d String.[] ++ s ≡ two c d s
two-append c d s = simp (append.cons, append.nil)

-- What does not begin the pattern is kept.
replace_pair_skip :
    (a b : ℕ) (r : String) (c : Char) (s : String)
    → (code c == a) ≡ false
    → replace_pair a b r (String.◌∷◌ c s) ≡ String.◌∷◌ c (replace_pair a b r s)
unfolding replace_pair
replace_pair_skip a b r c String.[] h = refl
replace_pair_skip a b r c (String.◌∷◌ d s) h = rw h

abbrev tilde : Char
tilde = char b'~' tt

abbrev slash : Char
slash = char b'/' tt

abbrev digit_zero : Char
digit_zero = char b'0' tt

abbrev digit_one : Char
digit_one = char b'1' tt

char_of : (c : Char) (d : Char) → (code c == code d) ≡ true → c ≡ d
char_of c d e = Char-path c d ((==_iff (code c) (code d)).0 e)

replace_pair_tilde : (s : String) → replace_pair b'~' b'0' "~" (replace_char b'~' "~0" s) ≡ s
unfolding replace_pair replace_char
replace_pair_tilde String.[] = refl
replace_pair_tilde (String.◌∷◌ c s) = elim (Bool-cases (code c == b'~')) [
  | inl e ↦
      rw (e, two-append tilde digit_zero (replace_char b'~' "~0" s), append.cons, append.nil)
        (rw (char_of c tilde e) (ap (String.◌∷◌ tilde) (replace_pair_tilde s)))
  | inr e ↦ rw e (replace_pair_skip _ _ _ c _ e ∙ ap (String.◌∷◌ c) (replace_pair_tilde s))
]

-- The escaped text after one step.
escape_slash :
    (s : String)
    → replace_pair b'~' b'1' "/" (replace_char b'/' "~1" (replace_char b'~' "~0" s))
      ≡ replace_char b'~' "~0" s
unfolding replace_pair replace_char
escape_slash String.[] = refl
escape_slash (String.◌∷◌ c s) = elim (Bool-cases (code c == b'~')) [
  | inl e ↦
      rw (e, two-append tilde digit_zero (replace_char b'~' "~0" s))
        (ap (String.◌∷◌ tilde) (
          replace_pair_skip b'~' b'1' "/" digit_zero
            (replace_char b'/' "~1" (replace_char b'~' "~0" s)) refl
          ∙ ap (String.◌∷◌ digit_zero) (escape_slash s)))
  | inr e ↦ rw e (elim (Bool-cases (code c == b'/')) [
    | inl f ↦
        rw
          (
            f,
            two-append tilde digit_one (replace_char b'/' "~1" (replace_char b'~' "~0" s)),
            append.cons,
            append.nil,
          )
          (rw (char_of c slash f) (ap (String.◌∷◌ slash) (escape_slash s)))
    | inr f ↦ rw f (replace_pair_skip _ _ _ c _ e ∙ ap (String.◌∷◌ c) (escape_slash s))
  ])
]

-- Unescaping the segment that a pointer escapes gives the segment back.
pub unescape_segment-escape_segment : (s : String) → unescape_segment (escape_segment s) ≡ s
unfolding unescape_segment escape_segment
unescape_segment-escape_segment s =
    ap (replace_pair b'~' b'0' "~") (escape_slash s) ∙ replace_pair_tilde s
