-- ===== src/Storage/Sqlite/Tail/Glob.antt =====
-- Which kinds the pattern of a glob matches.
use Prim.Native.String.{◌++◌}
use Prim.Native.String.append
use trilithon.Base.{
  String, Char, code, Bool, true, false, ◌&&◌, ◌||◌, Option, none, some, if◌then◌else◌, ◌==◌, ◌≡◌,
  refl, ap, ◌∙◌, inl, inr, Bool-cases, arith,
}
use trilithon.Base.Text.{is_empty_str, replace_char}
use text.Mathlib.TextEquality.{Char-path}
use trilithon.Storage.Sqlite.Tail.{
  glob_prefix, escaped, like_of, kind_like, same_letter, literal, any_tail, step, like,
}

abbrev is_special : Char → Bool
is_special c = code c == b'\\' || code c == b'%' || code c == b'_'

-- The escapes in one pass, before a rest.
unfoldable pub escape_onto : String → String → String
escape_onto String.[] k = k
escape_onto (String.◌∷◌ c s) k =
    let rest = escape_onto s k in
    if is_special c then String.◌∷◌ "\\" (String.◌∷◌ c rest) else String.◌∷◌ c rest

two :
    (c d : Char) (s : String)
    → String.◌∷◌ c (String.◌∷◌ d String.[]) ++ s ≡ String.◌∷◌ c (String.◌∷◌ d s)
two c d s = rw (append.cons, append.cons, append.nil) refl

escaped-onto : (g : String) → escaped g ≡ escape_onto g ""
unfolding escaped replace_char escape_onto
escaped-onto String.[] = refl
escaped-onto (String.◌∷◌ c g) = elim (Bool-cases (code c == b'\\')) [
  | inl e ↦
      let same : c ≡ "\\" = Char-path c "\\" (ground arith) in
      rw same (rw (two "\\" "\\") (ap (λ s. String.◌∷◌ "\\" (String.◌∷◌ "\\" s)) (escaped-onto g)))
  | inr e ↦ elim (Bool-cases (code c == b'%')) [
    | inl f ↦
        let same : c ≡ "%" = Char-path c "%" (ground arith) in
        rw same (rw (two "\\" "%") (ap (λ s. String.◌∷◌ "\\" (String.◌∷◌ "%" s)) (escaped-onto g)))
    | inr f ↦ elim (Bool-cases (code c == b'_')) [
      | inl d ↦
          let same : c ≡ "_" = Char-path c "_" (ground arith) in
          rw same
            (rw (two "\\" "_") (ap (λ s. String.◌∷◌ "\\" (String.◌∷◌ "_" s)) (escaped-onto g)))
      | inr d ↦ rw (e, f, d) (ap (String.◌∷◌ c) (escaped-onto g))
    ]
  ]
]

onto-append : (g k : String) → escape_onto g "" ++ k ≡ escape_onto g k
unfolding escape_onto
onto-append String.[] k = rw append.nil refl
onto-append (String.◌∷◌ c g) k = elim (Bool-cases (is_special c)) [
  | inl e ↦ rw e (rw (append.cons, append.cons, onto-append g k) refl)
  | inr e ↦ rw e (rw (append.cons, onto-append g k) refl)
]

-- The text begins with the letters of the glob, in either case, and goes on as the test wants.
unfoldable pub starts : String → String → (String → Bool) → Bool
starts String.[] s rest = rest s
starts (String.◌∷◌ c p) String.[] rest = false
starts (String.◌∷◌ c p) (String.◌∷◌ d s) rest = same_letter c d && starts p s rest

like-cons :
    (c : Char) (p s : String)
    → (code c == b'\\') ≡ false
    → like (String.◌∷◌ c p) s ≡ step c (like p) s
unfolding like
like-cons c String.[] s h = rw h refl
like-cons c (String.◌∷◌ d p) s h = rw h refl

like-escape :
    (c : Char) (p s : String) → like (String.◌∷◌ "\\" (String.◌∷◌ c p)) s ≡ literal c (like p) s
unfolding like
like-escape c p s = refl

literal-starts :
    (c : Char) (g s : String) (test rest : String → Bool)
    → ((t : String) → test t ≡ starts g t rest)
    → literal c test s ≡ starts (String.◌∷◌ c g) s rest
unfolding starts
literal-starts c g String.[] test rest h = refl
literal-starts c g (String.◌∷◌ d s) test rest h = ap (λ b. same_letter c d && b) (h s)

like-onto : (g k s : String) → like (escape_onto g k) s ≡ starts g s (like k)
unfolding escape_onto starts
like-onto String.[] k s = refl
like-onto (String.◌∷◌ c g) k s = elim (Bool-cases (is_special c)) [
  | inl e ↦ rw e (
      like-escape c (escape_onto g k) s
      ∙ literal-starts c g s (like (escape_onto g k)) (like k) (λ t. like-onto g k t))
  | inr e ↦
      let plain : step c (like (escape_onto g k)) s ≡ literal c (like (escape_onto g k)) s =
        ground arith in
      rw e (
        like-cons c (escape_onto g k) s (ground arith)
        ∙ plain
        ∙ literal-starts c g s (like (escape_onto g k)) (like k) (λ t. like-onto g k t))
]

any_tail-any : (s : String) → any_tail is_empty_str s ≡ true
unfolding any_tail
any_tail-any String.[] = refl
any_tail-any (String.◌∷◌ c s) = any_tail-any s

like-any : (s : String) → like "%" s ≡ true
unfolding like
like-any s = any_tail-any s

starts-any :
    (g s : String) (test rest : String → Bool)
    → ((t : String) → test t ≡ rest t)
    → starts g s test ≡ starts g s rest
unfolding starts
starts-any String.[] s test rest h = h s
starts-any (String.◌∷◌ c g) String.[] test rest h = refl
starts-any (String.◌∷◌ c g) (String.◌∷◌ d s) test rest h =
    ap (λ b. same_letter c d && b) (starts-any g s test rest h)

-- What a glob means: with a star at its end, that the kind begins with the rest of it; without, that
-- the kind is it. The cases of ASCII letters are not told apart.
abbrev pub means : Option String → String → String → Bool
means none g kind = starts g kind is_empty_str
means (some prefix) g kind = starts prefix kind (λ _. true)

like_of-means : (o : Option String) (g kind : String) → like (like_of o g) kind ≡ means o g kind
unfolding like
like_of-means none g kind =
    rw (escaped-onto g) (like-onto g "" kind ∙ starts-any g kind (like "") is_empty_str (λ t. refl))
like_of-means (some prefix) g kind = rw (escaped-onto prefix) (
    rw (onto-append prefix "%")
      (like-onto prefix "%" kind ∙ starts-any prefix kind (like "%") (λ _. true) like-any))

-- The pattern that is built from a glob matches exactly the kinds that begin with what stands before
-- the star at its end or, without one, that are the glob, but for the cases of ASCII letters, which
-- are not told apart: an underscore, a per cent sign or a backslash of the glob stands for itself.
pub like-kind_like : (g kind : String) → like (kind_like g) kind ≡ means (glob_prefix g) g kind
unfolding kind_like
like-kind_like g kind = like_of-means (glob_prefix g) g kind
