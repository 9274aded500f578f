-- ===== src/Base/Text/Prefix.antt =====
-- `strip_prefix`, `split_once` and concatenation.
use Prim.Native.String.{◌++◌}
use Prim.Native.String.append
use text.Mathlib.TextEquality.{Char-path}
use Prim.Native.Char.{Char}
use Prim.Native.String.{String}
use mathlib.Core.Path.{◌≡◌, ap}
use mathlib.Core.Logic.{◌⊎◌, inl, inr}
use mathlib.Core.Option.{some}
use native.Mathlib.Omega.{arith}
use trilithon.Base.Text.{strip_prefix, split_once}

pub strip_prefix-append : (p s : String) → strip_prefix p (p ++ s) ≡ some s
unfolding strip_prefix
strip_prefix-append String.[] s = rw append.nil
strip_prefix-append (String.◌∷◌ d p) s = rw append.cons (ground (arith, strip_prefix-append p s))

pub strip_prefix-eq_some : (p s rest : String) → strip_prefix p s ≡ some rest → s ≡ p ++ rest
unfolding strip_prefix
strip_prefix-eq_some String.[] s rest h = rw append.nil (cc)
strip_prefix-eq_some (String.◌∷◌ d p) String.[] rest h = cc
strip_prefix-eq_some (String.◌∷◌ d p) (String.◌∷◌ c s) rest h =
    rw append.cons (ground (arith, strip_prefix-eq_some p s rest, Char-path c d))

split_once_step :
    (p : String) (c : Char) (s a b : String)
    → split_once p (String.◌∷◌ c s) ≡ some (a, b)
    → ((a ≡ String.[]) × (strip_prefix p (String.◌∷◌ c s) ≡ some b))
      ⊎ ((a' : String) × (a ≡ String.◌∷◌ c a') × (split_once p s ≡ some (a', b)))
unfolding split_once
split_once_step p c s a b h = ground arith

-- What `split_once` finds is the text around an occurrence of the pattern.
pub split_once-eq_some : (p s a b : String) → split_once p s ≡ some (a, b) → s ≡ a ++ (p ++ b)
unfolding split_once
split_once-eq_some p String.[] a b h = cc
split_once-eq_some p (String.◌∷◌ c s) a b h = elim (split_once_step p c s a b h) [
  | inl (e, f) ↦ rw (e, append.nil) (strip_prefix-eq_some p (String.◌∷◌ c s) b f)
  | inr (a', e, f) ↦ rw (e, append.cons) (ap (String.◌∷◌ c) (split_once-eq_some p s a' b f))
]
