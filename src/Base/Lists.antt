-- ===== src/Base/Lists.antt =====
-- Lists over the native numbers.
use Prim.Native.Nat.{ℕ, suc}
use mathlib.Core.Bool.{Bool, true, false}
use mathlib.Core.Logic.{◌⊎◌, inl, inr}
use mathlib.Core.List.{List, [], ◌∷◌, ◌++◌}

module _ {ℓ} {A : Type ℓ} where
  abbrev pub length : List A → ℕ
  length [] = 0
  length (x ∷ xs) = suc (length xs)

  -- `Vec::is_empty`
  abbrev pub is_empty : List A → Bool
  is_empty [] = true
  is_empty (_ ∷ _) = false

  -- Every element has the property.
  abbrev pub All {κ} : (A → Type κ) → List A → Type κ
  All P [] = Unit
  All P (x ∷ xs) = P x × All P xs

  -- Some element has the property.
  abbrev pub Any : (A → Type 0) → List A → Type 0
  Any P [] = ⊥
  Any P (x ∷ xs) = P x ⊎ Any P xs

  pub All-map : (P Q : A → Type 0) → ((a : A) → P a → Q a) → (l : List A) → All P l → All Q l
  All-map P Q f [] h = tt
  All-map P Q f (a ∷ l) h = (f a h.0, All-map P Q f l h.1)

  pub All-append : (P : A → Type 0) (l m : List A) → All P l → All P m → All P (l ++ m)
  All-append P [] m h k = k
  All-append P (a ∷ l) m h k = (h.0, All-append P l m h.1 k)

  pub Any-append_left : (P : A → Type 0) (l m : List A) → Any P l → Any P (l ++ m)
  Any-append_left P [] m h = absurd h
  Any-append_left P (a ∷ l) m h = elim h [ inl p ↦ inl p | inr q ↦ inr (Any-append_left P l m q) ]

  pub Any-append_right : (P : A → Type 0) (l m : List A) → Any P m → Any P (l ++ m)
  Any-append_right P [] m h = h
  Any-append_right P (a ∷ l) m h = inr (Any-append_right P l m h)
