-- ===== src/Base/Int.antt =====
-- Rust's `i64`: an integer with a bound, and `checked_add(1)`.
use Prim.Native.Nat.{ℕ, zero, suc, ◌-◌, ◌^◌, ◌<◌}
use mathlib.Core.Path.{◌≡◌, refl, ap}
use mathlib.Core.Logic.{◌↔◌, inl, inr}
use mathlib.Core.Bool.{Bool, true, false}
use mathlib.Core.Option.{Option, none, some}
use native.Mathlib.Omega.{arith}
use trilithon.Base.Tests.{ltb, ◌==◌ as nat_beq, ==_iff, if◌then◌else◌, Bool-cases}

-- `negsuc n` is -(n + 1).
pub data ℤ : Type 0 where
  pos : ℕ → ℤ
  negsuc : ℕ → ℤ

infix 50 ◌==ℤ◌
abbrev pub ◌==ℤ◌ : ℤ → ℤ → Bool
pos a ==ℤ pos b = nat_beq a b
negsuc a ==ℤ negsuc b = nat_beq a b
_ ==ℤ _ = false

pub ==ℤ_iff : (a b : ℤ) → ((a ==ℤ b) ≡ true) ↔ (a ≡ b)
==ℤ_iff (pos a) (pos b) = (λ h. ap pos ((==_iff a b).0 h), λ p. ground arith)
==ℤ_iff (pos a) (negsuc b) = (λ h. cc, λ p. cc)
==ℤ_iff (negsuc a) (pos b) = (λ h. cc, λ p. cc)
==ℤ_iff (negsuc a) (negsuc b) = (λ h. ap negsuc ((==_iff a b).0 h), λ p. ground arith)

abbrev pub i64_max : ℤ
i64_max = pos (2 ^ 63 - 1)

abbrev pub suc_ℤ : ℤ → ℤ
suc_ℤ (pos n) = pos (suc n)
suc_ℤ (negsuc zero) = pos zero
suc_ℤ (negsuc (suc n)) = negsuc n

-- The values of an `i64`.
abbrev pub IsI64 : ℤ → Type 0
IsI64 (pos n) = n < 2 ^ 63
IsI64 (negsuc n) = n < 2 ^ 63

-- `v.checked_add(1)`
unfoldable pub checked_suc : ℤ → Option ℤ
checked_suc v = if v ==ℤ i64_max then none else some (suc_ℤ v)

pub checked_suc-eq_some :
    (v w : ℤ) → checked_suc v ≡ some w → ((v ==ℤ i64_max) ≡ false) × (w ≡ suc_ℤ v)
unfolding checked_suc
checked_suc-eq_some v w h = elim (Bool-cases (v ==ℤ i64_max)) [
  | inl e ↦ let none-some : none ≡ some w = rw (e, checked_suc) at h in cc
  | inr e ↦ let both : some (suc_ℤ v) ≡ some w = rw (e, checked_suc) at h in (e, cc)
]

pub suc_ℤ-ne : (a : ℤ) → (a ==ℤ suc_ℤ a) ≡ false
suc_ℤ-ne (pos n) = ground arith
suc_ℤ-ne (negsuc zero) = refl
suc_ℤ-ne (negsuc (suc n)) = ground arith

-- An `i64` other than the greatest has a successor that is an `i64`.
pub suc_ℤ-IsI64 : (a : ℤ) → IsI64 a → (a ==ℤ i64_max) ≡ false → IsI64 (suc_ℤ a)
suc_ℤ-IsI64 (pos n) h ne = ground arith
suc_ℤ-IsI64 (negsuc zero) h ne = omega arith
suc_ℤ-IsI64 (negsuc (suc n)) h ne = omega arith

-- `a < b`
abbrev pub ltb_ℤ : ℤ → ℤ → Bool
ltb_ℤ (pos a) (pos b) = ltb a b
ltb_ℤ (pos a) (negsuc b) = false
ltb_ℤ (negsuc a) (pos b) = true
ltb_ℤ (negsuc a) (negsuc b) = ltb b a

-- `v + 1` for an `i64`, which wraps at the greatest.
abbrev pub wrapping_suc : ℤ → ℤ
wrapping_suc v = if v ==ℤ i64_max then negsuc (2 ^ 63 - 1) else suc_ℤ v

pub ltb_ℤ_trans : (a b c : ℤ) → ltb_ℤ a b ≡ true → ltb_ℤ b c ≡ true → ltb_ℤ a c ≡ true
ltb_ℤ_trans (pos a) (pos b) (pos c) h k = ground arith
ltb_ℤ_trans (pos a) (pos b) (negsuc c) h k = cc
ltb_ℤ_trans (pos a) (negsuc b) c h k = cc
ltb_ℤ_trans (negsuc a) (pos b) (pos c) h k = refl
ltb_ℤ_trans (negsuc a) (pos b) (negsuc c) h k = cc
ltb_ℤ_trans (negsuc a) (negsuc b) (pos c) h k = refl
ltb_ℤ_trans (negsuc a) (negsuc b) (negsuc c) h k = ground arith

pub ltb_ℤ_irrefl : (a : ℤ) → ltb_ℤ a a ≡ false
ltb_ℤ_irrefl (pos a) = ground arith
ltb_ℤ_irrefl (negsuc a) = ground arith

pub ltb_ℤ_trans_le : (m r v : ℤ) → ltb_ℤ m r ≡ false → ltb_ℤ m v ≡ true → ltb_ℤ r v ≡ true
ltb_ℤ_trans_le (pos a) (pos b) (pos c) h k = ground arith
ltb_ℤ_trans_le (pos a) (pos b) (negsuc c) h k = cc
ltb_ℤ_trans_le (pos a) (negsuc b) (pos c) h k = refl
ltb_ℤ_trans_le (pos a) (negsuc b) (negsuc c) h k = cc
ltb_ℤ_trans_le (negsuc a) (pos b) c h k = cc
ltb_ℤ_trans_le (negsuc a) (negsuc b) (pos c) h k = refl
ltb_ℤ_trans_le (negsuc a) (negsuc b) (negsuc c) h k = ground arith

pub ltb_ℤ_asym : (a b : ℤ) → ltb_ℤ a b ≡ true → ltb_ℤ b a ≡ false
ltb_ℤ_asym (pos a) (pos b) h = ground arith
ltb_ℤ_asym (pos a) (negsuc b) h = cc
ltb_ℤ_asym (negsuc a) (pos b) h = refl
ltb_ℤ_asym (negsuc a) (negsuc b) h = ground arith
