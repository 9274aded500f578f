-- ===== src/Base/Results.antt =====
-- Rust's `Result<T, E>` with the `?` operator as bind.
use mathlib.Core.Path.{◌≡◌, refl}
use mathlib.Core.Logic.{◌⊎◌, inl, inr}
use mathlib.Core.Bool.{Bool, true, false}
use mathlib.Core.Option.{Option, none, some}

pub data Result {ℓ κ} (E : Type ℓ) (A : Type κ) : Type (ℓ ⊔ κ) where
  ok : A → Result E A
  err : E → Result E A

-- `is_ok()`
abbrev pub is_ok {ℓ κ} : {E : Type ℓ} {A : Type κ} → Result E A → Bool
is_ok (err e) = false
is_ok (ok a) = true

-- `o.ok_or(e)`
abbrev pub ok_or {ℓ κ} : {E : Type ℓ} {A : Type κ} → Option A → E → Result E A
ok_or (some a) e = ok a
ok_or none e = err e

-- `m?`, and what follows it
infixl 5 ◌>>=◌
abbrev pub ◌>>=◌ {ℓ κ ι} :
    {E : Type ℓ} {A : Type κ} {B : Type ι} → Result E A → (A → Result E B) → Result E B
err e >>= next = err e
ok a >>= next = next a

-- `if test { return Err(e) }`
abbrev pub refuse_if {ℓ} : {E : Type ℓ} → Bool → E → Result E (Unit {0})
refuse_if false e = ok tt
refuse_if true e = err e

-- `check?;`
infixl 5 ◌>>◌
abbrev pub ◌>>◌ {ℓ κ} : {E : Type ℓ} {B : Type κ} → Result E (Unit {0}) → Result E B → Result E B
check >> rest = check >>= λ _. rest

pub >>=-eq-ok {ℓ κ ι} :
    {E : Type ℓ} {A : Type κ} {B : Type ι} (m : Result E A) (f : A → Result E B) {b : B}
    → (m >>= f) ≡ ok b
    → (a : A) × (m ≡ ok a) × (f a ≡ ok b)
>>=-eq-ok (err e) f h = cc
>>=-eq-ok (ok a) f h = (a, refl, h)

pub >>-eq-ok {ℓ κ} :
    {E : Type ℓ} {B : Type κ} (m : Result E (Unit {0})) (k : Result E B) {b : B}
    → (m >> k) ≡ ok b
    → (m ≡ ok tt) × (k ≡ ok b)
>>-eq-ok (ok tt) k h = (refl, h)
>>-eq-ok (err e) k h = cc

pub refuse_if-eq-ok {ℓ} : {E : Type ℓ} (b : Bool) (e : E) → refuse_if b e ≡ ok tt → b ≡ false
refuse_if-eq-ok true e h = cc
refuse_if-eq-ok false e h = refl

pub ok_or-eq-ok {ℓ κ} :
    {E : Type ℓ} {A : Type κ} (o : Option A) (e : E) {a : A} → ok_or o e ≡ ok a → o ≡ some a
ok_or-eq-ok none e h = cc
ok_or-eq-ok (some a) e h = cc

pub Result-cases {ℓ} :
    {E : Type ℓ} (r : Result E (Unit {0})) → (r ≡ ok tt) ⊎ ((e : E) × (r ≡ err e))
Result-cases (ok _) = inl refl
Result-cases (err e) = inr (e, refl)

pub Result-split {ℓ κ} :
    {E : Type ℓ} {A : Type κ} (r : Result E A) → ((a : A) × (r ≡ ok a)) ⊎ ((e : E) × (r ≡ err e))
Result-split (ok a) = inl (a, refl)
Result-split (err e) = inr (e, refl)

pub ok_of_is_ok {ℓ κ} :
    {E : Type ℓ} {A : Type κ} (r : Result E A) → is_ok r ≡ true → (a : A) × (r ≡ ok a)
ok_of_is_ok (ok a) h = (a, refl)
ok_of_is_ok (err e) h = cc
