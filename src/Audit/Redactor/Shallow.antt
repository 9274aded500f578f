-- ===== src/Audit/Redactor/Shallow.antt =====
-- A value of at most 64 levels is redacted: the self-check accepts what the walk leaves.
use trilithon.Base.{
  ℕ, suc, ◌≤◌, String, ◌≡◌, refl, ap, inl, inr, true, false, is_some, ltb, arith, List, Result, ok,
  Bool-cases,
}
use trilithon.Base.Text.{strip_prefix}
use trilithon.Base.Text.Prefix.{strip_prefix-append}
use trilithon.Base.Text.Decimal.{to_string}
use trilithon.Model.Json.{
  Value, null, bool, number, string, array, object, Items, nil, cons, Fields, end, field,
}
use trilithon.Model.Pointer.{JsonPointer, root, push}
use trilithon.Audit.Redactor.{
  RedactorError, RedactionResult, is_secret_field, redact_leaf, visit, walk, walk_fields,
  walk_items, inspect, self_check, self_check_fields, self_check_items, redact, prefix_of,
  saturating_suc,
}
use trilithon.Audit.Redactor.Safe.{Counted}

unfoldable mutual
  -- No node of the value is below level 64, when the value is at the given level.
  pub IsShallow : Value → ℕ → Type 0
  IsShallow (object fs) d = (d ≤ 64) × AreShallow fs (suc d)
  IsShallow (array vs) d = (d ≤ 64) × ItemsShallow vs (suc d)
  IsShallow null d = d ≤ 64
  IsShallow (bool b) d = d ≤ 64
  IsShallow (number x) d = d ≤ 64
  IsShallow (string s) d = d ≤ 64

  AreShallow : Fields → ℕ → Type 0
  AreShallow end d = Unit
  AreShallow (field k v fs) d = IsShallow v d × AreShallow fs d

  ItemsShallow : Items → ℕ → Type 0
  ItemsShallow nil d = Unit
  ItemsShallow (cons v vs) d = IsShallow v d × ItemsShallow vs d

level : (d : ℕ) → d ≤ 64 → ltb 64 d ≡ false
level d h = ground arith

module _ (patterns : List String) (hash_for_value : String → String) where
  marked :
      (v : Value)
      → (s : String) × (redact_leaf patterns hash_for_value v ≡ string s)
        × (is_some (strip_prefix "***" s) ≡ true)
  unfolding redact_leaf strip_prefix
  marked null = ("***", refl, refl)
  marked (bool b) = ("***", refl, refl)
  marked (number x) = ("***", refl, refl)
  marked (array vs) = ("***", refl, refl)
  marked (object fs) = ("***", refl, refl)
  marked (string s) =
      (_, refl, ap is_some (strip_prefix-append "***" (prefix_of 12 (hash_for_value s))))

  check_mark :
      (s : String) (p : JsonPointer) (d : ℕ)
      → d ≤ 64
      → is_secret_field patterns p ≡ true
      → is_some (strip_prefix "***" s) ≡ true
      → self_check patterns hash_for_value (string s) p d ≡ ok tt
  unfolding self_check
  check_mark s p d l h m = rw (level d l, h) (rw m refl)

  -- A node that the walk replaces by `redact_leaf`, or walks into.
  abbrev Passes : Counted Value → JsonPointer → ℕ → Type 0
  Passes r p d =
      (w : Value) × (m : ℕ) × (r ≡ ok (w, m)) × (self_check patterns hash_for_value w p d ≡ ok tt)

  visit-Passes :
      (v : Value) (p : JsonPointer) (n d : ℕ) (inside : Counted Value)
      → d ≤ 64
      → (is_secret_field patterns p ≡ false → Passes inside p d)
      → Passes (visit patterns hash_for_value v p n d inside) p d
  visit-Passes v p n d inside l k = elim (Bool-cases (is_secret_field patterns p)) [
    | inl h ↦
        let (s, e, m) = marked v in
        (
          redact_leaf patterns hash_for_value v,
          saturating_suc n,
          rw (level d l, h),
          rw e (check_mark s p d l h m),
        )
    | inr h ↦ let (w, m, e, c) = k h in (w, m, rw (level d l, h) e, c)
  ]

  check_inside :
      (w : Value) (p : JsonPointer) (d : ℕ) (inside : Result RedactorError (Unit {0}))
      → d ≤ 64
      → is_secret_field patterns p ≡ false
      → inside ≡ ok tt
      → inspect patterns hash_for_value w p d inside ≡ ok tt
  check_inside w p d inside l h e = rw (level d l, h) e

  mutual
    unfolding walk self_check IsShallow

    walk-Passes :
        (v : Value) (p : JsonPointer) (n d : ℕ)
        → IsShallow v d
        → Passes (walk patterns hash_for_value v p n d) p d
    walk-Passes (object fs) p n d l = visit-Passes (object fs) p n d _ l.0 λ h.
        let (gs, m, e, c) = fields-pass fs p n d l.1 in
        (object gs, m, rw e refl, check_inside (object gs) p d _ l.0 h c)
    walk-Passes (array vs) p n d l = visit-Passes (array vs) p n d _ l.0 λ h.
        let (ws, m, e, c) = items-pass vs p 0 n d l.1 in
        (array ws, m, rw e refl, check_inside (array ws) p d _ l.0 h c)
    walk-Passes null p n d l =
        visit-Passes null p n d _ l λ h. (null, n, refl, check_inside null p d _ l h refl)
    walk-Passes (bool b) p n d l =
        visit-Passes (bool b) p n d _ l λ h. (bool b, n, refl, check_inside (bool b) p d _ l h refl)
    walk-Passes (number x) p n d l =
        visit-Passes (number x) p n d _ l
          λ h. (number x, n, refl, check_inside (number x) p d _ l h refl)
    walk-Passes (string s) p n d l =
        visit-Passes (string s) p n d _ l
          λ h. (string s, n, refl, check_inside (string s) p d _ l h refl)

    fields-pass :
        (fs : Fields) (p : JsonPointer) (n d : ℕ)
        → AreShallow fs (suc d)
        → (gs : Fields) × (m : ℕ) × (walk_fields patterns hash_for_value fs p n d ≡ ok (gs, m))
          × (self_check_fields patterns hash_for_value gs p d ≡ ok tt)
    fields-pass end p n d l = (end, n, refl, refl)
    fields-pass (field k v fs) p n d l =
        let (w, i, e, c) = walk-Passes v (push p k) n (suc d) l.0 in
        let (gs, m, f, g) = fields-pass fs p i d l.1 in (field k w gs, m, rw e (rw f refl), rw c g)

    items-pass :
        (vs : Items) (p : JsonPointer) (i n d : ℕ)
        → ItemsShallow vs (suc d)
        → (ws : Items) × (m : ℕ) × (walk_items patterns hash_for_value vs p i n d ≡ ok (ws, m))
          × (self_check_items patterns hash_for_value ws p i d ≡ ok tt)
    items-pass nil p i n d l = (nil, n, refl, refl)
    items-pass (cons v vs) p i n d l =
        let (w, j, e, c) = walk-Passes v (push p (to_string i)) n (suc d) l.0 in
        let (ws, m, f, g) = items-pass vs p (suc i) j d l.1 in
        (cons w ws, m, rw e (rw f refl), rw c g)

  -- A value without a node below level 64 is redacted: the walk ends and the self-check accepts what
  -- it leaves.
  pub redact-IsShallow :
      (v : Value)
      → IsShallow v 0
      → (r : RedactionResult) × (redact patterns hash_for_value v ≡ ok r)
  unfolding redact
  redact-IsShallow v l =
      let (w, m, e, c) = walk-Passes v root 0 0 l in (record { value = w; sites = m }, rw (e, c))
