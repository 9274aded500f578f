-- ===== src/Audit/Redactor/Checked.antt =====
-- What a redaction leaves at the secret paths, and when it fails.
use trilithon.Base.{
  ℕ, suc, String, ◌≡◌, ap, ◌⊎◌, inl, inr, true, false, is_some, ltb, List, Result, ok, err,
  >>=-eq-ok, >>-eq-ok, Bool-cases, not-false, refuse_if-eq-ok,
}
use trilithon.Base.Text.{strip_prefix}
use trilithon.Base.Text.Decimal.{to_string}
use trilithon.Model.Json.{
  Value, null, bool, number, string, array, object, Items, nil, cons, Fields, end, field,
}
use trilithon.Model.Pointer.{JsonPointer, root, push}
use trilithon.Audit.Redactor.{
  RedactorError, RedactionResult, plaintext_detected, is_secret_field, walk, is_redacted, inspect,
  self_check, self_check_fields, self_check_items, redact,
}
use trilithon.Audit.Redactor.Safe.{IsRedaction, walk-IsRedaction}

module _ (patterns : List String) where
  mutual
    -- At every secret path stands a text that begins with the mark.
    pub NoPlaintext : Value → JsonPointer → Type 0
    NoPlaintext (object fs) p = (is_secret_field patterns p ≡ false) × NoPlaintextFields fs p
    NoPlaintext (array vs) p = (is_secret_field patterns p ≡ false) × NoPlaintextItems vs p 0
    NoPlaintext (string s) p =
        (is_secret_field patterns p ≡ false) ⊎ (is_some (strip_prefix "***" s) ≡ true)
    NoPlaintext null p = is_secret_field patterns p ≡ false
    NoPlaintext (bool b) p = is_secret_field patterns p ≡ false
    NoPlaintext (number x) p = is_secret_field patterns p ≡ false

    NoPlaintextFields : Fields → JsonPointer → Type 0
    NoPlaintextFields end p = Unit
    NoPlaintextFields (field k v fs) p = NoPlaintext v (push p k) × NoPlaintextFields fs p

    NoPlaintextItems : Items → JsonPointer → ℕ → Type 0
    NoPlaintextItems nil p i = Unit
    NoPlaintextItems (cons v vs) p i =
        NoPlaintext v (push p (to_string i)) × NoPlaintextItems vs p (suc i)

module _ (patterns : List String) (hash_for_value : String → String) where
  inspect-ok :
      (w : Value) (p : JsonPointer) (d : ℕ) (inside : Result RedactorError (Unit {0}))
      → inspect patterns hash_for_value w p d inside ≡ ok tt
      → (is_secret_field patterns p ≡ true) × (is_redacted patterns hash_for_value w ≡ true)
        ⊎ (is_secret_field patterns p ≡ false) × (inside ≡ ok tt)
  inspect-ok w p d inside h = elim (Bool-cases (ltb 64 d)) [
    | inl e ↦ cc (rw e at h)
    | inr e ↦ elim (Bool-cases (is_secret_field patterns p)) [
      | inl s ↦ inl (
        s,
        not-false (is_redacted patterns hash_for_value w)
            (refuse_if-eq-ok _ (plaintext_detected p) (rw (e, s) at h)),
      )
      | inr s ↦ inr (s, rw (e, s) at h)
    ]
  ]

  mutual
    unfolding self_check NoPlaintext

    self_check-NoPlaintext :
        (w : Value) (p : JsonPointer) (d : ℕ)
        → self_check patterns hash_for_value w p d ≡ ok tt
        → NoPlaintext patterns w p
    self_check-NoPlaintext (object fs) p d h = elim (inspect-ok (object fs) p d _ h) [
      | inl (s, r) ↦ cc
      | inr (s, e) ↦ (s, self_check-NoPlaintextFields fs p d e)
    ]
    self_check-NoPlaintext (array vs) p d h = elim (inspect-ok (array vs) p d _ h) [
      | inl (s, r) ↦ cc
      | inr (s, e) ↦ (s, self_check-NoPlaintextItems vs p 0 d e)
    ]
    self_check-NoPlaintext (string x) p d h = elim (inspect-ok (string x) p d _ h) [
      | inl (s, r) ↦ inr r
      | inr (s, e) ↦ inl s
    ]
    self_check-NoPlaintext null p d h = elim (inspect-ok null p d _ h) [
      | inl (s, r) ↦ cc
      | inr (s, e) ↦ s
    ]
    self_check-NoPlaintext (bool b) p d h = elim (inspect-ok (bool b) p d _ h) [
      | inl (s, r) ↦ cc
      | inr (s, e) ↦ s
    ]
    self_check-NoPlaintext (number x) p d h = elim (inspect-ok (number x) p d _ h) [
      | inl (s, r) ↦ cc
      | inr (s, e) ↦ s
    ]

    self_check-NoPlaintextFields :
        (fs : Fields) (p : JsonPointer) (d : ℕ)
        → self_check_fields patterns hash_for_value fs p d ≡ ok tt
        → NoPlaintextFields patterns fs p
    self_check-NoPlaintextFields end p d h = tt
    self_check-NoPlaintextFields (field k v fs) p d h =
        let (a, b) = >>-eq-ok (self_check patterns hash_for_value v (push p k) (suc d)) _ h in
        (self_check-NoPlaintext v (push p k) (suc d) a, self_check-NoPlaintextFields fs p d b)

    self_check-NoPlaintextItems :
        (vs : Items) (p : JsonPointer) (i d : ℕ)
        → self_check_items patterns hash_for_value vs p i d ≡ ok tt
        → NoPlaintextItems patterns vs p i
    self_check-NoPlaintextItems nil p i d h = tt
    self_check-NoPlaintextItems (cons v vs) p i d h =
        let (a, b) =
          >>-eq-ok (self_check patterns hash_for_value v (push p (to_string i)) (suc d)) _ h in
        (
          self_check-NoPlaintext v (push p (to_string i)) (suc d) a,
          self_check-NoPlaintextItems vs p (suc i) d b,
        )

  -- A redaction that succeeds has no text without the mark at a secret path; it has a mark in place
  -- of every secret of the value, and all else of it.
  pub redact-NoPlaintext :
      (v : Value) (r : RedactionResult)
      → redact patterns hash_for_value v ≡ ok r
      → NoPlaintext patterns r.value root × IsRedaction patterns hash_for_value v r.value root
  unfolding redact
  redact-NoPlaintext v r h =
      let ((w, n), walked, h₁) = >>=-eq-ok (walk patterns hash_for_value v root 0 0) _ h in
      let (checked, e) = >>-eq-ok (self_check patterns hash_for_value w root 0) _ h₁ in
      let same : w ≡ r.value = ap value_of e in
      rw (← same) (
        self_check-NoPlaintext w root 0 checked,
        walk-IsRedaction patterns hash_for_value v w root 0 n 0 walked,
      )
    where
      value_of : Result RedactorError RedactionResult → Value
      value_of (ok x) = x.value
      value_of (err e) = null
