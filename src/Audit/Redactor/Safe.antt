-- ===== src/Audit/Redactor/Safe.antt =====
-- A walk puts marks in place of secrets and keeps all else.
use trilithon.Base.{
  ℕ, suc, String, ◌≡◌, sym, ap, ◌⊎◌, inl, inr, true, false, ltb, List, Result, ok, err, ◌>>=◌,
  >>=-eq-ok, Bool-cases,
}
use trilithon.Base.Text.Decimal.{to_string}
use trilithon.Model.Json.{
  Value, null, bool, number, string, array, object, Items, nil, cons, Fields, end, field,
}
use trilithon.Model.Pointer.{JsonPointer, push}
use trilithon.Audit.Redactor.{
  RedactorError, is_secret_field, redact_leaf, visit, walk, walk_fields, walk_items, saturating_suc,
}

abbrev pub Counted : Type 0 → Type 0
Counted A = Result RedactorError (A × ℕ)

pub ok_pair :
    {A : Type 0} (a b : A) (m n : ℕ)
    → ◌≡◌ {A = Counted A} (ok (a, m)) (ok (b, n))
    → (a ≡ b) × (m ≡ n)
ok_pair {A} a b m n h =
    let same : ◌≡◌ {A = A × ℕ} (a, m) (b, n) = cc in (ap (λ x. x.0) same, ap (λ x. x.1) same)

module _ (patterns : List String) (hash_for_value : String → String) where
  -- At a secret path a mark, elsewhere what is said of the inside.
  abbrev pub Redacts : Value → Value → JsonPointer → Type 0 → Type 0
  Redacts v w p inside =
      (is_secret_field patterns p ≡ true) × (w ≡ redact_leaf patterns hash_for_value v)
      ⊎ (is_secret_field patterns p ≡ false) × inside

  mutual
    -- Secrets give way to their marks, and all else is kept.
    pub IsRedaction : Value → Value → JsonPointer → Type 0
    IsRedaction (object fs) w p =
        Redacts (object fs) w p ((gs : Fields) × (w ≡ object gs) × FieldsRedaction fs gs p)
    IsRedaction (array vs) w p =
        Redacts (array vs) w p ((ws : Items) × (w ≡ array ws) × ItemsRedaction vs ws p 0)
    IsRedaction null w p = Redacts null w p (w ≡ null)
    IsRedaction (bool b) w p = Redacts (bool b) w p (w ≡ bool b)
    IsRedaction (number x) w p = Redacts (number x) w p (w ≡ number x)
    IsRedaction (string s) w p = Redacts (string s) w p (w ≡ string s)

    FieldsRedaction : Fields → Fields → JsonPointer → Type 0
    FieldsRedaction end gs p = gs ≡ end
    FieldsRedaction (field k v fs) gs p =
        (w : Value) × (rest : Fields) × (gs ≡ field k w rest)
        × IsRedaction v w (push p k)
        × FieldsRedaction fs rest p

    ItemsRedaction : Items → Items → JsonPointer → ℕ → Type 0
    ItemsRedaction nil ws p i = ws ≡ nil
    ItemsRedaction (cons v vs) ws p i =
        (w : Value) × (rest : Items) × (ws ≡ cons w rest)
        × IsRedaction v w (push p (to_string i))
        × ItemsRedaction vs rest p (suc i)

  pub visit-ok :
      (v : Value) (p : JsonPointer) (n d : ℕ) (inside : Result RedactorError (Value × ℕ))
      (w : Value) (m : ℕ)
      → visit patterns hash_for_value v p n d inside ≡ ok (w, m)
      → (ltb 64 d ≡ false)
        × ((is_secret_field patterns p ≡ true) × (w ≡ redact_leaf patterns hash_for_value v)
            ⊎ (is_secret_field patterns p ≡ false) × (inside ≡ ok (w, m)))
  visit-ok v p n d inside w m h = elim (Bool-cases (ltb 64 d)) [
    | inl e ↦ cc (rw e at h)
    | inr e ↦ elim (Bool-cases (is_secret_field patterns p)) [
      | inl s ↦
          let (same, _) =
            ok_pair (redact_leaf patterns hash_for_value v) w (saturating_suc n) m
              (rw (e, s) at h) in
          (e, inl (s, sym same))
      | inr s ↦ (e, inr (s, rw (e, s) at h))
    ]
  ]

  pub pair_of :
      {A B : Type 0} (r : Result RedactorError (A × ℕ)) (f : A → B) (w : B) (m : ℕ)
      → ◌≡◌ {A = Counted B} (r >>= λ x. ok (f x.0, x.1)) (ok (w, m))
      → (a : A) × (r ≡ ok (a, m)) × (w ≡ f a)
  pair_of (ok (a, n)) f w m h =
      let (same, count) = ok_pair (f a) w n m h in (a, ap (λ x. ok (a, x)) count, sym same)
  pair_of (err e) f w m h = cc

  scalar :
      (v w : Value) (p : JsonPointer) (n m d : ℕ)
      → visit patterns hash_for_value v p n d (ok (v, n)) ≡ ok (w, m)
      → Redacts v w p (w ≡ v)
  scalar v w p n m d h = elim (visit-ok v p n d (ok (v, n)) w m h).1 [
    | inl s ↦ inl s
    | inr (s, e) ↦ inr (s, sym (ok_pair v w n m e).0)
  ]

  mutual
    unfolding walk IsRedaction

    pub walk-IsRedaction :
        (v w : Value) (p : JsonPointer) (n m d : ℕ)
        → walk patterns hash_for_value v p n d ≡ ok (w, m)
        → IsRedaction v w p
    walk-IsRedaction (object fs) w p n m d h = elim (visit-ok (object fs) p n d _ w m h).1 [
      | inl s ↦ inl s
      | inr (s, e) ↦
          let (gs, f, same) = pair_of (walk_fields patterns hash_for_value fs p n d) object w m e in
          inr (s, (gs, same, walk_fields-FieldsRedaction fs gs p n m d f))
    ]
    walk-IsRedaction (array vs) w p n m d h = elim (visit-ok (array vs) p n d _ w m h).1 [
      | inl s ↦ inl s
      | inr (s, e) ↦
          let (ws, f, same) = pair_of (walk_items patterns hash_for_value vs p 0 n d) array w m e in
          inr (s, (ws, same, walk_items-ItemsRedaction vs ws p 0 n m d f))
    ]
    walk-IsRedaction null w p n m d h = scalar null w p n m d h
    walk-IsRedaction (bool b) w p n m d h = scalar (bool b) w p n m d h
    walk-IsRedaction (number x) w p n m d h = scalar (number x) w p n m d h
    walk-IsRedaction (string s) w p n m d h = scalar (string s) w p n m d h

    walk_fields-FieldsRedaction :
        (fs gs : Fields) (p : JsonPointer) (n m d : ℕ)
        → walk_fields patterns hash_for_value fs p n d ≡ ok (gs, m)
        → FieldsRedaction fs gs p
    walk_fields-FieldsRedaction end gs p n m d h = sym (ok_pair end gs n m h).0
    walk_fields-FieldsRedaction (field k v fs) gs p n m d h =
        let ((w, i), e, h₁) = >>=-eq-ok (walk patterns hash_for_value v (push p k) n (suc d)) _ h in
        let (rest, f, same) =
          pair_of (walk_fields patterns hash_for_value fs p i d) (field k w) gs m h₁ in
        (
          w,
          rest,
          same,
          walk-IsRedaction v w (push p k) n i (suc d) e,
          walk_fields-FieldsRedaction fs rest p i m d f,
        )

    walk_items-ItemsRedaction :
        (vs ws : Items) (p : JsonPointer) (i n m d : ℕ)
        → walk_items patterns hash_for_value vs p i n d ≡ ok (ws, m)
        → ItemsRedaction vs ws p i
    walk_items-ItemsRedaction nil ws p i n m d h = sym (ok_pair nil ws n m h).0
    walk_items-ItemsRedaction (cons v vs) ws p i n m d h =
        let ((w, j), e, h₁) =
          >>=-eq-ok (walk patterns hash_for_value v (push p (to_string i)) n (suc d)) _ h in
        let (rest, f, same) =
          pair_of (walk_items patterns hash_for_value vs p (suc i) j d) (cons w) ws m h₁ in
        (
          w,
          rest,
          same,
          walk-IsRedaction v w (push p (to_string i)) n j (suc d) e,
          walk_items-ItemsRedaction vs rest p (suc i) j m d f,
        )
