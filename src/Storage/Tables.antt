-- ===== src/Storage/Tables.antt =====
-- The meaning of the clauses of SQL that the statements use, over the list of a table's rows.
use trilithon.Base.{
  ℕ, zero, suc, Bool, true, false, List, [], ◌∷◌, ◌++◌, Option, none, some, if◌then◌else◌, ◌≡◌,
  refl, sym, subst, inl, inr, All, Bool-cases, arith, length, ◌≤◌,
}

module _ {ℓ} {A : Type ℓ} where
  -- The first row that passes the test; `WHERE` on a key has no other.
  unfoldable pub find : (A → Bool) → List A → Option A
  find test [] = none
  find test (a ∷ rows) = if test a then some a else find test rows

  -- `WHERE`
  unfoldable pub select : (A → Bool) → List A → List A
  select test [] = []
  select test (a ∷ rows) = let rest = select test rows in if test a then a ∷ rest else rest

  -- `ORDER BY`: `before a b` when a row `a` comes before `b`; rows that are equal keep their order.
  unfoldable pub insert_row : (A → A → Bool) → A → List A → List A
  insert_row before a [] = a ∷ []
  insert_row before a (b ∷ rows) =
      let rest = insert_row before a rows in if before b a then b ∷ rest else a ∷ b ∷ rows

  unfoldable pub order_by : (A → A → Bool) → List A → List A
  order_by before [] = []
  order_by before (a ∷ rows) = insert_row before a (order_by before rows)

  -- `LIMIT`, and `Iterator::take`
  unfoldable pub limit : ℕ → List A → List A
  limit zero rows = []
  limit (suc n) [] = []
  limit (suc n) (a ∷ rows) = a ∷ limit n rows

  abbrev pub first : List A → Option A
  first [] = none
  first (a ∷ rows) = some a

  unfoldable pub reversed : List A → List A
  reversed [] = []
  reversed (a ∷ rows) = reversed rows ++ (a ∷ [])

  pub find-test :
      (test : A → Bool) (rows : List A) {a : A} → find test rows ≡ some a → test a ≡ true
  unfolding find
  find-test test [] h = cc
  find-test test (b ∷ rows) {a} h = elim (Bool-cases (test b)) [
    | inl e ↦ let same : some b ≡ some a = rw e at h in let eq : b ≡ a = cc in rw (← eq) e
    | inr e ↦ find-test test rows (rw e at h)
  ]

  pub All-find :
      (P : A → Type 0) (test : A → Bool) (rows : List A) {a : A}
      → All P rows
      → find test rows ≡ some a
      → P a
  unfolding find
  All-find P test [] all h = cc
  All-find P test (b ∷ rows) {a} all h = elim (Bool-cases (test b)) [
    | inl e ↦ let same : some b ≡ some a = rw e at h in let eq : b ≡ a = cc in rw (← eq) all.0
    | inr e ↦ All-find P test rows all.1 (rw e at h)
  ]

  pub All-reversed : (P : A → Type 0) (rows : List A) → All P rows → All P (reversed rows)
  unfolding reversed
  All-reversed P [] all = tt
  All-reversed P (a ∷ rows) all = append (reversed rows) (All-reversed P rows all.1) all.0
    where
      append : (l : List A) {x : A} → All P l → P x → All P (l ++ (x ∷ []))
      append [] all p = (p, tt)
      append (b ∷ l) all p = (all.0, append l all.1 p)

  pub limit-append : (n : ℕ) (l m : List A) → n ≤ length l → limit n (l ++ m) ≡ limit n l
  unfolding limit
  limit-append zero l m h = refl
  limit-append (suc n) [] m h = absurd (omega arith)
  limit-append (suc n) (a ∷ l) m h = rw (limit-append n l m (omega arith)) refl

  pub length-limit : (n : ℕ) (l : List A) → n ≤ length l → length (limit n l) ≡ n
  unfolding limit
  length-limit zero l h = refl
  length-limit (suc n) [] h = absurd (omega arith)
  length-limit (suc n) (a ∷ l) h = let rest = length-limit n l (omega arith) in omega arith

  pub All-limit : (P : A → Type 0) (n : ℕ) (l : List A) → All P l → All P (limit n l)
  unfolding limit
  All-limit P zero l all = tt
  All-limit P (suc n) [] all = tt
  All-limit P (suc n) (a ∷ l) all = (all.0, All-limit P n l all.1)

  length-snoc : (r : List A) (x : A) → length (r ++ (x ∷ [])) ≡ suc (length r)
  length-snoc [] x = omega arith
  length-snoc (b ∷ r) x = omega (arith, length-snoc r x)

  pub length-reversed : (l : List A) → length (reversed l) ≡ length l
  unfolding reversed
  length-reversed [] = refl
  length-reversed (a ∷ l) =
      let rest = length-reversed l in let one = length-snoc (reversed l) a in omega arith

  -- A row that comes before every other stays first.
  pub order_by-first :
      (before : A → A → Bool) (a : A) (rows : List A)
      → All (λ b. before b a ≡ false) rows
      → first (order_by before (a ∷ rows)) ≡ some a
  unfolding order_by insert_row
  order_by-first before a rows all = insert_first (order_by before rows) (All-order_by rows all)
    where
      insert_first :
          (l : List A) → All (λ b. before b a ≡ false) l → first (insert_row before a l) ≡ some a
      insert_first [] all = refl
      insert_first (b ∷ l) all = rw (all.0) refl

      All-insert_row :
          (b : A) (l : List A)
          → before b a ≡ false
          → All (λ c. before c a ≡ false) l
          → All (λ c. before c a ≡ false) (insert_row before b l)
      All-insert_row b [] h all = (h, tt)
      All-insert_row b (c ∷ l) h all = elim (Bool-cases (before c b)) [
        | inl e ↦ rw e (all.0, All-insert_row b l h all.1)
        | inr e ↦ rw e (h, all)
      ]

      All-order_by :
          (l : List A)
          → All (λ b. before b a ≡ false) l
          → All (λ b. before b a ≡ false) (order_by before l)
      All-order_by [] all = tt
      All-order_by (b ∷ l) all = All-insert_row b (order_by before l) all.0 (All-order_by l all.1)

  pub insert_row-first :
      (before : A → A → Bool) (a b : A) (rows : List A)
      → first rows ≡ some a
      → before a b ≡ true
      → first (insert_row before b rows) ≡ some a
  unfolding insert_row
  insert_row-first before a b [] h lt = cc
  insert_row-first before a b (c ∷ rows) h lt =
      let same : c ≡ a = cc in rw (subst (λ x. before x b ≡ true) (sym same) lt) (cc)
