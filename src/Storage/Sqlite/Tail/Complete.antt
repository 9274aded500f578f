-- ===== src/Storage/Sqlite/Tail/Complete.antt =====
-- What `tail_audit_log` does not leave out.
use trilithon.Base.{
  ℕ, zero, suc, ◌<◌, Bool, true, List, [], ◌∷◌, if◌then◌else◌, ◌==◌, ltb, length, ◌≡◌, refl, ap,
  ◌⊎◌, inl, inr, Bool-cases, arith,
}
use trilithon.Storage.Types.{AuditEventRow, AuditSelector}
use trilithon.Storage.Tables.{select, insert_row, order_by, limit}
use trilithon.Storage.Sqlite.{Database}
use trilithon.Storage.Sqlite.Tail.{is_selected, effective_limit, by_id_desc, tail_audit_log}
use trilithon.Storage.Sqlite.Tail.Bounded.{Passes, is_selected_iff}

module _ {A : Type 0} where
  abbrev pub Holds : A → List A → Type 0
  Holds a [] = ⊥
  Holds a (b ∷ rows) = (a ≡ b) ⊎ Holds a rows

  Holds-select :
      (test : A → Bool) (a : A) (rows : List A)
      → test a ≡ true
      → Holds a rows
      → Holds a (select test rows)
  unfolding select
  Holds-select test a [] t h = h
  Holds-select test a (b ∷ rows) t (inl same) =
      let passed : test b ≡ true = rw same at t in rw passed (inl same)
  Holds-select test a (b ∷ rows) t (inr h) =
      let rest = Holds-select test a rows t h in
      elim (Bool-cases (test b)) [ inl e ↦ rw e (inr rest) | inr e ↦ rw e rest ]

  Holds-insert_self :
      (before : A → A → Bool) (a b : A) (rows : List A) → a ≡ b → Holds a (insert_row before b rows)
  unfolding insert_row
  Holds-insert_self before a b [] same = inl same
  Holds-insert_self before a b (c ∷ rows) same = elim (Bool-cases (before c b)) [
    | inl e ↦ rw e (inr (Holds-insert_self before a b rows same))
    | inr e ↦ rw e (inl same)
  ]

  Holds-insert_row :
      (before : A → A → Bool) (a b : A) (rows : List A)
      → Holds a rows
      → Holds a (insert_row before b rows)
  unfolding insert_row
  Holds-insert_row before a b [] h = absurd h
  Holds-insert_row before a b (c ∷ rows) (inl same) = elim (Bool-cases (before c b)) [
    | inl e ↦ rw e (inl same)
    | inr e ↦ rw e (inr (inl same))
  ]
  Holds-insert_row before a b (c ∷ rows) (inr h) = elim (Bool-cases (before c b)) [
    | inl e ↦ rw e (inr (Holds-insert_row before a b rows h))
    | inr e ↦ rw e (inr (inr h))
  ]

  Holds-order_by :
      (before : A → A → Bool) (a : A) (rows : List A)
      → Holds a rows
      → Holds a (order_by before rows)
  unfolding order_by
  Holds-order_by before a [] h = h
  Holds-order_by before a (b ∷ rows) (inl same) =
      Holds-insert_self before a b (order_by before rows) same
  Holds-order_by before a (b ∷ rows) (inr h) =
      Holds-insert_row before a b (order_by before rows) (Holds-order_by before a rows h)

  -- A list that is shorter than the limit was not cut.
  limit_whole : (n : ℕ) (rows : List A) → length (limit n rows) < n → limit n rows ≡ rows
  unfolding limit
  limit_whole zero rows h = absurd (omega arith)
  limit_whole (suc n) [] h = refl
  limit_whole (suc n) (a ∷ rows) h = ap (λ l. a ∷ l) (limit_whole n rows (omega arith))

-- A row of the log that passes every filter of the selector is in the answer, unless the answer has
-- as many rows as were asked for: a hundred when that is 0, and a thousand when it is more.
pub tail_audit_log_complete :
    (db : Database) (selector : AuditSelector) (n : ℕ) (row : AuditEventRow)
    → Holds row db.audit_log
    → Passes selector row
    → length (tail_audit_log db selector n)
      < (if n == 0 then 100 else if ltb n 1000 then n else 1000)
    → Holds row (tail_audit_log db selector n)
unfolding tail_audit_log
tail_audit_log_complete db selector n row there passes short =
    let chosen = Holds-order_by by_id_desc row (select (is_selected selector) db.audit_log) (
      Holds-select (is_selected selector) row db.audit_log ((is_selected_iff selector row).1 passes)
        there) in
    rw
      (limit_whole (effective_limit n)
        (order_by by_id_desc (select (is_selected selector) db.audit_log)) short)
      chosen
