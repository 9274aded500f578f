-- ===== src/Storage/Sqlite/Tail/Bounded.antt =====
-- What `tail_audit_log` answers.
use Prim.Native.Nat.{Ordering}
use Prim.Native.String.{compare}
use trilithon.Base.{
  ℕ, zero, suc, ◌≤◌, String, Bool, true, false, ◌&&◌, List, [], ◌∷◌, Option, none, some,
  if◌then◌else◌, ◌==◌, length, eq_iff, All, All-map, ◌≡◌, refl, sym, ◌∙◌, ◌↔◌, inl, inr, Bool-cases,
  arith,
}
use trilithon.Base.Int.{ltb_ℤ}
use trilithon.Model.Route.{UnixSeconds}
use trilithon.Storage.Types.{AuditEventRow, AuditSelector}
use trilithon.Storage.Tables.{select, insert_row, order_by, limit, All-limit}
use trilithon.Storage.Sqlite.{Database}
use trilithon.Storage.Sqlite.Tail.Glob.{means, like-kind_like}
use trilithon.Storage.Sqlite.Tail.{
  glob_prefix, since_ok, until_ok, equals_ok, kind_ok, cursor_ok, is_selected, effective_limit,
  by_id_desc, tail_audit_log,
}

module _ {A : Type 0} where
  All-select : (test : A → Bool) (rows : List A) → All (λ a. test a ≡ true) (select test rows)
  unfolding select
  All-select test [] = tt
  All-select test (a ∷ rows) = elim (Bool-cases (test a)) [
    | inl e ↦ rw e (e, All-select test rows)
    | inr e ↦ rw e (All-select test rows)
  ]

  All-insert_row :
      (P : A → Type 0) (before : A → A → Bool) (a : A) (rows : List A)
      → P a
      → All P rows
      → All P (insert_row before a rows)
  unfolding insert_row
  All-insert_row P before a [] p all = (p, tt)
  All-insert_row P before a (b ∷ rows) p all = elim (Bool-cases (before b a)) [
    | inl e ↦ rw e (all.0, All-insert_row P before a rows p all.1)
    | inr e ↦ rw e (p, all)
  ]

  All-order_by :
      (P : A → Type 0) (before : A → A → Bool) (rows : List A)
      → All P rows
      → All P (order_by before rows)
  unfolding order_by
  All-order_by P before [] all = tt
  All-order_by P before (a ∷ rows) all =
      All-insert_row P before a (order_by before rows) all.0 (All-order_by P before rows all.1)

  length-limit-le : (n : ℕ) (rows : List A) → length (limit n rows) ≤ n
  unfolding limit
  length-limit-le zero rows = ground arith
  length-limit-le (suc n) [] = ground arith
  length-limit-le (suc n) (a ∷ rows) = let rest = length-limit-le n rows in omega arith

-- What each filter of the selector asks of a row; a filter that is not set asks nothing.
abbrev pub IsNotBefore : Option UnixSeconds → UnixSeconds → Type 0
IsNotBefore none t = Unit
IsNotBefore (some since) t = ltb_ℤ t since ≡ false

abbrev pub IsBefore : Option UnixSeconds → UnixSeconds → Type 0
IsBefore none t = Unit
IsBefore (some until) t = ltb_ℤ t until ≡ true

abbrev pub IsEqual : Option String → String → Type 0
IsEqual none s = Unit
IsEqual (some t) s = s ≡ t

-- The kind begins with what stands before the star, or is the glob, but for the cases of letters.
abbrev pub IsMatch : Option String → String → Type 0
IsMatch none kind = Unit
IsMatch (some glob) kind = means (glob_prefix glob) glob kind ≡ true

abbrev pub IsBelow : Option String → String → Type 0
IsBelow none id = Unit
IsBelow (some cursor) id = compare id cursor ≡ Ordering.lt

pub record Passes (selector : AuditSelector) (row : AuditEventRow) : Type 0 where
  pub not_before : IsNotBefore selector.since row.occurred_at
  pub is_before : IsBefore selector.until row.occurred_at
  pub correlated : IsEqual selector.correlation_id row.correlation_id
  pub by_actor : IsEqual selector.actor_id row.actor_id
  pub of_kind : IsMatch selector.kind_glob row.kind
  pub below : IsBelow selector.cursor_before row.id

since_iff :
    (o : Option UnixSeconds) (row : AuditEventRow)
    → (since_ok o row ≡ true) ↔ IsNotBefore o row.occurred_at
since_iff none row = (λ h. tt, λ h. refl)
since_iff (some t) row = (λ h. ground arith, λ h. ground arith)

until_iff :
    (o : Option UnixSeconds) (row : AuditEventRow)
    → (until_ok o row ≡ true) ↔ IsBefore o row.occurred_at
until_iff none row = (λ h. tt, λ h. refl)
until_iff (some t) row = (λ h. h, λ h. h)

equals_iff : (o : Option String) (s : String) → (equals_ok o s ≡ true) ↔ IsEqual o s
equals_iff none s = (λ h. tt, λ h. refl)
equals_iff (some t) s = eq_iff s t

kind_iff : (o : Option String) (s : String) → (kind_ok o s ≡ true) ↔ IsMatch o s
kind_iff none s = (λ h. tt, λ h. refl)
kind_iff (some g) s = (λ h. sym (like-kind_like g s) ∙ h, λ h. like-kind_like g s ∙ h)

below_iff : (o : Option String) (id : String) → (cursor_ok o id ≡ true) ↔ IsBelow o id
below_iff none id = (λ h. tt, λ h. refl)
below_iff (some cursor) id = (λ h. ground arith, λ h. ground arith)

both : (a b : Bool) → (a && b) ≡ true → (a ≡ true) × (b ≡ true)
both a b h = (ground arith, ground arith)

-- The test of the query, and the filters one by one.
pub is_selected_iff :
    (selector : AuditSelector) (row : AuditEventRow)
    → (is_selected selector row ≡ true) ↔ Passes selector row
unfolding is_selected
is_selected_iff selector row =
    let a = since_iff selector.since row in
    let b = until_iff selector.until row in
    let c = equals_iff selector.correlation_id row.correlation_id in
    let d = equals_iff selector.actor_id row.actor_id in
    let e = kind_iff selector.kind_glob row.kind in
    let f = below_iff selector.cursor_before row.id in
    (
      λ h.
          let (r5, h6) = both _ _ h in
          let (r4, h5) = both _ _ r5 in
          let (r3, h4) = both _ _ r4 in
          let (r2, h3) = both _ _ r3 in
          let (h1, h2) = both _ _ r2 in
          record {
            not_before = a.0 h1;
            is_before = b.0 h2;
            correlated = c.0 h3;
            by_actor = d.0 h4;
            of_kind = e.0 h5;
            below = f.0 h6;
          },
      λ p.
          rw
            (
              a.1 p.not_before,
              b.1 p.is_before,
              c.1 p.correlated,
              d.1 p.by_actor,
              e.1 p.of_kind,
              f.1 p.below,
            )
            refl,
    )

-- The answer has at most a thousand rows and at most as many as were asked for, a hundred when that
-- is 0. Each of them passes the filters that are set: it occurred not before `since` and before
-- `until`, has the correlation id and the actor that were asked for, its kind matches the glob, the
-- cases of ASCII letters apart, and its id is below the cursor.
pub tail_audit_log-bounded :
    (db : Database) (selector : AuditSelector) (n : ℕ)
    → All (Passes selector) (tail_audit_log db selector n)
      × (length (tail_audit_log db selector n) ≤ 1000)
      × (length (tail_audit_log db selector n) ≤ (if n == 0 then 100 else n))
unfolding tail_audit_log
tail_audit_log-bounded db selector n =
    let rows = order_by by_id_desc (select (is_selected selector) db.audit_log) in
    let chosen =
      All-order_by (Passes selector) by_id_desc (select (is_selected selector) db.audit_log) (
        All-map (λ row. is_selected selector row ≡ true) (Passes selector)
          (λ row h. (is_selected_iff selector row).0 h) (select (is_selected selector) db.audit_log)
          (All-select (is_selected selector) db.audit_log)) in
    let bound = length-limit-le (effective_limit n) rows in
    (All-limit (Passes selector) (effective_limit n) rows chosen, ground arith, ground arith)
