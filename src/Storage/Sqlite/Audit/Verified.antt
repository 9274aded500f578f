-- ===== src/Storage/Sqlite/Audit/Verified.antt =====
-- When the chain of hashes that `record_audit_event` writes passes `verify_audit_chain`.
use trilithon.Base.{
  String, true, false, not, List, [], ◌∷◌, ◌++◌, if◌then◌else◌, str_eq, eq_iff, ok, refuse_if, ◌≡◌,
  refl, inl, inr, All, Bool-cases, >>-eq-ok, sym, ap, ◌∙◌, subst,
}
use trilithon.Storage.Types.{AuditEventRow}
use trilithon.Storage.Tables.{order_by, order_by-first, insert_row-first, reversed}
use trilithon.Storage.Sqlite.{Database}
use trilithon.Storage.Sqlite.Audit.{
  Hashing, canonical_json_for_audit_hash, audit_prev_hash_seed, occurs_later, violates,
  validate_kind, chain_hash, hash_or_seed, next_prev_hash, last_hash, intact, broken, verify_from,
  verify_audit_chain, record_audit_event,
}

-- No row of the log comes later than the event.
abbrev pub IsLatest : AuditEventRow → List AuditEventRow → Type 0
IsLatest event log = All (λ row. occurs_later row event ≡ false) log

-- The log, the last row first, is in the order of time.
abbrev pub InTimeOrder : List AuditEventRow → Type 0
InTimeOrder [] = Unit
InTimeOrder (row ∷ log) = IsLatest row log × InTimeOrder log

module _ (hashing : Hashing) where
  verify-snoc :
      (expected : String) (l : List AuditEventRow) (row : AuditEventRow)
      → verify_from hashing expected l ≡ intact
      → verify_from hashing expected (l ++ (row ∷ [])) ≡ (
          if not (str_eq row.prev_hash (last_hash hashing expected l))
          then broken row.id (last_hash hashing expected l) row.prev_hash
          else intact)
  unfolding verify_from last_hash
  verify-snoc expected [] row h = refl
  verify-snoc expected (head ∷ l) row h = elim (Bool-cases (str_eq head.prev_hash expected)) [
    | inl e ↦ rw e (verify-snoc (chain_hash hashing head) l row (rw e at h))
    | inr e ↦ cc (rw e at h)
  ]

  last_hash-snoc :
      (expected : String) (l : List AuditEventRow) (row : AuditEventRow)
      → last_hash hashing expected (l ++ (row ∷ [])) ≡ chain_hash hashing row
  unfolding last_hash
  last_hash-snoc expected [] row = refl
  last_hash-snoc expected (head ∷ l) row = last_hash-snoc (chain_hash hashing head) l row

  -- Over a log in the order of time, the next hash is that of the row that was recorded last.
  next-last :
      (log : List AuditEventRow)
      → InTimeOrder log
      → next_prev_hash hashing log ≡ last_hash hashing audit_prev_hash_seed (reversed log)
  unfolding next_prev_hash reversed order_by last_hash
  next-last [] order = refl
  next-last (row ∷ log) order =
      ap (hash_or_seed hashing) (order_by-first occurs_later row log order.0)
      ∙ sym (last_hash-snoc audit_prev_hash_seed (reversed log) row)

  pub record-whole :
      (db after : Database) (event : AuditEventRow) (id : String)
      → record_audit_event hashing db event ≡ ok (id, after)
      → (id ≡ event.id)
        × (after ≡ record db {
          audit_log =
              record event { prev_hash = next_prev_hash hashing db.audit_log } ∷ db.audit_log;
        })
  unfolding record_audit_event
  record-whole db after event id h =
      let (_, rest) = >>-eq-ok (validate_kind event) _ h in
      let (_, done) = >>-eq-ok (refuse_if (violates db event) _) _ rest in
      let row : AuditEventRow = record event { prev_hash = next_prev_hash hashing db.audit_log } in
      let same : record db { audit_log = row ∷ db.audit_log } ≡ after = cc in (cc, sym same)

  pub record-eq-ok :
      (db after : Database) (event : AuditEventRow) (id : String)
      → record_audit_event hashing db event ≡ ok (id, after)
      → (id ≡ event.id)
        × (after.audit_log
            ≡ record event { prev_hash = next_prev_hash hashing db.audit_log } ∷ db.audit_log)
  record-eq-ok db after event id h =
      let (same, whole) = record-whole db after event id h in
      (same, ap (λ (d : Database). d.audit_log) whole)

  grow-intact :
      (log : List AuditEventRow) (row : AuditEventRow)
      → InTimeOrder log
      → row.prev_hash ≡ next_prev_hash hashing log
      → verify_from hashing audit_prev_hash_seed (reversed log) ≡ intact
      → verify_from hashing audit_prev_hash_seed (reversed log ++ (row ∷ [])) ≡ intact
  grow-intact log row order linked verified =
      let matches : str_eq row.prev_hash (last_hash hashing audit_prev_hash_seed (reversed log))
          ≡ true =
        (eq_iff _ _).1 (linked ∙ next-last log order) in
      verify-snoc audit_prev_hash_seed (reversed log) row verified ∙ rw matches refl

  pub grown-intact :
      (log : List AuditEventRow) (row : AuditEventRow)
      → InTimeOrder log
      → IsLatest row log
      → row.prev_hash ≡ next_prev_hash hashing log
      → verify_audit_chain hashing (reversed log) ≡ intact
      → InTimeOrder (row ∷ log) × (verify_audit_chain hashing (reversed (row ∷ log)) ≡ intact)
  unfolding verify_audit_chain reversed
  grown-intact log row order latest linked verified =
      ((latest, order), grow-intact log row order linked verified)

  -- An event that is not earlier than any row of the log keeps the log in the order of time, and a
  -- chain that the verification finds intact stays intact.
  pub record_audit_event-intact :
      (db after : Database) (event : AuditEventRow) (id : String)
      → InTimeOrder db.audit_log
      → IsLatest event db.audit_log
      → verify_audit_chain hashing (reversed db.audit_log) ≡ intact
      → record_audit_event hashing db event ≡ ok (id, after)
      → InTimeOrder after.audit_log
        × (verify_audit_chain hashing (reversed after.audit_log) ≡ intact)
  record_audit_event-intact db after event id order latest verified h =
      let row : AuditEventRow = record event { prev_hash = next_prev_hash hashing db.audit_log } in
      subst
        (λ (l : List AuditEventRow).
          InTimeOrder l × (verify_audit_chain hashing (reversed l) ≡ intact))
        (sym (record-eq-ok db after event id h).1)
        (grown-intact db.audit_log row order latest refl verified)

  chain_hash-prev :
      (row : AuditEventRow) (h : String)
      → chain_hash hashing (record row { prev_hash = h }) ≡ chain_hash hashing row
  unfolding chain_hash canonical_json_for_audit_hash
  chain_hash-prev row h = refl

  -- The hash that the log hands out after an event that is earlier than its last row.
  next-forked :
      (last row : AuditEventRow) (log : List AuditEventRow)
      → InTimeOrder (last ∷ log)
      → occurs_later last row ≡ true
      → next_prev_hash hashing (row ∷ last ∷ log) ≡ chain_hash hashing last
  unfolding next_prev_hash order_by
  next-forked last row log order earlier = ap (hash_or_seed hashing) (
      insert_row-first occurs_later last row (order_by occurs_later (last ∷ log))
        (order_by-first occurs_later last log order.0) earlier)

  -- An event that is earlier than the last row, as when the clock was set back, forks the chain: it and
  -- the next event that is recorded, whichever that is, get the same previous hash, and the
  -- verification of the rows in the order of recording reports that next event, unless two
  -- different rows have one hash.
  pub record_audit_event-forks :
      (db one two : Database) (last event next : AuditEventRow) (log : List AuditEventRow)
      (id j : String)
      → db.audit_log ≡ last ∷ log
      → InTimeOrder (last ∷ log)
      → occurs_later last event ≡ true
      → verify_audit_chain hashing (reversed db.audit_log) ≡ intact
      → record_audit_event hashing db event ≡ ok (id, one)
      → record_audit_event hashing one next ≡ ok (j, two)
      → str_eq (chain_hash hashing last) (chain_hash hashing event) ≡ false
      → verify_audit_chain hashing (reversed two.audit_log)
        ≡ broken next.id (chain_hash hashing event) (chain_hash hashing last)
  unfolding verify_audit_chain reversed
  record_audit_event-forks db one two last event next log id j is order earlier verified h k apart =
      let (_, grown) = record-eq-ok db one event id h in
      let (_, grown_again) = record-eq-ok one two next j k in
      let row : AuditEventRow = record event { prev_hash = next_prev_hash hashing db.audit_log } in
      let row_next : AuditEventRow = record next {
        prev_hash = next_prev_hash hashing one.audit_log;
      } in
      let old = reversed db.audit_log in
      let first_ok =
        grow-intact db.audit_log row (subst InTimeOrder (sym is) order) refl verified in
      let prev : row_next.prev_hash ≡ chain_hash hashing last =
        ap (next_prev_hash hashing) (grown ∙ ap (λ (l : List AuditEventRow). row ∷ l) is)
        ∙ next-forked last row log order earlier in
      let expected : last_hash hashing audit_prev_hash_seed (old ++ (row ∷ []))
          ≡ chain_hash hashing event =
        last_hash-snoc audit_prev_hash_seed old row
        ∙ chain_hash-prev event (next_prev_hash hashing db.audit_log) in
      ap (λ (l : List AuditEventRow). verify_audit_chain hashing (reversed l))
        (grown_again ∙ ap (λ (l : List AuditEventRow). row_next ∷ l) grown)
      ∙ (verify-snoc audit_prev_hash_seed (old ++ (row ∷ [])) row_next first_ok
          ∙ rw (prev, expected, apart) refl)
