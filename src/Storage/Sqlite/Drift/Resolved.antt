-- ===== src/Storage/Sqlite/Drift/Resolved.antt =====
-- What `record_drift_event` and `resolve_drift_event` keep of the table.
use trilithon.Base.{
  String, true, List, [], ◌∷◌, none, str_eq, eq_iff, is_some, leb, length, ok, refuse_if, ◌≡◌, refl,
  inl, inr, Bool-cases, >>-eq-ok, refuse_if-eq-ok, arith, ap, subst,
}
use trilithon.Base.Int.{ℤ}
use trilithon.Storage.Types.{DriftEventRow, DriftResolution}
use trilithon.Storage.Tables.{find, select}
use trilithon.Storage.Sqlite.{Database}
use trilithon.Storage.Sqlite.Drift.{
  collides, record_drift_event, is_open, update_open, resolve_drift_event,
}

-- Resolving leaves no open event of the correlation, and a second resolution changes nothing.
update-none :
    (c : String) (r : DriftResolution) (at : ℤ) (rows : List DriftEventRow)
    → select (is_open c) (update_open c r at rows) ≡ []
unfolding select update_open
update-none c r at [] = refl
update-none c r at (row ∷ rows) = ground (arith, update-none c r at rows)

update-idle :
    (c : String) (r : DriftResolution) (at : ℤ) (rows : List DriftEventRow)
    → select (is_open c) rows ≡ []
    → update_open c r at rows ≡ rows
unfolding select update_open
update-idle c r at [] h = refl
update-idle c r at (row ∷ rows) h = elim (Bool-cases (is_open c row)) [
  | inl e ↦ cc (rw e at h)
  | inr e ↦ rw e (ap (λ (l : List DriftEventRow). row ∷ l) (update-idle c r at rows (rw e at h)))
]

-- No two events have one id or one correlation.
abbrev pub IsDistinct : List DriftEventRow → Type 0
IsDistinct [] = Unit
IsDistinct (row ∷ rows) = (find (collides row) rows ≡ none) × IsDistinct rows

distinct-select :
    (row : DriftEventRow) (c : String) (rows : List DriftEventRow)
    → str_eq row.correlation_id c ≡ true
    → find (collides row) rows ≡ none
    → select (is_open c) rows ≡ []
unfolding select find
distinct-select row c [] e h = refl
distinct-select row c (r ∷ rows) e h = elim (Bool-cases (collides row r)) [
  | inl hit ↦ cc (rw hit at h)
  | inr miss ↦
      let rest = distinct-select row c rows e (rw miss at h) in
      ground (
        arith,
        eq_iff r.correlation_id c,
        eq_iff r.correlation_id row.correlation_id,
        eq_iff row.correlation_id c,
      )
]

open-le-one :
    (c : String) (rows : List DriftEventRow)
    → IsDistinct rows
    → leb (length (select (is_open c) rows)) 1 ≡ true
unfolding select
open-le-one c [] h = refl
open-le-one c (row ∷ rows) h = elim (Bool-cases (is_open c row)) [
  | inl e ↦ let none_left = distinct-select row c rows (ground arith) h.0 in rw (e, none_left) refl
  | inr e ↦ rw e (open-le-one c rows h.1)
]

-- The first resolution of a correlation counts: it succeeds and leaves no open event of the
-- correlation, and a later one, with whatever resolution and time, succeeds and changes nothing.
pub resolve_drift_event-once :
    (db : Database) (c : String) (r q : DriftResolution) (at again : ℤ)
    → IsDistinct db.drift_events
    → ((resolve_drift_event db c r at).1 ≡ ok tt)
      × (select (is_open c) (resolve_drift_event db c r at).0.drift_events ≡ [])
      × (resolve_drift_event (resolve_drift_event db c r at).0 c q again
          ≡ ((resolve_drift_event db c r at).0, ok tt))
unfolding resolve_drift_event
resolve_drift_event-once db c r q at again distinct =
    let closed = update-none c r at db.drift_events in
    let idle = update-idle c q again (update_open c r at db.drift_events) closed in
    let one = open-le-one c db.drift_events distinct in
    (rw one refl, closed, rw (idle, closed) refl)

-- Recording keeps the correlations distinct.
pub record_drift_event-IsDistinct :
    (db after : Database) (event : DriftEventRow) (id : String)
    → IsDistinct db.drift_events
    → record_drift_event db event ≡ ok (id, after)
    → IsDistinct after.drift_events
unfolding record_drift_event
record_drift_event-IsDistinct db after event id distinct h =
    let (free, done) =
      >>-eq-ok (refuse_if (is_some (find (collides event) db.drift_events)) _) _ h in
    let unused = refuse_if-eq-ok (is_some (find (collides event) db.drift_events)) _ free in
    let row : DriftEventRow = record event { resolution = none; resolved_at = none } in
    let same : record db { drift_events = row ∷ db.drift_events } ≡ after = cc in
    subst IsDistinct (ap (λ (d : Database). d.drift_events) same) (ground arith, distinct)
