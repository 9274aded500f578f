-- ===== src/Storage/Sqlite/Chain.antt =====
-- The chain of parents that `parent_chain` walks.
use trilithon.Base.{
  ℕ, zero, suc, ◌<◌, String, true, false, List, [], ◌∷◌, Option, none, some, if◌then◌else◌, str_eq,
  eq_iff, ltb, length, ok, refuse_if, ◌≡◌, ◌≢◌, refl, ◌∙◌, inl, inr, All, All-map, Bool-cases,
  >>=-eq-ok, >>-eq-ok, some-is_some, is_some, arith, sym, ap, subst,
}
use trilithon.Base.Int.{ℤ, ltb_ℤ, ltb_ℤ_trans, ltb_ℤ_irrefl}
use trilithon.Mutation.Types.{SnapshotId}
use trilithon.Storage.Types.{Snapshot, ParentChain}
use trilithon.Storage.Tables.{
  find, find-test, All-find, limit, length-limit, limit-append, All-limit, reversed, All-reversed,
  length-reversed,
}
use trilithon.Storage.Sqlite.{
  SnapshotRow, Database, has_id, row_to_snapshot, parse_actor_kind, version_or_err, collect, chain,
  to_chain, max_parent_chain_depth, parent_chain,
}
use trilithon.Storage.Sqlite.Ledger.{IsLedger, IsOlder, HasParent}

-- The row is the one that its id finds.
abbrev IsIn : List SnapshotRow → SnapshotRow → Type 0
IsIn rows row = find (has_id row.id) rows ≡ some row

found-id :
    (i : String) (rows : List SnapshotRow) {row : SnapshotRow}
    → find (has_id i) rows ≡ some row
    → row.id ≡ i
found-id i rows {row} h = (eq_iff row.id i).0 (find-test (has_id i) rows h)

find-cons_other :
    (i : String) (head : SnapshotRow) (rows : List SnapshotRow) {row : SnapshotRow}
    → find (has_id head.id) rows ≡ none
    → find (has_id i) rows ≡ some row
    → find (has_id i) (head ∷ rows) ≡ some row
unfolding find
find-cons_other i head rows fresh h = elim (Bool-cases (str_eq head.id i)) [
  | inl e ↦ let same = (eq_iff head.id i).0 e in cc (rw same at fresh)
  | inr e ↦ rw e h
]

HasParent-of :
    (o : Option String) (p : String) (rows : List SnapshotRow)
    → o ≡ some p
    → HasParent o rows
    → is_some (find (has_id p) rows) ≡ true
HasParent-of none p rows e h = cc
HasParent-of (some q) p rows e h = let same : q ≡ p = cc in rw (← same) h

chain-zero :
    (rows : List SnapshotRow) (p : String) {row : SnapshotRow}
    → find (has_id p) rows ≡ some row
    → chain rows zero (some p) ≡ row ∷ []
unfolding chain
chain-zero rows p h = rw (h, chain) refl

chain-suc :
    (rows : List SnapshotRow) (n : ℕ) (p : String) {row : SnapshotRow}
    → find (has_id p) rows ≡ some row
    → chain rows (suc n) (some p) ≡ row ∷ chain rows n row.parent_id
unfolding chain
chain-suc rows n p h = rw (h, chain) refl

module _ (content_address : String → String) where
  -- In a ledger a parent is found, and is older.
  parent-IsOlder :
      (rows : List SnapshotRow) (i p : String) (row : SnapshotRow)
      → IsLedger content_address rows
      → find (has_id i) rows ≡ some row
      → row.parent_id ≡ some p
      → (parent : SnapshotRow) × (find (has_id p) rows ≡ some parent)
        × IsOlder row.config_version parent
  unfolding find
  parent-IsOlder [] i p row ledger h named = cc
  parent-IsOlder (head ∷ rows) i p row ledger h named = elim (Bool-cases (str_eq head.id i)) [
    | inl e ↦
        let found : ◌≡◌ {A = Option SnapshotRow} (some head) (some row) = rw e at h in
        let same : head ≡ row = cc in
        let has = HasParent-of head.parent_id p rows (rw (← same) at named) ledger.0.parent in
        let (parent, there) = some-is_some (find (has_id p) rows) has in
        (
          parent,
          find-cons_other p head rows ledger.0.fresh there,
          rw (← same)
              (All-find (IsOlder head.config_version) (has_id p) rows ledger.0.greatest there),
        )
    | inr e ↦
        let (parent, there, older) = parent-IsOlder rows i p row ledger.1 (rw e at h) named in
        (parent, find-cons_other p head rows ledger.0.fresh there, older)
  ]

  -- The parent, if there is one, is found and is older than the version.
  abbrev Precedes : List SnapshotRow → ℤ → Option String → Type 0
  Precedes rows version parent =
      (p : String)
      → parent ≡ some p
      → (row : SnapshotRow) × (find (has_id p) rows ≡ some row) × IsOlder version row

  IsIn-ledger :
      (rows : List SnapshotRow) (p : String) {row : SnapshotRow}
      → find (has_id p) rows ≡ some row
      → IsIn rows row
  IsIn-ledger rows p {row} h =
      subst (λ i. find (has_id i) rows ≡ some row) (sym (found-id p rows h)) h

  chain-IsOlder :
      (rows : List SnapshotRow) (n : ℕ) (parent : Option String) (version : ℤ)
      → IsLedger content_address rows
      → Precedes rows version parent
      → All (λ r. IsOlder version r × IsIn rows r) (chain rows n parent)
  unfolding chain
  chain-IsOlder rows n none version ledger h = tt
  chain-IsOlder rows zero (some p) version ledger h =
      let (row, there, older) = h p refl in
      rw (chain-zero rows p there) ((older, IsIn-ledger rows p there), tt)
  chain-IsOlder rows (suc n) (some p) version ledger h =
      let (row, there, older) = h p refl in
      let rest =
        chain-IsOlder rows n row.parent_id row.config_version ledger
          (λ q e. parent-IsOlder rows p q row ledger there e) in
      rw (chain-suc rows n p there) (
        (older, IsIn-ledger rows p there),
        All-map (λ r. IsOlder row.config_version r × IsIn rows r)
            (λ r. IsOlder version r × IsIn rows r)
            (λ r (a, b). (ltb_ℤ_trans r.config_version row.config_version version a older, b))
            (chain rows n row.parent_id) rest,
      )

row_to_snapshot-id :
    (row : SnapshotRow) (s : Snapshot) → row_to_snapshot row ≡ ok s → s.snapshot_id ≡ row.id
unfolding row_to_snapshot
row_to_snapshot-id row s h =
    let (kind, _, rest) = >>=-eq-ok (parse_actor_kind row.actor_kind) _ h in
    let (version, _, done) = >>=-eq-ok (version_or_err row.canonical_json_version) _ rest in cc

All-collect :
    (leaf : String) (rows : List SnapshotRow) (l : List Snapshot)
    → All (λ r. r.id ≢ leaf) rows
    → collect rows ≡ ok l
    → All (λ s. s.snapshot_id ≢ leaf) l
unfolding collect
All-collect leaf [] l all h = let same : [] ≡ l = cc in rw (← same) tt
All-collect leaf (row ∷ rows) l all h =
    let (s, converted, rest) = >>=-eq-ok (row_to_snapshot row) _ h in
    let (others, collected, done) = >>=-eq-ok (collect rows) _ rest in
    let same : s ∷ others ≡ l = cc in
    let id = row_to_snapshot-id row s converted in
    rw (← same) (λ e. all.0 (sym id ∙ e), All-collect leaf rows others all.1 collected)

length-collect :
    (rows : List SnapshotRow) (l : List Snapshot) → collect rows ≡ ok l → length l ≡ length rows
unfolding collect
length-collect [] l h = let same : [] ≡ l = cc in rw (← same) refl
length-collect (row ∷ rows) l h =
    let (s, converted, rest) = >>=-eq-ok (row_to_snapshot row) _ h in
    let (others, collected, done) = >>=-eq-ok (collect rows) _ rest in
    let same : s ∷ others ≡ l = cc in
    let size = length-collect rows others collected in rw (← same) (omega arith)

to_chain-cut :
    (rows : List SnapshotRow) (n : ℕ) (c : ParentChain)
    → to_chain rows n ≡ ok c
    → c.truncated ≡ true
    → (n < length rows) × (collect (limit n rows) ≡ ok c.snapshots)
unfolding to_chain
to_chain-cut rows n c h truncated =
    let cut = ltb n (length rows) in
    let (snapshots, collected, done) =
      >>=-eq-ok (collect (limit (if cut then n else length rows) rows)) _ h in
    let whole : ◌≡◌ {A = ParentChain} (record { snapshots = snapshots; truncated = cut }) c = cc in
    let is_cut : cut ≡ true = ap (λ (x : ParentChain). x.truncated) whole ∙ truncated in
    let same : snapshots ≡ c.snapshots = ap (λ (x : ParentChain). x.snapshots) whole in
    (ground arith, subst (λ l. collect (limit n rows) ≡ ok l) same (rw is_cut at collected))

module _ (content_address : String → String) where
  others :
      (rows : List SnapshotRow) (leaf : String) (row r : SnapshotRow)
      → find (has_id leaf) rows ≡ some row
      → IsOlder row.config_version r × IsIn rows r
      → r.id ≢ leaf
  others rows leaf row r there (older, found) e =
      let both : ◌≡◌ {A = Option SnapshotRow} (some r) (some row) =
        sym found ∙ (ap (λ i. find (has_id i) rows) e ∙ there) in
      let same : r ≡ row = cc in
      let version = ap (λ (x : SnapshotRow). ltb_ℤ x.config_version row.config_version) same in
      let contradiction : true ≡ false = sym older ∙ (version ∙ ltb_ℤ_irrefl row.config_version) in
      cc

  -- When the chain is longer than the depth that was asked for, the answer is made of as many rows as
  -- that depth says, the oldest of the ancestors that were read, the oldest first; the snapshot that
  -- was asked for is not among them.
  pub parent_chain-drops_leaf :
      (db : Database) (leaf : SnapshotId) (max_depth : ℕ) (row : SnapshotRow) (c : ParentChain)
      → IsLedger content_address db.snapshots
      → find (has_id leaf) db.snapshots ≡ some row
      → parent_chain db leaf max_depth ≡ ok c
      → c.truncated ≡ true
      → (collect (limit max_depth (reversed (chain db.snapshots max_depth row.parent_id)))
          ≡ ok c.snapshots)
        × (length c.snapshots ≡ max_depth)
        × All (λ s. s.snapshot_id ≢ leaf) c.snapshots
  unfolding parent_chain reversed
  parent_chain-drops_leaf db leaf max_depth row c ledger there h truncated =
      let (_, read) = >>-eq-ok (refuse_if (ltb max_parent_chain_depth max_depth) _) _ h in
      let tail = chain db.snapshots max_depth row.parent_id in
      let walked : chain db.snapshots (suc max_depth) (some leaf) ≡ row ∷ tail =
        chain-suc db.snapshots max_depth leaf there in
      let (long, collected) =
        to_chain-cut (reversed (row ∷ tail)) max_depth c (rw walked at read) truncated in
      let size = length-reversed (row ∷ tail) in
      let size_tail = length-reversed tail in
      let cut = limit-append max_depth (reversed tail) (row ∷ []) (omega arith) in
      let older =
        chain-IsOlder content_address db.snapshots max_depth row.parent_id row.config_version ledger
          (λ p e. parent-IsOlder content_address db.snapshots leaf p row ledger there e) in
      let apart =
        All-map (λ r. IsOlder row.config_version r × IsIn db.snapshots r) (λ r. r.id ≢ leaf)
          (λ r q. others db.snapshots leaf row r there q) tail older in
      let kept =
        All-limit (λ r. r.id ≢ leaf) max_depth (reversed tail)
          (All-reversed (λ r. r.id ≢ leaf) tail apart) in
      let oldest : collect (limit max_depth (reversed tail)) ≡ ok c.snapshots =
        rw cut at collected in
      (
        oldest,
        length-collect (limit max_depth (reversed tail)) c.snapshots oldest
            ∙ length-limit max_depth (reversed tail) (omega (arith, length-reversed tail)),
        All-collect leaf (limit max_depth (reversed tail)) c.snapshots kept oldest,
      )
