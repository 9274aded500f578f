-- ===== src/Diff/Summary/Counts.antt =====
-- What `summarise_diff` counts.
use trilithon.Base.{
  ℕ, suc, ◌+◌, ◌^◌, ◌≤◌, ◌<◌, Bool, true, false, ◌&&◌, List, [], ◌∷◌, length, if◌then◌else◌, ◌==◌,
  ◌≡◌, refl, Bool-cases, inl, inr, arith,
}
use trilithon.Diff.Compare.{DiffEntry, Diff, path}
use trilithon.Diff.Summary.{
  ObjectKind, DiffCounts, Summary, rank, classify, tally, counts, insert_counts, summarise,
  summarise_diff,
}

counts-insert_counts :
    (m : Summary) (k : ObjectKind) (v : DiffCounts) (j : ObjectKind)
    → counts (insert_counts m k v) j ≡ (if rank k == rank j then v else counts m j)
unfolding counts insert_counts
counts-insert_counts [] k v j = refl
counts-insert_counts ((i, c) ∷ m) k v j = ground (arith, counts-insert_counts m k v j)

-- The number of entries that pass a test.
unfoldable pub count : (DiffEntry → Bool) → List DiffEntry → ℕ
count test [] = 0
count test (e ∷ es) = let rest = count test es in if test e then suc rest else rest

abbrev pub of_kind : ObjectKind → DiffEntry → Bool
of_kind k e = rank (classify (path e)) == rank k

abbrev pub is_added : DiffEntry → Bool
is_added (DiffEntry.added _ _) = true
is_added (DiffEntry.removed _ _) = false
is_added (DiffEntry.modified _ _ _) = false

abbrev pub is_removed : DiffEntry → Bool
is_removed (DiffEntry.added _ _) = false
is_removed (DiffEntry.removed _ _) = true
is_removed (DiffEntry.modified _ _ _) = false

abbrev pub is_modified : DiffEntry → Bool
is_modified (DiffEntry.added _ _) = false
is_modified (DiffEntry.removed _ _) = false
is_modified (DiffEntry.modified _ _ _) = true

abbrev Plus : DiffCounts → DiffCounts → ℕ → ℕ → ℕ → Type 0
Plus d c a r x =
    (d.added ≡ c.added + a) × (d.removed ≡ c.removed + r) × (d.modified ≡ c.modified + x)

abbrev Fits : DiffCounts → ℕ → Type 0
Fits c n = (c.added + n < 2 ^ 32) × (c.removed + n < 2 ^ 32) × (c.modified + n < 2 ^ 32)

abbrev bit : Bool → ℕ
bit false = 0
bit true = 1

tally-Plus :
    (c : DiffCounts) (e : DiffEntry)
    → Fits c 1
    → Plus (tally c e) c (bit (is_added e)) (bit (is_removed e)) (bit (is_modified e))
unfolding tally
tally-Plus c (DiffEntry.added _ _) (a, r, m) = (omega arith, omega arith, omega arith)
tally-Plus c (DiffEntry.removed _ _) (a, r, m) = (omega arith, omega arith, omega arith)
tally-Plus c (DiffEntry.modified _ _ _) (a, r, m) = (omega arith, omega arith, omega arith)

counts-rank : (m : Summary) (i k : ObjectKind) → rank i ≡ rank k → counts m i ≡ counts m k
unfolding counts
counts-rank [] i k h = refl
counts-rank ((j, c) ∷ m) i k h = let rest = counts-rank m i k h in rw (h, rest) refl

-- One entry adds to the counts of its kind only.
step-Plus :
    (m : Summary) (e : DiffEntry) (k : ObjectKind)
    → Fits (counts m k) 1
    → Plus
        (counts (insert_counts m (classify (path e)) (tally (counts m (classify (path e))) e)) k)
        (counts m k)
        (bit (of_kind k e && is_added e))
        (bit (of_kind k e && is_removed e))
        (bit (of_kind k e && is_modified e))
step-Plus m e k fits =
    let i = classify (path e) in
    let found = counts-insert_counts m i (tally (counts m i) e) k in
    elim (Bool-cases (rank i == rank k)) [
      | inl same ↦
          let equal = counts-rank m i k (ground arith) in
          rw (found, same, equal) (tally-Plus (counts m k) e fits)
      | inr apart ↦ rw (found, apart) (omega arith, omega arith, omega arith)
    ]

count-cons :
    (test : DiffEntry → Bool) (e : DiffEntry) (es : List DiffEntry)
    → count test (e ∷ es) ≡ bit (test e) + count test es
unfolding count
count-cons test e es = ground arith

summarise-Plus :
    (m : Summary) (es : List DiffEntry) (k : ObjectKind)
    → Fits (counts m k) (length es)
    → Plus
        (counts (summarise m es) k)
        (counts m k)
        (count (λ e. of_kind k e && is_added e) es)
        (count (λ e. of_kind k e && is_removed e) es)
        (count (λ e. of_kind k e && is_modified e) es)
unfolding summarise count
summarise-Plus m [] k fits = (omega arith, omega arith, omega arith)
summarise-Plus m (e ∷ es) k (a, r, x) =
    let (sa, sr, sx) = step-Plus m e k (omega arith, omega arith, omega arith) in
    let (ba, br, bx) = bits k e in
    let (ta, tr, tx) =
      summarise-Plus (insert_counts m (classify (path e)) (tally (counts m (classify (path e))) e))
        es k (omega arith, omega arith, omega arith) in
    let ca = count-cons (λ f. of_kind k f && is_added f) e es in
    let cr = count-cons (λ f. of_kind k f && is_removed f) e es in
    let cx = count-cons (λ f. of_kind k f && is_modified f) e es in
    (omega arith, omega arith, omega arith)
  where
    bits :
        (k : ObjectKind) (e : DiffEntry)
        → (bit (of_kind k e && is_added e) ≤ 1)
          × (bit (of_kind k e && is_removed e) ≤ 1)
          × (bit (of_kind k e && is_modified e) ≤ 1)
    bits k e = (ground arith, ground arith, ground arith)

-- The summary of a diff of fewer than 2^32 entries has, for each kind of object, as many added, removed
-- and modified entries as the diff has entries of that sort with a path of that kind.
pub counts-summarise_diff :
    (diff : Diff) (k : ObjectKind)
    → length diff.entries < 2 ^ 32
    → ((counts (summarise_diff diff) k).added ≡ count (λ e. of_kind k e && is_added e) diff.entries)
      × ((counts (summarise_diff diff) k).removed
          ≡ count (λ e. of_kind k e && is_removed e) diff.entries)
      × ((counts (summarise_diff diff) k).modified
          ≡ count (λ e. of_kind k e && is_modified e) diff.entries)
unfolding summarise_diff counts
counts-summarise_diff diff k few =
    let (a, r, x) = summarise-Plus [] diff.entries k (omega arith, omega arith, omega arith) in
    (omega arith, omega arith, omega arith)
