-- ===== src/Diff/Summary.antt =====
-- The summary of a diff in diff.rs: the kind of each entry's path, and how many entries of a kind add,
-- remove and modify.
pub mod Counts
use Prim.Native.Nat.{Ordering, compare}
use Prim.Native.String.{String}
use Prim.Native.Char.{code}
use trilithon.Base.{
  ℕ, ◌+◌, ◌%◌, ◌^◌, Bool, true, false, not, ◌&&◌, List, [], ◌∷◌, if◌then◌else◌, str_eq, ◌==◌,
}
use trilithon.Base.Text.{split}
use trilithon.Model.Pointer.{JsonPointer}
use trilithon.Diff.Compare.{DiffEntry, Diff, path}

pub data ObjectKind : Type 0 where
  route : ObjectKind
  upstream : ObjectKind
  tls : ObjectKind
  server : ObjectKind
  policy : ObjectKind
  other : ObjectKind

-- The derived order of the kinds.
unfoldable pub rank : ObjectKind → ℕ
rank route = 0
rank upstream = 1
rank tls = 2
rank server = 3
rank policy = 4
rank other = 5

-- `s.trim_start_matches('/')`
unfoldable pub trim_slashes : String → String
trim_slashes String.[] = String.[]
trim_slashes (String.◌∷◌ c s) =
    let rest = trim_slashes s in if code c == b'/' then rest else String.◌∷◌ c s

abbrev pub match_segments : List String → List String → Bool
match_segments segs [] = true
match_segments [] (pat ∷ pattern) = false
match_segments (seg ∷ segs) (pat ∷ pattern) =
    if not (str_eq pat "*") && not (str_eq (trim_slashes pat) seg)
    then false
    else match_segments segs pattern

unfoldable pub segment_match : String → List String → Bool
segment_match path pattern = match_segments (split (λ c. c == b'/') (trim_slashes path)) pattern

unfoldable pub classify : JsonPointer → ObjectKind
classify p =
    if segment_match p ("/apps" ∷ "/http" ∷ "/servers" ∷ "*" ∷ "/routes" ∷ "*" ∷ [])
    then route
    else if segment_match p ("/apps" ∷ "/tls" ∷ "*" ∷ [])
    then tls
    else if segment_match p ("/apps" ∷ "/http" ∷ "/servers" ∷ "*" ∷ [])
    then server
    else other

-- The counters are u32.
pub record DiffCounts : Type 0 where
  pub added : ℕ
  pub removed : ℕ
  pub modified : ℕ

abbrev pub no_counts : DiffCounts
no_counts = record { added = 0; removed = 0; modified = 0 }

unfoldable pub tally : DiffCounts → DiffEntry → DiffCounts
tally c (DiffEntry.added _ _) = record c { added = (c.added + 1) % 2 ^ 32 }
tally c (DiffEntry.removed _ _) = record c { removed = (c.removed + 1) % 2 ^ 32 }
tally c (DiffEntry.modified _ _ _) = record c { modified = (c.modified + 1) % 2 ^ 32 }

-- A map from kinds, in the order of the kinds.
abbrev pub Summary : Type 0
Summary = List (ObjectKind × DiffCounts)

-- The counts of a kind, or the default.
unfoldable pub counts : Summary → ObjectKind → DiffCounts
counts [] k = no_counts
counts ((j, c) ∷ m) k = if rank j == rank k then c else counts m k

unfoldable pub insert_counts : Summary → ObjectKind → DiffCounts → Summary
insert_counts [] k v = (k, v) ∷ []
insert_counts ((j, c) ∷ m) k v = elim (compare (rank k) (rank j)) [
  | Ordering.lt ↦ (k, v) ∷ (j, c) ∷ m
  | Ordering.eq ↦ (k, v) ∷ m
  | Ordering.gt ↦ (j, c) ∷ insert_counts m k v
]

unfoldable pub summarise : Summary → List DiffEntry → Summary
summarise m [] = m
summarise m (e ∷ es) =
    let kind = classify (path e) in summarise (insert_counts m kind (tally (counts m kind) e)) es

unfoldable pub summarise_diff : Diff → Summary
summarise_diff diff = summarise [] diff.entries
