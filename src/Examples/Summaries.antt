-- ===== src/Examples/Summaries.antt =====
-- The summary of a diff.
use trilithon.Base.{◌≡◌, refl, [], ◌∷◌}
use trilithon.Base.Text.{split}
use trilithon.Model.Json.{string}
use trilithon.Diff.Compare.{DiffEntry, Diff}
use trilithon.Diff.Summary.{
  ObjectKind, classify, segment_match, trim_slashes, rank, counts, insert_counts, tally, summarise,
  summarise_diff,
}

abbrev two_routes : Diff
two_routes = record {
  entries =
      DiffEntry.added "/apps/http/servers/main/routes/0/host" (string "a.example")
      ∷ DiffEntry.added "/apps/http/servers/main/listen" (string ":443")
      ∷ DiffEntry.removed "/apps/http/servers/main/routes/1" (string "b.example")
      ∷ [];
  ignored_count = 0;
}

kinds :
    (classify "/apps/http/servers/main/routes/0/host" ≡ ObjectKind.route)
    × (classify "/apps/http/servers/main/listen" ≡ ObjectKind.server)
    × (classify "/apps/http/servers" ≡ ObjectKind.other)
    × (classify "//apps/tls/automation" ≡ ObjectKind.tls)
unfolding classify segment_match trim_slashes split
kinds = (refl, refl, refl, refl)

route_counts :
    counts (summarise_diff two_routes) ObjectKind.route
    ≡ record { added = 1; removed = 1; modified = 0 }
unfolding classify segment_match trim_slashes split summarise_diff summarise counts insert_counts
    tally rank
route_counts = refl
