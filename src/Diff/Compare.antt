-- ===== src/Diff/Compare.antt =====
-- The comparison of two flat maps in diff.rs, which `structural_diff` and `diff_caddy_values` share, and
-- the list of paths of diff/ignore_list.rs.
pub mod Report
pub mod Justified
pub mod Values
use Prim.Native.Nat.{Ordering}
use Prim.Native.String.{compare}
use trilithon.Base.{
  ℕ, ◌+◌, ◌%◌, ◌^◌, String, Bool, false, not, ◌||◌, List, [], ◌∷◌, ◌++◌, Option, none, some,
  if◌then◌else◌, Result, ok, err, ◌>>=◌,
}
use trilithon.Base.BTreeMap.{BTreeMap, get, contains_key}
use trilithon.Model.Json.{Number, Value}
use trilithon.Model.State.{DesiredState}
use trilithon.Model.Pointer.{JsonPointer}
use trilithon.Diff.Canonical.{canonicalise_value}
use trilithon.Diff.Flatten.{flatten}

pub data DiffError : Type 0 where
  serialisation : String → DiffError
  incompatible_shape : JsonPointer → String → String → DiffError
  redaction_violated : JsonPointer → DiffError
  missing_parent_path : JsonPointer → DiffError

pub data DiffEntry : Type 0 where
  added : JsonPointer → Value → DiffEntry
  removed : JsonPointer → Value → DiffEntry
  modified : JsonPointer → Value → Value → DiffEntry

abbrev pub path : DiffEntry → JsonPointer
path (added p _) = p
path (removed p _) = p
path (modified p _ _) = p

pub record Diff : Type 0 where
  pub entries : List DiffEntry
  pub ignored_count : ℕ  -- u32

-- `CADDY_MANAGED_PATH_PATTERNS`
abbrev pub caddy_managed_path_patterns : List String
caddy_managed_path_patterns =
    "^/apps/tls/automation/policies/[^/]+/managed_certificates(/.*)?$" ∷ "^/storage/acme(/.*)?$"
    ∷ "^/storage/ocsp(/.*)?$"
    ∷ "^/apps/http/servers/[^/]+/routes/[^/]+/handle/[^/]+/upstreams/[^/]+/health(/.*)?$"
    ∷ "^/apps/http/servers/[^/]+/automatic_https/disable_redirects$"
    ∷ "^/apps/http/servers/[^/]+/request_id$" ∷ []

-- Third-party code: a regular expression's `is_match`, `==` of `serde_json::Value`, its `to_value` with the
-- text of an error, and the whole
-- floats that `canonicalise_value` reads.
pub record Engine : Type 0 where
  pub is_match : String → String → Bool
  pub eq : Value → Value → Bool
  pub to_value : DesiredState → Result String Value
  pub whole : ℕ → Option Number

abbrev any_match : (String → String → Bool) → List String → JsonPointer → Bool
any_match is_match [] p = false
any_match is_match (pattern_text ∷ rest) p = is_match pattern_text p || any_match is_match rest p

-- `sort_unstable_by` on the paths
unfoldable pub insert_entry : DiffEntry → List DiffEntry → List DiffEntry
insert_entry e [] = e ∷ []
insert_entry e (f ∷ es) = elim (compare (path e) (path f)) [
  | Ordering.gt ↦ f ∷ insert_entry e es
  | Ordering.lt ↦ e ∷ f ∷ es
  | Ordering.eq ↦ e ∷ f ∷ es
]

unfoldable pub sort_entries : List DiffEntry → List DiffEntry
sort_entries [] = []
sort_entries (e ∷ es) = insert_entry e (sort_entries es)

module _ (engine : Engine) where
  unfoldable pub is_caddy_managed : JsonPointer → Bool
  is_caddy_managed p = any_match engine.is_match caddy_managed_path_patterns p

  -- One turn of the first loop: the entry of a leaf of `before`.
  abbrev pub before_entry : JsonPointer → Value → Option Value → List DiffEntry
  before_entry p bv none = removed p bv ∷ []
  before_entry p bv (some av) = if not (engine.eq av bv) then modified p bv av ∷ [] else []

  -- The two loops: the entries in turn, and how many paths were ignored.
  unfoldable pub before_loop : BTreeMap Value → BTreeMap Value → List DiffEntry × ℕ
  before_loop flat_after [] = ([], 0)
  before_loop flat_after ((p, bv) ∷ rest) =
      let (entries, ignored) = before_loop flat_after rest in
      if is_caddy_managed p
      then (entries, (ignored + 1) % 2 ^ 32)
      else (before_entry p bv (get flat_after p) ++ entries, ignored)

  unfoldable pub after_loop : BTreeMap Value → BTreeMap Value → List DiffEntry × ℕ
  after_loop flat_before [] = ([], 0)
  after_loop flat_before ((p, av) ∷ rest) =
      let (entries, ignored) = after_loop flat_before rest in
      if is_caddy_managed p
      then (entries, (if contains_key flat_before p then ignored else (ignored + 1) % 2 ^ 32))
      else ((if contains_key flat_before p then [] else added p av ∷ []) ++ entries, ignored)

  unfoldable pub diff_flat : BTreeMap Value → BTreeMap Value → Diff
  diff_flat flat_before flat_after =
      let (gone, ignored) = before_loop flat_after flat_before in
      let (new, more) = after_loop flat_before flat_after in
      record { entries = sort_entries (gone ++ new); ignored_count = (ignored + more) % 2 ^ 32 }

  unfoldable pub diff_caddy_values : Value → Value → Diff
  diff_caddy_values before after =
      diff_flat (flatten (canonicalise_value engine.whole before))
        (flatten (canonicalise_value engine.whole after))

  -- `map` and `map_err` on the serialised state.
  unfoldable pub state_to_value : DesiredState → Result DiffError Value
  state_to_value state = elim (engine.to_value state) [
    | ok v ↦ ok (canonicalise_value engine.whole v)
    | err detail ↦ err (serialisation detail)
  ]

  unfoldable pub structural_diff : DesiredState → DesiredState → Result DiffError Diff
  structural_diff before after = do
    val_before ← state_to_value before
    val_after ← state_to_value after
    ok (diff_flat (flatten val_before) (flatten val_after))
