-- ===== src/Examples/Mutations.antt =====
-- The theorems on mutations at the runs of Outcomes.
use trilithon.Base.{
  ◌≡◌, ◌≢◌, ◌↔◌, refl, String, true, false, Option, none, some, [], ok, err, str_eq,
}
use trilithon.Base.Int.{pos, IsI64, i64_max}
use trilithon.Base.BTreeMap.{get, contains, remove, insert_set}
use trilithon.Base.Text.{replace_char}
use trilithon.Model.Pointer.{push, escape_segment}
use trilithon.Mutation.Steps.{apply_delete_upstream, upstream_pointer}
use trilithon.Model.Route.{RoutePolicyAttachment}
use trilithon.Model.State.{empty}
use trilithon.Mutation.Types.{
  Mutation, MutationKind, MutationOutcome, MutationError, conflict, expected_version, kind,
  capability_missing,
}
use trilithon.Mutation.Capability.{
  check_capabilities, referenced_caddy_modules, create_route_modules, first_missing,
}
use trilithon.Mutation.Validate.{mentions}
use trilithon.Mutation.Validate.Import.{pre_conditions}
use trilithon.Mutation.Apply.{apply_mutation, apply_variant}
use trilithon.Mutation.Apply.Conflict.{conflict_iff}
use trilithon.Mutation.Apply.Complete.Variants.{Complete}
use trilithon.Mutation.Apply.Complete.Mutations.{apply_mutation-Complete}
use trilithon.Mutation.Apply.Order.{apply_mutation-again, delete_upstream-gone}
use trilithon.Mutation.Apply.Attachment.{only_attachment, update_route-any_attachment}
use trilithon.Mutation.Apply.Destination.{
  HaveDestinations, apply_mutation-HaveDestinations, no_destination, update_route-no_destination,
}
use trilithon.Mutation.Apply.Success.{apply_mutation_iff}
use trilithon.Mutation.Invariant.{IsWellFormed}
use trilithon.Mutation.Invariant.Maps.{Holds}
use trilithon.Mutation.Invariant.Reach.{
  empty-IsWellFormed, Reach, start, step, Reach-IsWellFormed, apply_mutation-IsWellFormed,
}
use trilithon.Examples.Data.{
  serde, state, caps, web, create_docs, import_docs, delete_green, no_modules,
}
use trilithon.Examples.Outcomes.{
  docs_created, create_docs_run, docs_imported, import_run, green_deleted, delete_run,
}

apply_mutation-IsWellFormed_example : IsWellFormed docs_imported.new_state
apply_mutation-IsWellFormed_example =
    apply_mutation-IsWellFormed serde empty import_docs caps docs_imported empty-IsWellFormed
      import_run

imported : Reach serde 1 docs_imported.new_state
imported = step import_docs caps docs_imported start import_run

Reach-IsWellFormed_example :
    IsWellFormed docs_imported.new_state × (docs_imported.new_state.version ≡ pos 1) × IsI64 (pos 1)
Reach-IsWellFormed_example = Reach-IsWellFormed serde 1 docs_imported.new_state imported

apply_mutation_iff_example :
    ((o : MutationOutcome) × (apply_mutation serde state create_docs caps ≡ ok o)) ↔ (
      (expected_version create_docs ≡ pos 7)
      × ((x : String)
          → contains (referenced_caddy_modules create_docs) x ≡ true
          → contains caps.loaded_modules x ≡ true)
      × (pre_conditions state create_docs ≡ ok tt)
      × (state.version ≢ i64_max))
apply_mutation_iff_example = apply_mutation_iff serde state create_docs caps

apply_mutation-Complete_example :
    Complete serde empty docs_imported.new_state docs_imported.diff.changes
apply_mutation-Complete_example =
    apply_mutation-Complete serde empty import_docs caps docs_imported import_run

apply_mutation-again_example :
    apply_mutation serde docs_created.new_state delete_green caps ≡ err (conflict (pos 8) (pos 7))
unfolding expected_version
apply_mutation-again_example =
    apply_mutation-again serde state create_docs caps docs_created create_docs_run delete_green caps
      refl

conflict_iff_example :
    (apply_mutation serde empty create_docs caps ≡ err (conflict (pos 0) (pos 7)))
    ↔ ((pos 0 ≡ empty.version) × (pos 7 ≡ expected_version create_docs) × (pos 7 ≢ pos 0))
conflict_iff_example = conflict_iff serde empty create_docs caps (pos 0) (pos 7)

delete_upstream-gone_example :
    (get green_deleted.new_state.upstreams "green" ≡ none)
    × Holds (λ _ r. mentions r.upstreams "green" ≡ false) green_deleted.new_state.routes
    × (green_deleted.new_state.routes ≡ state.routes)
    × ((j : String)
        → str_eq "green" j ≡ false
        → get green_deleted.new_state.upstreams j ≡ get state.upstreams j)
delete_upstream-gone_example =
    delete_upstream-gone serde state caps green_deleted (pos 7) "green" delete_run

no_update : kind import_docs ≢ MutationKind.update_route
unfolding kind
no_update e = cc

no_routes : HaveDestinations empty.routes
unfolding get
no_routes k r e = absurd (none-some e)
  where
    none-some : {A : Type 0} {a : A} → ◌≡◌ {A = Option A} none (some a) → ⊥
    none-some e = cc

apply_mutation-HaveDestinations_example : HaveDestinations docs_imported.new_state.routes
apply_mutation-HaveDestinations_example =
    apply_mutation-HaveDestinations serde empty import_docs caps docs_imported no_update no_routes
      import_run

apply_variant_run :
    apply_variant serde state (record state { version = pos 8 }) delete_green
    ≡ ok (green_deleted.new_state, green_deleted.diff.changes)
unfolding apply_variant apply_delete_upstream remove get upstream_pointer push escape_segment
    replace_char
apply_variant_run = refl

found_web : get state.routes "web" ≡ some web
unfolding get
found_web = refl

update_route-no_destination_example :
    (o : MutationOutcome) × (apply_mutation serde state
        (Mutation.update_route (pos 7) "web" no_destination)
        caps
      ≡ ok o)
    × (get o.new_state.routes "web" ≡ some (record web { upstreams = []; redirects = none }))
update_route-no_destination_example =
    update_route-no_destination serde state caps "web" web found_web refl

-- Version 0 of a preset that is not registered.
abbrev unknown_policy : RoutePolicyAttachment
unknown_policy = record { preset_id = "none such"; preset_version = 0 }

update_route-any_attachment_example :
    (o : MutationOutcome) × (apply_mutation serde state
        (Mutation.update_route (pos 7) "web" (only_attachment (some unknown_policy)))
        caps
      ≡ ok o)
    × (get o.new_state.routes "web" ≡ some (record web { policy_attachment = some unknown_policy }))
update_route-any_attachment_example =
    update_route-any_attachment serde state caps "web" web (some unknown_policy) found_web refl

abbrev missing_proxy : MutationError
missing_proxy = capability_missing "http.handlers.reverse_proxy" MutationKind.create_route

nothing_loaded : check_capabilities create_docs no_modules ≡ err missing_proxy
unfolding check_capabilities first_missing referenced_caddy_modules create_route_modules insert_set
    contains kind
nothing_loaded = refl
