-- ===== src/Examples/Renders.antt =====
-- Runs of the renderer and of the capability check.
use trilithon.Base.{◌≡◌, ◌↔◌, refl, String, some, [], Result, ok, All}
use trilithon.Base.BTreeMap.{get, insert}
use trilithon.Model.Json.{Value, string, object, Fields, end}
use trilithon.Model.State.{DesiredState, empty}
use trilithon.Mutation.Invariant.{IsWellFormed}
use trilithon.Mutation.Invariant.Maps.{Holds, Holds-insert}
use trilithon.Mutation.Invariant.Reach.{empty-IsWellFormed, apply_mutation-IsWellFormed}
use trilithon.Diff.Canonical.{get_field}
use trilithon.Reconciler.Render.{render_state, build_http_servers, apps_value, ownership_sentinel}
use trilithon.Reconciler.Render.Owned.{render_state-owned}
use trilithon.Reconciler.Render.Ignored.{opened_routes, render_state-opened}
use trilithon.Reconciler.Render.Total.{IsDialable, HasPolicy, render_state-succeeds}
use trilithon.Reconciler.CapabilityCheck.{check_against_capability_set}
use trilithon.Reconciler.CapabilityCheck.Required.{
  When, HasModules, check_against_capability_set_iff,
}
use trilithon.Examples.Data.{serde, state, caps, docs, green, import_docs}
use trilithon.Examples.Outcomes.{docs_imported, import_run}

-- A parser that takes every body for the empty object.
abbrev pub parse : String → Result String Value
parse text = ok (object end)

abbrev docs_state : DesiredState
docs_state = docs_imported.new_state

docs_state-IsWellFormed : IsWellFormed docs_state
docs_state-IsWellFormed =
    apply_mutation-IsWellFormed serde empty import_docs caps docs_imported empty-IsWellFormed
      import_run

dialable : Holds (λ k u. IsDialable u.destination) docs_state.upstreams
unfolding insert get
dialable = Holds-insert (λ k u. IsDialable u.destination) [] "green" green (λ k u h. cc) refl

no_policies : Holds (λ k r. HasPolicy parse docs_state r.policy_attachment) docs_state.routes
unfolding insert get
no_policies =
    Holds-insert (λ k r. HasPolicy parse docs_state r.policy_attachment) [] "docs" docs
      (λ k r h. cc) tt

rendered : (document : Value) × (render_state parse docs_state ≡ ok document)
rendered = render_state-succeeds parse docs_state docs_state-IsWellFormed dialable no_policies refl

render_state-succeeds_example : (document : Value) × (render_state parse docs_state ≡ ok document)
render_state-succeeds_example =
    render_state-succeeds parse docs_state docs_state-IsWellFormed dialable no_policies refl

render_state-owned_example :
    (root : Fields) × (servers : Fields) × (rendered.0 ≡ object root)
    × (build_http_servers parse docs_state ≡ ok servers)
    × (get_field root "@id" ≡ some (string ownership_sentinel))
    × (get_field root "apps" ≡ some (apps_value servers docs_state.tls))
render_state-owned_example = render_state-owned parse docs_state rendered.0 rendered.1

render_state-opened_example :
    render_state parse (record state { routes = opened_routes state.routes })
    ≡ render_state parse state
render_state-opened_example = render_state-opened parse state

check_against_capability_set_iff_example :
    (check_against_capability_set parse state caps ≡ ok tt)
    ↔ All (λ e. When parse e.1.enabled (HasModules parse state caps e.1)) state.routes
check_against_capability_set_iff_example = check_against_capability_set_iff parse state caps
