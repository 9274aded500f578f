-- ===== src/Mutation/Apply/Complete/Variants.antt =====
-- Every entry that a mutation changes is in the changes that it reports.
use trilithon.Base.{
  some, String, ◌≡◌, refl, ap, ◌∙◌, ◌⊎◌, inl, inr, Bool, true, false, ◌||◌, List, [], ◌∷◌, Option,
  none, arith, str_eq, eq_iff, Bool-cases, ok, >>-eq-ok, >>=-eq-ok, refuse_if-eq-ok,
}
use trilithon.Base.BTreeMap.{BTreeMap, BTreeSet, get, insert, contains_key, contains, insert_set}
use trilithon.Base.BTreeMap.Lookup.{get-insert}
use trilithon.Model.Json.{Value}
use trilithon.Model.Pointer.{JsonPointer, root, push}
use trilithon.Model.Route.{Route, RoutePolicyAttachment}
use trilithon.Model.Upstream.{Upstream}
use trilithon.Model.State.{DesiredState}
use trilithon.Mutation.Types.{ParsedCaddyfile, DiffChange}
use trilithon.Mutation.Validate.{check_hostnames_valid, check_route_has_destination, check_redirect}
use trilithon.Mutation.Cidr.{check_matchers_valid}
use trilithon.Mutation.Validate.Import.{
  import_upstreams, import_routes, import_references, check_import_caddyfile,
}
use trilithon.Mutation.Steps.{
  Serde, and_then, route_pointer, upstream_pointer, attachment_pointer, same_value, config_change,
  policy_attachment_preamble, set_attachment,
}
use trilithon.Mutation.Apply.{import_upstreams_into, import_routes_into, apply_import_caddyfile}
use trilithon.Mutation.Apply.Complete.{
  Reports, Reports-append, Tracked, Imported, Imported-Tracked, insert-Imported,
}

or_false : (a b : Bool) → (a || b) ≡ false → (a ≡ false) × (b ≡ false)
or_false a b h = ground arith

module _ (serde : Serde) where
  -- Only the policy attachment of a route changed, and the change of it is reported.
  abbrev pub TrackedAttachment : BTreeMap Route → BTreeMap Route → List DiffChange → String → Type 0
  TrackedAttachment old new d k =
      (r : Route) × (a : Option RoutePolicyAttachment) × (get old k ≡ some r)
      × (get new k ≡ some (record r { policy_attachment = a }))
      × Reports (attachment_pointer k) (and_then r.policy_attachment serde.attachment)
          (and_then a serde.attachment) d

  -- A route is as it was, or the change of it or of its policy attachment is reported.
  abbrev pub TrackedRoute : BTreeMap Route → BTreeMap Route → List DiffChange → String → Type 0
  TrackedRoute old new d k =
      Tracked serde.route route_pointer old new d k ⊎ TrackedAttachment old new d k

  -- A configuration is as it was, has the same serialised form, or its change is reported.
  abbrev pub TrackedConfig :
      {A : Type 0} → (A → Option Value) → String → A → A → List DiffChange → Type 0
  TrackedConfig ser name old new d =
      (new ≡ old)
      ⊎ ((same_value serde (ser old) (ser new) ≡ true)
          ⊎ Reports (push root name) (ser old) (ser new) d)

  -- All changes between the two states are among the reported ones.
  pub record Complete (s n : DesiredState) (d : List DiffChange) : Type 0 where
    pub routes : (k : String) → TrackedRoute s.routes n.routes d k
    pub upstreams :
        (k : String) → Tracked serde.upstream upstream_pointer s.upstreams n.upstreams d k
    pub global : TrackedConfig serde.global "global" s.global n.global d
    pub tls : TrackedConfig serde.tls "tls" s.tls n.tls d

  pub routes_only :
      (s n : DesiredState) (d : List DiffChange)
      → n.upstreams ≡ s.upstreams
      → n.global ≡ s.global
      → n.tls ≡ s.tls
      → ((k : String) → TrackedRoute s.routes n.routes d k)
      → Complete s n d
  routes_only s n d u g t h = record {
    routes = h;
    upstreams = λ k. inl (ap (λ m. get m k) u);
    global = inl g;
    tls = inl t;
  }

  pub upstreams_only :
      (s n : DesiredState) (d : List DiffChange)
      → n.routes ≡ s.routes
      → n.global ≡ s.global
      → n.tls ≡ s.tls
      → ((k : String) → Tracked serde.upstream upstream_pointer s.upstreams n.upstreams d k)
      → Complete s n d
  upstreams_only s n d r g t h = record {
    routes = λ k. inl (inl (ap (λ m. get m k) r));
    upstreams = h;
    global = inl g;
    tls = inl t;
  }

  pub no_value :
      {V : Type 0} (m : BTreeMap V) (k : String) (ser : V → Option Value)
      → contains_key m k ≡ false
      → none ≡ and_then (get m k) ser
  no_value m k ser h = ground arith

  pub config_tracked :
      {A : Type 0} (ser : A → Option Value) (name : String) (old new : A)
      → TrackedConfig ser name old new (config_change serde (push root name) (ser old) (ser new))
  unfolding config_change
  config_tracked ser name old new = elim (Bool-cases (same_value serde (ser old) (ser new))) [
    | inl e ↦ inr (inl e)
    | inr e ↦ inr (inr (rw e (inl (refl, refl, refl))))
  ]

  pub attachment_tracked :
      (s t : DesiredState) (id : String) (r : Route) (a : Option RoutePolicyAttachment)
      → get s.routes id ≡ some r
      → (k : String)
      → TrackedRoute s.routes
          (insert s.routes id (record r { policy_attachment = a }))
          (set_attachment serde s t id r a).1
          k
  unfolding set_attachment policy_attachment_preamble
  attachment_tracked s t id r a found k = elim (Bool-cases (str_eq id k)) [
    | inl q ↦
        let same : id ≡ k = (eq_iff id k).0 q in
        inr (
          r,
          a,
          rw (← same) found,
          rw (get-insert, q),
          inl (ap attachment_pointer same, rw found, refl),
        )
    | inr q ↦ inl (inl (rw (get-insert, q)))
  ]

  -- The two loops of an import, against the sets of ids that the checks have seen.
  upstreams_loop :
      (s t : DesiredState) (l : List Upstream) (seen all : BTreeSet) (d : List DiffChange)
      → import_upstreams s seen l ≡ ok all
      → ((k : String) → Imported serde.upstream upstream_pointer s.upstreams t.upstreams seen d k)
      → (k : String)
      → Tracked serde.upstream upstream_pointer s.upstreams
          (import_upstreams_into serde t d l).0.upstreams
          (import_upstreams_into serde t d l).1
          k
  unfolding import_upstreams import_upstreams_into
  upstreams_loop s t [] seen all d h i k =
      Imported-Tracked serde.upstream upstream_pointer s.upstreams t.upstreams seen d k (i k)
  upstreams_loop s t (u ∷ l) seen all d h i k =
      let (test, rest) = >>-eq-ok _ (import_upstreams s (insert_set seen u.id) l) h in
      let (a, b) = or_false _ _ (refuse_if-eq-ok _ _ test) in
      upstreams_loop s (record t { upstreams = insert t.upstreams u.id u }) l (insert_set seen u.id)
        all _ rest
        (insert-Imported serde.upstream upstream_pointer s.upstreams t.upstreams seen d u.id u a b
          i)
        k

  routes_loop :
      (s t : DesiredState) (l : List Route) (seen ups : BTreeSet) (d : List DiffChange)
      → import_routes s seen ups l ≡ ok tt
      → ((k : String) → Imported serde.route route_pointer s.routes t.routes seen d k)
      → (k : String)
      → Tracked serde.route route_pointer s.routes
          (import_routes_into serde t d l).0.routes
          (import_routes_into serde t d l).1
          k
  unfolding import_routes import_routes_into
  routes_loop s t [] seen ups d h i k =
      Imported-Tracked serde.route route_pointer s.routes t.routes seen d k (i k)
  routes_loop s t (r ∷ l) seen ups d h i k =
      let (test, h₁) = >>-eq-ok _ _ h in
      let (a, b) = or_false _ _ (refuse_if-eq-ok _ _ test) in
      let (_, h₂) = >>-eq-ok (check_hostnames_valid r.hostnames) _ h₁ in
      let (_, h₃) = >>-eq-ok (check_matchers_valid r.matchers) _ h₂ in
      let (_, h₄) = >>-eq-ok (check_route_has_destination r.upstreams r.redirects) _ h₃ in
      let (_, h₅) = >>-eq-ok (check_redirect r.redirects) _ h₄ in
      let (_, rest) = >>-eq-ok (import_references s ups r.upstreams) _ h₅ in
      routes_loop s (record t { routes = insert t.routes r.id r }) l (insert_set seen r.id) ups _
        rest (insert-Imported serde.route route_pointer s.routes t.routes seen d r.id r a b i) k

  -- The loop over the upstreams leaves the routes and the configurations, and so does the other.
  upstreams_keep :
      (t : DesiredState) (d : List DiffChange) (l : List Upstream)
      → ((import_upstreams_into serde t d l).0.routes ≡ t.routes)
        × ((import_upstreams_into serde t d l).0.global ≡ t.global)
        × ((import_upstreams_into serde t d l).0.tls ≡ t.tls)
  unfolding import_upstreams_into
  upstreams_keep t d [] = (refl, refl, refl)
  upstreams_keep t d (u ∷ l) =
      upstreams_keep (record t { upstreams = insert t.upstreams u.id u }) _ l

  -- So does the loop over the routes, which only adds to the changes.
  routes_keep :
      (t : DesiredState) (d : List DiffChange) (l : List Route)
      → ((import_routes_into serde t d l).0.upstreams ≡ t.upstreams)
        × ((import_routes_into serde t d l).0.global ≡ t.global)
        × ((import_routes_into serde t d l).0.tls ≡ t.tls)
        × ((p : JsonPointer) (a b : Option Value)
            → Reports p a b d
            → Reports p a b (import_routes_into serde t d l).1)
  unfolding import_routes_into
  routes_keep t d [] = (refl, refl, refl, λ p a b h. h)
  routes_keep t d (r ∷ l) =
      let (u, g, c, more) = routes_keep (record t { routes = insert t.routes r.id r }) _ l in
      (u, g, c, λ p a b h. more p a b (Reports-append p a b d _ h))

  pub import_Complete :
      (s t : DesiredState) (p : ParsedCaddyfile)
      → t.routes ≡ s.routes
      → t.upstreams ≡ s.upstreams
      → t.global ≡ s.global
      → t.tls ≡ s.tls
      → check_import_caddyfile s p ≡ ok tt
      → Complete s (apply_import_caddyfile serde t p).0 (apply_import_caddyfile serde t p).1
  unfolding apply_import_caddyfile check_import_caddyfile contains
  import_Complete s t p er eu eg et h =
      let (all, checked, routes) = >>=-eq-ok (import_upstreams s [] p.upstreams) _ h in
      let (left, d) = import_upstreams_into serde t [] p.upstreams in
      let (same_routes, same_global, same_tls) = upstreams_keep t [] p.upstreams in
      let (kept, kept_global, kept_tls, more) = routes_keep left d p.routes in
      record {
        routes = λ k. inl (
            routes_loop s left p.routes [] all d routes
              (λ j. inl (refl, ap (λ m. get m j) (same_routes ∙ er))) k);
        upstreams = λ k.
            elim (upstreams_loop s t p.upstreams [] all [] checked
              (λ j. inl (refl, ap (λ m. get m j) eu)) k) [
                | inl e ↦ inl (ap (λ m. get m k) kept ∙ e)
                | inr r ↦ inr (rw kept (more _ _ _ r))
              ];
        global = inl (kept_global ∙ (same_global ∙ eg));
        tls = inl (kept_tls ∙ (same_tls ∙ et));
      }
