-- ===== src/Mutation/Invariant/Import.antt =====
-- The import of a Caddyfile keeps the invariant: what its checks see is in the state that it leaves.
use trilithon.Base.{
  String, ◌≡◌, refl, true, List, [], ◌∷◌, arith, All, ok, >>-eq-ok, >>=-eq-ok, str_eq, eq_iff, inl,
  inr, Bool-cases,
}
use trilithon.Base.BTreeMap.{BTreeSet, contains_key, contains, insert, insert_set}
use trilithon.Base.BTreeMap.Lookup.{contains-insert_set}
use trilithon.Model.Route.{Route}
use trilithon.Model.Upstream.{Upstream}
use trilithon.Model.State.{DesiredState}
use trilithon.Mutation.Types.{ParsedCaddyfile, DiffChange}
use trilithon.Mutation.Cidr.{check_matchers_valid}
use trilithon.Mutation.Cidr.Accepted.{check_matchers_valid-ok}
use trilithon.Mutation.Validate.{check_hostnames_valid, check_route_has_destination, check_redirect}
use trilithon.Mutation.Validate.Import.{
  import_upstreams, import_references, import_routes, check_import_caddyfile,
}
use trilithon.Mutation.Steps.{Serde}
use trilithon.Mutation.Apply.{import_upstreams_into, import_routes_into, apply_import_caddyfile}
use trilithon.Mutation.Invariant.{IsWellFormed}
use trilithon.Mutation.Invariant.Maps.{contains_key-insert, contains_key-insert_self}
use trilithon.Mutation.Invariant.Checks.{check_hostnames_valid-ok, check_redirect-ok}
use trilithon.Mutation.Invariant.Steps.{put_route, put_upstream}

references-ok :
    (s t : DesiredState) (seen : BTreeSet) (l : List String)
    → ((u : String) → contains_key s.upstreams u ≡ true → contains_key t.upstreams u ≡ true)
    → ((u : String) → contains seen u ≡ true → contains_key t.upstreams u ≡ true)
    → import_references s seen l ≡ ok tt
    → All (λ u. contains_key t.upstreams u ≡ true) l
unfolding import_references
references-ok s t seen [] f g h = tt
references-ok s t seen (u ∷ l) f g h =
    let (a, b) = >>-eq-ok _ (import_references s seen l) h in
    (
      elim (Bool-cases (contains_key s.upstreams u)) [ inl e ↦ f u e | inr e ↦ g u (ground arith) ],
      references-ok s t seen l f g b,
    )

module _ (serde : Serde) where
  upstreams_grow :
      (t : DesiredState) (d : List DiffChange) (l : List Upstream) (u : String)
      → contains_key t.upstreams u ≡ true
      → contains_key (import_upstreams_into serde t d l).0.upstreams u ≡ true
  unfolding import_upstreams_into
  upstreams_grow t d [] u h = h
  upstreams_grow t d (x ∷ l) u h =
      upstreams_grow (record t { upstreams = insert t.upstreams x.id x }) _ l u
        (contains_key-insert t.upstreams x.id x u h)

  -- Every id that the check has seen is an upstream of the state that the step leaves.
  seen_upstreams :
      (s t : DesiredState) (d : List DiffChange) (l : List Upstream) (seen all : BTreeSet)
      → import_upstreams s seen l ≡ ok all
      → ((u : String) → contains seen u ≡ true → contains_key t.upstreams u ≡ true)
      → (u : String) → contains all u ≡ true
      → contains_key (import_upstreams_into serde t d l).0.upstreams u ≡ true
  unfolding import_upstreams_into import_upstreams
  seen_upstreams s t d [] seen all h f u c = f u (ground arith)
  seen_upstreams s t d (x ∷ l) seen all h f u c =
      let (_, rest) = >>-eq-ok _ (import_upstreams s (insert_set seen x.id) l) h in
      seen_upstreams s (record t { upstreams = insert t.upstreams x.id x }) _ l
        (insert_set seen x.id) all rest
        (λ k m. elim (Bool-cases (str_eq x.id k)) [
          | inl e ↦ rw (← (eq_iff x.id k).0 e) (contains_key-insert_self t.upstreams x.id x)
          | inr e ↦
              contains_key-insert t.upstreams x.id x k
                (f k (ground (arith, contains-insert_set seen x.id k)))
        ])
        u c

  upstreams-IsWellFormed :
      (t : DesiredState) (d : List DiffChange) (l : List Upstream)
      → IsWellFormed t
      → IsWellFormed (import_upstreams_into serde t d l).0
  unfolding import_upstreams_into
  upstreams-IsWellFormed t d [] w = w
  upstreams-IsWellFormed t d (x ∷ l) w =
      upstreams-IsWellFormed (record t { upstreams = insert t.upstreams x.id x }) _ l
        (put_upstream t x.id x w refl)

  routes-IsWellFormed :
      (s t : DesiredState) (d : List DiffChange) (seen ups : BTreeSet) (l : List Route)
      → ((u : String) → contains_key s.upstreams u ≡ true → contains_key t.upstreams u ≡ true)
      → ((u : String) → contains ups u ≡ true → contains_key t.upstreams u ≡ true)
      → import_routes s seen ups l ≡ ok tt
      → IsWellFormed t
      → IsWellFormed (import_routes_into serde t d l).0
  unfolding import_routes_into import_routes
  routes-IsWellFormed s t d seen ups [] f g h w = w
  routes-IsWellFormed s t d seen ups (r ∷ l) f g h w =
      let (_, h₁) = >>-eq-ok _ _ h in
      let (hosts, h₂) = >>-eq-ok (check_hostnames_valid r.hostnames) _ h₁ in
      let (cidrs, h₃) = >>-eq-ok (check_matchers_valid r.matchers) _ h₂ in
      let (_, h₄) = >>-eq-ok (check_route_has_destination r.upstreams r.redirects) _ h₃ in
      let (redirect, h₅) = >>-eq-ok (check_redirect r.redirects) _ h₄ in
      let (refs, rest) = >>-eq-ok (import_references s ups r.upstreams) _ h₅ in
      routes-IsWellFormed s (record t { routes = insert t.routes r.id r }) _ (insert_set seen r.id)
        ups l f g rest
        (put_route t r.id r w (record {
          key = refl;
          references = references-ok s t ups r.upstreams f g refs;
          hostnames = check_hostnames_valid-ok r.hostnames hosts;
          remote = check_matchers_valid-ok r.matchers cidrs;
          redirect = check_redirect-ok r.redirects redirect;
        }))

  -- `t` is the state that the import changes, with the upstreams of the checked one.
  pub import_caddyfile-IsWellFormed :
      (s t : DesiredState) (p : ParsedCaddyfile)
      → t.upstreams ≡ s.upstreams
      → check_import_caddyfile s p ≡ ok tt
      → IsWellFormed t
      → IsWellFormed (apply_import_caddyfile serde t p).0
  unfolding apply_import_caddyfile check_import_caddyfile contains
  import_caddyfile-IsWellFormed s t p same h w =
      let (all, ups, routes) = >>=-eq-ok (import_upstreams s [] p.upstreams) _ h in
      let (left, d) = import_upstreams_into serde t [] p.upstreams in
      routes-IsWellFormed s left d [] all p.routes
        (λ u e. upstreams_grow t [] p.upstreams u (rw same e))
        (λ u e. seen_upstreams s t [] p.upstreams [] all ups (λ k m. cc) u e) routes
        (upstreams-IsWellFormed t [] p.upstreams w)
