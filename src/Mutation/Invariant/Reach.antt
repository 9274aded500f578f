-- ===== src/Mutation/Invariant/Reach.antt =====
-- Every mutation that succeeds keeps the invariant, so every state that is reached satisfies it.
use trilithon.Base.{arith, ◌≡◌, refl, ℕ, suc, ap, Option, none, some, ok, err, Result, ◌∙◌, List}
use trilithon.Base.Int.{ℤ, pos, IsI64, suc_ℤ}
use trilithon.Base.BTreeMap.{get}
use trilithon.Model.State.{DesiredState, empty}
use trilithon.Mutation.Types.{MutationError, Mutation, MutationOutcome, CapabilitySet, DiffChange}
use trilithon.Mutation.Validate.Import.{pre_conditions}
use trilithon.Mutation.Steps.{Serde, Applied}
use trilithon.Mutation.Apply.{apply_variant, apply_mutation}
use trilithon.Mutation.Apply.Pipeline.{apply_mutation-Passed, version-apply_mutation}
use trilithon.Mutation.Invariant.{IsWellFormed}
use trilithon.Mutation.Invariant.Steps.{
  at_version, create_route-IsWellFormed, route_patch-IsWellFormed, delete_route-IsWellFormed,
  create_upstream-IsWellFormed, upstream_patch-IsWellFormed, delete_upstream-IsWellFormed,
  attach_policy-IsWellFormed, detach_policy-IsWellFormed, upgrade_policy-IsWellFormed,
  set_global_config-IsWellFormed, set_tls_config-IsWellFormed,
}
use trilithon.Mutation.Invariant.Import.{import_caddyfile-IsWellFormed}

none-some : {A : Type 0} {a : A} → ◌≡◌ {A = Option A} none (some a) → ⊥
none-some e = cc

pub empty-IsWellFormed : IsWellFormed empty
unfolding get
empty-IsWellFormed = record {
  routes_sorted = tt;
  upstreams_sorted = tt;
  routes = λ k r e. absurd (none-some e);
  upstreams = λ k u e. absurd (none-some e);
  ask = tt;
}

module _ (serde : Serde) where
  -- A step that cannot fail.
  done :
      {a : Applied} {n : DesiredState} {d : List DiffChange}
      → ◌≡◌ {A = Result MutationError Applied} (ok a) (ok (n, d))
      → IsWellFormed a.0
      → IsWellFormed n
  done {a} {n} {d} e w =
      let same : a ≡ (n, d) = cc in rw (← ap {B = DesiredState} (λ x. x.0) same) w

  variant-IsWellFormed :
      (s n : DesiredState) (v : ℤ) (m : Mutation) (d : List DiffChange)
      → IsWellFormed s
      → pre_conditions s m ≡ ok tt
      → apply_variant serde s (record s { version = v }) m ≡ ok (n, d)
      → IsWellFormed n
  unfolding apply_variant pre_conditions
  variant-IsWellFormed s n v (Mutation.create_route _ r) d w h e =
      done e (create_route-IsWellFormed serde s v w r h)
  variant-IsWellFormed s n v (Mutation.update_route _ id p) d w h e =
      route_patch-IsWellFormed serde s v w n d id p h e
  variant-IsWellFormed s n v (Mutation.delete_route _ id) d w h e =
      done e (delete_route-IsWellFormed serde s v w id)
  variant-IsWellFormed s n v (Mutation.create_upstream _ u) d w h e =
      done e (create_upstream-IsWellFormed serde s v w u)
  variant-IsWellFormed s n v (Mutation.update_upstream _ id p) d w h e =
      upstream_patch-IsWellFormed serde s v w n d id p e
  variant-IsWellFormed s n v (Mutation.delete_upstream _ id) d w h e =
      done e (delete_upstream-IsWellFormed serde s v w id h)
  variant-IsWellFormed s n v (Mutation.attach_policy _ id preset k) d w h e =
      attach_policy-IsWellFormed serde s v w n d id preset k e
  variant-IsWellFormed s n v (Mutation.detach_policy _ id) d w h e =
      detach_policy-IsWellFormed serde s v w n d id e
  variant-IsWellFormed s n v (Mutation.upgrade_policy _ id k) d w h e =
      upgrade_policy-IsWellFormed serde s v w n d id k e
  variant-IsWellFormed s n v (Mutation.set_global_config _ p) d w h e =
      done e (set_global_config-IsWellFormed serde s v w p)
  variant-IsWellFormed s n v (Mutation.set_tls_config _ p) d w h e =
      done e (set_tls_config-IsWellFormed serde s v w p h)
  variant-IsWellFormed s n v (Mutation.import_from_caddyfile _ p) d w h e =
      done e (
        import_caddyfile-IsWellFormed serde s (record s { version = v }) p refl h
          (at_version s v w))
  variant-IsWellFormed s n v _ d w h e = cc

  -- A mutation that succeeds on a well-formed state leaves a well-formed one: the maps are in the order
  -- of their keys, ids are their keys, no route names a missing upstream, and host names, CIDR blocks,
  -- redirects and the ask URL are valid.
  pub apply_mutation-IsWellFormed :
      (s : DesiredState) (m : Mutation) (caps : CapabilitySet) (o : MutationOutcome)
      → IsWellFormed s
      → apply_mutation serde s m caps ≡ ok o
      → IsWellFormed o.new_state
  apply_mutation-IsWellFormed s m caps o w h =
      let passed = apply_mutation-Passed serde s m caps o h in
      variant-IsWellFormed s o.new_state (suc_ℤ s.version) m o.diff.changes w passed.allowed
        passed.applied

  -- The states that mutations reach from the empty one, by the number that succeeded.
  pub data Reach : ℕ → DesiredState → Type 0 where
    start : Reach 0 empty
    step :
        {n : ℕ} {s : DesiredState} (m : Mutation) (caps : CapabilitySet) (o : MutationOutcome)
        → Reach n s
        → apply_mutation serde s m caps ≡ ok o
        → Reach (suc n) o.new_state
    refused :
        {n : ℕ} {s : DesiredState} (m : Mutation) (caps : CapabilitySet) (e : MutationError)
        → Reach n s
        → apply_mutation serde s m caps ≡ err e
        → Reach n s

  -- A state that mutations reach from the empty one is well-formed, and its version is the number
  -- of the mutations that succeeded and is an `i64`.
  pub Reach-IsWellFormed :
      (n : ℕ) (s : DesiredState)
      → Reach n s
      → IsWellFormed s × (s.version ≡ pos n) × IsI64 s.version
  Reach-IsWellFormed _ _ start = (empty-IsWellFormed, refl, omega arith)
  Reach-IsWellFormed _ _ (step {n} {s} m caps o r h) =
      let (w, v, bound) = Reach-IsWellFormed n s r in
      let (next, next_bound) = version-apply_mutation serde s m caps o h bound in
      (apply_mutation-IsWellFormed s m caps o w h, next ∙ ap suc_ℤ v, next_bound)
  Reach-IsWellFormed _ _ (refused {n} {s} m caps e r h) = Reach-IsWellFormed n s r
