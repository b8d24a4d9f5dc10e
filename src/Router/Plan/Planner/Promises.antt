-- ===== src/Router/Plan/Planner/Promises.antt =====
-- What a plan promises: who may serve, and that every candidate is accounted for.
use llm_fabric.Prelude.{
  ℕ, ◌+◌, ◌≡◌, refl, sym, ap, ◌∙◌, arith, true, false, Option, none, some, List, [], ◌∷◌, String,
  string_eq, count, Every, Every-map, ok, keep,
}
use llm_fabric.Prelude.Float.{Float}
use llm_fabric.Router.Health.Tracker.{HealthTracker}
use llm_fabric.Router.Registry.{
  Locality, local, private, external, same_locality, is_among, keeps_data_in_house,
}
use llm_fabric.Router.Registry.References.{IsValid, look}
use llm_fabric.Router.Policy.{permitted_localities}
use llm_fabric.Router.Plan.Request.{
  TenantRoutingPolicy, in_house, common, narrowed_by, localities, get_policy, RouteRequest,
}
use llm_fabric.Router.Plan.Candidates.{Candidates, candidates}
use llm_fabric.Router.Plan.Candidates.Known.{candidates_known}
use llm_fabric.Router.Plan.Limits.{intersect_localities}
use llm_fabric.Router.Plan.Filter.{RoutePlanner}
use llm_fabric.Router.Plan.Filter.Accounts.{ids, names, decided}
use llm_fabric.Router.Plan.Filter.Fits.{IsFit}
use llm_fabric.Router.Plan.Narrow.{is_strict, is_exempt}
use llm_fabric.Router.Plan.Narrow.Approved.{IsCleared}
use llm_fabric.Router.Plan.Planner.{Planned, at_option, constraints, decide, plan}
use llm_fabric.Router.Plan.Planner.Made.{
  hard_constraints, plan_lem, decide-fits, decide-IsCleared, decide-accounts,
}

same_locality_lem : (l m : Locality) → same_locality l m ≡ true → l ≡ m
unfolding same_locality
same_locality_lem local local h = refl
same_locality_lem private private h = refl
same_locality_lem external external h = refl
same_locality_lem local private h = cc
same_locality_lem local external h = cc
same_locality_lem private local h = cc
same_locality_lem private external h = cc
same_locality_lem external local h = cc
same_locality_lem external private h = cc

is_among-common :
    (l : Locality) (left right : List Locality)
    → is_among l (common left right) ≡ true
    → (is_among l left ≡ true) × (is_among l right ≡ true)
unfolding common is_among keep
is_among-common l [] right h = cc
is_among-common l (m ∷ ms) right h =
    ground (arith, is_among-common l ms right, same_locality_lem l m)

is_among-narrowed :
    (l : Locality) (left : List Locality) (o : Option (List Locality))
    → is_among l (narrowed_by left o) ≡ true
    → is_among l left ≡ true
unfolding narrowed_by
is_among-narrowed l left none h = h
is_among-narrowed l left (some []) h = h
is_among-narrowed l left (some (m ∷ ms)) h = (is_among-common l left (m ∷ ms) h).0

is_among-in_house : (l : Locality) → is_among l in_house ≡ true → keeps_data_in_house l ≡ true
unfolding is_among keeps_data_in_house same_locality
is_among-in_house local h = refl
is_among-in_house private h = refl
is_among-in_house external h = cc

-- Only localities that keep the data in house are left, whatever else narrows them.
in_house_lem :
    {F : Float} (tenant : TenantRoutingPolicy F) (l : Locality) (policy : Option (List Locality))
    → tenant.require_in_house ≡ true
    → ((allowed : List Locality)
        → intersect_localities policy (localities tenant) ≡ some allowed
        → is_among l allowed ≡ true)
    → keeps_data_in_house l ≡ true
unfolding localities intersect_localities
in_house_lem tenant l none strict among =
    let left = narrowed_by in_house tenant.allowed_localities in
    is_among-in_house l
      (is_among-narrowed l in_house tenant.allowed_localities (among left (rw strict refl)))
in_house_lem tenant l (some policy) strict among =
    let left = narrowed_by in_house tenant.allowed_localities in
    is_among-in_house l (
      is_among-narrowed l in_house tenant.allowed_localities
        (is_among-common l policy left (among (common policy left) (rw strict refl))).1)

module _ {F : Float} (p : RoutePlanner F) (r : RouteRequest F) (clock : ℕ → F.Carrier)
    (t : HealthTracker F) (made : Planned F) where
  pub plan_fits :
      plan clock p r t ≡ ok made
      → (c : Candidates F) × (candidates r.requested_model p.registry ≡ ok c)
        × Every
            (IsFit p r (hard_constraints p r c made.policy) (get_policy r.tenant_id p.tenants))
            made.plan.ranked
  plan_fits h =
      let (c, found, rest) = plan_lem p r clock t made h in
      (c, found, rest.2 _ (decide-fits p r clock t c made.policy))

  allowed_lem :
      (tenant : TenantRoutingPolicy F)
      → get_policy r.tenant_id p.tenants ≡ some tenant
      → (c : Candidates F)
      → (hard_constraints p r c made.policy).localities
        ≡ intersect_localities (permitted_localities made.policy) (localities tenant)
  unfolding constraints
  allowed_lem tenant e c =
      ap (λ o. intersect_localities (permitted_localities made.policy) (at_option localities o)) e

  -- A tenant's traffic that must stay in house is planned for no external deployment.
  pub plan_in_house :
      (tenant : TenantRoutingPolicy F)
      → get_policy r.tenant_id p.tenants ≡ some tenant
      → tenant.require_in_house ≡ true
      → plan clock p r t ≡ ok made
      → Every (λ m. keeps_data_in_house m.locality ≡ true) made.plan.ranked
  plan_in_house tenant e strict h =
      let (c, found, fit) = plan_fits h in
      Every-map
        (λ m fits.
          in_house_lem tenant m.locality (permitted_localities made.policy) strict
            (λ allowed place. fits.in_place allowed (allowed_lem tenant e c ∙ place)))
        made.plan.ranked fit

  module _ (valid : IsValid p.registry) where
    named :
        (c : Candidates F)
        → candidates r.requested_model p.registry ≡ ok c
        → Every (λ m. look p.registry m.id ≡ some m) c.specs
    named c found =
        let both = candidates_known p.registry r.requested_model valid in
        let (c', found', named', filled) = both.0 (both.1 c found) in
        let same : c' ≡ c = cc in rw (sym same) named'

    -- Where approval is required, and the request is not pinned or pinned requests are not exempt, a
    -- plan ranks only deployments whose approval is bound to evidence, matches their identity and,
    -- where it is limited to some tiers or workloads, covers the tier and the workload that are asked
    -- for.
    pub plan-IsCleared :
        is_strict p made.policy ≡ true
        → is_exempt p made.policy ≡ false
        → plan clock p r t ≡ ok made
        → Every (IsCleared r) made.plan.ranked
    plan-IsCleared strict required h =
        let (c, found, rest) = plan_lem p r clock t made h in
        rest.2 _ (
          decide-IsCleared p r clock t c made.policy (look p.registry) (named c found) strict
            required)

    -- Where approval is required, a plan decides on each candidate once: a deployment's name stands
    -- among the ranked ones and the excluded ones together as often as among the candidates.
    pub plan_accounts :
        is_strict p made.policy ≡ true
        → plan clock p r t ≡ ok made
        → (c : Candidates F) × (candidates r.requested_model p.registry ≡ ok c)
          × ((k : String) → decided k made.plan.ranked made.excluded ≡ count k (ids c.specs))
    plan_accounts strict h =
        let (c, found, rest) = plan_lem p r clock t made h in
        (
          c,
          found,
          λ k.
              ap (λ e. decided k made.plan.ranked e) rest.0
              ∙ ap (λ n. n + count k (names (decide clock p r c made.policy t).1.1)) (rest.1 k)
              ∙ decide-accounts p r clock t c made.policy (look p.registry) (named c found) strict
                  k,
        )
