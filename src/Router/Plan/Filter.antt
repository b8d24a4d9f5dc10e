-- ===== src/Router/Plan/Filter.antt =====
-- router/plan.py: the planner, its constraints, and `_filter` with what it calls.
pub mod Fits
pub mod Accounts
use llm_fabric.Prelude.{
  ℕ, suc, ◌+◌, Bool, true, false, not, ◌&&◌, ◌||◌, Option, none, some, List, [], ◌∷◌, String, ◌==◌,
  string_eq, nat_beq, leb, ltb, contains, if◌then◌else◌, or_else,
}
use llm_fabric.Prelude.Float.{Float, fmin}
use llm_fabric.Router.Tiers.{Grade}
use llm_fabric.Router.Capabilities.{missing}
use llm_fabric.Router.Health.Tracker.{HealthTracker, HealthSnapshot, admits, snapshot}
use llm_fabric.Router.Registry.{
  Locality, is_among, PromotionState, disabled as lifecycle_disabled, same_state, ModelSpec,
  cost_usd, estimated_total_ms, fits_context,
}
use llm_fabric.Router.Registry.Models.{ModelRegistry}
use llm_fabric.Router.Intent.{RoutingConfig}
use llm_fabric.Router.Policy.{RoutePolicy}
use llm_fabric.Router.Fallback.Graph.{FallbackGraph}
use llm_fabric.Router.Fallback.Ledger.{FallbackBudget}
use llm_fabric.Router.Plan.Request.{
  ExclusionRule, disabled, model_denied, provider_not_permitted, locality_not_permitted,
  grade_below_minimum, missing_capability, context_too_small, circuit_open, traffic_shifted,
  over_budget, latency_slo_missed, grade_above_maximum, commercial_use_forbidden, Exclusion,
  TenantRoutingPolicy, TenantRoutingPolicies, RouteRequest, output_tokens, context_requirement,
}

-- Of `RoutePlanner`, all but the health tracker, which planning changes. `traffic` is the gate's
-- `excludes`, where there is a gate.
pub record RoutePlanner (F : Float) : Type 0 where
  pub registry : ModelRegistry F
  pub tenants : TenantRoutingPolicies F
  pub default_policy : RoutePolicy
  pub routing : RoutingConfig
  pub budget : FallbackBudget F
  pub declared_graph : FallbackGraph
  pub traffic : Option (String → Bool)
  pub require_approved : Bool
  pub pin_requires_approved : Bool
  pub commercial_use_required : Bool

-- The arguments of `_filter` that `plan` computes.
pub record Constraints : Type 0 where
  pub required : List String
  pub minimum_grade : Option Grade
  pub maximum_grade : Option Grade
  pub localities : Option (List Locality)

-- What `_filter` returns, with the tracker that its questions leave.
pub record Filtered (F : Float) : Type 0 where
  pub health : HealthTracker F
  pub eligible : List (ModelSpec F)
  pub excluded : List Exclusion

-- `spec.commercial_use is False`
unfoldable pub forbidden : Option Bool → Bool
forbidden (some false) = true
forbidden _ = false

-- `self._traffic is not None and self._traffic.excludes(id)`
unfoldable pub gate_excludes : Option (String → Bool) → String → Bool
gate_excludes none id = false
gate_excludes (some excludes) id = excludes id

-- `allowed and provider not in allowed`
unfoldable pub provider_refused : Option (List String) → String → Bool
provider_refused none provider = false
provider_refused (some []) provider = false
provider_refused (some (p ∷ ps)) provider = not (contains provider (p ∷ ps))

unfoldable pub locality_refused : Option (List Locality) → Locality → Bool
unfolding is_among
locality_refused none l = false
locality_refused (some ls) l = not (is_among l ls)

unfoldable pub below_minimum : Option Grade → Option Grade → Bool
below_minimum none grade = false
below_minimum (some minimum) none = true
below_minimum (some minimum) (some g) = ltb g minimum

unfoldable pub above_maximum : Option Grade → Option Grade → Bool
above_maximum (some maximum) (some g) = ltb maximum g
above_maximum _ _ = false

-- `bool(missing)`
unfoldable pub lacks : {F : Float} → List String → ModelSpec F → Bool
unfolding missing
lacks required m = elim (missing required m.capabilities) [ [] ↦ false | c ∷ cs ↦ true ]

-- `_tightest` of two ceilings
unfoldable pub tightest : (F : Float) → Option F.Carrier → Option F.Carrier → Option F.Carrier
unfolding fmin
tightest F (some a) (some b) = some (fmin F a b)
tightest F (some a) none = some a
tightest F none b = b

-- `observed or estimate`, where 0.0 counts as missing.
unfoldable pub observed_or : (F : Float) → Option F.Carrier → Option F.Carrier → Option F.Carrier
observed_or F none estimate = estimate
observed_or F (some x) estimate =
    if F.leb x (F.of_nat 0) && F.leb (F.of_nat 0) x then estimate else some x

-- The rule of the first test that holds: each test of the loop ends in `continue`.
unfoldable pub first_rule : List (Bool × ExclusionRule) → Option ExclusionRule
first_rule [] = none
first_rule ((holds, rule) ∷ tests) = if holds then some rule else first_rule tests

-- `tenant.denied_models`, where there is a tenant, and so on.
unfoldable pub denied_models : {F : Float} → Option (TenantRoutingPolicy F) → List String
denied_models none = []
denied_models (some t) = t.denied_models

unfoldable pub allowed_providers :
    {F : Float} → Option (TenantRoutingPolicy F) → Option (List String)
allowed_providers none = none
allowed_providers (some t) = t.allowed_providers

unfoldable pub tenant_cost_cap : {F : Float} → Option (TenantRoutingPolicy F) → Option F.Carrier
tenant_cost_cap none = none
tenant_cost_cap (some t) = t.max_cost_per_request_usd

module _ {F : Float} where
  open F use {Carrier, ltb as flt}

  -- `_over_budget`: whether there is a reason.
  unfoldable pub is_over_budget :
      ModelSpec F → RouteRequest F → Option (TenantRoutingPolicy F) → Bool
  unfolding tightest tenant_cost_cap cost_usd output_tokens
  is_over_budget m r tenant = elim (tightest F r.budget_usd (tenant_cost_cap tenant)) [
    | none ↦ false
    | some ceiling ↦ elim (cost_usd m r.prompt_tokens (output_tokens r)) [
      | none ↦ false
      | some estimate ↦ flt ceiling estimate
    ]
  ]

  -- The latency of a snapshot that has seen traffic.
  unfoldable pub observed_latency : HealthSnapshot F → Option Carrier
  observed_latency s = if nat_beq s.samples 0 then none else s.ewma_latency_ms

  -- `_misses_slo`: whether there is a reason, with the tracker that the snapshot leaves.
  unfoldable pub misses_slo :
      ModelSpec F → RouteRequest F → HealthTracker F → HealthTracker F × Bool
  unfolding observed_or observed_latency estimated_total_ms output_tokens
  misses_slo m r t = elim r.latency_slo_ms [
    | none ↦ (t, false)
    | some slo ↦
        let (t', s) = snapshot m.deployment_id t in
        (
          t',
          elim (observed_or F (observed_latency s)
              (estimated_total_ms m.performance (output_tokens r))) [
                | none ↦ false
                | some estimate ↦ flt slo estimate
              ],
        )
  ]

  -- The tests of the loop that the tracker has no part in, in their order, each with its rule.
  unfoldable pub fixed_tests :
      RoutePlanner F
      → RouteRequest F
      → Constraints
      → Option (TenantRoutingPolicy F)
      → ModelSpec F
      → List (Bool × ExclusionRule)
  unfolding same_state denied_models allowed_providers forbidden gate_excludes provider_refused
      locality_refused below_minimum above_maximum lacks context_requirement fits_context
  fixed_tests p r c tenant m =
      let needed = context_requirement r in
      (not m.enabled, disabled)
      ∷ (same_state m.lifecycle lifecycle_disabled, disabled)
      ∷ (p.commercial_use_required && forbidden m.commercial_use, commercial_use_forbidden)
      ∷ (gate_excludes p.traffic m.id, traffic_shifted)
      ∷ (contains m.id (denied_models tenant), model_denied)
      ∷ (provider_refused (allowed_providers tenant) m.provider, provider_not_permitted)
      ∷ (locality_refused c.localities m.locality, locality_not_permitted)
      ∷ (below_minimum c.minimum_grade m.grade, grade_below_minimum)
      ∷ (above_maximum c.maximum_grade m.grade, grade_above_maximum)
      ∷ (lacks c.required m, missing_capability)
      ∷ (not (nat_beq needed 0) && not (fits_context needed m), context_too_small)
      ∷ []

  -- The tests behind them, with the clock reading that `admits` makes.
  unfoldable pub measured_rule :
      Carrier
      → RouteRequest F
      → Option (TenantRoutingPolicy F)
      → ModelSpec F
      → HealthTracker F
      → HealthTracker F × Option ExclusionRule
  unfolding admits snapshot is_over_budget misses_slo
  measured_rule clock r tenant m t =
      let (t', admitted) = admits clock m.deployment_id t in
      if not admitted
      then ((snapshot m.deployment_id t').0, some circuit_open)
      else (if is_over_budget m r tenant
          then (t', some over_budget)
          else (let (t'', missed) = misses_slo m r t' in
              (t'', if missed then some latency_slo_missed else none)))

  -- One round of the loop.
  unfoldable pub verdict :
      Carrier
      → RoutePlanner F
      → RouteRequest F
      → Constraints
      → Option (TenantRoutingPolicy F)
      → ModelSpec F
      → HealthTracker F
      → HealthTracker F × Option ExclusionRule
  unfolding fixed_tests first_rule measured_rule
  verdict clock p r c tenant m t = elim (first_rule (fixed_tests p r c tenant m)) [
    | some rule ↦ (t, some rule)
    | none ↦ measured_rule clock r tenant m t
  ]

  -- What a round does to the two lists, which are built from their ends.
  unfoldable pub sorted_in : ModelSpec F → Option ExclusionRule → Filtered F → Filtered F
  sorted_in m none f = record f { eligible = m ∷ f.eligible }
  sorted_in m (some rule) f = record f {
    excluded = (record { model_id = m.id; rule = rule }) ∷ f.excluded;
  }

  -- `_filter`. The clock gives the reading of each round.
  unfoldable pub filter :
      (ℕ → Carrier)
      → RoutePlanner F
      → RouteRequest F
      → Constraints
      → Option (TenantRoutingPolicy F)
      → ℕ
      → List (ModelSpec F)
      → HealthTracker F
      → Filtered F
  unfolding verdict sorted_in
  filter clock p r c tenant n [] t = record { health = t; eligible = []; excluded = [] }
  filter clock p r c tenant n (m ∷ ms) t =
      let (t', rule) = verdict (clock n) p r c tenant m t in
      sorted_in m rule (filter clock p r c tenant (suc n) ms t')
