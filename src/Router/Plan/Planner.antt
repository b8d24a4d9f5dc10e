-- ===== src/Router/Plan/Planner.antt =====
-- router/plan.py: `RoutePlanner.plan`, from the request to the plan that the engine walks.
pub mod Served
pub mod Made
pub mod Promises
pub mod Examples
use llm_fabric.Prelude.{
  ℕ, ◌+◌, Bool, true, false, not, Option, none, some, List, [], ◌∷◌, ◌++◌, map, String, string_eq,
  contains, keep, length, or_else, if◌then◌else◌, Result, ok, err, ◌>>=◌,
}
use llm_fabric.Prelude.Float.{Float}
use llm_fabric.Prelude.Dict
use llm_fabric.Prelude.Dict.{Dict}
use llm_fabric.Errors.{ErrorClass}
use llm_fabric.Router.Tiers.{Grade}
use llm_fabric.Router.Health.Tracker.{HealthTracker, HealthSnapshot, snapshot}
use llm_fabric.Router.Registry.{ModelSpec}
use llm_fabric.Router.Registry.Models.{ModelRegistry, Alias, alias}
use llm_fabric.Router.Intent.{
  IntentClassification, IntentRoutePolicy, RoutingConfig, policy_for_request, maximum_grade,
  configured_maximum,
}
use llm_fabric.Router.Policy.{RoutePolicy, permitted_localities, policy_weights}
use llm_fabric.Router.Policy.Features.{ScoringInputs}
use llm_fabric.Router.Policy.Score.{ScoredCandidate, score_candidates}
use llm_fabric.Router.Fallback.Graph.{FallbackGraph}
use llm_fabric.Router.Fallback.Ledger.{FallbackBudget}
use llm_fabric.Router.Engine.Walk.{RoutePlan}
use llm_fabric.Router.Plan.{graph_for}
use llm_fabric.Router.Plan.Request.{
  Exclusion, TenantRoutingPolicy, get_policy, localities, RouteRequest, output_tokens,
}
use llm_fabric.Router.Plan.Candidates.{Candidates, candidates}
use llm_fabric.Router.Plan.Limits.{
  resolve_policy, capabilities_for, strictest_grade, strictest_ceiling, intersect_localities,
  apply_escalation,
}
use llm_fabric.Router.Plan.Filter.{RoutePlanner, Constraints, Filtered, filter}
use llm_fabric.Router.Plan.Narrow.{Decision, narrow_to_intent_policy, narrow_to_approved}

-- Of the plan, the part that the engine walks, with the policy, the exclusions and the tracker that
-- planning leaves.
pub record Planned (F : Float) : Type 0 where
  pub plan : RoutePlan F
  pub policy : RoutePolicy
  pub excluded : List Exclusion
  pub health : HealthTracker F

-- `INTENT_QUALITY_DIMENSIONS`
abbrev pub quality_dimensions : Dict String String
quality_dimensions =
    ("coding", "coding")
    ∷ ("agent", "agent")
    ∷ ("reasoning", "reasoning")
    ∷ ("math", "math")
    ∷ ("rag", "rag")
    ∷ ("research", "rag")
    ∷ ("tool_use", "tool_use")
    ∷ ("extraction", "structured_output")
    ∷ ("classification", "structured_output")
    ∷ ("data_analysis", "reasoning")
    ∷ []

-- What a method finds in an object that may not be there.
abbrev pub at_option {ℓ κ} : {A : Type ℓ} {B : Type κ} → (A → Option B) → Option A → Option B
at_option f none = none
at_option f (some a) = f a

abbrev policy_capabilities : Option IntentRoutePolicy → List String
policy_capabilities none = []
policy_capabilities (some p) = p.required_capabilities

module _ {F : Float} where
  -- `_quality_dimension`
  unfoldable pub quality_dimension : Option (IntentClassification F) → Option String
  quality_dimension none = none
  quality_dimension (some i) = if i.abstain then none else Dict.get i.domain quality_dimensions

  -- `request.required_capabilities`, with those of the alias.
  unfoldable pub hard_required : RouteRequest F → Option Alias → List String
  hard_required r none = r.required_capabilities
  hard_required r (some a) = r.required_capabilities ++ a.requires

  -- `intent_required - hard_required`
  unfoldable pub extras : RouteRequest F → Option IntentRoutePolicy → List String → List String
  unfolding capabilities_for
  extras r intent_policy hard =
      keep (λ c. not (contains c hard)) (capabilities_for r ++ policy_capabilities intent_policy)

  -- The constraints, but for the capabilities.
  unfoldable pub constraints :
      RoutePlanner F
      → RouteRequest F
      → Option Grade
      → RoutePolicy
      → Option IntentRoutePolicy
      → Option (TenantRoutingPolicy F)
      → List String
      → Constraints
  unfolding strictest_grade strictest_ceiling intersect_localities permitted_localities localities
  constraints p r alias_grade policy intent_policy tenant required = record {
    required = required;
    minimum_grade =
        strictest_grade
          (r.minimum_grade ∷ alias_grade ∷ at_option (λ t. t.minimum_grade) tenant ∷ []);
    maximum_grade = strictest_ceiling (
        r.maximum_grade
        ∷ at_option (λ t. t.maximum_grade) tenant
        ∷ at_option maximum_grade intent_policy
        ∷ configured_maximum p.routing
        ∷ []);
    localities = intersect_localities (permitted_localities policy) (at_option localities tenant);
  }

  -- `if not eligible and extras:` the second filtering takes the place of the first.
  unfoldable pub retried : List (ModelSpec F) → List String → Filtered F → Filtered F → Filtered F
  retried (m ∷ ms) more once again = once
  retried [] [] once again = once
  retried [] (c ∷ cs) once again = again

  -- The two filterings, of which the second one is without the extras. Its clock readings are behind
  -- those of the first.
  unfoldable pub filter_twice :
      (ℕ → F.Carrier)
      → RoutePlanner F
      → RouteRequest F
      → (List String → Constraints)
      → Option (TenantRoutingPolicy F)
      → List String
      → List String
      → List (ModelSpec F)
      → HealthTracker F
      → Filtered F
  unfolding filter retried
  filter_twice clock p r limits tenant hard more ms t =
      let once = filter clock p r (limits (hard ++ more)) tenant 0 ms t in
      retried once.eligible more once
        (filter clock p r (limits hard) tenant (length ms) ms once.health)

  -- The snapshots of the eligible deployments, with the tracker that they leave.
  unfoldable pub snapshots :
      List (ModelSpec F)
      → Dict String (HealthSnapshot F)
      → HealthTracker F
      → HealthTracker F × Dict String (HealthSnapshot F)
  unfolding snapshot
  snapshots [] d t = (t, d)
  snapshots (m ∷ ms) d t =
      let (t', s) = snapshot m.deployment_id t in snapshots ms (Dict.put m.deployment_id s d) t'

  unfoldable pub scoring_inputs : RouteRequest F → Dict String (HealthSnapshot F) → ScoringInputs F
  unfolding quality_dimension output_tokens
  scoring_inputs r health = record {
    health = health;
    quality_dimension = quality_dimension r.intent;
    expected_output_tokens = output_tokens r;
  }

  -- The deployments in the order of their scores.
  unfoldable pub rank :
      RouteRequest F
      → RoutePolicy
      → Dict String (HealthSnapshot F)
      → List (ModelSpec F)
      → List (ModelSpec F)
  unfolding score_candidates policy_weights scoring_inputs
  rank r policy health ms =
      map (λ c. c.spec)
        (score_candidates policy (scoring_inputs r health) (policy_weights F policy) ms).candidates

  -- The record that `plan` returns.
  unfoldable pub planned :
      RoutePlanner F
      → RoutePolicy
      → Option (TenantRoutingPolicy F)
      → List Exclusion
      → HealthTracker F
      → List (ModelSpec F)
      → FallbackGraph
      → Planned F
  unfolding apply_escalation
  planned p policy tenant excluded t ranked graph =
      let budget = or_else (at_option (λ x. x.fallback_budget) tenant) p.budget in
      record {
        plan = record {
          selected = elim ranked [ [] ↦ none | m ∷ ms ↦ some m ];
          ranked = ranked;
          graph = graph;
          budget = apply_escalation budget p.routing;
        };
        policy = policy;
        excluded = excluded;
        health = t;
      }

  -- The end of `plan`, for the deployments that are left.
  unfoldable pub plan_for :
      RoutePlanner F
      → RouteRequest F
      → RoutePolicy
      → Option (TenantRoutingPolicy F)
      → Decision F
      → HealthTracker F
      → Result ErrorClass (Planned F)
  unfolding snapshots rank planned graph_for
  plan_for p r policy tenant d t =
      let (t', health) = snapshots d.0 [] t in
      let ranked = rank r policy health d.0 in
      do
        graph ← graph_for p.declared_graph (map (λ m. m.id) ranked)
        ok (planned p policy tenant d.1 t' ranked graph)

  -- The deployments that `plan` ranks, and the exclusions, for a request that is resolved.
  unfoldable pub decide :
      (ℕ → F.Carrier)
      → RoutePlanner F
      → RouteRequest F
      → Candidates F
      → RoutePolicy
      → HealthTracker F
      → HealthTracker F × Decision F
  unfolding get_policy policy_for_request hard_required alias extras constraints filter_twice
      narrow_to_intent_policy narrow_to_approved
  decide clock p r c policy t =
      let tenant = get_policy r.tenant_id p.tenants in
      let intent_policy = policy_for_request p.routing r.intent r.intent_id in
      let hard = hard_required r (alias r.requested_model p.registry) in
      let f =
        filter_twice clock p r (constraints p r c.minimum_grade policy intent_policy tenant) tenant
          hard (extras r intent_policy hard) c.specs t in
      (
        f.health,
        narrow_to_approved p policy r
            (narrow_to_intent_policy intent_policy (f.eligible, f.excluded)),
      )

  -- `plan`
  unfoldable pub plan :
      (ℕ → F.Carrier)
      → RoutePlanner F
      → RouteRequest F
      → HealthTracker F
      → Result ErrorClass (Planned F)
  unfolding candidates resolve_policy decide plan_for get_policy
  plan clock p r t =
      let tenant = get_policy r.tenant_id p.tenants in
      do
        c ← candidates r.requested_model p.registry
        policy ← resolve_policy p.default_policy r c.policy tenant
        plan_for p r policy tenant (decide clock p r c policy t).1 (decide clock p r c policy t).0

  -- `require_plan`
  unfoldable pub require_plan :
      (ℕ → F.Carrier)
      → RoutePlanner F
      → RouteRequest F
      → HealthTracker F
      → Result ErrorClass (Planned F)
  unfolding plan
  require_plan clock p r t = do
    made ← plan clock p r t
    elim made.plan.selected [ none ↦ err ErrorClass.no_candidate | some m ↦ ok made ]
