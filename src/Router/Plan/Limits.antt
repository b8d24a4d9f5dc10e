-- ===== src/Router/Plan/Limits.antt =====
-- router/plan.py: the policy and the limits that a plan is made under.
use llm_fabric.Prelude.{
  Bool, true, false, not, ◌&&◌, Option, none, some, List, [], ◌∷◌, ◌++◌, String, ◌==◌, string_eq,
  ltb, if◌then◌else◌, Result, ok, ◌>>=◌, or_else,
}
use llm_fabric.Prelude.Float.{Float}
use llm_fabric.Errors.{ErrorClass}
use llm_fabric.Router.Tiers.{Grade}
use llm_fabric.Router.Registry.{Locality}
use llm_fabric.Router.Intent.{
  IntentClassification, allows_optimized_route, Modality, image, multimodal, QualityClass, maximum,
  LatencyClass, realtime, CostClass, minimal, RoutingConfig,
}
use llm_fabric.Router.Policy.{
  RoutePolicy, quality_first, latency_first, cost_first, balanced, is_declared_policy,
}
use llm_fabric.Router.Policy.Parse.{parse_policy}
use llm_fabric.Router.Fallback.Ledger.{FallbackBudget}
use llm_fabric.Router.Plan.Request.{TenantRoutingPolicy, RouteRequest, common}

-- `intent.quality_class is QualityClass.MAXIMUM`, and so on.
is_maximum : QualityClass → Bool
is_maximum maximum = true
is_maximum _ = false

is_realtime : LatencyClass → Bool
is_realtime realtime = true
is_realtime _ = false

is_minimal : CostClass → Bool
is_minimal minimal = true
is_minimal _ = false

is_visual : Modality → Bool
is_visual image = true
is_visual multimodal = true
is_visual _ = false

-- `intent.tools_required or intent.agent_required`
is_agentic : {F : Float} → IntentClassification F → Bool
is_agentic i = elim i.tools_required [ [] ↦ i.agent_required | t ∷ ts ↦ true ]

module _ {F : Float} where
  -- `_policy_from_intent`
  unfoldable pub policy_from_intent : Option (IntentClassification F) → Option RoutePolicy
  unfolding is_maximum is_realtime is_minimal allows_optimized_route
  policy_from_intent none = none
  policy_from_intent (some i) =
      if not (allows_optimized_route i)
      then none
      else (if is_maximum i.quality_class
          then some quality_first
          else (if is_realtime i.latency_class
              then some latency_first
              else (if is_minimal i.cost_class then some cost_first else none)))

  -- The policy that the intent gives, and the default one where it gives none.
  unfoldable pub inferred_policy : RoutePolicy → Option (IntentClassification F) → RoutePolicy
  unfolding policy_from_intent
  inferred_policy default intent = or_else (policy_from_intent intent) default

  -- `request.intent is not None and not request.intent.allows_optimized_route`
  unfoldable pub is_uncertain : Option (IntentClassification F) → Bool
  unfolding allows_optimized_route
  is_uncertain none = false
  is_uncertain (some i) = not (allows_optimized_route i)

  -- The end of `_resolve_policy`, behind the tenant's and the request's own policies.
  unfoldable pub alias_or_intent :
      RoutePolicy → Option String → Option (IntentClassification F) → Result ErrorClass RoutePolicy
  unfolding inferred_policy is_uncertain is_declared_policy parse_policy
  alias_or_intent default none intent =
      ok (if is_uncertain intent then balanced else inferred_policy default intent)
  alias_or_intent default (some name) intent =
      if name == ""
      then ok (if is_uncertain intent then balanced else inferred_policy default intent)
      else (do
        parsed ← parse_policy name
        ok (if is_uncertain intent && not (is_declared_policy parsed) then balanced else parsed))

  -- `tenant.policy`, where there is a tenant.
  unfoldable pub tenant_policy : Option (TenantRoutingPolicy F) → Option RoutePolicy
  tenant_policy none = none
  tenant_policy (some t) = t.policy

  -- `_resolve_policy`
  unfoldable pub resolve_policy :
      RoutePolicy
      → RouteRequest F
      → Option String
      → Option (TenantRoutingPolicy F)
      → Result ErrorClass RoutePolicy
  unfolding alias_or_intent tenant_policy
  resolve_policy default r alias_policy tenant = elim (tenant_policy tenant) [
    | some policy ↦ ok policy
    | none ↦ elim r.policy [
      | some policy ↦ ok policy
      | none ↦ alias_or_intent default alias_policy r.intent
    ]
  ]

  -- `_capabilities_for`, a set.
  unfoldable pub capabilities_for : RouteRequest F → List String
  unfolding is_visual is_agentic
  capabilities_for r = elim r.intent [
    | none ↦ r.required_capabilities
    | some i ↦
        if i.abstain
        then r.required_capabilities
        else r.required_capabilities
          ++ i.required_capabilities
          ++ (if i.structured_output then "structured_output" ∷ [] else [])
          ++ (if is_agentic i then "tools" ∷ [] else [])
          ++ (if is_visual i.modality then "vision" ∷ [] else [])
  ]

-- `_strictest_grade` and `_strictest_ceiling`
unfoldable pub strictest_grade : List (Option Grade) → Option Grade
strictest_grade [] = none
strictest_grade (none ∷ gs) = strictest_grade gs
strictest_grade (some g ∷ gs) = elim (strictest_grade gs) [
  | none ↦ some g
  | some h ↦ some (if ltb g h then h else g)
]

unfoldable pub strictest_ceiling : List (Option Grade) → Option Grade
strictest_ceiling [] = none
strictest_ceiling (none ∷ gs) = strictest_ceiling gs
strictest_ceiling (some g ∷ gs) = elim (strictest_ceiling gs) [
  | none ↦ some g
  | some h ↦ some (if ltb h g then h else g)
]

-- `_intersect_localities` of two sets
unfoldable pub intersect_localities :
    Option (List Locality) → Option (List Locality) → Option (List Locality)
unfolding common
intersect_localities none right = right
intersect_localities (some left) none = some left
intersect_localities (some left) (some right) = some (common left right)

-- `_apply_escalation`
unfoldable pub apply_escalation : {F : Float} → FallbackBudget F → RoutingConfig → FallbackBudget F
apply_escalation budget c =
    if c.version == "unversioned" && c.escalation.enabled
    then budget
    else (if not c.escalation.enabled then record budget { max_depth = 0 } else record budget {
      max_depth =
          if ltb c.escalation.max_steps budget.max_depth
          then c.escalation.max_steps
          else budget.max_depth;
    })
