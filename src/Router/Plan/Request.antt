-- ===== src/Router/Plan/Request.antt =====
-- router/plan.py: what a plan is made from, and the rules that remove a candidate.
use llm_fabric.Prelude.{
  ℕ, ◌+◌, Bool, Option, none, some, List, [], ◌∷◌, String, string_eq, ◌==◌, keep, or_else,
  if◌then◌else◌,
}
use llm_fabric.Prelude.Float.{Float}
use llm_fabric.Prelude.Dict
use llm_fabric.Prelude.Dict.{Dict}
use llm_fabric.Router.Tiers.{Grade}
use llm_fabric.Router.Registry.{Locality, local, private, is_among}
use llm_fabric.Router.Intent.{IntentClassification}
use llm_fabric.Router.Policy.{RoutePolicy}
use llm_fabric.Router.Fallback.Ledger.{FallbackBudget}

pub data ExclusionRule : Type 0 where
  disabled model_denied provider_not_permitted locality_not_permitted : ExclusionRule
  grade_below_minimum missing_capability context_too_small circuit_open : ExclusionRule
  traffic_shifted over_budget latency_slo_missed grade_above_maximum : ExclusionRule
  tier_not_preferred model_not_preferred lifecycle_not_approved not_probed : ExclusionRule
  not_evaluated not_approved not_approved_for_tier not_approved_for_workload : ExclusionRule
  artifact_revision_mismatch commercial_use_forbidden : ExclusionRule

-- The sentence that explains the rule is left out.
pub record Exclusion : Type 0 where
  pub model_id : String
  pub rule : ExclusionRule

pub record TenantRoutingPolicy (F : Float) : Type 0 where
  pub tenant_id : String
  pub policy : Option RoutePolicy
  pub allowed_localities : Option (List Locality)
  pub allowed_providers : Option (List String)
  pub denied_models : List String
  pub minimum_grade : Option Grade
  pub maximum_grade : Option Grade
  pub max_cost_per_request_usd : Option F.Carrier
  pub require_in_house : Bool
  pub fallback_budget : Option (FallbackBudget F)

abbrev pub in_house : List Locality
in_house = local ∷ private ∷ []

-- `left & right`
unfoldable pub common : List Locality → List Locality → List Locality
unfolding is_among
common left right = keep (λ l. is_among l right) left

-- `left & right if right else left`, where an empty set counts as absent.
unfoldable pub narrowed_by : List Locality → Option (List Locality) → List Locality
unfolding common
narrowed_by left none = left
narrowed_by left (some []) = left
narrowed_by left (some (l ∷ ls)) = common left (l ∷ ls)

-- `TenantRoutingPolicy.localities`
unfoldable pub localities : {F : Float} → TenantRoutingPolicy F → Option (List Locality)
unfolding narrowed_by
localities p =
    if p.require_in_house
    then some (narrowed_by in_house p.allowed_localities)
    else p.allowed_localities

-- `TenantRoutingPolicies`: the policies by tenant.
abbrev pub TenantRoutingPolicies : Float → Type 0
TenantRoutingPolicies F = Dict String (TenantRoutingPolicy F)

module _ {F : Float} where
  unfoldable pub get_policy :
      Option String → TenantRoutingPolicies F → Option (TenantRoutingPolicy F)
  get_policy none policies = none
  get_policy (some tenant) policies = if tenant == "" then none else Dict.get tenant policies

  unfoldable pub set_policy :
      TenantRoutingPolicy F → TenantRoutingPolicies F → TenantRoutingPolicies F
  set_policy p policies = Dict.put p.tenant_id p policies

  unfoldable pub remove_policy : String → TenantRoutingPolicies F → TenantRoutingPolicies F
  remove_policy tenant policies = Dict.remove tenant policies

pub record RouteRequest (F : Float) : Type 0 where
  pub requested_model : String
  pub tenant_id : Option String
  pub intent : Option (IntentClassification F)
  pub policy : Option RoutePolicy
  pub required_capabilities : List String
  pub minimum_grade : Option Grade
  pub maximum_grade : Option Grade
  pub intent_id : Option String
  pub prompt_tokens : ℕ
  pub max_output_tokens : Option ℕ
  pub latency_slo_ms : Option F.Carrier
  pub budget_usd : Option F.Carrier

module _ {F : Float} where
  -- `max_output_tokens or 0`
  unfoldable pub output_tokens : RouteRequest F → ℕ
  output_tokens r = or_else r.max_output_tokens 0

  unfoldable pub context_requirement : RouteRequest F → ℕ
  unfolding output_tokens
  context_requirement r = r.prompt_tokens + output_tokens r
