-- ===== src/Router/Plan/Planner/Examples.antt =====
-- Tests of `plan`: a tenant whose traffic stays in house, with an external deployment that is cheaper.
use llm_fabric.Prelude.{
  ℕ, ◌≡◌, ◌↔◌, refl, true, false, none, some, List, [], ◌∷◌, String, string_eq, nat_eq, count, keep,
  Every, ok, err, first,
}
use llm_fabric.Prelude.Dict
use llm_fabric.Prelude.Float.{whole}
use llm_fabric.Router.Registry.{ModelSpec, Locality, local, external, approved, keeps_data_in_house}
use llm_fabric.Router.Registry.Models.{Alias, ModelRegistry, make_registry, replace, known}
use llm_fabric.Router.Registry.Made.{IsMade}
use llm_fabric.Router.Registry.Accepted.{make_registry_iff}
use llm_fabric.Router.Registry.References.{IsValid, make_registry-IsValid, replace-IsValid}
use llm_fabric.Router.Health.Tracker.{HealthTracker, new_tracker}
use llm_fabric.Router.Health.Tracker.{policy_for, state_of, store}
use llm_fabric.Router.Health.Breaker.{admit, new_state}
use llm_fabric.Router.Tiers.{parse_service_tier}
use llm_fabric.Router.Intent.{configured_maximum}
use llm_fabric.Router.Policy.{balanced}
use llm_fabric.Router.Fallback.Graph.{of_edges}
use llm_fabric.Router.Plan.Request.{
  TenantRoutingPolicy, RouteRequest, get_policy, locality_not_permitted,
}
use llm_fabric.Router.Plan.Candidates.{Candidates, candidates}
use llm_fabric.Router.Plan.Candidates.Known.{IsResolved, candidates_known}
use llm_fabric.Router.Plan.Filter.{RoutePlanner}
use llm_fabric.Router.Plan.Filter.Accounts.{ids, decided}
use llm_fabric.Router.Plan.Narrow.{is_strict, is_exempt}
use llm_fabric.Router.Plan.Narrow.Approved.{IsCleared}
use llm_fabric.Router.Plan.Planner.{Planned, planned, plan}
use llm_fabric.Router.Plan.Planner.Promises.{plan_in_house, plan-IsCleared, plan_accounts}

abbrev pub deployment : String → Locality → ℕ → ModelSpec whole
deployment id place price = record {
  id = id;
  provider = id;
  provider_model = id;
  deployment_id = id;
  grade = some 4;
  context_window = some 4000;
  recommended_context_tokens = none;
  input_cost_per_mtok = some price;
  output_cost_per_mtok = some price;
  capabilities = record { declared = "tools" ∷ []; effective = "tools" ∷ [] };
  quality = [];
  performance = record { p50_ttft_ms = none; p50_tpot_ms = none };
  locality = place;
  enabled = true;
  fallbacks = [];
  revision = none;
  digest = none;
  commercial_use = none;
  tiers = [];
  lifecycle = approved;
  approved_tiers = [];
  approved_workloads = [];
  promotion_identity_match = true;
  promotion_evidence_bound = true;
}

abbrev models : List (ModelSpec whole)
models = deployment "near" local 8 ∷ deployment "far" external 2 ∷ deployment "next" local 6 ∷ []

abbrev auto : Alias
auto = record {
  id = "auto";
  candidates = "near" ∷ "far" ∷ "next" ∷ [];
  policy = none;
  requires = "tools" ∷ [];
  minimum_grade = some 2;
}

abbrev registry : ModelRegistry whole
registry = record {
  models =
      ("near", deployment "near" local 8)
      ∷ ("far", deployment "far" external 2)
      ∷ ("next", deployment "next" local 6)
      ∷ [];
  aliases = ("auto", auto) ∷ [];
}

make_registry_iff_example :
    (make_registry models (auto ∷ []) ≡ ok registry) ↔ IsMade models (auto ∷ []) registry
make_registry_iff_example = make_registry_iff models (auto ∷ []) registry

make_registry_test : make_registry models (auto ∷ []) ≡ ok registry
unfolding make_registry Dict.get Dict.put
make_registry_test = refl

abbrev tenant : TenantRoutingPolicy whole
tenant = record {
  tenant_id = "acme";
  policy = none;
  allowed_localities = none;
  allowed_providers = none;
  denied_models = [];
  minimum_grade = none;
  maximum_grade = some 9;
  max_cost_per_request_usd = none;
  require_in_house = true;
  fallback_budget = none;
}

abbrev planner : RoutePlanner whole
planner = record {
  registry = registry;
  tenants = ("acme", tenant) ∷ [];
  default_policy = balanced;
  routing = record {
    version = "unversioned";
    max_tier = none;
    escalation = record { enabled = true; max_steps = 3 };
    intent_policies = [];
  };
  budget = record { max_depth = 3; max_cost_usd = none; max_latency_ms = none };
  declared_graph = of_edges [];
  traffic = none;
  require_approved = true;
  pin_requires_approved = false;
  commercial_use_required = false;
}

abbrev request : RouteRequest whole
request = record {
  requested_model = "auto";
  tenant_id = some "acme";
  intent = none;
  policy = none;
  required_capabilities = [];
  minimum_grade = none;
  maximum_grade = none;
  intent_id = none;
  prompt_tokens = 100;
  max_output_tokens = some 20;
  latency_slo_ms = none;
  budget_usd = none;
}

abbrev tracker : HealthTracker whole
tracker =
    new_tracker
      (record {
        consecutive_failures = 3;
        error_rate = 2;
        minimum_samples = 20;
        open_duration_s = 10;
        half_open_successes = 2;
        max_concurrency = none;
      })
      1

-- The clock stands still.
abbrev clock : ℕ → ℕ
clock n = 7

abbrev made : Planned whole
made = elim (plan clock planner request tracker) [
  | ok m ↦ m
  | err e ↦ planned planner balanced none [] tracker [] (of_edges [])
]

plan_test : plan clock planner request tracker ≡ ok made
unfolding plan Dict.get configured_maximum keep admit policy_for new_tracker state_of new_state
    parse_service_tier store Dict.put first
plan_test = refl

chain_test : ids made.plan.ranked ≡ "near" ∷ "next" ∷ []
unfolding plan Dict.get configured_maximum keep admit policy_for new_tracker state_of new_state
    parse_service_tier store Dict.put first
chain_test = refl

excluded_test : made.excluded ≡ record { model_id = "far"; rule = locality_not_permitted } ∷ []
unfolding plan Dict.get configured_maximum keep admit policy_for new_tracker state_of new_state
    parse_service_tier store Dict.put first
excluded_test = refl

registry-IsValid : IsValid registry
unfolding make_registry Dict.get Dict.put
registry-IsValid = make_registry-IsValid models (auto ∷ []) registry refl

plan_in_house_example : Every (λ m. keeps_data_in_house m.locality ≡ true) made.plan.ranked
unfolding plan is_strict is_exempt get_policy Dict.get configured_maximum keep admit policy_for
    new_tracker state_of new_state parse_service_tier store Dict.put first
plan_in_house_example = plan_in_house planner request clock tracker made tenant refl refl plan_test

plan-IsCleared_example : Every (IsCleared request) made.plan.ranked
unfolding plan is_strict is_exempt get_policy Dict.get configured_maximum keep admit policy_for
    new_tracker state_of new_state parse_service_tier store Dict.put first
plan-IsCleared_example =
    plan-IsCleared planner request clock tracker made registry-IsValid refl refl plan_test

plan_accounts_example :
    (c : Candidates whole) × (candidates "auto" registry ≡ ok c)
    × ((k : String) → decided k made.plan.ranked made.excluded ≡ count k (ids c.specs))
unfolding plan is_strict is_exempt get_policy Dict.get configured_maximum keep admit policy_for
    new_tracker state_of new_state parse_service_tier store Dict.put first
plan_accounts_example =
    plan_accounts planner request clock tracker made registry-IsValid refl plan_test

replace-IsValid_example : IsValid (replace (deployment "far" local 3) registry).0
replace-IsValid_example = replace-IsValid (deployment "far" local 3) registry registry-IsValid

candidates_known_example :
    (known "auto" registry ≡ true → IsResolved registry (candidates "auto" registry))
    × ((c : Candidates whole) → candidates "auto" registry ≡ ok c → known "auto" registry ≡ true)
candidates_known_example = candidates_known registry "auto" registry-IsValid
