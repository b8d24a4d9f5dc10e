-- ===== src/Router/Engine/Examples.antt =====
-- Tests of `complete`: the first deployment of the plan is down, the second one answers.
use llm_fabric.Prelude.{
  ℕ, zero, ◌+◌, ◌≤◌, ◌≡◌, refl, true, none, some, [], ◌∷◌, String, string_eq, length, Every,
  Distinct, contains, ok,
}
use llm_fabric.Prelude.{keep, add, first}
use llm_fabric.Prelude.Dict
use llm_fabric.Prelude.Float.{whole}
use llm_fabric.Prelude.Int.{pos}
use llm_fabric.Errors.{is_instance, provider_unavailable}
use llm_fabric.Router.Fallback.Reason.{
  provider_down, timeout, reason_eq, same_reason, reason_for_error,
}
use llm_fabric.Router.Fallback.Classes.{retried_reasons}
use llm_fabric.Router.Fallback.Graph.{of_edges, next_hop}
use llm_fabric.Router.Fallback.Graph
use llm_fabric.Router.Fallback.Ledger.{refuse_reason, charge, new_ledger}
use llm_fabric.Router.Engine.Walk
use llm_fabric.Router.Health.Tracker.{HealthTracker, new_tracker, succeeded}
use llm_fabric.Prelude.{false}
use llm_fabric.Router.Registry.{ModelSpec, local, registered}
use llm_fabric.Router.Engine.Walk.{ProviderResult, RoutePlan, hop_to, follow, new_attempt}
use llm_fabric.Router.Engine.Complete.{
  Wait, answered, raised, served, Served, complete, attempt_loop, new_walk, limit_of, round,
  after_advance, resume, on_reply,
}
use llm_fabric.Router.Engine.Complete.Invariant.{Follows, tried}
use llm_fabric.Router.Engine.Complete.Outcomes.{Explains, complete_explained, complete_traced}
use llm_fabric.Router.Engine.Complete.Reasons.{complete_reasons}

abbrev model : String → ModelSpec whole
model id = record {
  id = id;
  provider = "local";
  provider_model = id;
  deployment_id = id;
  grade = none;
  context_window = none;
  recommended_context_tokens = none;
  input_cost_per_mtok = none;
  output_cost_per_mtok = none;
  capabilities = record { declared = []; effective = [] };
  quality = [];
  performance = record { p50_ttft_ms = none; p50_tpot_ms = none };
  locality = local;
  enabled = true;
  fallbacks = [];
  revision = none;
  digest = none;
  commercial_use = none;
  tiers = [];
  lifecycle = registered;
  approved_tiers = [];
  approved_workloads = [];
  promotion_identity_match = true;
  promotion_evidence_bound = false;
}

abbrev plan : RoutePlan whole
plan = record {
  selected = some (model "a");
  ranked = model "a" ∷ model "b" ∷ [];
  graph = of_edges (
      record { source = "a"; target = "b"; reasons = timeout ∷ provider_down ∷ []; note = "" }
      ∷ []);
  budget = record { max_depth = 3; max_cost_usd = none; max_latency_ms = none };
}

abbrev tracker : HealthTracker whole
tracker =
    new_tracker
      (record {
        consecutive_failures = 3;
        error_rate = 2;
        minimum_samples = 20;
        open_duration_s = 10;
        half_open_successes = 2;
        max_concurrency = none;
      })
      1

abbrev result : ProviderResult
result = record {
  prompt_tokens = 5;
  completion_tokens = 7;
  usage_reported_by_provider = true;
  served_model = none;
}

-- While the first call waits, another request succeeds on "b".
abbrev replies : ℕ → ModelSpec whole → Wait whole
replies zero spec = record {
  others = succeeded "b" 4 ∷ [];
  reply = raised provider_unavailable "connection refused" 12 100;
}
replies n spec = record { others = []; reply = answered result 9 }

abbrev served_by_b : Served whole
served_by_b =
    attempt_loop replies (limit_of (pos 4)) (limit_of (pos 4)) (model "a") (new_walk plan) tracker

served_by_b-complete : complete replies (pos 4) plan true tracker ≡ ok served_by_b
unfolding complete
served_by_b-complete = refl

outcome_test : served_by_b.outcome ≡ served result (model "b")
unfolding attempt_loop limit_of round new_walk is_instance Walk.advance next_hop keep Dict.get
    of_edges Dict.put contains same_reason reason_for_error add first hop_to refuse_reason
    after_advance resume on_reply follow new_attempt Graph.successors charge new_ledger
    Walk.take_hop
outcome_test = refl

complete_explained_example : Explains served_by_b.outcome served_by_b.walk
complete_explained_example =
    complete_explained replies (pos 4) plan true tracker served_by_b served_by_b-complete

complete_traced_example :
    Distinct (tried served_by_b.walk.decision.attempts)
    × (length served_by_b.walk.decision.attempts ≤ limit_of (pos 4))
    × Every (Follows plan.graph) served_by_b.walk.decision.fallback.hops
    × (length served_by_b.walk.decision.fallback.hops ≤ plan.budget.max_depth)
    × (length served_by_b.walk.decision.attempts
        ≤ length served_by_b.walk.decision.fallback.hops + 1)
complete_traced_example =
    complete_traced replies (pos 4) plan true tracker served_by_b served_by_b-complete

complete_reasons_example :
    Every
      (λ hop. contains hop.reason retried_reasons ≡ true)
      served_by_b.walk.decision.fallback.hops
complete_reasons_example =
    complete_reasons replies (pos 4) plan true tracker served_by_b served_by_b-complete
