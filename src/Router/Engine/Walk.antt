-- ===== src/Router/Engine/Walk.antt =====
-- router/engine.py: `Attempt`, `RouteDecision`, and one step of the walk along the fallback graph.
pub mod Moves
use llm_fabric.Prelude.{
  ℕ, Bool, Option, none, some, List, map, String, ◌==◌, string_eq, add, leb, if◌then◌else◌, length,
  first,
}
use llm_fabric.Prelude.Float.{Float}
use llm_fabric.Prelude.Dict
use llm_fabric.Prelude.Dict.{Dict}
use llm_fabric.Router.Fallback.Reason.{FallbackReason}
use llm_fabric.Router.Fallback.Graph.{FallbackGraph, next_hop}
use llm_fabric.Router.Fallback.Ledger.{
  FallbackBudget, FallbackLedger, FallbackHop, FallbackTrace, Refusal, attempt_limit, no_untried,
  charge, refuse_reason, record_hop, refuse,
}
use llm_fabric.Router.Fallback.Ledger
use llm_fabric.Router.Registry.{ModelSpec, cost_usd, blended_cost_per_mtok}

-- Of `TokenSource`, the members that the engine writes.
pub data TokenSource : Type 0 where
  provider_measured local_tokenizer_estimate unavailable : TokenSource

-- Of `ProviderResult`, what the engine reads.
pub record ProviderResult : Type 0 where
  pub prompt_tokens : ℕ
  pub completion_tokens : ℕ
  pub usage_reported_by_provider : Bool
  pub served_model : Option String

pub record Attempt (F : Float) : Type 0 where
  pub model_id : String
  pub provider : String
  pub deployment_id : String
  pub duration_ms : F.Carrier
  pub error : Option String
  pub reason : Option FallbackReason
  pub depth : ℕ
  pub prompt_tokens : ℕ
  pub completion_tokens : ℕ
  pub token_source : TokenSource
  pub provider_cost_usd : Option F.Carrier
  pub actual_served_model : Option String

-- Of `RoutePlan`, what the engine reads; `ranked` holds the specs of the scored candidates.
pub record RoutePlan (F : Float) : Type 0 where
  pub selected : Option (ModelSpec F)
  pub ranked : List (ModelSpec F)
  pub graph : FallbackGraph
  pub budget : FallbackBudget F

pub record RouteDecision (F : Float) : Type 0 where
  pub considered : List String
  pub attempts : List (Attempt F)
  pub selected_model : Option String
  pub selected_provider : Option String
  pub fallback : FallbackTrace F

pub record Walk (F : Float) : Type 0 where
  pub plan : RoutePlan F
  pub decision : RouteDecision F
  pub ledger : FallbackLedger F
  pub visited : List String
  pub reasons : Dict String FallbackReason

-- What `advance` answers: the next deployment, the end of the walk, or the `StopIteration` that
-- `next(...)` raises when no ranked candidate has the id.
pub data Advance (F : Float) : Type 0 where
  moved : ModelSpec F → Advance F
  stopped : Advance F
  unmatched : Advance F

source_of : Option ProviderResult → TokenSource
source_of none = TokenSource.unavailable
source_of (some r) =
    if r.usage_reported_by_provider
    then TokenSource.provider_measured
    else TokenSource.local_tokenizer_estimate

estimated_cost : (F : Float) → Option F.Carrier → F.Carrier
estimated_cost F none = F.of_nat 0
estimated_cost F (some blended) = F.div blended (F.of_nat 1000000)

module _ {F : Float} where
  open F use {Carrier, of_nat}

  abbrev pub ids : List (ModelSpec F) → List String
  ids = map (λ m. m.id)

  -- `_provider_cost`: no price where the token counts are unavailable.
  provider_cost : ModelSpec F → ℕ → ℕ → TokenSource → Option Carrier
  provider_cost spec prompt completion TokenSource.unavailable = none
  provider_cost spec prompt completion _ = cost_usd spec prompt completion

  unfoldable pub new_attempt :
      ModelSpec F
      → Carrier
      → Option FallbackReason
      → ℕ
      → Option String
      → Option ProviderResult
      → Attempt F
  unfolding source_of provider_cost
  new_attempt spec elapsed reason depth error result =
      let prompt : ℕ = elim result [ none ↦ 0 | some r ↦ r.prompt_tokens ] in
      let completion : ℕ = elim result [ none ↦ 0 | some r ↦ r.completion_tokens ] in
      record {
        model_id = spec.id;
        provider = spec.provider;
        deployment_id = spec.deployment_id;
        duration_ms = elapsed;
        error = error;
        reason = reason;
        depth = depth;
        prompt_tokens = prompt;
        completion_tokens = completion;
        token_source = source_of result;
        provider_cost_usd = provider_cost spec prompt completion (source_of result);
        actual_served_model = elim result [ none ↦ none | some r ↦ r.served_model ];
      }

  unfoldable pub reason_for : Walk F → String → Option FallbackReason
  reason_for w model_id = Dict.get model_id w.reasons

  -- `self.decision.fallback.refuse(why)`
  unfoldable pub give_up : Walk F → Refusal F → Walk F
  give_up w why = record w {
    decision = record w.decision { fallback = refuse w.decision.fallback why };
  }

  -- The hop itself: the ledger, the reason of the target, and the trace.
  unfoldable pub take_hop : Walk F → String → String → FallbackReason → String → Walk F
  take_hop w source target reason error =
      let ledger = Ledger.advance w.ledger in
      record w {
        ledger = ledger;
        reasons = Dict.put target reason w.reasons;
        decision = record w.decision {
          fallback = record_hop w.decision.fallback (record {
            source = source;
            target = target;
            reason = reason;
            depth = ledger.depth;
            error = some error;
          });
        };
      }

  -- From `refuse_reason` on, with the spec of the target at hand.
  unfoldable pub hop_to :
      Walk F → String → String → ModelSpec F → FallbackReason → String → Walk F × Advance F
  unfolding estimated_cost
  hop_to w source target spec reason error =
      elim (refuse_reason w.ledger (estimated_cost F (blended_cost_per_mtok spec))) [
        | some refusal ↦ (give_up w refusal, stopped)
        | none ↦ (take_hop w source target reason error, moved spec)
      ]

  unfoldable pub follow :
      Walk F → String → Option String → FallbackReason → String → Walk F × Advance F
  follow w source none reason error = (give_up w (no_untried source reason), stopped)
  follow w source (some target) reason error = elim (first (λ m. m.id == target) w.plan.ranked) [
    | none ↦ (w, unmatched)
    | some spec ↦ hop_to w source target spec reason error
  ]

  unfoldable pub advance :
      Walk F → ModelSpec F → FallbackReason → Carrier → String → ℕ → Walk F × Advance F
  unfolding follow
  advance w current reason elapsed_ms error max_attempts =
      let w' = record w {
        visited = add current.id w.visited;
        ledger = charge w.ledger (of_nat 0) elapsed_ms;
      } in
      if leb max_attempts (length w.decision.attempts)
      then (give_up w' (attempt_limit max_attempts current.id), stopped)
      else follow w' current.id
          (next_hop w'.plan.graph current.id reason w'.visited (some (ids w'.plan.ranked))) reason
          error
