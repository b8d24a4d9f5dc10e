-- ===== src/Router/Engine/Complete.antt =====
-- router/engine.py: `Router._start` and `Router.complete`.
--
-- The provider, the clock and the other requests of the process are outside: `replies n spec` says
-- what happens while attempt number `n` waits for the deployment `spec`.
pub mod Invariant
pub mod Loop
pub mod Outcomes
pub mod Reasons
use llm_fabric.Prelude.{
  ℕ, zero, suc, Bool, true, false, Option, none, some, List, [], ◌∷◌, ◌++◌, String, Result, ok, err,
  if◌then◌else◌, length, max, ◌>>=◌,
}
use llm_fabric.Prelude.Float.{Float}
use llm_fabric.Prelude.Int.{ℤ, pos_part}
use llm_fabric.Errors.{ErrorClass, is_instance}
use llm_fabric.Router.Fallback.Reason.{FallbackReason, reason_for_error, fabric_error}
use llm_fabric.Router.Fallback.Ledger.{new_ledger, empty_trace}
use llm_fabric.Router.Health.Tracker.{
  HealthTracker, Call, run, record_success, record_failure, enter_flight, leave_flight,
}
use llm_fabric.Router.Registry.{ModelSpec}
use llm_fabric.Router.Engine.Walk.{
  ProviderResult, Attempt, RoutePlan, RouteDecision, Walk, Advance, moved, stopped, unmatched, ids,
  new_attempt, reason_for, advance,
}

-- How the awaited call ends: with a result, with a `FabricError` (its class and text), or with any
-- other exception, which no clause of `complete` catches.
pub data Reply (F : Float) : Type 0 where
  answered : ProviderResult → F.Carrier → Reply F
  raised : ErrorClass → String → F.Carrier → F.Carrier → Reply F
  aborted : Reply F

-- What happens during the wait: the calls that other requests make of the health tracker, and the
-- end of the call. An error comes with the elapsed time and the clock that the tracker reads.
pub record Wait (F : Float) : Type 0 where
  pub others : List (Call F)
  pub reply : Reply F

-- `failed` is the error that is raised again, `exhausted` the `AllCandidatesFailedError`.
pub data Outcome (F : Float) : Type 0 where
  served : ProviderResult → ModelSpec F → Outcome F
  failed : ErrorClass → String → Outcome F
  exhausted : Outcome F
  propagated : Outcome F
  no_match : Outcome F
  out_of_fuel : Outcome F

-- What `complete` leaves behind.
pub record Served (F : Float) : Type 0 where
  pub outcome : Outcome F
  pub walk : Walk F
  pub health : HealthTracker F

-- `max(1, max_attempts)`
unfoldable pub limit_of : ℤ → ℕ
limit_of n = max 1 (pos_part n)

module _ {F : Float} where
  open F use {Carrier}

  -- The walk that `_start` makes for a plan.
  unfoldable pub new_walk : RoutePlan F → Walk F
  new_walk plan = record {
    plan = plan;
    decision = record {
      considered = ids plan.ranked;
      attempts = [];
      selected_model = none;
      selected_provider = none;
      fallback = empty_trace;
    };
    ledger = new_ledger plan.budget;
    visited = [];
    reasons = [];
  }

  -- `_start`, once the planner has answered; `known` is what the registry says of the model.
  unfoldable pub start : RoutePlan F → Bool → Result ErrorClass (ModelSpec F × Walk F)
  start plan known = elim plan.selected [
    | none ↦ err (if known then ErrorClass.no_candidate else ErrorClass.model_not_found)
    | some spec ↦ ok (spec, new_walk plan)
  ]

  unfoldable pub add_attempt : Walk F → Attempt F → Walk F
  add_attempt w a = record w {
    decision = record w.decision { attempts = w.decision.attempts ++ a ∷ [] };
  }

  -- The lines after the `try` statement.
  unfoldable pub finish : Walk F → ModelSpec F → ProviderResult → Carrier → Walk F
  unfolding add_attempt
  finish w spec result elapsed =
      let w' =
        add_attempt w
          (new_attempt spec elapsed (reason_for w spec.id) w.ledger.depth none (some result)) in
      record w' {
        decision = record w'.decision {
          selected_model = some spec.id;
          selected_provider = some spec.provider;
        };
      }

  -- The attempt that the `except` clause appends.
  unfoldable pub note_failure : Walk F → ModelSpec F → String → Carrier → Walk F
  unfolding add_attempt
  note_failure w spec message elapsed =
      add_attempt w
        (new_attempt spec elapsed (reason_for w spec.id) w.ledger.depth (some message) none)

  -- The tracker when the `with` statement has ended.
  unfoldable pub after_wait : ModelSpec F → List (Call F) → HealthTracker F → HealthTracker F
  after_wait spec others h =
      leave_flight spec.deployment_id (run (enter_flight spec.deployment_id h) others)

-- How one round of the `while` loop ends: the loop is left, or goes on with another deployment.
pub data Round (F : Float) : Type 0 where
  ended : Outcome F → Walk F → HealthTracker F → Round F
  again : ModelSpec F → Walk F → HealthTracker F → Round F

unfoldable pub after_advance : {F : Float} → Walk F × Advance F → HealthTracker F → Round F
after_advance (w, moved next) h = again next w h
after_advance (w, stopped) h = ended exhausted w h
after_advance (w, unmatched) h = ended no_match w h

-- Leave the loop, or go round again.
unfoldable pub resume :
    {F : Float} → (ModelSpec F → Walk F → HealthTracker F → Served F) → Round F → Served F
resume loop (ended outcome w h) = record { outcome = outcome; walk = w; health = h }
resume loop (again next w h) = loop next w h

module _ {F : Float} (limit : ℕ) where
  -- The `except` clause, after the health tracker has been told.
  unfoldable pub on_error :
      ModelSpec F → Walk F → ErrorClass → String → F.Carrier → HealthTracker F → Round F
  unfolding note_failure after_advance
  on_error spec w class message elapsed h =
      let w' = note_failure w spec message elapsed in
      if is_instance class ErrorClass.retryable
      then after_advance
          (advance w' spec (reason_for_error (fabric_error class)) elapsed message limit) h
      else ended (failed class message) w' h

  unfoldable pub on_reply : ModelSpec F → Walk F → Reply F → HealthTracker F → Round F
  unfolding on_error finish
  on_reply spec w aborted h = ended propagated w h
  on_reply spec w (answered result elapsed) h =
      ended (served result spec) (finish w spec result elapsed)
        (record_success spec.deployment_id elapsed h)
  on_reply spec w (raised class message elapsed clock) h =
      on_error spec w class message elapsed
        (record_failure clock spec.deployment_id elapsed (some message) h)

module _ {F : Float} (replies : ℕ → ModelSpec F → Wait F) (limit : ℕ) where
  unfoldable pub round : ModelSpec F → Walk F → HealthTracker F → Round F
  unfolding on_reply after_wait
  round spec w h =
      let wait = replies (length w.decision.attempts) spec in
      on_reply limit spec w wait.reply (after_wait spec wait.others h)

  -- The `while` loop, one round for each unit of fuel.
  unfoldable pub attempt_loop : ℕ → ModelSpec F → Walk F → HealthTracker F → Served F
  unfolding resume
  attempt_loop zero spec w h = record { outcome = out_of_fuel; walk = w; health = h }
  attempt_loop (suc fuel) spec w h = resume (attempt_loop fuel) (round spec w h)

-- `Router.complete` of a router that is configured with `max_attempts`, which `__init__` raises to
-- at least 1. The fuel is the number of attempts.
unfoldable pub complete :
    {F : Float}
    → (ℕ → ModelSpec F → Wait F)
    → ℤ
    → RoutePlan F
    → Bool
    → HealthTracker F
    → Result ErrorClass (Served F)
unfolding start attempt_loop
complete replies max_attempts plan known h = do
  (spec, w) ← start plan known
  ok (attempt_loop replies (limit_of max_attempts) (limit_of max_attempts) spec w h)
