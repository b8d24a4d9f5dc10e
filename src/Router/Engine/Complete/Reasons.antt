-- ===== src/Router/Engine/Complete/Reasons.antt =====
-- The reasons for which `complete` falls back.
use llm_fabric.Prelude.{
  ℕ, ◌≡◌, Bool, true, String, Every, contains, arith, Bool-cases, inl, inr, ok,
}
use llm_fabric.Prelude.Float.{Float}
use llm_fabric.Prelude.Int.{ℤ}
use llm_fabric.Errors.{ErrorClass, is_instance}
use llm_fabric.Router.Fallback.Reason.{reason_eq}
use llm_fabric.Router.Fallback.Classes.{retried_reasons, retryable_reason}
use llm_fabric.Router.Fallback.Ledger.{FallbackHop}
use llm_fabric.Router.Health.Tracker.{HealthTracker}
use llm_fabric.Router.Registry.{ModelSpec}
use llm_fabric.Router.Engine.Walk.{Walk, Advance, RoutePlan, moved, stopped, unmatched}
use llm_fabric.Router.Engine.Walk.Moves.{hops-advance}
use llm_fabric.Router.Engine.Complete.{
  Wait, Reply, answered, raised, aborted, Served, add_attempt, note_failure, after_advance,
  on_error, on_reply, round, new_walk, complete, limit_of,
}
use llm_fabric.Router.Engine.Complete.Loop.{Leaves, attempt_loop_rule}
use llm_fabric.Router.Engine.Complete.Outcomes.{complete-eq-ok, new_walk-IsReady}

abbrev IsRetried : FallbackHop → Type 0
IsRetried hop = contains hop.reason retried_reasons ≡ true

abbrev AreRetried : {F : Float} → Walk F → Type 0
AreRetried w = Every IsRetried w.decision.fallback.hops

module _ {F : Float} (limit : ℕ) where
  open F use {Carrier}

  after_advance-AreRetried :
      (r : Walk F × Advance F) (h : HealthTracker F)
      → AreRetried r.0
      → Leaves (λ _. AreRetried) (λ _. AreRetried) (after_advance r h)
  unfolding after_advance
  after_advance-AreRetried (w, moved next) h a = a
  after_advance-AreRetried (w, stopped) h a = a
  after_advance-AreRetried (w, unmatched) h a = a

  note_failure-AreRetried :
      (w : Walk F) (spec : ModelSpec F) (message : String) (elapsed : Carrier)
      → AreRetried w
      → AreRetried (note_failure w spec message elapsed)
  unfolding note_failure add_attempt
  note_failure-AreRetried w spec message elapsed a = a

  on_error-AreRetried :
      (spec : ModelSpec F) (w : Walk F) (class : ErrorClass) (message : String) (elapsed : Carrier)
      (h : HealthTracker F)
      → AreRetried w
      → Leaves (λ _. AreRetried) (λ _. AreRetried) (on_error limit spec w class message elapsed h)
  unfolding on_error
  on_error-AreRetried spec w class message elapsed h a =
      elim (Bool-cases (is_instance class ErrorClass.retryable)) [
        | inl retry ↦ rw retry (
            after_advance-AreRetried _ h (
              hops-advance IsRetried (note_failure w spec message elapsed) spec _ elapsed message
                limit (note_failure-AreRetried w spec message elapsed a)
                (λ t depth. retryable_reason class retry)))
        | inr stop ↦ rw stop (note_failure-AreRetried w spec message elapsed a)
      ]

  on_reply-AreRetried :
      (spec : ModelSpec F) (w : Walk F) (reply : Reply F) (h : HealthTracker F)
      → AreRetried w
      → Leaves (λ _. AreRetried) (λ _. AreRetried) (on_reply limit spec w reply h)
  unfolding on_reply
  on_reply-AreRetried spec w (answered result elapsed) h a = a
  on_reply-AreRetried spec w (raised class message elapsed clock) h a =
      on_error-AreRetried spec w class message elapsed _ a
  on_reply-AreRetried spec w aborted h a = a

module _ {F : Float} (replies : ℕ → ModelSpec F → Wait F) (max_attempts : ℤ) (plan : RoutePlan F)
    (known : Bool) (h : HealthTracker F) where
  round-AreRetried :
      (spec : ModelSpec F) (w : Walk F) (h' : HealthTracker F)
      → AreRetried w
      → Leaves (λ _. AreRetried) (λ _. AreRetried) (round replies (limit_of max_attempts) spec w h')
  unfolding round
  round-AreRetried spec w h' a = on_reply-AreRetried (limit_of max_attempts) spec w _ _ a

  new_walk-AreRetried : AreRetried (new_walk plan)
  unfolding new_walk
  new_walk-AreRetried = tt

  -- Whatever the plan's graph offers, `complete` falls back for four reasons only: a timeout, a rate
  -- limit, a provider that is down, or a model that is unavailable. An edge for an oversized
  -- context, an overload, a safety requirement, or a failure of structure or quality is not taken
  -- for that reason.
  pub complete_reasons :
      (s : Served F)
      → complete replies max_attempts plan known h ≡ ok s
      → Every (λ hop. contains hop.reason retried_reasons ≡ true) s.walk.decision.fallback.hops
  complete_reasons s e =
      let (spec, ran) = complete-eq-ok replies max_attempts plan known h s e in
      rw ran at (
        attempt_loop_rule replies (limit_of max_attempts) (λ _. AreRetried) (λ _. AreRetried)
          round-AreRetried (limit_of max_attempts) spec (new_walk plan) h
          (new_walk-IsReady replies max_attempts plan known h spec) (omega arith)
          new_walk-AreRetried)
