-- ===== src/Router/Engine/Complete/Loop.antt =====
-- The loop of `complete` ends, and the walk that it leaves is traced.
use llm_fabric.Prelude.{
  ℕ, zero, suc, ◌+◌, ◌≤◌, ◌≡◌, ◌≢◌, refl, ap, ◌∙◌, String, length, arith, Bool-cases, inl, inr,
}
use llm_fabric.Prelude.Float.{Float}
use llm_fabric.Errors.{ErrorClass, is_instance}
use llm_fabric.Router.Fallback.Reason.{FallbackReason, reason_for_error, fabric_error}
use llm_fabric.Router.Health.Tracker.{HealthTracker}
use llm_fabric.Router.Registry.{ModelSpec}
use llm_fabric.Router.Engine.Walk.{Walk, Advance, moved, stopped, unmatched, advance, new_attempt}
use llm_fabric.Router.Engine.Walk.Moves.{advance-ne-unmatched}
use llm_fabric.Router.Engine.Complete.{
  Wait, Reply, answered, raised, aborted, Outcome, no_match, out_of_fuel, Served, Round, ended,
  again, note_failure, after_advance, on_error, on_reply, round, attempt_loop, resume,
}
use llm_fabric.Router.Engine.Complete.Invariant.{
  IsTraced, IsReady, add_attempt-IsTraced, advance-IsReady, stopped-IsTraced, attempts-advance,
  length-add_attempt,
}

-- The outcomes that the code can give: the fuel has not run out, and `next(...)` found its spec.
abbrev pub IsFinal : {F : Float} → Outcome F → Type 0
IsFinal no_match = ⊥
IsFinal out_of_fuel = ⊥
IsFinal _ = Unit

-- What a round that started with `n` attempts leaves.
abbrev IsGood : {F : Float} → ℕ → ℕ → Round F → Type 0
IsGood limit n (ended outcome w h) = IsFinal outcome × IsTraced limit w
IsGood limit n (again next w h) = IsReady limit next w × (length w.decision.attempts ≡ n + 1)

module _ {F : Float} (limit : ℕ) where
  open F use {Carrier}

  after_advance-IsGood :
      (n : ℕ) (r : Walk F × Advance F) (h : HealthTracker F)
      → ((next : ModelSpec F)
          → r.1 ≡ moved next
          → IsReady limit next r.0 × (length r.0.decision.attempts ≡ n + 1))
      → (r.1 ≡ stopped → IsTraced limit r.0)
      → r.1 ≢ unmatched
      → IsGood limit n (after_advance r h)
  unfolding after_advance
  after_advance-IsGood n (w, moved next) h ready traced never = ready next refl
  after_advance-IsGood n (w, stopped) h ready traced never = (tt, traced refl)
  after_advance-IsGood n (w, unmatched) h ready traced never = absurd (never refl)

  on_error-IsGood :
      (spec : ModelSpec F) (w : Walk F) (class : ErrorClass) (message : String) (elapsed : Carrier)
      (h : HealthTracker F)
      → IsReady limit spec w
      → IsGood limit (length w.decision.attempts) (on_error limit spec w class message elapsed h)
  unfolding on_error note_failure new_attempt
  on_error-IsGood spec w class message elapsed h r =
      elim (Bool-cases (is_instance class ErrorClass.retryable)) [
        | inl retry ↦ rw retry (
            after_advance-IsGood _
              (advance (note_failure w spec message elapsed) spec reason elapsed message limit) h
              (λ next e. (
                advance-IsReady limit spec next w _ reason elapsed message r refl e,
                ap length (attempts-advance limit spec next _ reason elapsed message e)
                    ∙ length-add_attempt limit w _,
              ))
              (stopped-IsTraced limit _ spec reason elapsed message
                (add_attempt-IsTraced limit spec w _ r refl))
              (advance-ne-unmatched _ spec reason elapsed message limit))
        | inr stop ↦ rw stop (tt, add_attempt-IsTraced limit spec w _ r refl)
      ]
    where
      reason : FallbackReason
      reason = reason_for_error (fabric_error class)

  on_reply-IsGood :
      (spec : ModelSpec F) (w : Walk F) (reply : Reply F) (h : HealthTracker F)
      → IsReady limit spec w
      → IsGood limit (length w.decision.attempts) (on_reply limit spec w reply h)
  unfolding on_reply new_attempt
  on_reply-IsGood spec w (answered result elapsed) h r =
      (tt, add_attempt-IsTraced limit spec w _ r refl)
  on_reply-IsGood spec w (raised class message elapsed clock) h r =
      on_error-IsGood spec w class message elapsed _ r
  on_reply-IsGood spec w aborted h r = (tt, r.traced)

abbrev pub Ends : {F : Float} → ℕ → Served F → Type 0
Ends limit s = IsFinal s.outcome × IsTraced limit s.walk

-- What a round leaves, for any properties of the walks before rounds and of the end.
abbrev pub Leaves :
    {F : Float} → (ModelSpec F → Walk F → Type 0) → (Outcome F → Walk F → Type 0) → Round F → Type 0
Leaves P Q (ended outcome w h) = Q outcome w
Leaves P Q (again next w h) = P next w

module _ {F : Float} (replies : ℕ → ModelSpec F → Wait F) (limit : ℕ) where
  round-IsGood :
      (spec : ModelSpec F) (w : Walk F) (h : HealthTracker F)
      → IsReady limit spec w
      → IsGood limit (length w.decision.attempts) (round replies limit spec w h)
  unfolding round
  round-IsGood spec w h r = on_reply-IsGood limit spec w _ _ r

  resume-Ends :
      (loop : ModelSpec F → Walk F → HealthTracker F → Served F) (n : ℕ) (x : Round F)
      → ((spec : ModelSpec F) (w : Walk F) (h : HealthTracker F)
          → IsReady limit spec w
          → length w.decision.attempts ≡ n + 1
          → Ends limit (loop spec w h))
      → IsGood limit n x
      → Ends limit (resume loop x)
  unfolding resume
  resume-Ends loop n (ended outcome w h) goes good = good
  resume-Ends loop n (again next w h) goes good = goes next w h good.0 good.1

  -- A fuel that covers the attempts that are left is enough.
  pub attempt_loop-Ends :
      (fuel : ℕ) (spec : ModelSpec F) (w : Walk F) (h : HealthTracker F)
      → IsReady limit spec w
      → limit ≤ length w.decision.attempts + fuel
      → Ends limit (attempt_loop replies limit fuel spec w h)
  unfolding attempt_loop
  attempt_loop-Ends zero spec w h r enough = absurd (omega (arith, r.room))
  attempt_loop-Ends (suc fuel) spec w h r enough =
      resume-Ends (attempt_loop replies limit fuel) (length w.decision.attempts)
        (round replies limit spec w h)
        (λ next w' h' ready more. attempt_loop-Ends fuel next w' h' ready (omega arith))
        (round-IsGood spec w h r)

  resume-Leaves :
      (P : ModelSpec F → Walk F → Type 0) (Q : Outcome F → Walk F → Type 0)
      (loop : ModelSpec F → Walk F → HealthTracker F → Served F) (n : ℕ) (x : Round F)
      → ((spec : ModelSpec F) (w : Walk F) (h : HealthTracker F)
          → IsReady limit spec w
          → length w.decision.attempts ≡ n + 1
          → P spec w
          → let s = loop spec w h in Q s.outcome s.walk)
      → IsGood limit n x
      → Leaves P Q x
      → let s = resume loop x in Q s.outcome s.walk
  unfolding resume
  resume-Leaves P Q loop n (ended outcome w h) goes good leaves = leaves
  resume-Leaves P Q loop n (again next w h) goes good leaves = goes next w h good.0 good.1 leaves

  -- What every round keeps or establishes, the loop establishes, given enough fuel.
  pub attempt_loop_rule :
      (P : ModelSpec F → Walk F → Type 0) (Q : Outcome F → Walk F → Type 0)
      → ((spec : ModelSpec F) (w : Walk F) (h : HealthTracker F)
          → P spec w
          → Leaves P Q (round replies limit spec w h))
      → (fuel : ℕ) (spec : ModelSpec F) (w : Walk F) (h : HealthTracker F) → IsReady limit spec w
      → limit ≤ length w.decision.attempts + fuel
      → P spec w
      → let s = attempt_loop replies limit fuel spec w h in Q s.outcome s.walk
  unfolding attempt_loop
  attempt_loop_rule P Q keeps zero spec w h r enough p = absurd (omega (arith, r.room))
  attempt_loop_rule P Q keeps (suc fuel) spec w h r enough p =
      resume-Leaves P Q (attempt_loop replies limit fuel) (length w.decision.attempts)
        (round replies limit spec w h)
        (λ next w' h' ready more p'.
          attempt_loop_rule P Q keeps fuel next w' h' ready (omega arith) p')
        (round-IsGood spec w h r) (keeps spec w h p)
