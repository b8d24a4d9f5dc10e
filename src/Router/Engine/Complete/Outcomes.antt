-- ===== src/Router/Engine/Complete/Outcomes.antt =====
-- What each outcome of `complete` says of the attempts that were made.
use llm_fabric.Prelude.{
  ℕ, ◌+◌, ◌≤◌, ◌≡◌, ◌≢◌, contains, refl, ◌∙◌, Bool, false, Option, none, some, List, [], ◌∷◌, ◌++◌,
  String, string_eq, Every, Every-append, length, arith, Bool-cases, inl, inr, ok, Distinct,
  Option-cases,
}
use llm_fabric.Prelude.Float.{Float}
use llm_fabric.Prelude.Int.{ℤ}
use llm_fabric.Errors.{ErrorClass, is_instance}
use llm_fabric.Router.Fallback.Reason.{FallbackReason}
use llm_fabric.Router.Fallback.Ledger.{new_ledger}
use llm_fabric.Router.Health.Tracker.{HealthTracker}
use llm_fabric.Router.Registry.{ModelSpec}
use llm_fabric.Router.Engine.Walk.{
  Attempt, Walk, Advance, RoutePlan, moved, stopped, unmatched, advance, new_attempt,
}
use llm_fabric.Router.Engine.Walk.Moves.{advance-keeps, advance-ne-unmatched}
use llm_fabric.Router.Engine.Complete.{
  Wait, Reply, answered, raised, aborted, Outcome, served, failed, exhausted, propagated, no_match,
  out_of_fuel, Served, add_attempt, note_failure, after_advance, on_error, on_reply, round,
  attempt_loop, new_walk, complete, limit_of,
}
use llm_fabric.Router.Engine.Complete.Invariant.{IsReady, Follows, tried}
use llm_fabric.Router.Engine.Complete.Loop.{Leaves, attempt_loop_rule, attempt_loop-Ends}

-- An attempt that ended in an error.
abbrev pub HasFailed : {F : Float} → Attempt F → Type 0
HasFailed a = (message : String) × (a.error ≡ some message)

-- All attempts but the last one failed, and the last one ended as given.
abbrev pub EndsWith : {F : Float} → List (Attempt F) → Option String → String → Type 0
EndsWith {F} attempts error id =
    (before : List (Attempt F)) × (last : Attempt F) × (attempts ≡ before ++ last ∷ [])
    × Every HasFailed before
    × (last.error ≡ error)
    × (last.model_id ≡ id)

-- What an outcome tells of the walk.
abbrev pub Explains : {F : Float} → Outcome F → Walk F → Type 0
Explains (served result spec) w =
    EndsWith w.decision.attempts none spec.id × (w.decision.selected_model ≡ some spec.id)
Explains (failed class message) w =
    (is_instance class ErrorClass.retryable ≡ false)
    × ((id : String) × EndsWith w.decision.attempts (some message) id)
    × (w.decision.selected_model ≡ none)
Explains exhausted w = Every HasFailed w.decision.attempts × (w.decision.selected_model ≡ none)
Explains propagated w = Every HasFailed w.decision.attempts × (w.decision.selected_model ≡ none)
Explains no_match w = ⊥
Explains out_of_fuel w = ⊥

module _ {F : Float} (plan : RoutePlan F) where
  open F use {Carrier}

  -- What holds before each round.
  abbrev IsOpen : Walk F → Type 0
  IsOpen w =
      (w.plan ≡ plan)
      × (w.ledger.budget ≡ plan.budget)
      × Every HasFailed w.decision.attempts
      × (w.decision.selected_model ≡ none)

  abbrev IsClosed : Outcome F → Walk F → Type 0
  IsClosed outcome w = (w.plan ≡ plan) × (w.ledger.budget ≡ plan.budget) × Explains outcome w

  module _ (limit : ℕ) where
    after_advance-Leaves :
        (r : Walk F × Advance F) (h : HealthTracker F)
        → IsOpen r.0
        → r.1 ≢ unmatched
        → Leaves (λ _. IsOpen) IsClosed (after_advance r h)
    unfolding after_advance
    after_advance-Leaves (w, moved next) h o never = o
    after_advance-Leaves (w, stopped) h o never = (o.0, o.1, (o.2, o.3))
    after_advance-Leaves (w, unmatched) h o never = absurd (never refl)

    advance-IsOpen :
        (w : Walk F) (spec : ModelSpec F) (reason : FallbackReason) (elapsed : Carrier)
        (message : String)
        → IsOpen w
        → IsOpen (advance w spec reason elapsed message limit).0
    advance-IsOpen w spec reason elapsed message o =
        let (p, b, a, s) = advance-keeps w spec reason elapsed message limit in
        (p ∙ o.0, b ∙ o.1, (rw a o.2), s ∙ o.3)

    note_failure-IsOpen :
        (w : Walk F) (spec : ModelSpec F) (message : String) (elapsed : Carrier)
        → IsOpen w
        → IsOpen (note_failure w spec message elapsed)
    unfolding note_failure new_attempt add_attempt
    note_failure-IsOpen w spec message elapsed o =
        (o.0, o.1, Every-append HasFailed w.decision.attempts _ o.2 (message, refl), o.3)

    stop-IsClosed :
        (w : Walk F) (spec : ModelSpec F) (class : ErrorClass) (message : String)
        (elapsed : Carrier)
        → is_instance class ErrorClass.retryable ≡ false
        → IsOpen w
        → IsClosed (failed class message) (note_failure w spec message elapsed)
    unfolding note_failure new_attempt add_attempt
    stop-IsClosed w spec class message elapsed stop o =
        (o.0, o.1, (stop, (spec.id, (w.decision.attempts, _, refl, o.2, refl, refl)), o.3))

    on_error-Leaves :
        (spec : ModelSpec F) (w : Walk F) (class : ErrorClass) (message : String)
        (elapsed : Carrier) (h : HealthTracker F)
        → IsOpen w
        → Leaves (λ _. IsOpen) IsClosed (on_error limit spec w class message elapsed h)
    unfolding on_error
    on_error-Leaves spec w class message elapsed h o =
        elim (Bool-cases (is_instance class ErrorClass.retryable)) [
          | inl retry ↦ rw retry (
              after_advance-Leaves _ h
                (advance-IsOpen _ spec _ elapsed message
                  (note_failure-IsOpen w spec message elapsed o))
                (advance-ne-unmatched _ spec _ elapsed message limit))
          | inr stop ↦ rw stop (stop-IsClosed w spec class message elapsed stop o)
        ]

    on_reply-Leaves :
        (spec : ModelSpec F) (w : Walk F) (reply : Reply F) (h : HealthTracker F)
        → IsOpen w
        → Leaves (λ _. IsOpen) IsClosed (on_reply limit spec w reply h)
    unfolding on_reply new_attempt
    on_reply-Leaves spec w (answered result elapsed) h o =
        (o.0, o.1, ((w.decision.attempts, _, refl, o.2, refl, refl), refl))
    on_reply-Leaves spec w (raised class message elapsed clock) h o =
        on_error-Leaves spec w class message elapsed _ o
    on_reply-Leaves spec w aborted h o = (o.0, o.1, (o.2, o.3))

module _ {F : Float} (replies : ℕ → ModelSpec F → Wait F) (max_attempts : ℤ) (plan : RoutePlan F)
    (known : Bool) (h : HealthTracker F) where
  -- A router that answers has run the loop from the selected deployment.
  pub complete-eq-ok :
      (s : Served F)
      → complete replies max_attempts plan known h ≡ ok s
      → (spec : ModelSpec F) × (attempt_loop replies
            (limit_of max_attempts)
            (limit_of max_attempts)
            spec
            (new_walk plan)
            h
          ≡ s)
  unfolding complete
  complete-eq-ok s e = elim (Option-cases plan.selected) [
    | inl missing ↦ ground arith
    | inr (spec, found) ↦ (spec, ground arith)
  ]

  limit-pos : 1 ≤ limit_of max_attempts
  unfolding limit_of
  limit-pos = omega arith

  pub new_walk-IsReady : (spec : ModelSpec F) → IsReady (limit_of max_attempts) spec (new_walk plan)
  unfolding new_walk new_ledger contains
  new_walk-IsReady spec = record {
    traced = record {
      distinct = tt;
      limited = omega arith;
      followed = tt;
      counted = refl;
      deep = omega arith;
      nearly = omega arith;
    };
    even = refl;
    room = limit-pos;
    untried = refl;
    marked = λ j. refl;
  }

  new_walk-IsOpen : IsOpen plan (new_walk plan)
  unfolding new_walk new_ledger
  new_walk-IsOpen = (refl, refl, tt, refl)

  round-Leaves :
      (spec : ModelSpec F) (w : Walk F) (h' : HealthTracker F)
      → IsOpen plan w
      → Leaves (λ _. IsOpen plan) (IsClosed plan) (round replies (limit_of max_attempts) spec w h')
  unfolding round
  round-Leaves spec w h' o = on_reply-Leaves plan (limit_of max_attempts) spec w _ _ o

  attempt_loop-IsClosed :
      (spec : ModelSpec F)
      → let s =
          attempt_loop replies
            (limit_of max_attempts)
            (limit_of max_attempts)
            spec
            (new_walk plan)
            h in
        IsClosed plan s.outcome s.walk
  attempt_loop-IsClosed spec =
      attempt_loop_rule replies (limit_of max_attempts) (λ _. IsOpen plan) (IsClosed plan)
        (λ next w h' o. round-Leaves next w h' o) (limit_of max_attempts) spec (new_walk plan) h
        (new_walk-IsReady spec) (omega arith) new_walk-IsOpen

  -- `complete` always comes to an end within the attempts that it may make, and its outcome agrees
  -- with its record: a result comes from the last attempt, which is the selected deployment, after
  -- failures only; an error that is raised again is not retryable, is that of the last attempt, and
  -- nothing is selected; when the candidates are exhausted, or another exception passes through,
  -- every attempt has failed and nothing is selected.
  pub complete_explained :
      (s : Served F) → complete replies max_attempts plan known h ≡ ok s → Explains s.outcome s.walk
  complete_explained s e =
      let (spec, ran) = complete-eq-ok s e in (rw ran at (attempt_loop-IsClosed spec)).2

  -- `complete` tries no deployment twice and makes at most as many attempts as it is configured
  -- for; each hop goes along an edge of the plan's graph that answers the reason of the hop; there
  -- are at most as many hops as the budget's depth allows, and one attempt more than hops at most.
  pub complete_traced :
      (s : Served F)
      → complete replies max_attempts plan known h ≡ ok s
      → Distinct (tried s.walk.decision.attempts)
        × (length s.walk.decision.attempts ≤ limit_of max_attempts)
        × Every (Follows plan.graph) s.walk.decision.fallback.hops
        × (length s.walk.decision.fallback.hops ≤ plan.budget.max_depth)
        × (length s.walk.decision.attempts ≤ length s.walk.decision.fallback.hops + 1)
  complete_traced s e =
      let (spec, ran) = complete-eq-ok s e in
      let closed = rw ran at (attempt_loop-IsClosed spec) in
      let t =
        (rw ran at (
          attempt_loop-Ends replies (limit_of max_attempts) (limit_of max_attempts) spec
            (new_walk plan) h (new_walk-IsReady spec) (omega arith))).1 in
      (
        t.distinct,
        t.limited,
        (rw closed.0 at t.followed),
        (rw t.counted (rw closed.1 at t.deep)),
        omega (arith, t.counted, t.nearly),
      )
