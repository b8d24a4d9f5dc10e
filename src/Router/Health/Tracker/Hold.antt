-- ===== src/Router/Health/Tracker/Hold.antt =====
-- An operator's hold: a breaker forced open with `hold` admits nothing until it is released.
use llm_fabric.Prelude.{
  ◌≡◌, Bool, true, false, Option, none, some, List, [], ◌∷◌, String, ◌==◌, string_eq, Every, arith,
  Bool-cases, inl, inr, beq_refl, eq_of_beq, not, ◌&&◌,
}
use llm_fabric.Prelude.Float.{Float}
use llm_fabric.Router.Health.Breaker.{
  opened, BreakerPolicy, State, succeed, fail, force_open_state, admit, enter, leave,
}
use llm_fabric.Router.Health.Tracker.{
  HealthTracker, state_of, store, record_success, record_failure, force_open, force_close, admits,
  enter_flight, leave_flight, snapshot, Call, succeeded, failed, forced_open, forced_closed, asked,
  entered, left, read, configured, forgot, step, run,
}
use llm_fabric.Router.Health.Tracker.Invariant.{state_of-store, state_of-reset, state_of-set_policy}

module _ {F : Float} where
  open F use {Carrier}

  -- The calls that may end a hold: closing, opening again without a hold, and forgetting.
  abbrev pub releases : String → Call F → Bool
  releases j (forced_open clock d reason hold) = j == d && not hold
  releases j (forced_closed d) = j == d
  releases j (forgot none) = true
  releases j (forgot (some d)) = j == d
  releases j _ = false

  abbrev IsHeld : State F → Type 0
  IsHeld s = (s.state ≡ opened) × (s.held_open ≡ true)

  -- Writing what keeps a hold, to any deployment.
  update-IsHeld :
      (t : HealthTracker F) (d j : String) (s : State F)
      → (IsHeld (state_of t d) → IsHeld s)
      → IsHeld (state_of t j)
      → IsHeld (state_of (store d s t) j)
  update-IsHeld t d j s keeps h = elim (Bool-cases (j == d)) [
    | inl same ↦ rw (state_of-store t d s j, same) (keeps (rw (eq_of_beq j d same) at h))
    | inr other ↦ rw (state_of-store t d s j, other) h
  ]

  -- Writing anything to another deployment.
  other-IsHeld :
      (t : HealthTracker F) (d j : String) (s : State F)
      → (j == d) ≡ false
      → IsHeld (state_of t j)
      → IsHeld (state_of (store d s t) j)
  other-IsHeld t d j s other h = rw (state_of-store t d s j, other) h

  module _ (s : State F) where
    succeed-IsHeld :
        (alpha : Carrier) (p : BreakerPolicy F) (ms : Carrier)
        → IsHeld s
        → IsHeld (succeed alpha p ms s)
    unfolding succeed
    succeed-IsHeld alpha p ms h = ground arith

    fail-IsHeld :
        (alpha clock : Carrier) (p : BreakerPolicy F) (ms : Carrier) (error : Option String)
        → IsHeld s
        → IsHeld (fail alpha clock p ms error s)
    unfolding fail
    fail-IsHeld alpha clock p ms error h = ground arith

    admit-IsHeld : (clock : Carrier) (p : BreakerPolicy F) → IsHeld s → IsHeld (admit clock p s).0
    unfolding admit
    admit-IsHeld clock p h = ground arith

    admit_refuses : (clock : Carrier) (p : BreakerPolicy F) → IsHeld s → (admit clock p s).1 ≡ false
    unfolding admit
    admit_refuses clock p h = ground arith

    enter-IsHeld : IsHeld s → IsHeld (enter s)
    unfolding enter
    enter-IsHeld h = ground arith

    leave-IsHeld : IsHeld s → IsHeld (leave s)
    unfolding leave
    leave-IsHeld h = ground arith

  force_open_state-IsHeld :
      (clock : Carrier) (reason : Option String) (s : State F)
      → IsHeld (force_open_state clock reason true s)
  unfolding force_open_state
  force_open_state-IsHeld clock reason s = ground arith

  forced_again :
      (t : HealthTracker F) (clock : Carrier) (d : String) (reason : Option String) (hold : Bool)
      (j : String)
      → releases j (forced_open clock d reason hold) ≡ false
      → IsHeld (state_of t j)
      → IsHeld (state_of (force_open clock d reason hold t) j)
  unfolding force_open
  forced_again t clock d reason true j r h =
      update-IsHeld t d j _ (λ _. force_open_state-IsHeld clock reason (state_of t d)) h
  forced_again t clock d reason false j r h = other-IsHeld t d j _ (ground arith) h

  step-IsHeld :
      (t : HealthTracker F) (c : Call F) (j : String)
      → releases j c ≡ false
      → IsHeld (state_of t j)
      → IsHeld (state_of (step t c) j)
  unfolding step record_success record_failure force_close admits enter_flight leave_flight snapshot
  step-IsHeld t (succeeded d ms) j r h = update-IsHeld t d j _ (succeed-IsHeld _ _ _ _) h
  step-IsHeld t (failed clock d ms error) j r h = update-IsHeld t d j _ (fail-IsHeld _ _ _ _ _ _) h
  step-IsHeld t (forced_open clock d reason hold) j r h = forced_again t clock d reason hold j r h
  step-IsHeld t (forced_closed d) j r h = other-IsHeld t d j _ r h
  step-IsHeld t (asked clock d) j r h = update-IsHeld t d j _ (admit-IsHeld _ _ _) h
  step-IsHeld t (entered d) j r h = update-IsHeld t d j _ (enter-IsHeld _) h
  step-IsHeld t (left d) j r h = update-IsHeld t d j _ (leave-IsHeld _) h
  step-IsHeld t (read d) j r h = update-IsHeld t d j _ (λ held. held) h
  step-IsHeld t (configured d policy) j r h = rw (state_of-set_policy t d j policy) h
  step-IsHeld t (forgot none) j r h = cc
  step-IsHeld t (forgot (some d)) j r h = rw (state_of-reset t d j, r) h

  run-IsHeld :
      (t : HealthTracker F) (cs : List (Call F)) (j : String)
      → Every (λ c. releases j c ≡ false) cs
      → IsHeld (state_of t j)
      → IsHeld (state_of (run t cs) j)
  unfolding run
  run-IsHeld t [] j r h = h
  run-IsHeld t (c ∷ cs) j r h = run-IsHeld (step t c) cs j r.1 (step-IsHeld t c j r.0 h)

  -- After an operator forces a breaker open with a hold, it refuses every request, at any later
  -- time and whatever else happens, until a call releases it: closing it by force, forcing it open
  -- without a hold, or forgetting the deployment.
  pub hold_until_released :
      (t : HealthTracker F) (clock later : Carrier) (d : String) (reason : Option String)
      (cs : List (Call F))
      → Every (λ c. releases d c ≡ false) cs
      → (admits later d (run (force_open clock d reason true t) cs)).1 ≡ false
  unfolding admits force_open
  hold_until_released t clock later d reason cs r =
      admit_refuses _ later _ (run-IsHeld (force_open clock d reason true t) cs d r forced)
    where
      forced : IsHeld (state_of (force_open clock d reason true t) d)
      forced =
          rw (state_of-store t d (force_open_state clock reason true (state_of t d)) d, beq_refl d)
            (force_open_state-IsHeld clock reason (state_of t d))
