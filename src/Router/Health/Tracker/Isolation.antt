-- ===== src/Router/Health/Tracker/Isolation.antt =====
-- A call about one deployment leaves the others alone.
use llm_fabric.Prelude.{
  ◌≡◌, refl, ap, ◌∙◌, or_else, Bool, true, false, Option, none, some, List, [], ◌∷◌, String, ◌==◌,
  string_eq, Every, arith,
}
use llm_fabric.Prelude.Float.{Float}
use llm_fabric.Prelude.Dict
use llm_fabric.Router.Health.Breaker.{BreakerPolicy, State, new_state, admit}
use llm_fabric.Router.Health.Tracker.{
  HealthTracker, state_of, store, policy_for, set_policy, record_success, record_failure,
  force_open, force_close, admits, enter_flight, leave_flight, snapshot, reset, Call, succeeded,
  failed, forced_open, forced_closed, asked, entered, left, read, configured, forgot, step, run,
}

-- What the tracker knows of a deployment: its counters and its own policy, where it has them,
-- and the policy of all others.
abbrev Known : Float → Type 0
Known F = Option (State F) × Option (BreakerPolicy F) × BreakerPolicy F

answer : (F : Float) → F.Carrier → Known F → Bool
answer F clock k = (admit clock (or_else k.1 k.2) (or_else k.0 new_state)).1

module _ {F : Float} where
  open F use {Carrier}

  -- Whether the call names the deployment; `reset` with no name is about all of them.
  abbrev pub concerns : String → Call F → Bool
  concerns j (succeeded d latency_ms) = j == d
  concerns j (failed clock d latency_ms error) = j == d
  concerns j (forced_open clock d reason hold) = j == d
  concerns j (forced_closed d) = j == d
  concerns j (asked clock d) = j == d
  concerns j (entered d) = j == d
  concerns j (left d) = j == d
  concerns j (read d) = j == d
  concerns j (configured d policy) = j == d
  concerns j (forgot none) = true
  concerns j (forgot (some d)) = j == d

  abbrev known : HealthTracker F → String → Known F
  known t j = (Dict.get j t.states, Dict.get j t.overrides, t.policy)

  known-store :
      (t : HealthTracker F) (d : String) (s : State F) (j : String)
      → (j == d) ≡ false
      → known (store d s t) j ≡ known t j
  unfolding store
  known-store t d s j h = ground (arith, Dict.get-put j d s t.states)

  known-step :
      (t : HealthTracker F) (c : Call F) (j : String)
      → concerns j c ≡ false
      → known (step t c) j ≡ known t j
  unfolding step record_success record_failure force_open force_close admits enter_flight
      leave_flight snapshot set_policy reset
  known-step t (succeeded d latency_ms) j h = known-store t d _ j h
  known-step t (failed clock d latency_ms error) j h = known-store t d _ j h
  known-step t (forced_open clock d reason hold) j h = known-store t d _ j h
  known-step t (forced_closed d) j h = known-store t d _ j h
  known-step t (asked clock d) j h = known-store t d _ j h
  known-step t (entered d) j h = known-store t d _ j h
  known-step t (left d) j h = known-store t d _ j h
  known-step t (read d) j h = known-store t d _ j h
  known-step t (configured d policy) j h = ground (arith, Dict.get-put j d policy t.overrides)
  known-step t (forgot none) j h = cc
  known-step t (forgot (some d)) j h = ground (arith, Dict.get-remove j d t.states)

  known-run :
      (t : HealthTracker F) (cs : List (Call F)) (j : String)
      → Every (λ c. concerns j c ≡ false) cs
      → known (run t cs) j ≡ known t j
  unfolding run
  known-run t [] j h = refl
  known-run t (c ∷ cs) j h = known-run (step t c) cs j h.1 ∙ known-step t c j h.0

  -- Whether a deployment is admitted does not depend on any calls about other deployments.
  pub admits-run_others :
      (t : HealthTracker F) (cs : List (Call F)) (j : String) (clock : Carrier)
      → Every (λ c. concerns j c ≡ false) cs
      → (admits clock j (run t cs)).1 ≡ (admits clock j t).1
  unfolding admits state_of policy_for answer
  admits-run_others t cs j clock h = ap (answer F clock) (known-run t cs j h)
