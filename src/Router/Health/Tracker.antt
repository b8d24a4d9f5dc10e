-- ===== src/Router/Health/Tracker.antt =====
-- router/health.py: `HealthTracker`. Each method holds the tracker's lock, so each is one step.
pub mod Invariant
pub mod Isolation
pub mod Hold
pub mod Recovery
use llm_fabric.Prelude.{
  ℕ, ◌≡◌, Bool, not, ◌&&◌, if◌then◌else◌, true, false, Option, none, some, List, [], ◌∷◌, String,
  string_eq, or_else, map, Result, ok, err,
}
use llm_fabric.Prelude.Float.{Float}
use llm_fabric.Prelude.Dict
use llm_fabric.Prelude.Dict.{Dict}
use llm_fabric.Errors.{ErrorClass}
use llm_fabric.Router.Health.Breaker.{
  BreakerState, BreakerPolicy, State, new_state, succeed, fail, close_breaker, force_open_state,
  admit, enter, leave, health_score,
}

pub record HealthTracker (F : Float) : Type 0 where
  pub policy : BreakerPolicy F
  pub alpha : F.Carrier
  pub states : Dict String (State F)
  pub overrides : Dict String (BreakerPolicy F)

-- A point-in-time read of one deployment.
pub record HealthSnapshot (F : Float) : Type 0 where
  pub deployment_id : String
  pub state : BreakerState
  pub samples : ℕ
  pub successes : ℕ
  pub failures : ℕ
  pub queue_depth : ℕ
  pub ewma_latency_ms : Option F.Carrier
  pub error_rate : Option F.Carrier
  pub health_score : Option F.Carrier
  pub consecutive_failures : ℕ
  pub opened_at : Option F.Carrier
  pub last_error : Option String
  pub held_open : Bool

module _ {F : Float} where
  open F use {Carrier}

  -- The fields that the constructor sets.
  unfoldable pub new_tracker : BreakerPolicy F → Carrier → HealthTracker F
  new_tracker policy alpha = record { policy = policy; alpha = alpha; states = []; overrides = [] }

  -- The constructor: the weight has to be above 0 and at most 1.
  unfoldable pub make_tracker : BreakerPolicy F → Carrier → Result ErrorClass (HealthTracker F)
  unfolding new_tracker
  make_tracker policy alpha =
      if not (F.ltb (F.of_nat 0) alpha && F.leb alpha (F.of_nat 1))
      then err ErrorClass.configuration
      else ok (new_tracker policy alpha)

  unfoldable pub set_policy : String → BreakerPolicy F → HealthTracker F → HealthTracker F
  set_policy d policy t = record t { overrides = Dict.put d policy t.overrides }

  unfoldable pub policy_for : HealthTracker F → String → BreakerPolicy F
  policy_for t d = or_else (Dict.get d t.overrides) t.policy

  -- `_state`: the state of a deployment, a new one where there is none yet.
  unfoldable pub state_of : HealthTracker F → String → State F
  state_of t d = or_else (Dict.get d t.states) new_state

  -- `_state` creates what it does not find, so every method writes the state that it ends with.
  unfoldable pub store : String → State F → HealthTracker F → HealthTracker F
  store d s t = record t { states = Dict.put d s t.states }

  unfoldable pub record_success : String → Carrier → HealthTracker F → HealthTracker F
  record_success d latency_ms t =
      store d (succeed t.alpha (policy_for t d) latency_ms (state_of t d)) t

  unfoldable pub record_failure :
      Carrier → String → Carrier → Option String → HealthTracker F → HealthTracker F
  record_failure clock d latency_ms error t =
      store d (fail t.alpha clock (policy_for t d) latency_ms error (state_of t d)) t

  unfoldable pub force_open :
      Carrier → String → Option String → Bool → HealthTracker F → HealthTracker F
  force_open clock d reason hold t = store d (force_open_state clock reason hold (state_of t d)) t

  unfoldable pub force_close : String → HealthTracker F → HealthTracker F
  force_close d t = store d (close_breaker (state_of t d)) t

  unfoldable pub admits : Carrier → String → HealthTracker F → HealthTracker F × Bool
  admits clock d t =
      let (s, answer) = admit clock (policy_for t d) (state_of t d) in (store d s t, answer)

  unfoldable pub enter_flight : String → HealthTracker F → HealthTracker F
  enter_flight d t = store d (enter (state_of t d)) t

  unfoldable pub leave_flight : String → HealthTracker F → HealthTracker F
  leave_flight d t = store d (leave (state_of t d)) t

  unfoldable pub snapshot_state : String → State F → HealthSnapshot F
  snapshot_state d s = record {
    deployment_id = d;
    state = s.state;
    samples = s.samples;
    successes = s.successes;
    failures = s.failures;
    queue_depth = s.queue_depth;
    ewma_latency_ms = s.ewma_latency_ms;
    error_rate = s.ewma_error;
    health_score = health_score F s;
    consecutive_failures = s.consecutive_failures;
    opened_at = s.opened_at;
    last_error = s.last_error;
    held_open = s.held_open;
  }

  unfoldable pub snapshot : String → HealthTracker F → HealthTracker F × HealthSnapshot F
  unfolding snapshot_state
  snapshot d t = (store d (state_of t d) t, snapshot_state d (state_of t d))

  unfoldable pub all_snapshots : HealthTracker F → Dict String (HealthSnapshot F)
  unfolding snapshot_state
  all_snapshots t = map (λ entry. (entry.0, snapshot_state entry.0 entry.1)) t.states

  -- With no deployment named, `reset` forgets all of them.
  unfoldable pub reset : Option String → HealthTracker F → HealthTracker F
  reset none t = record t { states = [] }
  reset (some d) t = record t { states = Dict.remove d t.states }

-- One call of the tracker, with the clock readings that it makes.
pub data Call (F : Float) : Type 0 where
  succeeded : String → F.Carrier → Call F
  failed : F.Carrier → String → F.Carrier → Option String → Call F
  forced_open : F.Carrier → String → Option String → Bool → Call F
  forced_closed : String → Call F
  asked : F.Carrier → String → Call F
  entered left read : String → Call F
  configured : String → BreakerPolicy F → Call F
  forgot : Option String → Call F

module _ {F : Float} where
  unfoldable pub step : HealthTracker F → Call F → HealthTracker F
  step t (succeeded d latency_ms) = record_success d latency_ms t
  step t (failed clock d latency_ms error) = record_failure clock d latency_ms error t
  step t (forced_open clock d reason hold) = force_open clock d reason hold t
  step t (forced_closed d) = force_close d t
  step t (asked clock d) = (admits clock d t).0
  step t (entered d) = enter_flight d t
  step t (left d) = leave_flight d t
  step t (read d) = (snapshot d t).0
  step t (configured d policy) = set_policy d policy t
  step t (forgot d) = reset d t

  unfoldable pub run : HealthTracker F → List (Call F) → HealthTracker F
  run t [] = t
  run t (c ∷ cs) = run (step t c) cs
