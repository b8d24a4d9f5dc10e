-- ===== src/Router/Health/Examples.antt =====
-- Tests of the health tracker with whole numbers as its floats.
use llm_fabric.Prelude.{ℕ, ◌<◌, ◌≡◌, refl, true, false, none, some, List, [], ◌∷◌, arith, ok, err}
use llm_fabric.Errors.{ErrorClass}
use llm_fabric.Prelude.Dict
use llm_fabric.Prelude.Float.{whole, whole_laws}
use llm_fabric.Router.Health.Breaker.{
  BreakerPolicy, closed, opened, half_open, new_state, fail, health_score, at_concurrency,
  cooled_down, admit, enter, leave,
}
use llm_fabric.Router.Health.Tracker.{
  HealthTracker, new_tracker, make_tracker, state_of, policy_for, admits, record_failure, store,
  force_open, step, run, Call, succeeded, failed, asked, entered, left, enter_flight, leave_flight,
  snapshot,
}
use llm_fabric.Router.Health.Tracker.Invariant.{IsSound, run-new_tracker-IsSound}
use llm_fabric.Router.Health.Tracker.Hold.{hold_until_released}
use llm_fabric.Router.Health.Tracker.Isolation.{admits-run_others}
use llm_fabric.Router.Health.Tracker.Recovery.{failures, successes, streak_opens, recovers}
use llm_fabric.Router.Health.Score.{health_score_bounds}

-- Two failures in a row open the breaker for 10 seconds; two probes close it.
abbrev policy : BreakerPolicy whole
policy = record {
  consecutive_failures = 2;
  error_rate = 2;
  minimum_samples = 20;
  open_duration_s = 10;
  half_open_successes = 2;
  max_concurrency = some 3;
}

abbrev fresh : HealthTracker whole
fresh = new_tracker policy 1

fresh-make_tracker : make_tracker policy 1 ≡ ok fresh
unfolding make_tracker
fresh-make_tracker = refl

-- The weight of the newest sample has to be above 0.
no_weight_test : make_tracker policy 0 ≡ err ErrorClass.configuration
unfolding make_tracker
no_weight_test = refl

-- Deployment "a" has failed twice at time 100.
abbrev down : List (Call whole)
down = failed 100 "a" 5 none ∷ failed 100 "a" 5 (some "timeout") ∷ []

run-new_tracker-IsSound_example : IsSound (state_of (run (new_tracker policy 1) down) "a")
run-new_tracker-IsSound_example = run-new_tracker-IsSound policy 1 down "a"

hold_until_released_example :
    (admits 500 "a"
      (run (force_open 100 "a" (some "drain") true fresh) (succeeded "a" 3 ∷ asked 400 "a" ∷ []))).1
    ≡ false
hold_until_released_example =
    hold_until_released fresh 100 500 "a" (some "drain") (succeeded "a" 3 ∷ asked 400 "a" ∷ [])
      (refl, (refl, tt))

admits-run_others_example : (admits 100 "b" (run fresh down)).1 ≡ (admits 100 "b" fresh).1
admits-run_others_example = admits-run_others fresh down "b" 100 (refl, (refl, tt))

streak_opens_example :
    (state_of (run fresh (failures "a" ((100, 5, none) ∷ (101, 5, none) ∷ []))) "a").state ≡ opened
unfolding new_tracker state_of policy_for Dict.get new_state
streak_opens_example =
    streak_opens fresh "a" ((100, 5, none) ∷ (101, 5, none) ∷ []) refl (omega arith) (omega arith)

recovers_example :
    let r = admits 110 "a" (run fresh down) in
    (r.1 ≡ true)
    × ((state_of r.0 "a").state ≡ half_open)
    × ((state_of (run r.0 (successes "a" (1 ∷ 1 ∷ []))) "a").state ≡ closed)
unfolding run state_of Dict.get step record_failure store Dict.put new_tracker fail new_state
    policy_for at_concurrency cooled_down
recovers_example =
    recovers (run fresh down) "a" 110 (1 ∷ 1 ∷ []) (run-new_tracker-IsSound policy 1 down "a") refl
      refl refl refl (omega arith) refl

health_score_bounds_example :
    let seen = (snapshot "a" (run (new_tracker policy 1) down)).1 in
    (seen.samples ≡ 0 → seen.health_score ≡ none)
    × (0 < seen.samples
        → (score : ℕ) × (seen.health_score ≡ some score)
          × (whole.leb 0 score ≡ true)
          × (whole.leb score 1 ≡ true)
          × (seen.state ≡ opened → score ≡ 0))
health_score_bounds_example = health_score_bounds whole_laws policy 1 down "a"

-- The two failures have opened the breaker, so the score is 0.
down_score_test : (snapshot "a" (run (new_tracker policy 1) down)).1.health_score ≡ some 0
unfolding run step record_failure store state_of policy_for Dict.get Dict.put new_tracker fail
    new_state snapshot health_score
down_score_test = refl

-- With one probe allowed: a request that began while the breaker was closed ends while a probe is
-- running, and the tracker then admits a second probe beside it.
abbrev one_probe : HealthTracker whole
one_probe = new_tracker (record policy { half_open_successes = 1 }) 1

abbrev overlapping : List (Call whole)
overlapping =
    entered "a"
    ∷ failed 100 "a" 5 none
    ∷ failed 100 "a" 5 none
    ∷ asked 110 "a"
    ∷ entered "a"
    ∷ left "a"
    ∷ []

second_probe_test : (admits 111 "a" (run one_probe overlapping)).1 ≡ true
unfolding admits run step record_failure store state_of policy_for Dict.get Dict.put new_tracker
    fail new_state at_concurrency cooled_down admit enter leave enter_flight leave_flight
second_probe_test = refl
