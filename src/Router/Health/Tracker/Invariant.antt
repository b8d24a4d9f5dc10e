-- ===== src/Router/Health/Tracker/Invariant.antt =====
-- What holds of every deployment's counters, whatever calls the tracker has had.
use llm_fabric.Prelude.{
  ◌+◌, ◌≤◌, ◌≡◌, refl, Bool, true, Option, none, some, List, [], ◌∷◌, String, ◌==◌, beq_refl,
  string_eq, if◌then◌else◌, arith, Bool-cases, inl, inr,
}
use llm_fabric.Prelude.Float.{Float}
use llm_fabric.Prelude.Dict
use llm_fabric.Router.Health.Breaker.{
  closed, opened, BreakerPolicy, State, new_state, succeed, fail, close_breaker, force_open_state,
  admit, enter, leave,
}
use llm_fabric.Router.Health.Tracker.{
  HealthTracker, new_tracker, set_policy, state_of, store, record_success, record_failure,
  force_open, force_close, admits, enter_flight, leave_flight, snapshot, reset, Call, succeeded,
  failed, forced_open, forced_closed, asked, entered, left, read, configured, forgot, step, run,
}

pub record IsSound {F : Float} (s : State F) : Type 0 where
  pub counted : s.samples ≡ s.successes + s.failures
  pub streak : s.consecutive_failures ≤ s.failures
  pub probes : s.half_open_in_flight ≤ s.queue_depth
  pub no_probe_closed : s.state ≡ closed → s.half_open_in_flight ≡ 0
  pub no_probe_open : s.state ≡ opened → s.half_open_in_flight ≡ 0
  pub held : s.held_open ≡ true → s.state ≡ opened
  pub stamped : s.opened_at ≡ none → s.state ≡ closed
  pub cleared : s.state ≡ closed → s.opened_at ≡ none
  pub rated : s.ewma_error ≡ none → s.samples ≡ 0
  pub unrated : s.samples ≡ 0 → s.ewma_error ≡ none

module _ {F : Float} where
  open F use {Carrier}

  new_state-IsSound : IsSound (new_state {F = F})
  unfolding new_state
  new_state-IsSound = ground arith

  succeed-IsSound :
      (alpha : Carrier) (p : BreakerPolicy F) (latency_ms : Carrier) (s : State F)
      → IsSound s
      → IsSound (succeed alpha p latency_ms s)
  unfolding succeed
  succeed-IsSound alpha p latency_ms s h = ground arith

  fail-IsSound :
      (alpha clock : Carrier) (p : BreakerPolicy F) (latency_ms : Carrier) (error : Option String)
      (s : State F)
      → IsSound s
      → IsSound (fail alpha clock p latency_ms error s)
  unfolding fail
  fail-IsSound alpha clock p latency_ms error s h = ground arith

  close_breaker-IsSound : (s : State F) → IsSound s → IsSound (close_breaker s)
  unfolding close_breaker
  close_breaker-IsSound s h = ground arith

  force_open_state-IsSound :
      (clock : Carrier) (reason : Option String) (hold : Bool) (s : State F)
      → IsSound s
      → IsSound (force_open_state clock reason hold s)
  unfolding force_open_state
  force_open_state-IsSound clock reason hold s h = ground arith

  admit-IsSound :
      (clock : Carrier) (p : BreakerPolicy F) (s : State F)
      → IsSound s
      → IsSound (admit clock p s).0
  unfolding admit
  admit-IsSound clock p s h = ground arith

  enter-IsSound : (s : State F) → IsSound s → IsSound (enter s)
  unfolding enter
  enter-IsSound s h = ground arith

  leave-IsSound : (s : State F) → IsSound s → IsSound (leave s)
  unfolding leave
  leave-IsSound s h = ground arith

  -- The tracker's states are those that its deployments have, all of them sound.
  abbrev pub AllSound : HealthTracker F → Type 0
  AllSound t = (d : String) → IsSound (state_of t d)

  pub state_of-store :
      (t : HealthTracker F) (d : String) (s : State F) (j : String)
      → state_of (store d s t) j ≡ (if j == d then s else state_of t j)
  unfolding state_of store
  state_of-store t d s j = ground (arith, Dict.get-put j d s t.states)

  pub state_of-store_self :
      (t : HealthTracker F) (d : String) (s : State F) → state_of (store d s t) d ≡ s
  state_of-store_self t d s = rw (state_of-store t d s d, beq_refl d)

  store-AllSound :
      (t : HealthTracker F) (d : String) (s : State F)
      → IsSound s
      → AllSound t
      → AllSound (store d s t)
  store-AllSound t d s new old j = elim (Bool-cases (j == d)) [
    | inl same ↦ rw (state_of-store t d s j, same) new
    | inr other ↦ rw (state_of-store t d s j, other) (old j)
  ]

  pub state_of-reset :
      (t : HealthTracker F) (d j : String)
      → state_of (reset (some d) t) j ≡ (if j == d then new_state else state_of t j)
  unfolding state_of reset
  state_of-reset t d j = ground (arith, Dict.get-remove j d t.states)

  pub state_of-reset_all :
      (t : HealthTracker F) (j : String) → state_of (reset none t) j ≡ new_state
  unfolding state_of reset Dict.get
  state_of-reset_all t j = refl

  pub state_of-set_policy :
      (t : HealthTracker F) (d j : String) (policy : BreakerPolicy F)
      → state_of (set_policy d policy t) j ≡ state_of t j
  unfolding state_of set_policy
  state_of-set_policy t d j policy = refl

  reset-AllSound : (t : HealthTracker F) (d : Option String) → AllSound t → AllSound (reset d t)
  reset-AllSound t none old j = rw (state_of-reset_all t j) new_state-IsSound
  reset-AllSound t (some d) old j = elim (Bool-cases (j == d)) [
    | inl same ↦ rw (state_of-reset t d j, same) new_state-IsSound
    | inr other ↦ rw (state_of-reset t d j, other) (old j)
  ]

  -- Every call, at any time and for any deployment, keeps the counters of all deployments sound.
  pub step-AllSound : (t : HealthTracker F) (c : Call F) → AllSound t → AllSound (step t c)
  unfolding step record_success record_failure force_open force_close admits enter_flight
      leave_flight snapshot
  step-AllSound t (succeeded d latency_ms) h j =
      store-AllSound t d _ (succeed-IsSound _ _ _ _ (h d)) h j
  step-AllSound t (failed clock d latency_ms error) h j =
      store-AllSound t d _ (fail-IsSound _ _ _ _ _ _ (h d)) h j
  step-AllSound t (forced_open clock d reason hold) h j =
      store-AllSound t d _ (force_open_state-IsSound _ _ _ _ (h d)) h j
  step-AllSound t (forced_closed d) h j = store-AllSound t d _ (close_breaker-IsSound _ (h d)) h j
  step-AllSound t (asked clock d) h j = store-AllSound t d _ (admit-IsSound _ _ _ (h d)) h j
  step-AllSound t (entered d) h j = store-AllSound t d _ (enter-IsSound _ (h d)) h j
  step-AllSound t (left d) h j = store-AllSound t d _ (leave-IsSound _ (h d)) h j
  step-AllSound t (read d) h j = store-AllSound t d _ (h d) h j
  step-AllSound t (configured d policy) h j = rw (state_of-set_policy t d j policy) (h j)
  step-AllSound t (forgot d) h j = reset-AllSound t d h j

  run-AllSound : (t : HealthTracker F) (cs : List (Call F)) → AllSound t → AllSound (run t cs)
  unfolding run
  run-AllSound t [] h = h
  run-AllSound t (c ∷ cs) h = run-AllSound (step t c) cs (step-AllSound t c h)

  -- From a new tracker, after any calls, the counters of every deployment are sound: the samples
  -- are the successes and the failures, a streak of failures is no longer than the failures, no
  -- more probes than requests are in flight and none unless half-open, a held breaker is open, the
  -- time of opening is recorded exactly while the breaker is not closed, and an error rate is known
  -- exactly where there are samples.
  pub run-new_tracker-IsSound :
      (policy : BreakerPolicy F) (alpha : Carrier) (cs : List (Call F)) (d : String)
      → IsSound (state_of (run (new_tracker policy alpha) cs) d)
  unfolding new_tracker
  run-new_tracker-IsSound policy alpha cs d =
      run-AllSound (new_tracker policy alpha) cs
        (λ j. unfold state_of Dict.get in new_state-IsSound) d
