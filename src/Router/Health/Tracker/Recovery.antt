-- ===== src/Router/Health/Tracker/Recovery.antt =====
-- The way round the breaker: tripped by a streak, half-open after the cooldown, closed by probes.
use llm_fabric.Prelude.{
  ◌+◌, ◌≤◌, ◌<◌, ◌≡◌, refl, ◌∙◌, ◌⊎◌, true, false, Option, List, [], ◌∷◌, map, length, String,
  string_eq, arith,
}
use llm_fabric.Prelude.Float.{Float}
use llm_fabric.Router.Health.Breaker.{
  closed, opened, half_open, BreakerPolicy, State, succeed, fail, admit, at_concurrency,
  cooled_down,
}
use llm_fabric.Router.Health.Tracker.{
  HealthTracker, state_of, store, policy_for, record_success, record_failure, admits, Call,
  succeeded, failed, step, run,
}
use llm_fabric.Router.Health.Tracker.Invariant.{IsSound, state_of-store_self}

-- A failed attempt as `record_failure` is told of it: the clock, the latency and the error.
abbrev pub Failure : Float → Type 0
Failure F = F.Carrier × F.Carrier × Option String

module _ {F : Float} where
  open F use {Carrier}

  abbrev pub failures : String → List (Failure F) → List (Call F)
  failures d xs = map (λ x. failed x.0 d x.1 x.2) xs

  abbrev pub successes : String → List Carrier → List (Call F)
  successes d xs = map (λ ms. succeeded d ms) xs

  state_of-step_failed :
      (t : HealthTracker F) (clock : Carrier) (d : String) (ms : Carrier) (error : Option String)
      → state_of (step t (failed clock d ms error)) d
        ≡ fail t.alpha clock (policy_for t d) ms error (state_of t d)
  unfolding step record_failure
  state_of-step_failed t clock d ms error = state_of-store_self t d _

  policy_for-step_failed :
      (t : HealthTracker F) (clock : Carrier) (d : String) (ms : Carrier) (error : Option String)
      → policy_for (step t (failed clock d ms error)) d ≡ policy_for t d
  unfolding step record_failure store policy_for
  policy_for-step_failed t clock d ms error = refl

  state_of-step_succeeded :
      (t : HealthTracker F) (d : String) (ms : Carrier)
      → state_of (step t (succeeded d ms)) d ≡ succeed t.alpha (policy_for t d) ms (state_of t d)
  unfolding step record_success
  state_of-step_succeeded t d ms = state_of-store_self t d _

  policy_for-step_succeeded :
      (t : HealthTracker F) (d : String) (ms : Carrier)
      → policy_for (step t (succeeded d ms)) d ≡ policy_for t d
  unfolding step record_success store policy_for
  policy_for-step_succeeded t d ms = refl

  fail_closed :
      (alpha clock : Carrier) (p : BreakerPolicy F) (ms : Carrier) (error : Option String)
      (s : State F)
      → s.state ≡ closed
      → let s' = fail alpha clock p ms error s in
        (s'.state ≡ opened)
        ⊎ ((s'.state ≡ closed)
            × (s'.consecutive_failures ≡ s.consecutive_failures + 1)
            × (s'.consecutive_failures < p.consecutive_failures))
  unfolding fail
  fail_closed alpha clock p ms error s h = ground arith

  fail_opened :
      (alpha clock : Carrier) (p : BreakerPolicy F) (ms : Carrier) (error : Option String)
      (s : State F)
      → s.state ≡ opened
      → (fail alpha clock p ms error s).state ≡ opened
  unfolding fail
  fail_opened alpha clock p ms error s h = ground arith

  run_failures_opened :
      (t : HealthTracker F) (d : String) (xs : List (Failure F))
      → (state_of t d).state ≡ opened
      → (state_of (run t (failures d xs)) d).state ≡ opened
  unfolding run
  run_failures_opened t d [] h = h
  run_failures_opened t d (x ∷ xs) h =
      run_failures_opened (step t (failed x.0 d x.1 x.2)) d xs
        (rw (state_of-step_failed t x.0 d x.1 x.2) (fail_opened _ _ _ _ _ (state_of t d) h))

  -- Either the failures have opened the breaker, or the streak is still below the threshold.
  run_failures :
      (t : HealthTracker F) (d : String) (x : Failure F) (xs : List (Failure F))
      → (state_of t d).state ≡ closed
      → ((state_of (run t (failures d (x ∷ xs))) d).state ≡ opened)
        ⊎ ((state_of t d).consecutive_failures + length (x ∷ xs)
            < (policy_for t d).consecutive_failures)
  unfolding run
  run_failures t d x [] h = ground (
    arith,
    fail_closed t.alpha x.0 (policy_for t d) x.1 x.2 (state_of t d) h,
    state_of-step_failed t x.0 d x.1 x.2,
  )
  run_failures t d x (y ∷ ys) h = ground (
    arith,
    fail_closed t.alpha x.0 (policy_for t d) x.1 x.2 (state_of t d) h,
    state_of-step_failed t x.0 d x.1 x.2,
    policy_for-step_failed t x.0 d x.1 x.2,
    run_failures_opened (step t (failed x.0 d x.1 x.2)) d (y ∷ ys),
    run_failures (step t (failed x.0 d x.1 x.2)) d y ys,
  )

  -- A closed breaker with a positive threshold is open after as many failures in a row as the
  -- threshold says, or more, whatever the error rate.
  pub streak_opens :
      (t : HealthTracker F) (d : String) (xs : List (Failure F))
      → (state_of t d).state ≡ closed
      → 1 ≤ (policy_for t d).consecutive_failures
      → (policy_for t d).consecutive_failures ≤ length xs
      → (state_of (run t (failures d xs)) d).state ≡ opened
  streak_opens t d [] h positive enough = absurd (omega arith)
  streak_opens t d (x ∷ xs) h positive enough = ground (arith, run_failures t d x xs h)

  -- A success in the half-open state counts, and the last one that is needed closes the breaker.
  succeed_probe :
      (alpha : Carrier) (p : BreakerPolicy F) (ms : Carrier) (s : State F)
      → s.state ≡ half_open
      → let s' = succeed alpha p ms s in
        ((s'.state ≡ closed) × (p.half_open_successes ≤ s.half_open_successes + 1))
        ⊎ ((s'.state ≡ half_open)
            × (s'.half_open_successes ≡ s.half_open_successes + 1)
            × (s.half_open_successes + 1 < p.half_open_successes))
  unfolding succeed
  succeed_probe alpha p ms s h = ground arith

  run_probes :
      (t : HealthTracker F) (d : String) (x : Carrier) (xs : List Carrier)
      → (state_of t d).state ≡ half_open
      → (state_of t d).half_open_successes + length (x ∷ xs) ≡ (policy_for t d).half_open_successes
      → (state_of (run t (successes d (x ∷ xs))) d).state ≡ closed
  unfolding run
  run_probes t d x [] h n = ground (
    arith,
    succeed_probe t.alpha (policy_for t d) x (state_of t d) h,
    state_of-step_succeeded t d x,
  )
  run_probes t d x (y ∷ ys) h n = ground (
    arith,
    succeed_probe t.alpha (policy_for t d) x (state_of t d) h,
    state_of-step_succeeded t d x,
    policy_for-step_succeeded t d x,
    run_probes (step t (succeeded d x)) d y ys,
  )

  admit_cooled :
      (clock : Carrier) (p : BreakerPolicy F) (s : State F)
      → IsSound s
      → s.state ≡ opened
      → s.held_open ≡ false
      → at_concurrency p s ≡ false
      → cooled_down clock p s ≡ true
      → 1 ≤ p.half_open_successes
      → let r = admit clock p s in
        (r.1 ≡ true) × (r.0.state ≡ half_open) × (r.0.half_open_successes ≡ 0)
  unfolding admit
  admit_cooled clock p s sound h held room cooled positive = ground (arith, sound.no_probe_open h)

  state_of-admits :
      (t : HealthTracker F) (clock : Carrier) (d : String)
      → state_of (admits clock d t).0 d ≡ (admit clock (policy_for t d) (state_of t d)).0
  unfolding admits
  state_of-admits t clock d = state_of-store_self t d _

  answer-admits :
      (t : HealthTracker F) (clock : Carrier) (d : String)
      → ((admits clock d t).1 ≡ (admit clock (policy_for t d) (state_of t d)).1)
        × (policy_for (admits clock d t).0 d ≡ policy_for t d)
  unfolding admits store policy_for
  answer-admits t clock d = (refl, refl)

  -- A breaker that is open and not held admits a request once its cooldown is over, unless the
  -- deployment is at its concurrency limit; it is then half-open, and as many successes in a row as
  -- the policy asks for close it.
  pub recovers :
      (t : HealthTracker F) (d : String) (clock : Carrier) (xs : List Carrier)
      → IsSound (state_of t d)
      → (state_of t d).state ≡ opened
      → (state_of t d).held_open ≡ false
      → at_concurrency (policy_for t d) (state_of t d) ≡ false
      → cooled_down clock (policy_for t d) (state_of t d) ≡ true
      → 1 ≤ (policy_for t d).half_open_successes
      → length xs ≡ (policy_for t d).half_open_successes
      → let r = admits clock d t in
        (r.1 ≡ true)
        × ((state_of r.0 d).state ≡ half_open)
        × ((state_of (run r.0 (successes d xs)) d).state ≡ closed)
  recovers t d clock [] sound h held room cooled positive n = absurd (omega arith)
  recovers t d clock (x ∷ xs) sound h held room cooled positive n = (
    answers.0 ∙ half.0,
    (rw now half.1),
    run_probes (admits clock d t).0 d x xs (rw now half.1)
        (rw (now, answers.1) (omega (arith, half.2))),
  )
    where
      half :
          let r = admit clock (policy_for t d) (state_of t d) in
          (r.1 ≡ true) × (r.0.state ≡ half_open) × (r.0.half_open_successes ≡ 0)
      half = admit_cooled clock (policy_for t d) (state_of t d) sound h held room cooled positive

      now : state_of (admits clock d t).0 d ≡ (admit clock (policy_for t d) (state_of t d)).0
      now = state_of-admits t clock d

      answers :
          ((admits clock d t).1 ≡ (admit clock (policy_for t d) (state_of t d)).1)
          × (policy_for (admits clock d t).0 d ≡ policy_for t d)
      answers = answer-admits t clock d
