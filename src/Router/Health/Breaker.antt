-- ===== src/Router/Health/Breaker.antt =====
-- router/health.py: `BreakerPolicy` and `_State`, with what the tracker does to one state.
-- `clock` is the reading that `self._clock()` gives during the call.
use llm_fabric.Prelude.{
  ℕ, ◌+◌, ◌-◌, Bool, true, false, not, ◌&&◌, ◌||◌, Option, none, some, String, ◌==◌, string_eq, leb,
  ltb, nat_beq, if◌then◌else◌, or_else, Result, ok, err,
}
use llm_fabric.Prelude.Float.{Float, fmax, fmin}
use llm_fabric.Prelude.Int.{ℤ, pos_part}
use llm_fabric.Errors.{ErrorClass}

pub data BreakerState : Type 0 where
  closed opened half_open : BreakerState

pub record BreakerPolicy (F : Float) : Type 0 where
  pub consecutive_failures : ℕ
  pub error_rate : F.Carrier
  pub minimum_samples : ℕ
  pub open_duration_s : F.Carrier
  pub half_open_successes : ℕ
  pub max_concurrency : Option ℕ

-- `_State`, the counters of one deployment.
pub record State (F : Float) : Type 0 where
  pub samples : ℕ
  pub successes : ℕ
  pub failures : ℕ
  pub queue_depth : ℕ
  pub ewma_latency_ms : Option F.Carrier
  pub ewma_error : Option F.Carrier
  pub consecutive_failures : ℕ
  pub half_open_successes : ℕ
  pub state : BreakerState
  pub opened_at : Option F.Carrier
  pub half_open_in_flight : ℕ
  pub last_error : Option String
  pub held_open : Bool

abbrev below_one : ℤ → Bool
below_one n = ltb (pos_part n) 1

limit_below_one : Option ℤ → Bool
limit_below_one none = false
limit_below_one (some n) = below_one n

nat_limit : Option ℤ → Option ℕ
nat_limit none = none
nat_limit (some n) = some (pos_part n)

noted : Option String → Option String → Option String
noted none old = old
noted (some why) old = if why == "" then old else some why

module _ (F : Float) where
  open F use {Carrier, of_nat, add, sub, mul, ltb as flt}

  -- The exponentially weighted average with weight `alpha` for the newest sample.
  unfoldable pub blend : Carrier → Option Carrier → Carrier → Carrier
  blend alpha none sample = sample
  blend alpha (some current) sample = add (mul alpha sample) (mul (sub (of_nat 1) alpha) current)

  -- `_health_score`: an open breaker scores zero, and nothing observed has no score.
  unfoldable pub health_score : State F → Option Carrier
  health_score s = if nat_beq s.samples 0 then none else elim s.state [
    | opened ↦ some (of_nat 0)
    | _ ↦ elim s.ewma_error [
      | none ↦ none
      | some rate ↦ some (fmax F (of_nat 0) (fmin F (of_nat 1) (sub (of_nat 1) rate)))
    ]
  ]

module _ {F : Float} where
  open F use {Carrier, of_nat, sub, ltb as flt, leb as fle}

  -- The constructor with the checks of `__post_init__`.
  unfoldable pub make_policy :
      ℤ → Carrier → ℤ → Carrier → ℤ → Option ℤ → Result ErrorClass (BreakerPolicy F)
  unfolding limit_below_one nat_limit
  make_policy streak rate samples duration successes concurrency =
      if below_one streak
      then err ErrorClass.configuration
      else if not (flt (of_nat 0) rate && fle rate (of_nat 1))
      then err ErrorClass.configuration
      else if below_one samples
      then err ErrorClass.configuration
      else if flt duration (of_nat 0)
      then err ErrorClass.configuration
      else if below_one successes
      then err ErrorClass.configuration
      else if limit_below_one concurrency
      then err ErrorClass.configuration
      else ok (record {
        consecutive_failures = pos_part streak;
        error_rate = rate;
        minimum_samples = pos_part samples;
        open_duration_s = duration;
        half_open_successes = pos_part successes;
        max_concurrency = nat_limit concurrency;
      })

  unfoldable pub new_state : State F
  new_state = record {
    samples = 0;
    successes = 0;
    failures = 0;
    queue_depth = 0;
    ewma_latency_ms = none;
    ewma_error = none;
    consecutive_failures = 0;
    half_open_successes = 0;
    state = closed;
    opened_at = none;
    half_open_in_flight = 0;
    last_error = none;
    held_open = false;
  }

  unfoldable pub open_breaker : Carrier → State F → State F
  open_breaker clock s = record s {
    state = opened;
    opened_at = some clock;
    half_open_successes = 0;
    half_open_in_flight = 0;
  }

  unfoldable pub close_breaker : State F → State F
  close_breaker s = record s {
    state = closed;
    opened_at = none;
    half_open_successes = 0;
    half_open_in_flight = 0;
    consecutive_failures = 0;
    held_open = false;
  }

  -- The last lines of `record_success`: in the half-open state a success counts towards closing.
  probe_succeeded : BreakerPolicy F → State F → State F
  unfolding close_breaker
  probe_succeeded p s =
      let s' = record s { half_open_successes = s.half_open_successes + 1 } in
      elim s.state [
        | half_open ↦
            if leb p.half_open_successes s'.half_open_successes then close_breaker s' else s'
        | _ ↦ s
      ]

  unfoldable pub succeed : Carrier → BreakerPolicy F → Carrier → State F → State F
  unfolding probe_succeeded blend
  succeed alpha p latency_ms s = probe_succeeded p (record s {
    samples = s.samples + 1;
    successes = s.successes + 1;
    consecutive_failures = 0;
    ewma_latency_ms = some (blend F alpha s.ewma_latency_ms (fmax F (of_nat 0) latency_ms));
    ewma_error = some (blend F alpha s.ewma_error (of_nat 0));
  })

  -- `state.ewma_error is not None and state.ewma_error >= policy.error_rate`
  at_rate : BreakerPolicy F → Option Carrier → Bool
  at_rate p none = false
  at_rate p (some rate) = fle p.error_rate rate

  unfoldable pub tripped : BreakerPolicy F → State F → Bool
  unfolding at_rate
  tripped p s =
      leb p.consecutive_failures s.consecutive_failures
      || (leb p.minimum_samples s.samples && at_rate p s.ewma_error)

  -- The last lines of `record_failure`: a failed probe reopens, and a closed breaker may trip.
  attempt_failed : Carrier → BreakerPolicy F → State F → State F
  unfolding open_breaker tripped
  attempt_failed clock p s = elim s.state [
    | half_open ↦ open_breaker clock s
    | closed ↦ if tripped p s then open_breaker clock s else s
    | opened ↦ s
  ]

  unfoldable pub fail :
      Carrier → Carrier → BreakerPolicy F → Carrier → Option String → State F → State F
  unfolding attempt_failed blend
  fail alpha clock p latency_ms error s = attempt_failed clock p (record s {
    samples = s.samples + 1;
    failures = s.failures + 1;
    consecutive_failures = s.consecutive_failures + 1;
    last_error = error;
    ewma_latency_ms =
        if flt (of_nat 0) latency_ms
        then some (blend F alpha s.ewma_latency_ms latency_ms)
        else s.ewma_latency_ms;
    ewma_error = some (blend F alpha s.ewma_error (of_nat 1));
  })

  -- `if reason:` passes over a reason that is missing or empty.
  unfoldable pub force_open_state : Carrier → Option String → Bool → State F → State F
  unfolding open_breaker noted
  force_open_state clock reason hold s =
      record (open_breaker clock (record s { last_error = noted reason s.last_error })) {
        held_open = hold;
      }

  unfoldable pub at_concurrency : BreakerPolicy F → State F → Bool
  at_concurrency p s = elim p.max_concurrency [
    | none ↦ false
    | some limit ↦ leb limit s.queue_depth
  ]

  -- `opened_at` counts as 0.0 where it is `None`.
  unfoldable pub cooled_down : Carrier → BreakerPolicy F → State F → Bool
  cooled_down clock p s = not (flt (sub clock (or_else s.opened_at (of_nat 0))) p.open_duration_s)

  -- Half-open admits only as many probes as it takes to decide.
  probes_left : BreakerPolicy F → State F → State F × Bool
  probes_left p s = (s, ltb s.half_open_in_flight p.half_open_successes)

  admit_by_state : Carrier → BreakerPolicy F → State F → State F × Bool
  unfolding cooled_down probes_left
  admit_by_state clock p s = elim s.state [
    | closed ↦ (s, true)
    | half_open ↦ probes_left p s
    | opened ↦
        if s.held_open
        then (s, false)
        else if cooled_down clock p s
        then probes_left p (record s { state = half_open; half_open_successes = 0 })
        else (s, false)
  ]

  -- `_admits_locked`: the answer, and the state after the open to half-open transition.
  unfoldable pub admit : Carrier → BreakerPolicy F → State F → State F × Bool
  unfolding at_concurrency admit_by_state
  admit clock p s = if at_concurrency p s then (s, false) else admit_by_state clock p s

  -- `in_flight`: what happens before and after the body of the `with` statement.
  unfoldable pub enter : State F → State F
  enter s =
      let s' = record s { queue_depth = s.queue_depth + 1 } in
      elim s.state [
        | half_open ↦ record s' { half_open_in_flight = s.half_open_in_flight + 1 }
        | _ ↦ s'
      ]

  -- `max(0, n - 1)` is the subtraction of the natural numbers.
  unfoldable pub leave : State F → State F
  leave s = record s {
    queue_depth = s.queue_depth - 1;
    half_open_in_flight = s.half_open_in_flight - 1;
  }
