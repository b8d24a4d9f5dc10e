-- ===== src/Router/Health/Score.antt =====
-- router/health.py: the health score that routing reads from a snapshot.
use llm_fabric.Prelude.{◌<◌, ◌≡◌, true, none, some, List, String, arith, Option-cases, inl, inr}
use llm_fabric.Prelude.Float.{Float, FloatLaws, fmax, fmin}
use llm_fabric.Router.Health.Breaker.{opened, BreakerPolicy, State, health_score}
use llm_fabric.Router.Health.Tracker.{new_tracker, state_of, snapshot, Call, run}
use llm_fabric.Router.Health.Tracker.Invariant.{IsSound, run-new_tracker-IsSound}

module _ {F : Float} (laws : FloatLaws F) where
  open F use {Carrier, of_nat, sub, leb as fle}

  clamp_bounds :
      (x : Carrier)
      → (fle (of_nat 0) (fmax F (of_nat 0) (fmin F (of_nat 1) x)) ≡ true)
        × (fle (fmax F (of_nat 0) (fmin F (of_nat 1) x)) (of_nat 1) ≡ true)
  unfolding fmax fmin
  clamp_bounds x = ground (
    arith,
    laws.leb_zero,
    laws.leb_one,
    laws.leb_zero_one,
    laws.leb_of_ltb (of_nat 0) x,
    laws.leb_of_ltb (of_nat 0) (of_nat 1),
    laws.leb_of_ltb x (of_nat 1),
  )

  score_bounds :
      (s : State F) (score : Carrier)
      → health_score F s ≡ some score
      → (fle (of_nat 0) score ≡ true)
        × (fle score (of_nat 1) ≡ true)
        × (s.state ≡ opened → score ≡ of_nat 0)
  unfolding health_score
  score_bounds s score h = elim (Option-cases s.ewma_error) [
    | inl unknown ↦ ground (arith, laws.leb_zero, laws.leb_zero_one)
    | inr (rate, e) ↦
        ground (arith, laws.leb_zero, laws.leb_zero_one, clamp_bounds (sub (of_nat 1) rate))
  ]

  -- Of sound counters, those with a sample have a score.
  health_score_tried :
      (s : State F)
      → IsSound s
      → 0 < s.samples
      → (score : Carrier) × (health_score F s ≡ some score)
        × (fle (of_nat 0) score ≡ true)
        × (fle score (of_nat 1) ≡ true)
        × (s.state ≡ opened → score ≡ of_nat 0)
  health_score_tried s h tried = elim (Option-cases (health_score F s)) [
    | inl missing ↦ absurd (unfold health_score in ground arith)
    | inr (score, e) ↦ let (low, high, zero) = score_bounds s score e in (score, e, low, high, zero)
  ]

  -- After any calls of a new tracker, the snapshot of a deployment has a score exactly if the
  -- deployment has been tried. The score lies between 0 and 1, whatever the error rate is, and is 0
  -- while the breaker is open.
  pub health_score_bounds :
      (policy : BreakerPolicy F) (alpha : Carrier) (cs : List (Call F)) (d : String)
      → let seen = (snapshot d (run (new_tracker policy alpha) cs)).1 in
        (seen.samples ≡ 0 → seen.health_score ≡ none)
        × (0 < seen.samples
            → (score : Carrier) × (seen.health_score ≡ some score)
              × (fle (of_nat 0) score ≡ true)
              × (fle score (of_nat 1) ≡ true)
              × (seen.state ≡ opened → score ≡ of_nat 0))
  unfolding snapshot
  health_score_bounds policy alpha cs d =
      let s = state_of (run (new_tracker policy alpha) cs) d in
      (
        λ untried. unfold health_score in rw untried,
        health_score_tried s (run-new_tracker-IsSound policy alpha cs d),
      )
