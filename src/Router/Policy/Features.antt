-- ===== src/Router/Policy/Features.antt =====
-- router/policy.py: the features of a deployment, `_raw_features` and what it calls.
--
-- The tables of the code are keyed by a deployment's name; here a deployment's own values are read.
use llm_fabric.Prelude.{
  ℕ, Option, none, some, List, [], ◌∷◌, map, String, string_eq, nat_beq, if◌then◌else◌,
}
use llm_fabric.Prelude.Float.{Float}
use llm_fabric.Prelude.Dict
use llm_fabric.Prelude.Dict.{Dict}
use llm_fabric.Router.Health.Tracker.{HealthSnapshot}
use llm_fabric.Router.Registry.{ModelSpec, blended_cost_per_mtok, estimated_total_ms}
use llm_fabric.Router.Policy.{Feature, quality, latency, cost, health}
use llm_fabric.Router.Policy.Numbers.{mean}

pub record ScoringInputs (F : Float) : Type 0 where
  pub health : Dict String (HealthSnapshot F)
  pub quality_dimension : Option String
  pub expected_output_tokens : ℕ

-- The first value that is there.
unfoldable pub first_of {ℓ} : {A : Type ℓ} → Option A → Option A → Option A
first_of none b = b
first_of (some a) b = some a

-- The values that are there.
unfoldable pub present {ℓ} : {A : Type ℓ} → List (Option A) → List A
present [] = []
present (none ∷ os) = present os
present (some a ∷ os) = a ∷ present os

module _ {F : Float} where
  open F use {Carrier, of_nat, div}

  unfoldable pub snapshot_for : ScoringInputs F → ModelSpec F → Option (HealthSnapshot F)
  snapshot_for inputs m = elim (Dict.get m.deployment_id inputs.health) [
    | none ↦ none
    | some s ↦ if nat_beq s.samples 0 then none else some s
  ]

  unfoldable pub dimension_score : Option String → ModelSpec F → Option Carrier
  dimension_score none m = none
  dimension_score (some d) m = Dict.get d m.quality

  -- `Grade.normalised`, where there is a grade.
  unfoldable pub grade_score : ModelSpec F → Option Carrier
  grade_score m = elim m.grade [ none ↦ none | some g ↦ some (div (of_nat g) (of_nat 29)) ]

  unfoldable pub quality_of : Option String → ModelSpec F → Option Carrier
  unfolding dimension_score first_of mean grade_score
  quality_of dimension m =
      first_of (dimension_score dimension m) (first_of (mean F m.quality) (grade_score m))

  unfoldable pub latency_of : Option (HealthSnapshot F) → ℕ → ModelSpec F → Option Carrier
  unfolding first_of estimated_total_ms
  latency_of snapshot tokens m =
      first_of (elim snapshot [ none ↦ none | some s ↦ s.ewma_latency_ms ])
        (first_of (estimated_total_ms m.performance tokens) m.performance.p50_ttft_ms)

  unfoldable pub health_of : Option (HealthSnapshot F) → Option Carrier
  health_of none = none
  health_of (some s) = s.health_score

  -- `_raw_features`
  unfoldable pub raw_feature : ScoringInputs F → ModelSpec F → Feature → Option Carrier
  unfolding quality_of latency_of health_of snapshot_for blended_cost_per_mtok
  raw_feature inputs m quality = quality_of inputs.quality_dimension m
  raw_feature inputs m latency = latency_of (snapshot_for inputs m) inputs.expected_output_tokens m
  raw_feature inputs m cost = blended_cost_per_mtok m
  raw_feature inputs m health = health_of (snapshot_for inputs m)

  -- The values of one feature, of the candidates that have one.
  unfoldable pub values_of : ScoringInputs F → List (ModelSpec F) → Feature → List Carrier
  unfolding raw_feature present
  values_of inputs ms f = present (map (λ m. raw_feature inputs m f) ms)
