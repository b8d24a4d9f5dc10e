-- ===== src/Router/Registry.antt =====
-- router/registry.py: a deployment and what the planner and the engine ask of it.
pub mod Models
pub mod References
pub mod Made
pub mod Accepted
use llm_fabric.Prelude.{
  ℕ, ◌+◌, Bool, true, false, ◌&&◌, ◌||◌, Option, none, some, List, [], ◌∷◌, String, ◌==◌, string_eq,
  nat_eq, nat_beq, leb, ltb, contains, if◌then◌else◌, or_else,
}
use llm_fabric.Prelude.Float.{Float}
use llm_fabric.Prelude.Dict.{Dict}
use llm_fabric.Router.Tiers.{Grade, ServiceTier, from_grade}
use llm_fabric.Router.Capabilities.{CapabilityVector}

pub data Locality : Type 0 where
  local private external : Locality

unfoldable pub same_locality : Locality → Locality → Bool
same_locality local local = true
same_locality private private = true
same_locality external external = true
same_locality _ _ = false

-- `spec.locality in localities`
unfoldable pub is_among : Locality → List Locality → Bool
unfolding same_locality
is_among l [] = false
is_among l (m ∷ ms) = same_locality l m || is_among l ms

-- The property `keeps_data_in_house`.
unfoldable pub keeps_data_in_house : Locality → Bool
keeps_data_in_house external = false
keeps_data_in_house _ = true

pub data PromotionState : Type 0 where
  registered probed evaluated shadow approved disabled : PromotionState

unfoldable pub same_state : PromotionState → PromotionState → Bool
same_state registered registered = true
same_state probed probed = true
same_state evaluated evaluated = true
same_state shadow shadow = true
same_state approved approved = true
same_state disabled disabled = true
same_state _ _ = false

-- Of `PerformanceProfile`, the numbers that estimates read.
pub record PerformanceProfile (F : Float) : Type 0 where
  pub p50_ttft_ms : Option F.Carrier
  pub p50_tpot_ms : Option F.Carrier

-- Of `ModelSpec`, what the planner, the engine and the promotion overlay read. `quality` holds the
-- dimensions that are measured.
pub record ModelSpec (F : Float) : Type 0 where
  pub id : String
  pub provider : String
  pub provider_model : String
  pub deployment_id : String
  pub grade : Option Grade
  pub context_window : Option ℕ
  pub recommended_context_tokens : Option ℕ
  pub input_cost_per_mtok : Option F.Carrier
  pub output_cost_per_mtok : Option F.Carrier
  pub capabilities : CapabilityVector
  pub quality : Dict String F.Carrier
  pub performance : PerformanceProfile F
  pub locality : Locality
  pub enabled : Bool
  pub fallbacks : List String
  pub revision : Option String
  pub digest : Option String
  pub commercial_use : Option Bool
  pub tiers : List ServiceTier
  pub lifecycle : PromotionState
  pub approved_tiers : List ServiceTier
  pub approved_workloads : Dict String (List ServiceTier)
  pub promotion_identity_match : Bool
  pub promotion_evidence_bound : Bool

-- A price that needs both sides is unknown where either is.
abbrev both {ℓ} : {A : Type ℓ} → Option A → Option A → (A → A → A) → Option A
both (some i) (some o) f = some (f i o)
both _ _ f = none

-- `left or right` of two numbers, where 0 counts as missing.
abbrev nonzero_or : Option ℕ → Option ℕ → Option ℕ
nonzero_or none right = right
nonzero_or (some n) right = if nat_beq n 0 then right else some n

abbrev highest : ServiceTier → List ServiceTier → ServiceTier
highest t [] = t
highest t (u ∷ us) = let rest = highest (if ltb t u then u else t) us in rest

-- `max(self.tiers, key=...)`, where there is one.
abbrev highest_of : List ServiceTier → Option ServiceTier
highest_of [] = none
highest_of (t ∷ ts) = some (highest t ts)

module _ {F : Float} where
  open F use {Carrier, of_nat, add, mul, div}

  unfoldable pub cost_usd : ModelSpec F → ℕ → ℕ → Option Carrier
  cost_usd m prompt_tokens completion_tokens =
      both m.input_cost_per_mtok m.output_cost_per_mtok (λ i o.
        div (add (mul (of_nat prompt_tokens) i) (mul (of_nat completion_tokens) o))
          (of_nat 1000000))

  unfoldable pub blended_cost_per_mtok : ModelSpec F → Option Carrier
  blended_cost_per_mtok m =
      both m.input_cost_per_mtok m.output_cost_per_mtok
        (λ i o. div (add i (mul (of_nat 3) o)) (of_nat 4))

  -- `PerformanceProfile.estimated_total_ms`
  unfoldable pub estimated_total_ms : PerformanceProfile F → ℕ → Option Carrier
  estimated_total_ms p output_tokens =
      both p.p50_ttft_ms p.p50_tpot_ms (λ first each. add first (mul each (of_nat output_tokens)))

  unfoldable pub usable_context_tokens : ModelSpec F → Option ℕ
  usable_context_tokens m = nonzero_or m.recommended_context_tokens m.context_window

  unfoldable pub fits_context : ℕ → ModelSpec F → Bool
  unfolding usable_context_tokens
  fits_context tokens m = elim (usable_context_tokens m) [
    | none ↦ true
    | some ceiling ↦ leb tokens ceiling
  ]

  unfoldable pub public_tier : ModelSpec F → Option ServiceTier
  unfolding from_grade
  public_tier m = elim (highest_of m.tiers) [
    | some t ↦ some t
    | none ↦ elim m.grade [ none ↦ none | some g ↦ some (from_grade g) ]
  ]

  unfoldable pub serves_tier : ServiceTier → ModelSpec F → Bool
  unfolding from_grade contains
  serves_tier tier m =
      contains tier m.tiers
      || elim m.grade [ none ↦ false | some g ↦ from_grade g == tier || (tier == 30 && g == 29) ]

  unfoldable pub serves_approved_tier : ServiceTier → ModelSpec F → Bool
  unfolding contains
  serves_approved_tier tier m =
      if tier == 30
      then contains 29 m.approved_tiers || contains 30 m.approved_tiers
      else contains tier m.approved_tiers
