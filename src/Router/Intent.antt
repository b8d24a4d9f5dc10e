-- ===== src/Router/Intent.antt =====
-- router/intent_routing.py, and of intent/schema.py what routing reads of a classification.
use llm_fabric.Prelude.{
  ℕ, Bool, true, false, not, ◌&&◌, Option, none, some, List, String, string_eq, ◌==◌, first,
  if◌then◌else◌,
}
use llm_fabric.Prelude.Float.{Float}
use llm_fabric.Router.Tiers.{Grade, ServiceTier, to_grade}

pub data ServingClassificationState : Type 0 where
  known unknown abstain safe_fallback : ServingClassificationState

pub data Modality : Type 0 where
  text image audio video multimodal : Modality

pub data LatencyClass : Type 0 where
  realtime interactive standard batch : LatencyClass

pub data QualityClass : Type 0 where
  draft standard high maximum : QualityClass

pub data CostClass : Type 0 where
  minimal low standard premium : CostClass

pub record IntentClassification (F : Float) : Type 0 where
  pub intent_id : String
  pub domain : String
  pub modality : Modality
  pub latency_class : LatencyClass
  pub quality_class : QualityClass
  pub cost_class : CostClass
  pub confidence : F.Carrier
  pub required_capabilities : List String
  pub agent_required : Bool
  pub tools_required : List String
  pub structured_output : Bool
  pub abstain : Bool
  pub serving_state : ServingClassificationState

is_known : ServingClassificationState → Bool
is_known known = true
is_known _ = false

-- The confidence is at least 0.90.
unfoldable pub allows_optimized_route : {F : Float} → IntentClassification F → Bool
unfolding is_known
allows_optimized_route {F} c =
    (is_known c.serving_state && not c.abstain)
    && F.leb (F.div (F.of_nat 90) (F.of_nat 100)) c.confidence

pub record IntentRoutePolicy : Type 0 where
  pub intent_id : String
  pub preferred_tiers : List ServiceTier
  pub required_capabilities : List String
  pub max_tier : Option ServiceTier
  pub preferred_models : List String

pub record EscalationPolicy : Type 0 where
  pub enabled : Bool
  pub max_steps : ℕ

-- `unversioned` is the version "unversioned".
pub record RoutingConfig : Type 0 where
  pub version : String
  pub max_tier : Option ServiceTier
  pub escalation : EscalationPolicy
  pub intent_policies : List IntentRoutePolicy

-- `self.max_tier.to_grade()`, where there is one.
unfoldable pub grade_of : Option ServiceTier → Option Grade
unfolding to_grade
grade_of none = none
grade_of (some t) = some (to_grade t)

unfoldable pub maximum_grade : IntentRoutePolicy → Option Grade
unfolding grade_of
maximum_grade p = grade_of p.max_tier

unfoldable pub configured_maximum : RoutingConfig → Option Grade
unfolding grade_of
configured_maximum c = grade_of c.max_tier

unfoldable pub policy_for : RoutingConfig → String → Option IntentRoutePolicy
policy_for c id = first (λ p. p.intent_id == id) c.intent_policies

module _ {F : Float} where
  unfoldable pub for_classification :
      RoutingConfig → Option (IntentClassification F) → Option IntentRoutePolicy
  unfolding policy_for
  for_classification c none = none
  for_classification c (some i) =
      if i.abstain
      then none
      else (if i.intent_id == "unknown"
          then none
          else elim (policy_for c i.intent_id) [ some p ↦ some p | none ↦ policy_for c i.domain ])

  unfoldable pub policy_for_request :
      RoutingConfig → Option (IntentClassification F) → Option String → Option IntentRoutePolicy
  unfolding for_classification
  policy_for_request c intent intent_id = elim (for_classification c intent) [
    | some p ↦ some p
    | none ↦ elim intent_id [ none ↦ none | some id ↦ if id == "" then none else policy_for c id ]
  ]
