-- ===== src/Models/Promotion/Overlay.antt =====
-- models/promotion.py: `apply_overlay`, which brings the rows of the store onto the registry.
use llm_fabric.Prelude.{
  Bool, false, not, ◌&&◌, ◌||◌, Option, none, some, List, [], ◌∷◌, String, ◌==◌, string_eq,
  if◌then◌else◌,
}
use llm_fabric.Prelude.Float.{Float}
use llm_fabric.Prelude.Dict
use llm_fabric.Prelude.Dict.{Dict}
use llm_fabric.Errors.{ErrorClass}
use llm_fabric.Router.Registry.{registered, approved, same_state, ModelSpec}
use llm_fabric.Router.Registry.Models.{ModelRegistry, values, replace}
use llm_fabric.Models.Promotion.{
  Artifact, Row, PromotionConfig, policy_named, identities_match, is_passed, is_present,
  missing_capabilities, is_nil,
}

-- `_stored_artifact_valid` of an artifact that may not be there.
unfoldable pub is_stored : (Artifact → Bool) → Option Artifact → Bool
is_stored valid none = false
is_stored valid (some a) = valid a

-- `approval.get(key) == value`
unfoldable pub is_value : Option String → String → Bool
is_value none value = false
is_value (some v) value = v == value

-- `str(approval.get("workload_policy") or "default")`
unfoldable pub workload_name : Option String → String
workload_name none = "default"
workload_name (some name) = if name == "" then "default" else name

-- `_approval_evidence_valid`
unfoldable pub approval_evidence_valid : (Artifact → Bool) → PromotionConfig → Row → Bool
unfolding is_passed is_present is_stored is_value workload_name policy_named missing_capabilities
    is_nil
approval_evidence_valid valid config row =
    let workload = policy_named config (workload_name row.approval.workload_policy) in
    ((is_passed row.probe && is_stored valid row.probe)
      && is_nil (missing_capabilities workload.required_probe_capabilities row.probe))
    && ((not config.require_evaluation
          || (is_passed row.evaluation && is_stored valid row.evaluation))
        && ((not config.require_shadow_artifact
              || (is_present row.shadow_run && is_stored valid row.shadow_run))
            && (row.approval.is_approved
                && (is_value row.approval.policy_version config.version
                    && is_value row.approval.policy_hash config.content_hash))))

unfoldable pub row_matches : {F : Float} → Row → ModelSpec F → Bool
unfolding identities_match same_state
row_matches row m = elim row.identity [
  | none ↦ same_state row.state registered
  | some recorded ↦ identities_match m (some recorded)
]

-- The body of the loop, for a deployment that has a row.
unfoldable pub overlaid :
    {F : Float} → (Artifact → Bool) → PromotionConfig → Row → ModelSpec F → ModelSpec F
unfolding row_matches same_state approval_evidence_valid
overlaid valid config row m =
    let matches = row_matches row m in
    record m {
      lifecycle = if matches then row.state else registered;
      approved_tiers = if matches then row.approved_tiers else [];
      approved_workloads = if matches then row.approved_workloads else [];
      promotion_identity_match = matches;
      promotion_evidence_bound =
          matches && (same_state row.state approved && approval_evidence_valid valid config row);
    }

-- The deployment as it is served, with a row or without.
unfoldable pub served_as :
    {F : Float} → (Artifact → Bool) → PromotionConfig → Dict String Row → ModelSpec F → ModelSpec F
unfolding overlaid
served_as valid config rows m = elim (Dict.get m.id rows) [
  | none ↦ m
  | some row ↦ overlaid valid config row m
]

-- The loop over the deployments: the registry that is left, and the error of a replacement.
unfoldable pub overlay_each :
    {F : Float}
    → (Artifact → Bool)
    → PromotionConfig
    → Dict String Row
    → List (ModelSpec F)
    → ModelRegistry F
    → ModelRegistry F × Option ErrorClass
unfolding overlaid replace
overlay_each valid config rows [] r = (r, none)
overlay_each valid config rows (m ∷ ms) r = elim (Dict.get m.id rows) [
  | none ↦ overlay_each valid config rows ms r
  | some row ↦
      let (r', failure) = replace (overlaid valid config row m) r in
      let rest = overlay_each valid config rows ms r' in
      elim failure [ none ↦ rest | some e ↦ (r', some e) ]
]

-- `apply_overlay`
unfoldable pub apply_overlay :
    {F : Float}
    → (Artifact → Bool)
    → PromotionConfig
    → Dict String Row
    → ModelRegistry F
    → ModelRegistry F × Option ErrorClass
unfolding overlay_each
apply_overlay valid config rows r = overlay_each valid config rows (values r.models) r
