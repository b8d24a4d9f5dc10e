-- ===== src/Router/Plan/Narrow.antt =====
-- router/plan.py: `_narrow_to_intent_policy` and `_narrow_to_approved`.
pub mod Accounts
pub mod Approved
pub mod Kept
use llm_fabric.Prelude.{
  Bool, true, false, not, ◌&&◌, ◌||◌, Option, none, some, List, [], ◌∷◌, ◌++◌, map, String, ◌==◌,
  string_eq, nat_eq, contains, keep, if◌then◌else◌,
}
use llm_fabric.Prelude.Float.{Float}
use llm_fabric.Prelude.Dict
use llm_fabric.Prelude.Dict.{Dict}
use llm_fabric.Router.Tiers.{ServiceTier, parse_service_tier}
use llm_fabric.Router.Registry.{
  PromotionState, registered, probed, evaluated, shadow, approved, disabled, same_state, ModelSpec,
  public_tier, serves_tier, serves_approved_tier,
}
use llm_fabric.Router.Intent.{IntentRoutePolicy}
use llm_fabric.Router.Policy.{RoutePolicy, is_declared_policy}
use llm_fabric.Router.Plan.Request.{
  ExclusionRule, tier_not_preferred, model_not_preferred, lifecycle_not_approved, not_probed,
  not_evaluated, not_approved, not_approved_for_tier, not_approved_for_workload,
  artifact_revision_mismatch, Exclusion, RouteRequest,
}
use llm_fabric.Router.Plan.Filter.{RoutePlanner}
use llm_fabric.Router.Plan.Filter.Accounts.{ids}

-- The eligible deployments and the excluded ones.
abbrev pub Decision : Float → Type 0
Decision F = List (ModelSpec F) × List Exclusion

-- A tier that the tiers of a workload, where it has any, leave out.
unfoldable pub outside : Option ServiceTier → Option (List ServiceTier) → Bool
outside tier none = true
outside none (some tiers) = false
outside (some tier) (some tiers) = not (contains tier tiers)

module _ {F : Float} where
  unfoldable pub exclusion : ExclusionRule → ModelSpec F → Exclusion
  exclusion rule m = record { model_id = m.id; rule = rule }

  -- The deployments that are kept, and an exclusion for each whose name is not among theirs.
  unfoldable pub keeping : ExclusionRule → (ModelSpec F → Bool) → Decision F → Decision F
  unfolding exclusion
  keeping rule test (eligible, excluded) =
      let kept = keep test eligible in
      (kept, excluded ++ map (exclusion rule) (keep (λ m. not (contains m.id (ids kept))) eligible))

  -- `keeping` where something is kept, and nothing otherwise.
  unfoldable pub preferring : ExclusionRule → (ModelSpec F → Bool) → Decision F → Decision F
  unfolding keeping
  preferring rule test d = elim (keep test d.0) [ [] ↦ d | m ∷ ms ↦ keeping rule test d ]

  unfoldable pub serves_any : List ServiceTier → ModelSpec F → Bool
  unfolding serves_tier
  serves_any [] m = false
  serves_any (t ∷ ts) m = serves_tier t m || serves_any ts m

  -- `if intent_policy.preferred_tiers:` and so on: an empty list prefers nothing.
  unfoldable pub prefer_tiers : List ServiceTier → Decision F → Decision F
  unfolding preferring serves_any
  prefer_tiers [] d = d
  prefer_tiers (t ∷ ts) d = preferring tier_not_preferred (serves_any (t ∷ ts)) d

  unfoldable pub prefer_models : List String → Decision F → Decision F
  unfolding preferring
  prefer_models [] d = d
  prefer_models (n ∷ ns) d = preferring model_not_preferred (λ m. contains m.id (n ∷ ns)) d

  unfoldable pub narrow_to_intent_policy : Option IntentRoutePolicy → Decision F → Decision F
  unfolding prefer_tiers prefer_models
  narrow_to_intent_policy none d = d
  narrow_to_intent_policy (some p) ([], excluded) = ([], excluded)
  narrow_to_intent_policy (some p) (m ∷ ms, excluded) =
      prefer_models p.preferred_models (prefer_tiers p.preferred_tiers (m ∷ ms, excluded))

  abbrev pub is_empty : List (ModelSpec F) → Bool
  is_empty [] = true
  is_empty (m ∷ ms) = false

  -- The test that `approved` is built with.
  unfoldable pub is_approved : Bool → ModelSpec F → Bool
  unfolding same_state
  is_approved strict m =
      (same_state m.lifecycle approved && m.promotion_identity_match)
      && (m.promotion_evidence_bound || not strict)

  -- The rule for a deployment that is not kept.
  unfoldable pub lifecycle_rule : ModelSpec F → ExclusionRule
  lifecycle_rule m =
      if not m.promotion_identity_match then artifact_revision_mismatch else elim m.lifecycle [
        | registered ↦ not_probed
        | probed ↦ not_evaluated
        | evaluated ↦ not_approved
        | shadow ↦ not_approved
        | approved ↦ if m.promotion_evidence_bound then lifecycle_not_approved else not_approved
        | disabled ↦ lifecycle_not_approved
      ]

  -- `spec.approved_tiers and not spec.serves_approved_tier(requested_tier)`, for a request of a tier.
  unfoldable pub tier_refused : Option ServiceTier → ModelSpec F → Bool
  unfolding serves_approved_tier
  tier_refused none m = false
  tier_refused (some tier) m = elim m.approved_tiers [
    | [] ↦ false
    | t ∷ ts ↦ not (serves_approved_tier tier m)
  ]

  -- `requested_tier or spec.public_tier`
  unfoldable pub selected_tier : Option ServiceTier → ModelSpec F → Option ServiceTier
  unfolding public_tier
  selected_tier none m = public_tier m
  selected_tier (some tier) m = some tier

  unfoldable pub workload_refused : Option String → Option ServiceTier → ModelSpec F → Bool
  unfolding selected_tier outside
  workload_refused none tier m = false
  workload_refused (some id) tier m = elim m.approved_workloads [
    | [] ↦ false
    | w ∷ ws ↦ not (id == "") && outside (selected_tier tier m) (Dict.get id (w ∷ ws))
  ]

  -- The body of the loop: the rule that ends in `continue`, if one does.
  unfoldable pub approval_rule :
      List String → Option ServiceTier → Option String → ModelSpec F → Option ExclusionRule
  unfolding lifecycle_rule tier_refused workload_refused
  approval_rule kept tier intent_id m =
      if not (contains m.id kept)
      then some (lifecycle_rule m)
      else (if tier_refused tier m
          then some not_approved_for_tier
          else (if workload_refused intent_id tier m then some not_approved_for_workload else none))

  -- `remaining.append(spec)` or `excluded.append(...)`, in front of the rest.
  unfoldable pub placed : ModelSpec F → Option ExclusionRule → Decision F → Decision F
  unfolding exclusion
  placed m none d = (m ∷ d.0, d.1)
  placed m (some rule) d = (d.0, exclusion rule m ∷ d.1)

  -- The loop: what remains, and the exclusions that it adds.
  unfoldable pub approve_each :
      List String → Option ServiceTier → Option String → List (ModelSpec F) → Decision F
  unfolding approval_rule placed
  approve_each kept tier intent_id [] = ([], [])
  approve_each kept tier intent_id (m ∷ ms) =
      placed m (approval_rule kept tier intent_id m) (approve_each kept tier intent_id ms)

  -- `require_approved or (pin and pin_requires_approved)`
  unfoldable pub is_strict : RoutePlanner F → RoutePolicy → Bool
  unfolding is_declared_policy
  is_strict p policy = p.require_approved || (is_declared_policy policy && p.pin_requires_approved)

  -- The end of the method: the exclusions stay in the list that was passed, whatever is returned.
  unfoldable pub settle : Bool → Decision F → Decision F → Decision F
  settle strict (eligible, excluded) ([], added) =
      if strict then ([], excluded ++ added) else (eligible, excluded ++ added)
  settle strict (eligible, excluded) (m ∷ ms, added) = (m ∷ ms, excluded ++ added)

  -- The method with its conditions: whether a pinned request is exempt, and whether approval is
  -- required.
  unfoldable pub narrow_with :
      Bool → Bool → Option ServiceTier → Option String → Decision F → Decision F
  unfolding is_approved approve_each settle
  narrow_with exempt strict tier intent ([], excluded) = ([], excluded)
  narrow_with true strict tier intent (m ∷ ms, excluded) = (m ∷ ms, excluded)
  narrow_with false strict tier intent (m ∷ ms, excluded) =
      let kept = keep (is_approved strict) (m ∷ ms) in
      if is_empty kept && not strict
      then (m ∷ ms, excluded)
      else settle strict (m ∷ ms, excluded) (approve_each (ids kept) tier intent (m ∷ ms))

  -- `pin and not pin_requires_approved`
  unfoldable pub is_exempt : RoutePlanner F → RoutePolicy → Bool
  unfolding is_declared_policy
  is_exempt p policy = is_declared_policy policy && not p.pin_requires_approved

  unfoldable pub narrow_to_approved :
      RoutePlanner F → RoutePolicy → RouteRequest F → Decision F → Decision F
  unfolding narrow_with is_exempt is_strict
  narrow_to_approved p policy r d =
      narrow_with (is_exempt p policy) (is_strict p policy) (parse_service_tier r.requested_model)
        r.intent_id d
