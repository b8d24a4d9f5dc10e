-- ===== src/Router/Plan/Narrow/Approved.antt =====
-- What `_narrow_to_approved` leaves, and what it records.
use llm_fabric.Prelude.{
  suc, ◌≡◌, ◌≢◌, nat_eq, refl, sym, ap, ◌∙◌, arith, Bool, true, false, not, ◌&&◌, Option, none,
  some, List, [], ◌∷◌, String, string_eq, count, count-append, contains, keep, ◌==◌, if◌then◌else◌,
  Every, Bool-cases, inl, inr,
}
use llm_fabric.Prelude.Float.{Float}
use llm_fabric.Prelude.Dict
use llm_fabric.Prelude.Dict.{Dict}
use llm_fabric.Router.Tiers.{ServiceTier, parse_service_tier}
use llm_fabric.Router.Registry.{
  serves_approved_tier, ModelSpec, same_state, approved, registered, probed, evaluated, shadow,
  disabled, PromotionState,
}
use llm_fabric.Router.Policy.{RoutePolicy}
use llm_fabric.Router.Plan.Request.{ExclusionRule, RouteRequest}
use llm_fabric.Router.Plan.Filter.{RoutePlanner}
use llm_fabric.Router.Plan.Filter.Accounts.{ids, names, decided}
use llm_fabric.Router.Plan.Narrow.{
  Decision, exclusion, is_approved, approval_rule, placed, tier_refused, workload_refused,
  selected_tier, outside, approve_each, is_strict, is_exempt, narrow_with, is_empty, settle,
  narrow_to_approved,
}
use llm_fabric.Router.Plan.Narrow.Accounts.{IsNamed, names-append, contains-keep_named}

-- Approved with the identity and the evidence that the approval was given for, and for the tier and
-- the workload that are asked for, where the approval is limited to some.
pub record IsCleared {F : Float} (r : RouteRequest F) (m : ModelSpec F) : Type 0 where
  pub lifecycle : m.lifecycle ≡ approved
  pub identity : m.promotion_identity_match ≡ true
  pub evidence : m.promotion_evidence_bound ≡ true
  pub for_tier :
      (tier : ServiceTier)
      → parse_service_tier r.requested_model ≡ some tier
      → m.approved_tiers ≢ []
      → serves_approved_tier tier m ≡ true
  pub for_workload :
      (intent : String)
      → r.intent_id ≡ some intent
      → (intent == "") ≡ false
      → m.approved_workloads ≢ []
      → (tiers : List ServiceTier) × (Dict.get intent m.approved_workloads ≡ some tiers)
        × ((tier : ServiceTier)
            → selected_tier (parse_service_tier r.requested_model) m ≡ some tier
            → contains tier tiers ≡ true)

same_state_approved : (s : PromotionState) → same_state s approved ≡ true → s ≡ approved
unfolding same_state
same_state_approved registered h = cc
same_state_approved probed h = cc
same_state_approved evaluated h = cc
same_state_approved shadow h = cc
same_state_approved approved h = refl
same_state_approved disabled h = cc

limit_lem {ℓ} :
    {A : Type ℓ} (limits : List A) (passes : Bool)
    → (elim limits [ [] ↦ false | t ∷ ts ↦ not passes ]) ≡ false
    → limits ≢ []
    → passes ≡ true
limit_lem [] passes h n = absurd (n refl)
limit_lem (t ∷ ts) passes h n = ground arith

outside_lem :
    (asked : Option ServiceTier) (o : Option (List ServiceTier))
    → outside asked o ≡ false
    → (tiers : List ServiceTier) × (o ≡ some tiers)
      × ((t : ServiceTier) → asked ≡ some t → contains t tiers ≡ true)
unfolding outside
outside_lem asked none h = cc
outside_lem none (some tiers) h = (tiers, refl, λ t e. cc)
outside_lem (some a) (some tiers) h = (tiers, refl, λ t e. ground arith)

listed_lem :
    (intent : String) (asked : Option ServiceTier) (workloads : Dict String (List ServiceTier))
    → (intent == "") ≡ false
    → (elim workloads [
      | [] ↦ false
      | w ∷ ws ↦ not (intent == "") && outside asked (Dict.get intent (w ∷ ws))
    ])
      ≡ false
    → workloads ≢ []
    → outside asked (Dict.get intent workloads) ≡ false
listed_lem intent asked [] q h n = absurd (n refl)
listed_lem intent asked (w ∷ ws) q h n = ground arith

module _ {F : Float} where
  tier_lem :
      (asked : Option ServiceTier) (m : ModelSpec F)
      → tier_refused asked m ≡ false
      → (tier : ServiceTier) → asked ≡ some tier
      → m.approved_tiers ≢ []
      → serves_approved_tier tier m ≡ true
  unfolding tier_refused
  tier_lem none m h tier e n = cc
  tier_lem (some t) m h tier e n =
      let passes = limit_lem m.approved_tiers (serves_approved_tier t m) h n in
      let same : t ≡ tier = cc in cc

  workload_lem :
      (asked : Option String) (tier : Option ServiceTier) (m : ModelSpec F)
      → workload_refused asked tier m ≡ false
      → (intent : String) → asked ≡ some intent
      → (intent == "") ≡ false
      → m.approved_workloads ≢ []
      → (tiers : List ServiceTier) × (Dict.get intent m.approved_workloads ≡ some tiers)
        × ((t : ServiceTier) → selected_tier tier m ≡ some t → contains t tiers ≡ true)
  unfolding workload_refused
  workload_lem none tier m h intent e q n = cc
  workload_lem (some i) tier m h intent e q n =
      let same : i ≡ intent = cc in
      rw (sym same) (
        outside_lem (selected_tier tier m) _ (
          listed_lem i (selected_tier tier m) m.approved_workloads (ap (λ i'. i' == "") same ∙ q) h
            n))

  IsCleared-of_rule :
      (r : RouteRequest F) (kept : List String) (m : ModelSpec F)
      → is_approved true m ≡ true
      → approval_rule kept (parse_service_tier r.requested_model) r.intent_id m ≡ none
      → IsCleared r m
  unfolding is_approved approval_rule
  IsCleared-of_rule r kept m h e = record {
    lifecycle = same_state_approved m.lifecycle (ground arith);
    identity = ground arith;
    evidence = ground arith;
    for_tier = tier_lem _ m (ground arith);
    for_workload = workload_lem _ _ m (ground arith);
  }

  decided-placed :
      (m : ModelSpec F) (k : String) (rule : Option ExclusionRule) (d : Decision F)
      → decided k (placed m rule d).0 (placed m rule d).1
        ≡ (let n = decided k d.0 d.1 in if k == m.id then suc n else n)
  unfolding placed exclusion count
  decided-placed m k none d = ground arith
  decided-placed m k (some rule) d = ground arith

  pub decided-approve_each :
      (kept : List String) (tier : Option ServiceTier) (intent : Option String) (k : String)
      (ms : List (ModelSpec F))
      → decided k (approve_each kept tier intent ms).0 (approve_each kept tier intent ms).1
        ≡ count k (ids ms)
  unfolding approve_each count
  decided-approve_each kept tier intent k [] = ground arith
  decided-approve_each kept tier intent k (m ∷ ms) =
      let rest = approve_each kept tier intent ms in
      decided-placed m k (approval_rule kept tier intent m) rest
      ∙ ap (λ n. if k == m.id then suc n else n) (decided-approve_each kept tier intent k ms)

  pub decided-settle :
      (k : String) (d rest : Decision F)
      → decided k rest.0 rest.1 ≡ count k (ids d.0)
      → decided k (settle true d rest).0 (settle true d rest).1 ≡ decided k d.0 d.1
  unfolding settle count
  decided-settle k (eligible, excluded) ([], added) h =
      rw (names-append excluded added, count-append k (names excluded) (names added)) (omega arith)
  decided-settle k (eligible, excluded) (m ∷ ms, added) h =
      rw (names-append excluded added, count-append k (names excluded) (names added)) (omega arith)

  -- The tests of the loop keep only names among those of the approved deployments.
  kept_of_rule :
      (kept : List String) (tier : Option ServiceTier) (intent : Option String) (m : ModelSpec F)
      → approval_rule kept tier intent m ≡ none
      → contains m.id kept ≡ true
  unfolding approval_rule
  kept_of_rule kept tier intent m h = ground arith

  settle_strict : (d rest : Decision F) → (settle true d rest).0 ≡ rest.0
  unfolding settle
  settle_strict (eligible, excluded) ([], added) = refl
  settle_strict (eligible, excluded) (m ∷ ms, added) = refl

  module _ (look : String → Option (ModelSpec F)) (r : RouteRequest F) where
    Every-placed :
        (m : ModelSpec F) (rule : Option ExclusionRule) (d : Decision F)
        → (rule ≡ none → IsCleared r m)
        → Every (IsCleared r) d.0
        → Every (IsCleared r) (placed m rule d).0
    unfolding placed
    Every-placed m none d h hs = (h refl, hs)
    Every-placed m (some rule) d h hs = hs

    Every-approve_each :
        (all ms : List (ModelSpec F))
        → IsNamed look all
        → IsNamed look ms
        → Every
            (IsCleared r)
            (approve_each
              (ids (keep (is_approved true) all))
              (parse_service_tier r.requested_model)
              r.intent_id
              ms).0
    unfolding approve_each
    Every-approve_each all [] n ns = tt
    Every-approve_each all (m ∷ ms) n ns =
        let kept = ids (keep (is_approved true) all) in
        Every-placed m _ _
          (λ e.
            IsCleared-of_rule r kept m
              (ground (
                arith,
                contains-keep_named look (is_approved true) m ns.0 all n,
                kept_of_rule kept (parse_service_tier r.requested_model) r.intent_id m e,
              ))
              e)
          (Every-approve_each all ms n ns.1)

    narrow_with_lem :
        (d : Decision F)
        → IsNamed look d.0
        → Every
            (IsCleared r)
            (narrow_with false true (parse_service_tier r.requested_model) r.intent_id d).0
    unfolding narrow_with
    narrow_with_lem ([], excluded) n = tt
    narrow_with_lem (m ∷ ms, excluded) n =
        let kept = ids (keep (is_approved true) (m ∷ ms)) in
        let tier = parse_service_tier r.requested_model in
        elim (Bool-cases (is_empty (keep (is_approved true) (m ∷ ms)))) [
          | inl e ↦
              rw (e, settle_strict (m ∷ ms, excluded) (approve_each kept tier r.intent_id (m ∷ ms)))
                (Every-approve_each (m ∷ ms) (m ∷ ms) n n)
          | inr e ↦
              rw (e, settle_strict (m ∷ ms, excluded) (approve_each kept tier r.intent_id (m ∷ ms)))
                (Every-approve_each (m ∷ ms) (m ∷ ms) n n)
        ]

    -- Where approval is required, and a pinned request is not exempt from it, only deployments that
    -- are cleared for the request stay eligible, provided that the eligible deployments are the ones
    -- that their names stand for.
    pub narrow_to_approved-IsCleared :
        (p : RoutePlanner F) (policy : RoutePolicy) (d : Decision F)
        → IsNamed look d.0
        → is_strict p policy ≡ true
        → is_exempt p policy ≡ false
        → Every (IsCleared r) (narrow_to_approved p policy r d).0
    unfolding narrow_to_approved
    narrow_to_approved-IsCleared p policy d n strict required =
        rw (strict, required) (narrow_with_lem d n)
