-- ===== src/Router/Plan/Planner/Made.antt =====
-- What `decide` and `plan_for` leave, and how `plan` puts them together.
use llm_fabric.Prelude.{
  ℕ, ◌≡◌, refl, sym, ap, ◌∙◌, true, false, Option, some, List, [], ◌∷◌, String, string_eq, count,
  Every, ok, bind_ok,
}
use mathlib.Core.Path.{subst}
use llm_fabric.Prelude.Float.{Float}
use llm_fabric.Prelude.Dict.{Dict}
use llm_fabric.Router.Health.Tracker.{HealthTracker, HealthSnapshot}
use llm_fabric.Router.Registry.{ModelSpec}
use llm_fabric.Router.Registry.Models.{alias}
use llm_fabric.Router.Intent.{policy_for_request}
use llm_fabric.Router.Policy.{RoutePolicy, policy_weights}
use llm_fabric.Router.Policy.Score.{ScoredCandidate, score_candidates}
use llm_fabric.Router.Policy.Score.Ranking.{specs, ranking, score_candidates_complete}
use llm_fabric.Router.Policy.Score.Kept.{Every-score_candidates}
use llm_fabric.Router.Plan.{graph_for}
use llm_fabric.Router.Plan.Request.{TenantRoutingPolicy, get_policy, RouteRequest}
use llm_fabric.Router.Plan.Candidates.{Candidates, candidates}
use llm_fabric.Router.Plan.Limits.{resolve_policy}
use llm_fabric.Router.Plan.Filter.{RoutePlanner, Constraints}
use llm_fabric.Router.Plan.Filter.Accounts.{ids, decided}
use llm_fabric.Router.Plan.Filter.Fits.{IsFit}
use llm_fabric.Router.Plan.Narrow.{Decision, is_strict, is_exempt, narrow_to_intent_policy}
use llm_fabric.Router.Plan.Narrow.Accounts.{
  Every-narrow_to_intent_policy, narrow_to_intent_policy_accounts,
}
use llm_fabric.Router.Plan.Narrow.Approved.{IsCleared, narrow_to_approved-IsCleared}
use llm_fabric.Router.Plan.Narrow.Kept.{Every-narrow_to_approved, narrow_to_approved_accounts}
use llm_fabric.Router.Plan.Planner.{
  Planned, hard_required, extras, constraints, filter_twice, decide, snapshots, scoring_inputs,
  rank, planned, plan_for, plan,
}
use llm_fabric.Router.Plan.Planner.Served.{twice_fits, twice_accounts, Every-twice}

ids-specs : {F : Float} (cs : List (ScoredCandidate F)) → ids (specs cs) ≡ ranking cs
ids-specs [] = refl
ids-specs (c ∷ cs) = ap (λ r. c.spec.id ∷ r) (ids-specs cs)

module _ {F : Float} (p : RoutePlanner F) (r : RouteRequest F) where
  -- The constraints that the request itself, its alias, its tenant and the planner set.
  abbrev pub hard_constraints : Candidates F → RoutePolicy → Constraints
  hard_constraints c policy =
      constraints p r c.minimum_grade policy (policy_for_request p.routing r.intent r.intent_id)
        (get_policy r.tenant_id p.tenants) (hard_required r (alias r.requested_model p.registry))

  module _ (policy : RoutePolicy) (tenant : Option (TenantRoutingPolicy F)) (d : Decision F)
      (t : HealthTracker F) (made : Planned F) where
    count-rank :
        (health : Dict String (HealthSnapshot F)) (k : String)
        → count k (ids (rank r policy health d.0)) ≡ count k (ids d.0)
    unfolding rank
    count-rank health k =
        let result =
          score_candidates policy (scoring_inputs r health) (policy_weights F policy) d.0 in
        ap (count k) (ids-specs result.candidates)
        ∙ score_candidates_complete policy (scoring_inputs r health) (policy_weights F policy) k d.0

    Every-rank :
        (health : Dict String (HealthSnapshot F)) (P : ModelSpec F → Type 0)
        → Every P d.0
        → Every P (rank r policy health d.0)
    unfolding rank
    Every-rank health P h =
        Every-score_candidates P policy (scoring_inputs r health) (policy_weights F policy) d.0 h

    -- What `plan_for` makes of the deployments that are left.
    plan_for_lem :
        plan_for p r policy tenant d t ≡ ok made
        → (made.policy ≡ policy)
          × (made.excluded ≡ d.1)
          × ((k : String) → count k (ids made.plan.ranked) ≡ count k (ids d.0))
          × ((P : ModelSpec F → Type 0) → Every P d.0 → Every P made.plan.ranked)
    unfolding plan_for
    plan_for_lem h =
        let snap = snapshots d.0 [] t in
        let ranked = rank r policy snap.1 d.0 in
        let (graph, made_graph, h') = bind_ok (graph_for p.declared_graph (ids ranked)) _ made h in
        let same : planned p policy tenant d.1 snap.0 ranked graph ≡ made = cc in
        rw (sym same) (refl, refl, count-rank snap.1, λ P hs. Every-rank snap.1 P hs)

  module _ (clock : ℕ → F.Carrier) (t : HealthTracker F) where
    -- What the plan keeps of the decision that it was made from.
    abbrev pub Keeps : Planned F → Candidates F → RoutePolicy → Type 1
    Keeps made c policy =
        let d = (decide clock p r c policy t).1 in
        (made.excluded ≡ d.1)
        × ((k : String) → count k (ids made.plan.ranked) ≡ count k (ids d.0))
        × ((P : ModelSpec F → Type 0) → Every P d.0 → Every P made.plan.ranked)

    -- A plan that is made was made from candidates, under a policy, by `decide` and `plan_for`.
    pub plan_lem :
        (made : Planned F)
        → plan clock p r t ≡ ok made
        → (c : Candidates F) × (candidates r.requested_model p.registry ≡ ok c)
          × Keeps made c made.policy
    unfolding plan
    plan_lem made h =
        let tenant = get_policy r.tenant_id p.tenants in
        let (c, found, h') = bind_ok (candidates r.requested_model p.registry) _ made h in
        let (policy, resolved, h'') =
          bind_ok (resolve_policy p.default_policy r c.policy tenant) _ made h' in
        let d = decide clock p r c policy t in
        let lemma = plan_for_lem policy tenant d.1 d.0 made h'' in
        (c, found, subst (Keeps made c) (sym lemma.0) (lemma.1, lemma.2, lemma.3))

    module _ (c : Candidates F) (policy : RoutePolicy) where
      Every-decide :
          (P : ModelSpec F → Type 0) → Every P c.specs → Every P (decide clock p r c policy t).1.0
      unfolding decide
      Every-decide P h = Every-narrow_to_approved P p policy r _ (
          Every-narrow_to_intent_policy P (policy_for_request p.routing r.intent r.intent_id) _ (
            Every-twice p r c.minimum_grade policy
              (policy_for_request p.routing r.intent r.intent_id) (get_policy r.tenant_id p.tenants)
              clock (hard_required r (alias r.requested_model p.registry)) _ c.specs t P h))

      pub decide-fits :
          Every
            (IsFit p r (hard_constraints c policy) (get_policy r.tenant_id p.tenants))
            (decide clock p r c policy t).1.0
      unfolding decide
      decide-fits =
          let fit = IsFit p r (hard_constraints c policy) (get_policy r.tenant_id p.tenants) in
          Every-narrow_to_approved fit p policy r _ (
            Every-narrow_to_intent_policy fit (policy_for_request p.routing r.intent r.intent_id) _
              (twice_fits p r c.minimum_grade policy
                (policy_for_request p.routing r.intent r.intent_id)
                (get_policy r.tenant_id p.tenants) clock
                (hard_required r (alias r.requested_model p.registry)) _ c.specs t))

      pub decide-IsCleared :
          (find : String → Option (ModelSpec F))
          → Every (λ m. find m.id ≡ some m) c.specs
          → is_strict p policy ≡ true
          → is_exempt p policy ≡ false
          → Every (IsCleared r) (decide clock p r c policy t).1.0
      unfolding decide
      decide-IsCleared find h strict required =
          narrow_to_approved-IsCleared find r p policy _
            (Every-narrow_to_intent_policy (λ m. find m.id ≡ some m)
              (policy_for_request p.routing r.intent r.intent_id) _
              (Every-twice p r c.minimum_grade policy
                (policy_for_request p.routing r.intent r.intent_id)
                (get_policy r.tenant_id p.tenants) clock
                (hard_required r (alias r.requested_model p.registry)) _ c.specs t
                (λ m. find m.id ≡ some m) h))
            strict required

      pub decide-accounts :
          (find : String → Option (ModelSpec F))
          → Every (λ m. find m.id ≡ some m) c.specs
          → is_strict p policy ≡ true
          → (k : String)
          → decided k (decide clock p r c policy t).1.0 (decide clock p r c policy t).1.1
            ≡ count k (ids c.specs)
      unfolding decide
      decide-accounts find h strict k =
          let intent = policy_for_request p.routing r.intent r.intent_id in
          let tenant = get_policy r.tenant_id p.tenants in
          let hard = hard_required r (alias r.requested_model p.registry) in
          let more = extras r intent hard in
          let f =
            filter_twice clock p r (constraints p r c.minimum_grade policy intent tenant) tenant
              hard more c.specs t in
          let named =
            Every-twice p r c.minimum_grade policy intent tenant clock hard more c.specs t
              (λ m. find m.id ≡ some m) h in
          narrow_to_approved_accounts p policy r k
            (narrow_to_intent_policy intent (f.eligible, f.excluded)) strict
          ∙ narrow_to_intent_policy_accounts find intent k (f.eligible, f.excluded) named
          ∙ twice_accounts p r c.minimum_grade policy intent tenant clock hard more c.specs t k
