-- ===== src/Router/Plan/Narrow/Kept.antt =====
-- `_narrow_to_approved` widens nothing, and loses nothing where approval is required.
use llm_fabric.Prelude.{
  ◌≡◌, refl, Bool, true, false, ◌&&◌, not, Option, none, some, List, [], ◌∷◌, String, string_eq,
  keep, Every, Bool-cases, inl, inr,
}
use llm_fabric.Prelude.Float.{Float}
use llm_fabric.Router.Tiers.{ServiceTier, parse_service_tier}
use llm_fabric.Router.Registry.{ModelSpec}
use llm_fabric.Router.Policy.{RoutePolicy}
use llm_fabric.Router.Plan.Request.{ExclusionRule, RouteRequest}
use llm_fabric.Router.Plan.Filter.{RoutePlanner}
use llm_fabric.Router.Plan.Filter.Accounts.{ids, decided}
use llm_fabric.Router.Plan.Narrow.{
  Decision, is_empty, is_approved, placed, approve_each, is_strict, is_exempt, narrow_with, settle,
  narrow_to_approved,
}
use llm_fabric.Router.Plan.Narrow.Approved.{decided-approve_each, decided-settle}

module _ {F : Float} where
  decided-narrow_with :
      (exempt : Bool) (tier : Option ServiceTier) (intent : Option String) (k : String)
      (d : Decision F)
      → decided k
          (narrow_with exempt true tier intent d).0
          (narrow_with exempt true tier intent d).1
        ≡ decided k d.0 d.1
  unfolding narrow_with
  decided-narrow_with exempt tier intent k ([], excluded) = refl
  decided-narrow_with true tier intent k (m ∷ ms, excluded) = refl
  decided-narrow_with false tier intent k (m ∷ ms, excluded) =
      let kept = keep (is_approved true) (m ∷ ms) in
      let lemma =
        decided-settle k (m ∷ ms, excluded) (approve_each (ids kept) tier intent (m ∷ ms))
          (decided-approve_each (ids kept) tier intent k (m ∷ ms)) in
      elim (Bool-cases (is_empty kept)) [ inl e ↦ rw e lemma | inr e ↦ rw e lemma ]

  -- Where approval is required, each deployment that does not stay eligible is recorded as excluded,
  -- and no other is.
  pub narrow_to_approved_accounts :
      (p : RoutePlanner F) (policy : RoutePolicy) (r : RouteRequest F) (k : String) (d : Decision F)
      → is_strict p policy ≡ true
      → decided k (narrow_to_approved p policy r d).0 (narrow_to_approved p policy r d).1
        ≡ decided k d.0 d.1
  unfolding narrow_to_approved
  narrow_to_approved_accounts p policy r k d strict = rw strict (
      decided-narrow_with (is_exempt p policy) (parse_service_tier r.requested_model) r.intent_id k
        d)

  module _ {ℓ} (P : ModelSpec F → Type ℓ) where
    Every-placed :
        (m : ModelSpec F) (rule : Option ExclusionRule) (d : Decision F)
        → P m
        → Every P d.0
        → Every P (placed m rule d).0
    unfolding placed
    Every-placed m none d h hs = (h, hs)
    Every-placed m (some rule) d h hs = hs

    Every-approve_each :
        (kept : List String) (tier : Option ServiceTier) (intent : Option String)
        (ms : List (ModelSpec F))
        → Every P ms
        → Every P (approve_each kept tier intent ms).0
    unfolding approve_each
    Every-approve_each kept tier intent [] h = tt
    Every-approve_each kept tier intent (m ∷ ms) h =
        Every-placed m _ _ h.0 (Every-approve_each kept tier intent ms h.1)

    Every-settle :
        (strict : Bool) (d rest : Decision F)
        → Every P d.0
        → Every P rest.0
        → Every P (settle strict d rest).0
    unfolding settle
    Every-settle true (eligible, excluded) ([], added) h g = tt
    Every-settle false (eligible, excluded) ([], added) h g = h
    Every-settle strict (eligible, excluded) (m ∷ ms, added) h g = g

    Every-narrow_with :
        (exempt strict : Bool) (tier : Option ServiceTier) (intent : Option String) (d : Decision F)
        → Every P d.0
        → Every P (narrow_with exempt strict tier intent d).0
    unfolding narrow_with
    Every-narrow_with exempt strict tier intent ([], excluded) h = h
    Every-narrow_with true strict tier intent (m ∷ ms, excluded) h = h
    Every-narrow_with false strict tier intent (m ∷ ms, excluded) h =
        let kept = keep (is_approved strict) (m ∷ ms) in
        let rest = approve_each (ids kept) tier intent (m ∷ ms) in
        elim (Bool-cases (is_empty kept && not strict)) [
          | inl e ↦ rw e h
          | inr e ↦ rw e (
              Every-settle strict (m ∷ ms, excluded) rest h
                (Every-approve_each (ids kept) tier intent (m ∷ ms) h))
        ]

    -- What holds of every eligible deployment still does.
    pub Every-narrow_to_approved :
        (p : RoutePlanner F) (policy : RoutePolicy) (r : RouteRequest F) (d : Decision F)
        → Every P d.0
        → Every P (narrow_to_approved p policy r d).0
    unfolding narrow_to_approved
    Every-narrow_to_approved p policy r d h = Every-narrow_with _ _ _ _ d h
