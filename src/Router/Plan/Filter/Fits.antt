-- ===== src/Router/Plan/Filter/Fits.antt =====
-- Which candidates `_filter` lets through.
use llm_fabric.Prelude.{
  ℕ, suc, ◌≤◌, ◌≡◌, ◌≢◌, refl, arith, Bool, true, false, not, ◌&&◌, Option, none, some, List, [],
  ◌∷◌, String, string_eq, contains, Every, Bool-cases, Option-cases, inl, inr, nat_beq,
  contains-keep,
}
use llm_fabric.Prelude.Float.{Float}
use llm_fabric.Router.Tiers.{Grade}
use llm_fabric.Router.Capabilities.{CapabilityVector, has, missing}
use llm_fabric.Router.Health.Tracker.{HealthTracker}
use llm_fabric.Router.Registry.{
  Locality, is_among, PromotionState, disabled as lifecycle_disabled, registered, probed, evaluated,
  shadow, approved, same_state, ModelSpec, cost_usd, usable_context_tokens, fits_context,
}
use llm_fabric.Router.Plan.Request.{
  ExclusionRule, TenantRoutingPolicy, RouteRequest, output_tokens, context_requirement,
}
use llm_fabric.Router.Plan.Filter.{
  RoutePlanner, Constraints, forbidden, gate_excludes, provider_refused, locality_refused,
  below_minimum, above_maximum, lacks, denied_models, allowed_providers, tenant_cost_cap, tightest,
  is_over_budget, fixed_tests, first_rule, measured_rule, verdict, Filtered, sorted_in, filter,
}

-- A deployment that no hard rule of the request, the planner or the tenant speaks against.
pub record IsFit {F : Float} (p : RoutePlanner F) (r : RouteRequest F) (c : Constraints)
    (tenant : Option (TenantRoutingPolicy F)) (m : ModelSpec F) : Type 0 where
  pub is_enabled : m.enabled ≡ true
  pub not_disabled : m.lifecycle ≢ lifecycle_disabled
  pub commercial : p.commercial_use_required ≡ true → m.commercial_use ≢ some false
  pub not_shifted : gate_excludes p.traffic m.id ≡ false
  pub not_denied : contains m.id (denied_models tenant) ≡ false
  pub by_provider :
      (allowed : List String)
      → allowed_providers tenant ≡ some allowed
      → allowed ≢ []
      → contains m.provider allowed ≡ true
  pub in_place :
      (allowed : List Locality) → c.localities ≡ some allowed → is_among m.locality allowed ≡ true
  pub high_enough :
      (minimum : Grade)
      → c.minimum_grade ≡ some minimum
      → (g : Grade) × (m.grade ≡ some g) × (minimum ≤ g)
  pub low_enough :
      (maximum g : Grade) → c.maximum_grade ≡ some maximum → m.grade ≡ some g → g ≤ maximum
  pub capable : (k : String) → contains k c.required ≡ true → has k m.capabilities ≡ true
  pub holds_context :
      (limit : ℕ) → usable_context_tokens m ≡ some limit → context_requirement r ≤ limit
  pub within_budget :
      (ceiling estimate : F.Carrier)
      → tightest F r.budget_usd (tenant_cost_cap tenant) ≡ some ceiling
      → cost_usd m r.prompt_tokens (output_tokens r) ≡ some estimate
      → F.ltb ceiling estimate ≡ false

same_state_refl : (s : PromotionState) → same_state s s ≡ true
unfolding same_state
same_state_refl registered = refl
same_state_refl probed = refl
same_state_refl evaluated = refl
same_state_refl shadow = refl
same_state_refl approved = refl
same_state_refl lifecycle_disabled = refl

provider_lem :
    (o : Option (List String)) (p : String)
    → provider_refused o p ≡ false
    → (allowed : List String) → o ≡ some allowed
    → allowed ≢ []
    → contains p allowed ≡ true
unfolding provider_refused
provider_lem none p h allowed e n = cc
provider_lem (some []) p h allowed e n = absurd (n (cc))
provider_lem (some (q ∷ qs)) p h allowed e n = ground arith

contains-missing :
    (required : List String) (v : CapabilityVector) (k : String)
    → missing required v ≡ []
    → contains k required ≡ true
    → has k v ≡ true
unfolding missing has contains
contains-missing required v k h e = elim (Bool-cases (contains k v.effective)) [
  | inl found ↦ found
  | inr gone ↦
      let kept = contains-keep (λ c. not (contains c v.effective)) k required in
      absurd (cc (rw (h, gone, e) at kept))
]

place_lem :
    (o : Option (List Locality)) (l : Locality)
    → locality_refused o l ≡ false
    → (allowed : List Locality) → o ≡ some allowed
    → is_among l allowed ≡ true
unfolding locality_refused
place_lem none l h allowed e = cc
place_lem (some ls) l h allowed e = ground arith

minimum_lem :
    (o grade : Option Grade)
    → below_minimum o grade ≡ false
    → (minimum : Grade) → o ≡ some minimum
    → (g : Grade) × (grade ≡ some g) × (minimum ≤ g)
unfolding below_minimum
minimum_lem none grade h minimum e = cc
minimum_lem (some n) none h minimum e = cc
minimum_lem (some n) (some g) h minimum e = (g, refl, ground arith)

maximum_lem :
    (o grade : Option Grade)
    → above_maximum o grade ≡ false
    → (maximum g : Grade) → o ≡ some maximum
    → grade ≡ some g
    → g ≤ maximum
unfolding above_maximum
maximum_lem none grade h maximum g e i = cc
maximum_lem (some n) none h maximum g e i = cc
maximum_lem (some n) (some g') h maximum g e i = ground arith

lacks_lem :
    {F : Float} (required : List String) (m : ModelSpec F)
    → lacks required m ≡ false
    → missing required m.capabilities ≡ []
unfolding lacks
lacks_lem required m h = ground arith

commercial_lem :
    (required : Bool) (allowed : Option Bool)
    → (required && forbidden allowed) ≡ false
    → required ≡ true
    → allowed ≢ some false
unfolding forbidden
commercial_lem required allowed h r e = ground arith

module _ {F : Float} (m : ModelSpec F) where
  context_lem :
      (needed : ℕ)
      → (not (nat_beq needed 0) && not (fits_context needed m)) ≡ false
      → (limit : ℕ) → usable_context_tokens m ≡ some limit
      → needed ≤ limit
  unfolding fits_context
  context_lem needed h limit e = ground arith

  budget_lem :
      (r : RouteRequest F) (tenant : Option (TenantRoutingPolicy F))
      → is_over_budget m r tenant ≡ false
      → (ceiling estimate : F.Carrier)
      → tightest F r.budget_usd (tenant_cost_cap tenant) ≡ some ceiling
      → cost_usd m r.prompt_tokens (output_tokens r) ≡ some estimate
      → F.ltb ceiling estimate ≡ false
  unfolding is_over_budget
  budget_lem r tenant h ceiling estimate e i = cc (rw (is_over_budget, e, i) at h)

none_holds :
    (tests : List (Bool × ExclusionRule)) → first_rule tests ≡ none → Every (λ t. t.0 ≡ false) tests
unfolding first_rule
none_holds [] h = tt
none_holds ((true, rule) ∷ tests) h = cc
none_holds ((false, rule) ∷ tests) h = (refl, none_holds tests h)

module _ {F : Float} (p : RoutePlanner F) (r : RouteRequest F) (c : Constraints)
    (tenant : Option (TenantRoutingPolicy F)) where
  IsFit-of_fixed_tests :
      (m : ModelSpec F)
      → first_rule (fixed_tests p r c tenant m) ≡ none
      → is_over_budget m r tenant ≡ false
      → IsFit p r c tenant m
  unfolding fixed_tests is_over_budget
  IsFit-of_fixed_tests m h budget =
      let t = none_holds (fixed_tests p r c tenant m) h in
      record {
        is_enabled = ground arith;
        not_disabled = λ e. absurd (cc (rw e at t.1.0));
        commercial = commercial_lem _ _ t.1.1.0;
        not_shifted = t.1.1.1.0;
        not_denied = t.1.1.1.1.0;
        by_provider = provider_lem _ _ t.1.1.1.1.1.0;
        in_place = place_lem _ _ t.1.1.1.1.1.1.0;
        high_enough = minimum_lem _ _ t.1.1.1.1.1.1.1.0;
        low_enough = maximum_lem _ _ t.1.1.1.1.1.1.1.1.0;
        capable = λ k. contains-missing _ _ k (lacks_lem _ m t.1.1.1.1.1.1.1.1.1.0);
        holds_context = context_lem m _ t.1.1.1.1.1.1.1.1.1.1.0;
        within_budget = budget_lem m r tenant budget;
      }

  measured_rule-lem :
      (clock : F.Carrier) (m : ModelSpec F) (t : HealthTracker F)
      → (measured_rule clock r tenant m t).1 ≡ none
      → is_over_budget m r tenant ≡ false
  unfolding measured_rule
  measured_rule-lem clock m t h = ground arith

  verdict-IsFit :
      (clock : F.Carrier) (m : ModelSpec F) (t : HealthTracker F)
      → (verdict clock p r c tenant m t).1 ≡ none
      → IsFit p r c tenant m
  unfolding verdict
  verdict-IsFit clock m t h = elim (Option-cases (first_rule (fixed_tests p r c tenant m))) [
    | inl e ↦ IsFit-of_fixed_tests m e (measured_rule-lem clock m t (rw (verdict, e) at h))
    | inr (rule, e) ↦ absurd (cc (rw (verdict, e) at h))
  ]

  sorted_in-Every :
      (m : ModelSpec F) (rule : Option ExclusionRule) (f : Filtered F)
      → (rule ≡ none → IsFit p r c tenant m)
      → Every (IsFit p r c tenant) f.eligible
      → Every (IsFit p r c tenant) (sorted_in m rule f).eligible
  unfolding sorted_in
  sorted_in-Every m none f h hs = (h refl, hs)
  sorted_in-Every m (some rule) f h hs = hs

  -- Every deployment that the filter lets through is fit: it is enabled, the tenant, the localities,
  -- the grades, the capabilities and the context allow it, and its price, where it is known, does not
  -- exceed the ceiling, where there is one.
  pub filter_fits :
      (clock : ℕ → F.Carrier) (n : ℕ) (ms : List (ModelSpec F)) (t : HealthTracker F)
      → Every (IsFit p r c tenant) (filter clock p r c tenant n ms t).eligible
  unfolding filter
  filter_fits clock n [] t = tt
  filter_fits clock n (m ∷ ms) t =
      let v = verdict (clock n) p r c tenant m t in
      sorted_in-Every m v.1 (filter clock p r c tenant (suc n) ms v.0) (verdict-IsFit (clock n) m t)
        (filter_fits clock (suc n) ms v.0)
