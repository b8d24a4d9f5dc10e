-- ===== src/Router/Plan/Filter/Accounts.antt =====
-- No candidate is lost by `_filter`.
use llm_fabric.Prelude.{
  ℕ, suc, ◌+◌, ◌≡◌, refl, ap, ◌∙◌, arith, Option, none, some, List, [], ◌∷◌, map, String, string_eq,
  count, ◌==◌, if◌then◌else◌, Every,
}
use llm_fabric.Prelude.Float.{Float}
use llm_fabric.Router.Health.Tracker.{HealthTracker}
use llm_fabric.Router.Registry.{ModelSpec}
use llm_fabric.Router.Plan.Request.{ExclusionRule, Exclusion, TenantRoutingPolicy, RouteRequest}
use llm_fabric.Router.Plan.Filter.{RoutePlanner, Constraints, verdict, Filtered, sorted_in, filter}

abbrev pub ids : {F : Float} → List (ModelSpec F) → List String
ids ms = map (λ m. m.id) ms

abbrev pub names : List Exclusion → List String
names es = map (λ e. e.model_id) es

-- How often a name is decided on, either way.
abbrev pub decided : {F : Float} → String → List (ModelSpec F) → List Exclusion → ℕ
decided id eligible excluded = count id (ids eligible) + count id (names excluded)

module _ {F : Float} (p : RoutePlanner F) (r : RouteRequest F) (c : Constraints)
    (tenant : Option (TenantRoutingPolicy F)) where
  decided-sorted_in :
      (id : String) (m : ModelSpec F) (rule : Option ExclusionRule) (f : Filtered F)
      → decided id (sorted_in m rule f).eligible (sorted_in m rule f).excluded
        ≡ (let rest = decided id f.eligible f.excluded in if id == m.id then suc rest else rest)
  unfolding sorted_in count
  decided-sorted_in id m none f = ground arith
  decided-sorted_in id m (some rule) f = ground arith

  -- The filter decides on each candidate once: a deployment's name stands among the eligible ones and
  -- the excluded ones together as often as among the candidates.
  pub filter_accounts :
      (clock : ℕ → F.Carrier) (n : ℕ) (ms : List (ModelSpec F)) (t : HealthTracker F) (id : String)
      → decided id
          (filter clock p r c tenant n ms t).eligible
          (filter clock p r c tenant n ms t).excluded
        ≡ count id (ids ms)
  unfolding filter count
  filter_accounts clock n [] t id = refl
  filter_accounts clock n (m ∷ ms) t id =
      let v = verdict (clock n) p r c tenant m t in
      decided-sorted_in id m v.1 (filter clock p r c tenant (suc n) ms v.0)
      ∙ ap (λ rest. if id == m.id then suc rest else rest) (filter_accounts clock (suc n) ms v.0 id)

  module _ {ℓ} (P : ModelSpec F → Type ℓ) where
    Every-sorted_in :
        (m : ModelSpec F) (rule : Option ExclusionRule) (f : Filtered F)
        → P m
        → Every P f.eligible
        → Every P (sorted_in m rule f).eligible
    unfolding sorted_in
    Every-sorted_in m none f h hs = (h, hs)
    Every-sorted_in m (some rule) f h hs = hs

    -- What holds of every candidate holds of every eligible deployment.
    pub Every-filter :
        (clock : ℕ → F.Carrier) (n : ℕ) (ms : List (ModelSpec F)) (t : HealthTracker F)
        → Every P ms
        → Every P (filter clock p r c tenant n ms t).eligible
    unfolding filter
    Every-filter clock n [] t h = tt
    Every-filter clock n (m ∷ ms) t h =
        let v = verdict (clock n) p r c tenant m t in
        Every-sorted_in m v.1 _ h.0 (Every-filter clock (suc n) ms v.0 h.1)
