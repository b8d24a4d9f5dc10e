-- ===== src/Router/Plan/Planner/Served.antt =====
-- What `plan` keeps of its parts' promises.
use llm_fabric.Prelude.{
  ℕ, ◌≡◌, arith, Option, List, [], ◌∷◌, ◌++◌, String, string_eq, contains-append, length, count,
  Every, Every-map,
}
use llm_fabric.Prelude.Float.{Float}
use llm_fabric.Router.Tiers.{Grade}
use llm_fabric.Router.Health.Tracker.{HealthTracker}
use llm_fabric.Router.Registry.{ModelSpec}
use llm_fabric.Router.Intent.{IntentRoutePolicy}
use llm_fabric.Router.Policy.{RoutePolicy}
use llm_fabric.Router.Plan.Request.{TenantRoutingPolicy, RouteRequest}
use llm_fabric.Router.Plan.Filter.{RoutePlanner, Filtered, filter}
use llm_fabric.Router.Plan.Filter.Accounts.{ids, decided, filter_accounts, Every-filter}
use llm_fabric.Router.Plan.Filter.Fits.{IsFit, filter_fits}
use llm_fabric.Router.Plan.Planner.{constraints, retried, filter_twice}

retried-cases :
    {F : Float} (Q : Filtered F → Type 0) (eligible : List (ModelSpec F)) (more : List String)
    (once again : Filtered F)
    → Q once
    → Q again
    → Q (retried eligible more once again)
unfolding retried
retried-cases Q (m ∷ ms) more once again h g = h
retried-cases Q [] [] once again h g = h
retried-cases Q [] (c ∷ cs) once again h g = g

module _ {F : Float} (p : RoutePlanner F) (r : RouteRequest F) where
  module _ (alias_grade : Option Grade) (policy : RoutePolicy)
      (intent_policy : Option IntentRoutePolicy) (tenant : Option (TenantRoutingPolicy F)) where
    -- More required capabilities narrow.
    IsFit-fewer :
        (hard more : List String) (m : ModelSpec F)
        → IsFit p r
            (constraints p r alias_grade policy intent_policy tenant (hard ++ more))
            tenant
            m
        → IsFit p r (constraints p r alias_grade policy intent_policy tenant hard) tenant m
    unfolding constraints
    IsFit-fewer hard more m h = record {
      is_enabled = h.is_enabled;
      not_disabled = h.not_disabled;
      commercial = h.commercial;
      not_shifted = h.not_shifted;
      not_denied = h.not_denied;
      by_provider = h.by_provider;
      in_place = h.in_place;
      high_enough = h.high_enough;
      low_enough = h.low_enough;
      capable = λ k e. h.capable k (ground (arith, contains-append k hard more));
      holds_context = h.holds_context;
      within_budget = h.within_budget;
    }

    module _ (clock : ℕ → F.Carrier) (hard more : List String) (ms : List (ModelSpec F))
        (t : HealthTracker F) where
      pub twice_fits :
          Every
            (IsFit p r (constraints p r alias_grade policy intent_policy tenant hard) tenant)
            (filter_twice clock p r
              (constraints p r alias_grade policy intent_policy tenant)
              tenant
              hard
              more
              ms
              t).eligible
      unfolding filter_twice
      twice_fits =
          let limits = constraints p r alias_grade policy intent_policy tenant in
          let once = filter clock p r (limits (hard ++ more)) tenant 0 ms t in
          retried-cases (λ f. Every (IsFit p r (limits hard) tenant) f.eligible) once.eligible more
            once (filter clock p r (limits hard) tenant (length ms) ms once.health)
            (Every-map (IsFit-fewer hard more) once.eligible
              (filter_fits p r (limits (hard ++ more)) tenant clock 0 ms t))
            (filter_fits p r (limits hard) tenant clock (length ms) ms once.health)

      pub twice_accounts :
          (k : String)
          → (let f =
                filter_twice clock p r
                  (constraints p r alias_grade policy intent_policy tenant)
                  tenant
                  hard
                  more
                  ms
                  t in
              decided k f.eligible f.excluded ≡ count k (ids ms))
      unfolding filter_twice
      twice_accounts k =
          let limits = constraints p r alias_grade policy intent_policy tenant in
          let once = filter clock p r (limits (hard ++ more)) tenant 0 ms t in
          retried-cases (λ f. decided k f.eligible f.excluded ≡ count k (ids ms)) once.eligible more
            once (filter clock p r (limits hard) tenant (length ms) ms once.health)
            (filter_accounts p r (limits (hard ++ more)) tenant clock 0 ms t k)
            (filter_accounts p r (limits hard) tenant clock (length ms) ms once.health k)

      pub Every-twice :
          (P : ModelSpec F → Type 0)
          → Every P ms
          → Every P
              (filter_twice clock p r
                (constraints p r alias_grade policy intent_policy tenant)
                tenant
                hard
                more
                ms
                t).eligible
      unfolding filter_twice
      Every-twice P h =
          let limits = constraints p r alias_grade policy intent_policy tenant in
          let once = filter clock p r (limits (hard ++ more)) tenant 0 ms t in
          retried-cases (λ f. Every P f.eligible) once.eligible more once
            (filter clock p r (limits hard) tenant (length ms) ms once.health)
            (Every-filter p r (limits (hard ++ more)) tenant P clock 0 ms t h)
            (Every-filter p r (limits hard) tenant P clock (length ms) ms once.health h)
