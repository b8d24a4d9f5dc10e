-- ===== src/Router/Plan/Candidates.antt =====
-- router/plan.py: `_candidates`, the deployments that a request may mean.
pub mod Known
use llm_fabric.Prelude.{
  Bool, Option, none, some, List, [], ◌∷◌, String, if◌then◌else◌, Result, ok, err, ◌>>=◌,
}
use llm_fabric.Prelude.Float.{Float}
use llm_fabric.Errors.{ErrorClass}
use llm_fabric.Router.Tiers.{Grade, ServiceTier, parse_service_tier}
use llm_fabric.Router.Registry.{ModelSpec}
use llm_fabric.Router.Registry.Models.{ModelRegistry, get, alias, is_model, models_serving_tier}

-- `policy` is the name as it is configured.
pub record Candidates (F : Float) : Type 0 where
  pub specs : List (ModelSpec F)
  pub policy : Option String
  pub minimum_grade : Option Grade

module _ {F : Float} where
  -- `[registry.get(id) for id in ids]`
  unfoldable pub get_all : List String → ModelRegistry F → Result ErrorClass (List (ModelSpec F))
  unfolding get
  get_all [] r = ok []
  get_all (id ∷ more) r = do m ← get id r; ms ← get_all more r; ok (m ∷ ms)

  unfoldable pub serving : Option ServiceTier → ModelRegistry F → Result ErrorClass (Candidates F)
  unfolding models_serving_tier
  serving none r = err ErrorClass.model_not_found
  serving (some tier) r = elim (models_serving_tier tier r) [
    | [] ↦ err ErrorClass.model_not_found
    | m ∷ ms ↦ ok (record { specs = m ∷ ms; policy = none; minimum_grade = none })
  ]

  unfoldable pub pinned : String → ModelRegistry F → Result ErrorClass (Candidates F)
  unfolding get get_all
  pinned id r = do
    primary ← get id r
    chain ← get_all primary.fallbacks r
    ok (record { specs = primary ∷ chain; policy = some "declared"; minimum_grade = none })

  -- `_candidates`
  unfoldable pub candidates : String → ModelRegistry F → Result ErrorClass (Candidates F)
  unfolding alias is_model get_all pinned serving
  candidates id r = elim (alias id r) [
    | some a ↦ do
      ms ← get_all a.candidates r
      ok (record { specs = ms; policy = a.policy; minimum_grade = a.minimum_grade })
    | none ↦ if is_model id r then pinned id r else serving (parse_service_tier id) r
  ]
