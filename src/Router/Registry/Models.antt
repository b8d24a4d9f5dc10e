-- ===== src/Router/Registry/Models.antt =====
-- router/registry.py: `ModelRegistry`.
use llm_fabric.Prelude.{
  Bool, true, false, not, ◌&&◌, ◌||◌, Option, none, some, List, [], ◌∷◌, map, String, ◌==◌,
  string_eq, keep, if◌then◌else◌, Result, ok, err, ◌>>=◌,
}
use llm_fabric.Prelude.Float.{Float}
use llm_fabric.Prelude.Dict
use llm_fabric.Prelude.Dict.{Dict}
use llm_fabric.Errors.{ErrorClass}
use llm_fabric.Router.Tiers.{Grade, ServiceTier, parse_service_tier}
use llm_fabric.Router.Registry.{ModelSpec, serves_tier}

-- `policy` is the name as it is configured.
pub record Alias : Type 0 where
  pub id : String
  pub candidates : List String
  pub policy : Option String
  pub requires : List String
  pub minimum_grade : Option Grade

pub record ModelRegistry (F : Float) : Type 0 where
  pub models : Dict String (ModelSpec F)
  pub aliases : Dict String Alias

-- `key in mapping`
unfoldable pub has_key {ℓ} : {V : Type ℓ} → String → Dict String V → Bool
has_key k d = elim (Dict.get k d) [ none ↦ false | some v ↦ true ]

-- `list(mapping.values())`
abbrev pub values {ℓ} : {V : Type ℓ} → Dict String V → List V
values d = map (λ entry. entry.1) d

module _ {F : Float} where
  unfoldable pub add_models :
      Dict String (ModelSpec F) → List (ModelSpec F) → Result ErrorClass (Dict String (ModelSpec F))
  unfolding has_key
  add_models d [] = ok d
  add_models d (m ∷ ms) =
      let rest = add_models (Dict.put m.id m d) ms in
      if has_key m.id d then err ErrorClass.configuration else rest

  unfoldable pub add_aliases :
      Dict String (ModelSpec F)
      → Dict String Alias
      → List Alias
      → Result ErrorClass (Dict String Alias)
  unfolding has_key
  add_aliases models d [] = ok d
  add_aliases models d (a ∷ others) =
      let rest = add_aliases models (Dict.put a.id a d) others in
      if has_key a.id models then err ErrorClass.configuration else rest

  -- The fallbacks of one deployment are known and not itself.
  unfoldable pub fallbacks_valid : Dict String (ModelSpec F) → String → List String → Bool
  unfolding has_key
  fallbacks_valid models id [] = true
  fallbacks_valid models id (f ∷ fs) =
      (has_key f models && not (f == id)) && fallbacks_valid models id fs

  unfoldable pub all_known : Dict String (ModelSpec F) → List String → Bool
  unfolding has_key
  all_known models [] = true
  all_known models (c ∷ cs) = has_key c models && all_known models cs

  -- An alias names at least one candidate and only known ones.
  unfoldable pub alias_valid : Dict String (ModelSpec F) → Alias → Bool
  unfolding all_known
  alias_valid models a = elim a.candidates [ [] ↦ false | c ∷ cs ↦ all_known models (c ∷ cs) ]

  unfoldable pub models_valid : Dict String (ModelSpec F) → Dict String (ModelSpec F) → Bool
  unfolding fallbacks_valid
  models_valid models [] = true
  models_valid models ((k, m) ∷ rest) =
      fallbacks_valid models m.id m.fallbacks && models_valid models rest

  unfoldable pub aliases_valid : Dict String (ModelSpec F) → Dict String Alias → Bool
  unfolding alias_valid
  aliases_valid models [] = true
  aliases_valid models ((k, a) ∷ rest) = alias_valid models a && aliases_valid models rest

  -- `_validate_references`: whether it raises nothing.
  unfoldable pub references_valid : ModelRegistry F → Bool
  unfolding models_valid aliases_valid
  references_valid r = models_valid r.models r.models && aliases_valid r.models r.aliases

  unfoldable pub validated : ModelRegistry F → Result ErrorClass (ModelRegistry F)
  unfolding references_valid
  validated r = if references_valid r then ok r else err ErrorClass.configuration

  -- `ModelRegistry(models, aliases)`
  unfoldable pub make_registry :
      List (ModelSpec F) → List Alias → Result ErrorClass (ModelRegistry F)
  unfolding add_models add_aliases validated
  make_registry models aliases = do
    known ← add_models [] models
    named ← add_aliases known [] aliases
    validated (record { models = known; aliases = named })

  unfoldable pub get : String → ModelRegistry F → Result ErrorClass (ModelSpec F)
  get id r = elim (Dict.get id r.models) [ none ↦ err ErrorClass.model_not_found | some m ↦ ok m ]

  -- `replace`: the registry that is left, and the error if there is one.
  unfoldable pub replace : ModelSpec F → ModelRegistry F → ModelRegistry F × Option ErrorClass
  unfolding has_key references_valid
  replace m r =
      let r' = record r { models = Dict.put m.id m r.models } in
      if has_key m.id r.models
      then (if references_valid r' then (r', none) else (r, some ErrorClass.configuration))
      else (r, some ErrorClass.model_not_found)

  unfoldable pub alias : String → ModelRegistry F → Option Alias
  alias id r = Dict.get id r.aliases

  unfoldable pub is_model : String → ModelRegistry F → Bool
  unfolding has_key
  is_model id r = has_key id r.models

  unfoldable pub enabled_models : ModelRegistry F → List (ModelSpec F)
  enabled_models r = keep (λ m. m.enabled) (values r.models)

  unfoldable pub models_serving_tier : ServiceTier → ModelRegistry F → List (ModelSpec F)
  unfolding enabled_models
  models_serving_tier tier r = keep (λ m. serves_tier tier m) (enabled_models r)

  unfoldable pub known : String → ModelRegistry F → Bool
  unfolding has_key models_serving_tier
  known id r = (has_key id r.models || has_key id r.aliases) || elim (parse_service_tier id) [
    | none ↦ false
    | some tier ↦ elim (models_serving_tier tier r) [ [] ↦ false | m ∷ ms ↦ true ]
  ]
