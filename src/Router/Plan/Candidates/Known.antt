-- ===== src/Router/Plan/Candidates/Known.antt =====
-- `ModelRegistry.known` and `_candidates` agree, and what the candidates are.
use llm_fabric.Prelude.{
  ◌≡◌, ◌≢◌, refl, sym, ◌∙◌, arith, Bool, true, false, Option, none, some, List, [], ◌∷◌, String,
  string_eq, Result, ok, Every, Every-keep, Bool-cases, Option-cases, List-cases, inl, inr,
}
use llm_fabric.Prelude.Float.{Float}
use llm_fabric.Prelude.Dict
use llm_fabric.Prelude.Dict.{Dict}
use llm_fabric.Errors.{ErrorClass}
use llm_fabric.Router.Tiers.{ServiceTier, parse_service_tier}
use llm_fabric.Router.Registry.{ModelSpec}
use llm_fabric.Router.Registry.Models.{
  Alias, ModelRegistry, has_key, fallbacks_valid, all_known, alias_valid, models_valid,
  aliases_valid, references_valid, get, models_serving_tier, values, known, is_model, alias,
}
use llm_fabric.Router.Registry.References.{IsKeyed, IsValid, look, look_own, look-values}
use llm_fabric.Router.Plan.Candidates.{Candidates, get_all, serving, pinned, candidates}

cons_nonempty {ℓ} : {A : Type ℓ} (x : A) (xs : List A) → (x ∷ xs) ≢ []
cons_nonempty x xs e = cc

module _ {F : Float} (r : ModelRegistry F) where
  abbrev IsFound : List (ModelSpec F) → Type 0
  IsFound ms = Every (λ m. look r m.id ≡ some m) ms

  aliases_valid-Every :
      (d : Dict String Alias)
      → aliases_valid r.models d ≡ true
      → Every (λ entry. alias_valid r.models entry.1 ≡ true) d
  unfolding aliases_valid
  aliases_valid-Every [] h = tt
  aliases_valid-Every ((k, a) ∷ d) h = (ground arith, aliases_valid-Every d (ground arith))

  models_valid-Every :
      (d : Dict String (ModelSpec F))
      → models_valid r.models d ≡ true
      → Every (λ entry. fallbacks_valid r.models entry.1.id entry.1.fallbacks ≡ true) d
  unfolding models_valid
  models_valid-Every [] h = tt
  models_valid-Every ((k, m) ∷ d) h = (ground arith, models_valid-Every d (ground arith))

  all_known-of_alias :
      (a : Alias)
      → alias_valid r.models a ≡ true
      → (all_known r.models a.candidates ≡ true) × (a.candidates ≢ [])
  unfolding alias_valid
  all_known-of_alias a h = elim (List-cases a.candidates) [
    | inl e ↦ absurd (cc (rw (alias_valid, e) at h))
    | inr (c, cs, e) ↦ (rw e (rw (alias_valid, e) at h), λ empty. cc)
  ]

  all_known-of_fallbacks :
      (id : String) (fs : List String)
      → fallbacks_valid r.models id fs ≡ true
      → all_known r.models fs ≡ true
  unfolding fallbacks_valid all_known
  all_known-of_fallbacks id [] h = refl
  all_known-of_fallbacks id (f ∷ fs) h = ground (arith, all_known-of_fallbacks id fs)

  get-known :
      (id : String)
      → has_key id r.models ≡ true
      → (m : ModelSpec F) × (get id r ≡ ok m) × (look r id ≡ some m)
  unfolding has_key get
  get-known id h = elim (Option-cases (Dict.get id r.models)) [
    | inl e ↦ absurd (cc (rw (has_key, e) at h))
    | inr (m, e) ↦ (m, rw (get, e) refl, e)
  ]

  get_all-known :
      (ids : List String)
      → all_known r.models ids ≡ true
      → IsKeyed r.models
      → (ms : List (ModelSpec F)) × (get_all ids r ≡ ok ms) × IsFound ms × (ids ≢ [] → ms ≢ [])
  unfolding get_all all_known
  get_all-known [] h k = ([], refl, tt, λ n. absurd (n refl))
  get_all-known (id ∷ more) h k =
      let (m, e, found) = get-known id (ground arith) in
      let (ms, es, founds, filled) = get_all-known more (ground arith) k in
      (m ∷ ms, rw (e, es) refl, (look_own r id m k found, founds), λ n. cons_nonempty m ms)

  -- What `known` promises of a name.
  abbrev pub IsResolved : Result ErrorClass (Candidates F) → Type 0
  IsResolved result = (c : Candidates F) × (result ≡ ok c) × IsFound c.specs × (c.specs ≢ [])

  pinned-IsResolved :
      (id : String) → IsValid r → has_key id r.models ≡ true → IsResolved (pinned id r)
  unfolding pinned references_valid
  pinned-IsResolved id v h =
      let (m, e, found) = get-known id h in
      let fallbacks =
        Dict.Every-get (λ entry. fallbacks_valid r.models entry.1.id entry.1.fallbacks ≡ true) id m
          r.models found (models_valid-Every r.models (ground (arith, v.references))) in
      let (ms, es, founds, filled) =
        get_all-known m.fallbacks (all_known-of_fallbacks m.id m.fallbacks fallbacks) v.keyed in
      let c : Candidates F = record {
        specs = m ∷ ms;
        policy = some "declared";
        minimum_grade = none;
      } in
      (c, rw (e, es) refl, (look_own r id m v.keyed found, founds), cons_nonempty m ms)

  IsFound-as : (xs ys : List (ModelSpec F)) → xs ≡ ys → IsFound xs → IsFound ys
  IsFound-as xs ys e h = rw (sym e) h

  alias-IsResolved :
      (id : String) (a : Alias) → IsValid r → alias id r ≡ some a → IsResolved (candidates id r)
  unfolding candidates references_valid alias
  alias-IsResolved id a v h =
      let valid = all_known-of_alias a (
        Dict.Every-get (λ entry. alias_valid r.models entry.1 ≡ true) id a r.aliases h
          (aliases_valid-Every r.aliases (ground (arith, v.references)))) in
      let (ms, es, founds, filled) = get_all-known a.candidates valid.0 v.keyed in
      let c : Candidates F = record {
        specs = ms;
        policy = a.policy;
        minimum_grade = a.minimum_grade;
      } in
      (c, rw (candidates, h, es) refl, founds, filled valid.1)

  serving-IsFound : (t : ServiceTier) → IsKeyed r.models → IsFound (models_serving_tier t r)
  unfolding models_serving_tier
  serving-IsFound t k =
      Every-keep (λ m. look r m.id ≡ some m) _ _
        (Every-keep (λ m. look r m.id ≡ some m) _ (values r.models) (look-values r k))

  abbrev is_served : Option ServiceTier → Bool
  is_served none = false
  is_served (some t) = elim (models_serving_tier t r) [ [] ↦ false | m ∷ ms ↦ true ]

  serving-IsResolved :
      (tier : Option ServiceTier)
      → IsKeyed r.models
      → is_served tier ≡ true
      → IsResolved (serving tier r)
  unfolding serving
  serving-IsResolved none k h = cc
  serving-IsResolved (some t) k h = elim (List-cases (models_serving_tier t r)) [
    | inl e ↦ absurd (cc (rw (is_served, e) at h))
    | inr (m, ms, e) ↦
        let c : Candidates F = record { specs = m ∷ ms; policy = none; minimum_grade = none } in
        (
          c,
          rw (serving, e) refl,
          IsFound-as (models_serving_tier t r) (m ∷ ms) e (serving-IsFound t k),
          cons_nonempty m ms,
        )
  ]

  is_served-serving :
      (tier : Option ServiceTier) (c : Candidates F) → serving tier r ≡ ok c → is_served tier ≡ true
  unfolding serving
  is_served-serving none c h = cc
  is_served-serving (some t) c h = elim (List-cases (models_serving_tier t r)) [
    | inl e ↦ absurd (cc (rw (serving, e) at h))
    | inr (m, ms, e) ↦ rw (is_served, e) refl
  ]

  known_lem :
      (id : String)
      → alias id r ≡ none
      → has_key id r.models ≡ false
      → known id r ≡ is_served (parse_service_tier id)
  unfolding known has_key alias
  known_lem id h n = ground arith

  known-of_alias : (id : String) (a : Alias) → alias id r ≡ some a → known id r ≡ true
  unfolding known has_key alias
  known-of_alias id a h = ground arith

  known-of_model : (id : String) → has_key id r.models ≡ true → known id r ≡ true
  unfolding known
  known-of_model id h = ground arith

  candidates-pinned :
      (id : String) → alias id r ≡ none → has_key id r.models ≡ true → candidates id r ≡ pinned id r
  unfolding candidates is_model
  candidates-pinned id h n = rw (candidates, h, n) refl

  candidates-serving :
      (id : String)
      → alias id r ≡ none
      → has_key id r.models ≡ false
      → candidates id r ≡ serving (parse_service_tier id) r
  unfolding candidates is_model
  candidates-serving id h n = rw (candidates, h, n) refl

  -- In a valid registry a name is known exactly if it has candidates; and then it has at least one,
  -- and each is the deployment of the registry that its own name finds.
  pub candidates_known :
      (id : String)
      → IsValid r
      → (known id r ≡ true → IsResolved (candidates id r))
        × ((c : Candidates F) → candidates id r ≡ ok c → known id r ≡ true)
  candidates_known id v = elim (Option-cases (alias id r)) [
    | inr (a, e) ↦ (λ k. alias-IsResolved id a v e, λ c k. known-of_alias id a e)
    | inl e ↦ elim (Bool-cases (has_key id r.models)) [
      | inl there ↦ (
        λ k. rw (candidates-pinned id e there) (pinned-IsResolved id v there),
        λ c k. known-of_model id there,
      )
      | inr gone ↦ (
        λ k.
            rw (candidates-serving id e gone)
              (serving-IsResolved (parse_service_tier id) v.keyed (sym (known_lem id e gone) ∙ k)),
        λ c k.
            known_lem id e gone
            ∙ is_served-serving (parse_service_tier id) c (sym (candidates-serving id e gone) ∙ k),
      )
    ]
  ]
