-- ===== src/Router/Registry/Accepted.antt =====
-- router/registry.py: which lists the constructor of a `ModelRegistry` accepts.
use llm_fabric.Prelude.{
  ◌≡◌, ◌≢◌, ◌↔◌, refl, sym, ap, ◌∙◌, arith, true, false, some, none, List, [], ◌∷◌, String,
  string_eq, beq_refl, eq_of_beq, contains, ok, Every, Distinct, List-cases, inl, inr,
}
use mathlib.Core.Path.{subst}
use llm_fabric.Prelude.Float.{Float}
use llm_fabric.Prelude.Dict
use llm_fabric.Prelude.Dict.{Dict}
use llm_fabric.Router.Registry.{ModelSpec}
use llm_fabric.Router.Registry.Models.{
  Alias, ModelRegistry, has_key, add_models, add_aliases, fallbacks_valid, all_known, alias_valid,
  models_valid, aliases_valid, references_valid, validated, make_registry,
}
use llm_fabric.Router.Registry.Made.{
  IsMade, entries, names, written, add_models_lem, make_registry-IsMade,
}

module _ {F : Float} where
  has_key_absent :
      (k : String) (d : Dict String (ModelSpec F)) → Dict.get k d ≡ none → has_key k d ≡ false
  unfolding has_key
  has_key_absent k d h = rw (h, has_key) refl

  has_key_found :
      (k : String) (d : Dict String (ModelSpec F))
      → (m : ModelSpec F) × (Dict.get k d ≡ some m)
      → has_key k d ≡ true
  unfolding has_key
  has_key_found k d (m, h) = rw (h, has_key) refl

  absent_behind :
      (m : ModelSpec F) (d : Dict String (ModelSpec F)) (ms : List (ModelSpec F))
      → contains m.id (names ms) ≡ false
      → Every (λ n. Dict.get n.id d ≡ none) ms
      → Every (λ n. Dict.get n.id (Dict.put m.id m d) ≡ none) ms
  unfolding contains
  absent_behind m d [] other h = tt
  absent_behind m d (n ∷ ms) other h = (
    ground (arith, Dict.get-put n.id m.id m d, eq_of_beq n.id m.id, beq_refl m.id, h.0),
    absent_behind m d ms (ground arith) h.1,
  )

  add_models_ok :
      (ms : List (ModelSpec F)) (d : Dict String (ModelSpec F))
      → Every (λ n. Dict.get n.id d ≡ none) ms
      → Distinct (names ms)
      → (result : Dict String (ModelSpec F)) × (add_models d ms ≡ ok result)
  unfolding add_models
  add_models_ok [] d h once = (d, refl)
  add_models_ok (m ∷ ms) d h once =
      let d' = Dict.put m.id m d in
      rw (has_key_absent m.id d h.0) (add_models_ok ms d' (absent_behind m d ms once.0 h.1) once.1)

  module _ (models : Dict String (ModelSpec F)) where
    add_aliases_ok :
        (d : Dict String Alias) (others : List Alias)
        → Every (λ a. Dict.get a.id models ≡ none) others
        → add_aliases models d others ≡ ok (written d others)
    unfolding add_aliases written
    add_aliases_ok d [] h = refl
    add_aliases_ok d (a ∷ others) h =
        rw (has_key_absent a.id models h.0) (add_aliases_ok (Dict.put a.id a d) others h.1)

    fallbacks_valid_ok :
        (id : String) (fs : List String)
        → Every (λ f. (f ≢ id) × ((m : ModelSpec F) × (Dict.get f models ≡ some m))) fs
        → fallbacks_valid models id fs ≡ true
    unfolding fallbacks_valid
    fallbacks_valid_ok id [] h = refl
    fallbacks_valid_ok id (f ∷ fs) h =
        ground
          (arith, has_key_found f models h.0.1, fallbacks_valid_ok id fs h.1, eq_of_beq f id, h.0.0)

    models_valid_ok :
        (ms : List (ModelSpec F))
        → Every
            (λ m.
              Every
                (λ f. (f ≢ m.id) × ((n : ModelSpec F) × (Dict.get f models ≡ some n)))
                m.fallbacks)
            ms
        → models_valid models (entries ms) ≡ true
    unfolding models_valid
    models_valid_ok [] h = refl
    models_valid_ok (m ∷ ms) h =
        ground (arith, fallbacks_valid_ok m.id m.fallbacks h.0, models_valid_ok ms h.1)

    all_known_ok :
        (cs : List String)
        → Every (λ c. (m : ModelSpec F) × (Dict.get c models ≡ some m)) cs
        → all_known models cs ≡ true
    unfolding all_known
    all_known_ok [] h = refl
    all_known_ok (c ∷ cs) h = ground (arith, has_key_found c models h.0, all_known_ok cs h.1)

    alias_valid_ok :
        (a : Alias)
        → (a.candidates ≢ [])
          × Every (λ c. (m : ModelSpec F) × (Dict.get c models ≡ some m)) a.candidates
        → alias_valid models a ≡ true
    unfolding alias_valid
    alias_valid_ok a h = elim (List-cases a.candidates) [
      | inl e ↦ absurd (h.0 e)
      | inr (c, cs, e) ↦ rw (e, alias_valid) (all_known_ok (c ∷ cs) (rw e at h.1))
    ]

    aliases_valid_ok :
        (d : Dict String Alias)
        → Every
            (λ entry.
              (entry.1.candidates ≢ [])
              × Every (λ c. (m : ModelSpec F) × (Dict.get c models ≡ some m)) entry.1.candidates)
            d
        → aliases_valid models d ≡ true
    unfolding aliases_valid
    aliases_valid_ok [] h = refl
    aliases_valid_ok ((k, a) ∷ d) h = ground (arith, alias_valid_ok a h.0, aliases_valid_ok d h.1)

  all_absent : (ms : List (ModelSpec F)) → Every (λ n. Dict.get {V = ModelSpec F} n.id [] ≡ none) ms
  unfolding Dict.get
  all_absent [] = tt
  all_absent (m ∷ ms) = (refl, all_absent ms)

  validated_accepts : (r : ModelRegistry F) → references_valid r ≡ true → validated r ≡ ok r
  unfolding validated
  validated_accepts r h = rw h refl

  references_valid_ok :
      (ms : List (ModelSpec F)) (aliases : List Alias) (r : ModelRegistry F)
      → IsMade ms aliases r
      → references_valid r ≡ true
  unfolding references_valid
  references_valid_ok ms aliases r h =
      let of_models =
        subst (λ d. models_valid r.models d ≡ true) (sym h.tabled)
          (models_valid_ok r.models ms h.fallbacks) in
      ground (arith, of_models, aliases_valid_ok r.models r.aliases h.candidates)

  accepted :
      (ms : List (ModelSpec F)) (aliases : List Alias) (r : ModelRegistry F)
      → IsMade ms aliases r
      → make_registry ms aliases ≡ ok r
  unfolding make_registry
  accepted ms aliases r h =
      let (table, made) = add_models_ok ms [] (all_absent ms) h.once in
      let is_table : table ≡ r.models = add_models_lem ms [] table made ∙ sym h.tabled in
      let listed : add_models [] ms ≡ ok r.models = made ∙ ap ok is_table in
      let named : add_aliases r.models [] aliases ≡ ok r.aliases =
        add_aliases_ok r.models [] aliases h.apart ∙ ap ok (sym h.aliased) in
      rw listed (rw named (validated_accepts r (references_valid_ok ms aliases r h)))

  -- The constructor accepts its two lists and makes a registry of them exactly if: no two deployments
  -- have the same name, and the registry holds them, each under its own name, in their order, and no
  -- others; no alias has the name of a deployment, the registry holds the aliases, written in turn,
  -- and of aliases of one name the last one stands; every fallback of a deployment is another
  -- deployment of the registry; and every alias that stands has candidates, all of them deployments
  -- of the registry.
  pub make_registry_iff :
      (ms : List (ModelSpec F)) (aliases : List Alias) (r : ModelRegistry F)
      → (make_registry ms aliases ≡ ok r) ↔ IsMade ms aliases r
  make_registry_iff ms aliases r = (make_registry-IsMade ms aliases r, accepted ms aliases r)
