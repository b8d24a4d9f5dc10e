-- ===== src/Router/Registry/References.antt =====
-- router/registry.py: what `_validate_references` and the tables of a `ModelRegistry` promise.
use llm_fabric.Prelude.{
  ◌≡◌, refl, sym, ap, ◌∙◌, true, Option, some, List, [], ◌∷◌, String, string_eq, nat_eq, ok,
  bind_ok, Every, Distinct, Bool-cases, inl, inr,
}
use llm_fabric.Prelude.Float.{Float}
use llm_fabric.Prelude.Dict
use llm_fabric.Prelude.Dict.{Dict}
use llm_fabric.Prelude.Dict.Distinct.{keys, Distinct-put, Distinct-reach, Every-put}
use llm_fabric.Router.Registry.{ModelSpec}
use llm_fabric.Router.Registry.Models.{
  Alias, ModelRegistry, has_key, values, add_models, add_aliases, references_valid, validated,
  make_registry, replace,
}

-- The tables have each key once, and a deployment stands under its own name.
pub record IsKeyed {F : Float} (models : Dict String (ModelSpec F)) : Type 0 where
  pub distinct : Distinct (keys models)
  pub own_name : Every (λ entry. entry.1.id ≡ entry.0) models

-- A registry whose references all lead to one of its deployments.
pub record IsValid {F : Float} (r : ModelRegistry F) : Type 0 where
  pub keyed : IsKeyed r.models
  pub references : references_valid r ≡ true

module _ {F : Float} where
  IsKeyed-put :
      (m : ModelSpec F) (models : Dict String (ModelSpec F))
      → IsKeyed models
      → IsKeyed (Dict.put m.id m models)
  IsKeyed-put m models h = record {
    distinct = Distinct-put m.id m models h.distinct;
    own_name = Every-put (λ entry. entry.1.id ≡ entry.0) m.id m models refl h.own_name;
  }

  IsKeyed-add_models :
      (ms : List (ModelSpec F)) (d result : Dict String (ModelSpec F))
      → IsKeyed d
      → add_models d ms ≡ ok result
      → IsKeyed result
  unfolding add_models
  IsKeyed-add_models [] d result h e = let same : d ≡ result = cc in rw (sym same) h
  IsKeyed-add_models (m ∷ ms) d result h e = elim (Bool-cases (has_key m.id d)) [
    | inl there ↦ absurd (cc (rw there at e))
    | inr fresh ↦
        IsKeyed-add_models ms (Dict.put m.id m d) result (IsKeyed-put m d h) (rw fresh at e)
  ]

  -- A registry that is made is valid.
  pub make_registry-IsValid :
      (models : List (ModelSpec F)) (aliases : List Alias) (r : ModelRegistry F)
      → make_registry models aliases ≡ ok r
      → IsValid r
  unfolding make_registry validated
  make_registry-IsValid models aliases r h =
      let (table, made, h') = bind_ok (add_models [] models) _ r h in
      let (named, linked, h'') = bind_ok (add_aliases table [] aliases) _ r h' in
      go table named h''
        (IsKeyed-add_models models [] table (record { distinct = tt; own_name = tt }) made)
    where
      go :
          (table : Dict String (ModelSpec F)) (named : Dict String Alias)
          → validated (record { models = table; aliases = named }) ≡ ok r
          → IsKeyed table
          → IsValid r
      go table named h k =
          elim (Bool-cases (references_valid (record { models = table; aliases = named }))) [
            | inl e ↦
                let same : record { models = table; aliases = named } ≡ r =
                  cc (rw (validated, e) at h) in
                rw (sym same) (record { keyed = k; references = e })
            | inr e ↦ absurd (cc (rw (validated, e) at h))
          ]

  -- A replacement keeps a registry valid, whether it is refused or not.
  pub replace-IsValid :
      (m : ModelSpec F) (r : ModelRegistry F) → IsValid r → IsValid (replace m r).0
  unfolding replace
  replace-IsValid m r h =
      let r' = record r { models = Dict.put m.id m r.models } in
      elim (Bool-cases (has_key m.id r.models)) [
        | inl there ↦ elim (Bool-cases (references_valid r')) [
          | inl e ↦
              rw (there, e) (record { keyed = IsKeyed-put m r.models h.keyed; references = e })
          | inr e ↦ rw (there, e) h
        ]
        | inr unknown ↦ rw unknown h
      ]

  -- The deployment that a name finds in the tables.
  abbrev pub look : ModelRegistry F → String → Option (ModelSpec F)
  look r id = Dict.get id r.models

  pub look_own :
      (r : ModelRegistry F) (id : String) (m : ModelSpec F)
      → IsKeyed r.models
      → look r id ≡ some m
      → look r m.id ≡ some m
  look_own r id m k h =
      let own = Dict.Every-get (λ entry. entry.1.id ≡ entry.0) id m r.models h k.own_name in
      ap (look r) own ∙ h

  -- The deployments that a registry lists are the ones that their names find.
  pub look-values :
      (r : ModelRegistry F) → IsKeyed r.models → Every (λ m. look r m.id ≡ some m) (values r.models)
  look-values r k = go r.models (Distinct-reach r.models k.distinct) k.own_name
    where
      go :
          (d : Dict String (ModelSpec F))
          → Every (λ entry. look r entry.0 ≡ some entry.1) d
          → Every (λ entry. entry.1.id ≡ entry.0) d
          → Every (λ m. look r m.id ≡ some m) (values d)
      go [] h n = tt
      go ((j, m) ∷ d) h n = (ap (look r) n.0 ∙ h.0, go d h.1 n.1)
