-- ===== src/Router/Registry/Made.antt =====
-- router/registry.py: what the constructor of a `ModelRegistry` makes of its two lists.
use llm_fabric.Prelude.{
  ◌≡◌, ◌≢◌, refl, sym, ap, ◌∙◌, arith, true, false, Option, none, some, List, [], ◌∷◌, ◌++◌, map,
  String, ◌==◌, string_eq, beq_refl, if◌then◌else◌, ok, bind_ok, Every, Distinct, Bool-cases,
  Option-cases, List-cases, inl, inr,
}
use mathlib.Core.Path.{subst}
use mathlib.Core.List.{append-nil, append_assoc}
use llm_fabric.Prelude.Float.{Float}
use llm_fabric.Prelude.Dict
use llm_fabric.Prelude.Dict.{Dict}
use llm_fabric.Prelude.Dict.Distinct.{keys}
use llm_fabric.Router.Registry.{ModelSpec}
use llm_fabric.Router.Registry.Models.{
  Alias, ModelRegistry, has_key, add_models, add_aliases, fallbacks_valid, all_known, alias_valid,
  models_valid, aliases_valid, references_valid, validated, make_registry,
}
use llm_fabric.Router.Registry.References.{make_registry-IsValid, look}

-- Each deployment under its own name, in the order of the list.
abbrev pub entries : {F : Float} → List (ModelSpec F) → Dict String (ModelSpec F)
entries ms = map (λ m. (m.id, m)) ms

abbrev pub names : {F : Float} → List (ModelSpec F) → List String
names ms = map (λ m. m.id) ms

-- The last alias of the list that has the name.
unfoldable pub last_named : String → List Alias → Option Alias
last_named k [] = none
last_named k (a ∷ others) =
    let rest = last_named k others in
    elim rest [ some b ↦ some b | none ↦ if k == a.id then some a else none ]

-- The aliases of the list under their names, written in turn.
unfoldable pub written : Dict String Alias → List Alias → Dict String Alias
written d [] = d
written d (a ∷ others) = written (Dict.put a.id a d) others

-- A name leads to a deployment of the registry.
abbrev pub Leads : {F : Float} → ModelRegistry F → String → Type 0
Leads {F} r k = (m : ModelSpec F) × (look r k ≡ some m)

pub record IsMade {F : Float} (models : List (ModelSpec F)) (aliases : List Alias)
    (r : ModelRegistry F) : Type 0 where
  pub once : Distinct (names models)
  pub tabled : r.models ≡ entries models
  pub apart : Every (λ a. look r a.id ≡ none) aliases
  pub aliased : r.aliases ≡ written [] aliases
  pub last : (k : String) → Dict.get k r.aliases ≡ last_named k aliases
  pub fallbacks : Every (λ m. Every (λ f. (f ≢ m.id) × Leads r f) m.fallbacks) models
  pub candidates :
      Every (λ entry. (entry.1.candidates ≢ []) × Every (Leads r) entry.1.candidates) r.aliases

module _ {F : Float} where
  absent : (k : String) (d : Dict String (ModelSpec F)) → has_key k d ≡ false → Dict.get k d ≡ none
  unfolding has_key
  absent k d h = ground arith

  found :
      (k : String) (d : Dict String (ModelSpec F))
      → has_key k d ≡ true
      → (m : ModelSpec F) × (Dict.get k d ≡ some m)
  unfolding has_key
  found k d h = elim (Option-cases (Dict.get k d)) [
    | inl e ↦ absurd (ground arith)
    | inr (m, e) ↦ (m, e)
  ]

  pub add_models_lem :
      (ms : List (ModelSpec F)) (d result : Dict String (ModelSpec F))
      → add_models d ms ≡ ok result
      → result ≡ d ++ entries ms
  unfolding add_models
  add_models_lem [] d result e = let same : result ≡ d = cc in same ∙ sym (append-nil d)
  add_models_lem (m ∷ ms) d result e = elim (Bool-cases (has_key m.id d)) [
    | inl there ↦ absurd (cc (rw there at e))
    | inr fresh ↦
        add_models_lem ms (Dict.put m.id m d) result (rw fresh at e)
        ∙ ap (λ x. x ++ entries ms) (Dict.put_new m.id m d (absent m.id d fresh))
        ∙ append_assoc d ((m.id, m) ∷ []) (entries ms)
  ]

  keys-entries : (ms : List (ModelSpec F)) → keys (entries ms) ≡ names ms
  keys-entries [] = refl
  keys-entries (m ∷ ms) = ap (λ rest. m.id ∷ rest) (keys-entries ms)

  module _ (models : Dict String (ModelSpec F)) where
    add_aliases-apart :
        (d result : Dict String Alias) (others : List Alias)
        → add_aliases models d others ≡ ok result
        → Every (λ a. Dict.get a.id models ≡ none) others
    unfolding add_aliases
    add_aliases-apart d result [] e = tt
    add_aliases-apart d result (a ∷ others) e = elim (Bool-cases (has_key a.id models)) [
      | inl there ↦ absurd (cc (rw there at e))
      | inr fresh ↦ (
        absent a.id models fresh,
        add_aliases-apart (Dict.put a.id a d) result others (rw fresh at e),
      )
    ]

    add_aliases-written :
        (d result : Dict String Alias) (others : List Alias)
        → add_aliases models d others ≡ ok result
        → result ≡ written d others
    unfolding add_aliases written
    add_aliases-written d result [] e = cc
    add_aliases-written d result (a ∷ others) e = elim (Bool-cases (has_key a.id models)) [
      | inl there ↦ absurd (cc (rw there at e))
      | inr fresh ↦ add_aliases-written (Dict.put a.id a d) result others (rw fresh at e)
    ]

    get-add_aliases :
        (k : String) (d result : Dict String Alias) (others : List Alias)
        → add_aliases models d others ≡ ok result
        → Dict.get k result ≡ elim (last_named k others) [ some b ↦ some b | none ↦ Dict.get k d ]
    unfolding add_aliases last_named
    get-add_aliases k d result [] e = let same : result ≡ d = cc in ap (Dict.get k) same
    get-add_aliases k d result (a ∷ others) e = elim (Bool-cases (has_key a.id models)) [
      | inl there ↦ absurd (cc (rw there at e))
      | inr fresh ↦ ground (
        arith,
        get-add_aliases k (Dict.put a.id a d) result others (rw fresh at e),
        Dict.get-put k a.id a d,
      )
    ]

    get_last :
        (k : String) (others : List Alias) (result : Dict String Alias)
        → add_aliases models [] others ≡ ok result
        → Dict.get k result ≡ last_named k others
    unfolding Dict.get
    get_last k others result e = elim (Option-cases (last_named k others)) [
      | inl none_named ↦ get-add_aliases k [] result others e ∙ rw none_named refl
      | inr (b, named) ↦ get-add_aliases k [] result others e ∙ rw named refl
    ]

    fallbacks_valid-Every :
        (id : String) (fs : List String)
        → fallbacks_valid models id fs ≡ true
        → Every (λ f. (f ≢ id) × ((m : ModelSpec F) × (Dict.get f models ≡ some m))) fs
    unfolding fallbacks_valid
    fallbacks_valid-Every id [] h = tt
    fallbacks_valid-Every id (f ∷ fs) h = (
      (λ same. ground (arith, beq_refl f), found f models (ground arith)),
      fallbacks_valid-Every id fs (ground arith),
    )

    all_known-Every :
        (cs : List String)
        → all_known models cs ≡ true
        → Every (λ c. (m : ModelSpec F) × (Dict.get c models ≡ some m)) cs
    unfolding all_known
    all_known-Every [] h = tt
    all_known-Every (c ∷ cs) h = (found c models (ground arith), all_known-Every cs (ground arith))

    models_valid-Every :
        (ms : List (ModelSpec F))
        → models_valid models (entries ms) ≡ true
        → Every
            (λ m.
              Every
                (λ f. (f ≢ m.id) × ((n : ModelSpec F) × (Dict.get f models ≡ some n)))
                m.fallbacks)
            ms
    unfolding models_valid
    models_valid-Every [] h = tt
    models_valid-Every (m ∷ ms) h = (
      fallbacks_valid-Every m.id m.fallbacks (ground arith),
      models_valid-Every ms (ground arith),
    )

    alias_valid-candidates :
        (a : Alias)
        → alias_valid models a ≡ true
        → (a.candidates ≢ [])
          × Every (λ c. (m : ModelSpec F) × (Dict.get c models ≡ some m)) a.candidates
    unfolding alias_valid
    alias_valid-candidates a h = elim (List-cases a.candidates) [
      | inl e ↦ absurd (cc (rw (alias_valid, e) at h))
      | inr (c, cs, e) ↦ (λ empty. cc, rw e (all_known-Every (c ∷ cs) (rw (alias_valid, e) at h)))
    ]

    aliases_valid-Every :
        (d : Dict String Alias)
        → aliases_valid models d ≡ true
        → Every
            (λ entry.
              (entry.1.candidates ≢ [])
              × Every (λ c. (m : ModelSpec F) × (Dict.get c models ≡ some m)) entry.1.candidates)
            d
    unfolding aliases_valid
    aliases_valid-Every [] h = tt
    aliases_valid-Every ((k, a) ∷ d) h =
        (alias_valid-candidates a (ground arith), aliases_valid-Every d (ground arith))

  validated_ok : (r' r : ModelRegistry F) → validated r' ≡ ok r → r' ≡ r
  unfolding validated
  validated_ok r' r h = ground arith

  -- What the constructor makes is what it should be.
  pub make_registry-IsMade :
      (models : List (ModelSpec F)) (aliases : List Alias) (r : ModelRegistry F)
      → make_registry models aliases ≡ ok r
      → IsMade models aliases r
  unfolding make_registry references_valid
  make_registry-IsMade models aliases r h =
      let (table, made, h') = bind_ok (add_models [] models) _ r h in
      let (named, linked, h'') = bind_ok (add_aliases table [] aliases) _ r h' in
      let same = validated_ok (record { models = table; aliases = named }) r h'' in
      let valid = make_registry-IsValid models aliases r h in
      let is_table : table ≡ r.models = ap (λ x. x.models) same in
      let is_named : named ≡ r.aliases = ap (λ x. x.aliases) same in
      let tabled : r.models ≡ entries models = sym is_table ∙ add_models_lem models [] table made in
      let linked' : add_aliases r.models [] aliases ≡ ok r.aliases =
        rw (is_table, is_named) at linked in
      record {
        once =
            subst Distinct (keys-entries models)
              (subst (λ d. Distinct (keys d)) tabled valid.keyed.distinct);
        tabled = tabled;
        apart = add_aliases-apart r.models [] r.aliases aliases linked';
        aliased = add_aliases-written r.models [] r.aliases aliases linked';
        last = λ k. get_last r.models k aliases r.aliases linked';
        fallbacks =
            models_valid-Every r.models models (
              subst (λ d. models_valid r.models d ≡ true) tabled
                (ground (arith, valid.references)));
        candidates = aliases_valid-Every r.models r.aliases (ground (arith, valid.references));
      }
