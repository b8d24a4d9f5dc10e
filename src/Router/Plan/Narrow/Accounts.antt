-- ===== src/Router/Plan/Narrow/Accounts.antt =====
-- No deployment is lost by the narrowing of a plan.
use llm_fabric.Prelude.{
  ◌+◌, ◌≡◌, refl, sym, ap, ◌∙◌, arith, Bool, true, not, ◌&&◌, Option, none, some, List, [], ◌∷◌,
  ◌++◌, map, String, string_eq, count, count-append, contains, keep, ◌==◌, beq_refl, eq_of_beq,
  Every, Every-map, Every-keep, Bool-cases, List-cases, inl, inr,
}
use llm_fabric.Prelude.Float.{Float}
use llm_fabric.Router.Tiers.{ServiceTier}
use llm_fabric.Router.Registry.{ModelSpec}
use llm_fabric.Router.Intent.{IntentRoutePolicy}
use llm_fabric.Router.Plan.Request.{ExclusionRule, Exclusion}
use llm_fabric.Router.Plan.Filter.Accounts.{ids, names, decided}
use llm_fabric.Router.Plan.Narrow.{
  Decision, exclusion, keeping, preferring, prefer_tiers, prefer_models, narrow_to_intent_policy,
}

-- Each deployment is the one that its name stands for.
abbrev pub IsNamed : {F : Float} → (String → Option (ModelSpec F)) → List (ModelSpec F) → Type 0
IsNamed look ms = Every (λ m. look m.id ≡ some m) ms

pub names-append : (es es' : List Exclusion) → names (es ++ es') ≡ names es ++ names es'
names-append [] es' = refl
names-append (e ∷ es) es' = ap (λ r. e.model_id ∷ r) (names-append es es')

module _ {F : Float} where
  names-exclusion :
      (rule : ExclusionRule) (ms : List (ModelSpec F)) → names (map (exclusion rule) ms) ≡ ids ms
  unfolding exclusion
  names-exclusion rule [] = refl
  names-exclusion rule (m ∷ ms) = ap (λ r. m.id ∷ r) (names-exclusion rule ms)

  count-split :
      (test : ModelSpec F → Bool) (k : String) (ms : List (ModelSpec F))
      → count k (ids (keep test ms)) + count k (ids (keep (λ m. not (test m)) ms))
        ≡ count k (ids ms)
  unfolding count keep
  count-split test k [] = refl
  count-split test k (m ∷ ms) = elim (Bool-cases (test m)) [
    | inl e ↦ rw e (ground (arith, count-split test k ms))
    | inr e ↦ rw e (ground (arith, count-split test k ms))
  ]

  keep_congr :
      (p q : ModelSpec F → Bool) (ms : List (ModelSpec F))
      → Every (λ m. p m ≡ q m) ms
      → keep p ms ≡ keep q ms
  unfolding keep
  keep_congr p q [] h = refl
  keep_congr p q (m ∷ ms) h = rw (h.0, keep_congr p q ms h.1) refl

  contains_self : (ms : List (ModelSpec F)) → Every (λ m. contains m.id (ids ms) ≡ true) ms
  unfolding contains
  contains_self [] = tt
  contains_self (m ∷ ms) =
      (ground (arith, beq_refl m.id), Every-map (λ m' h. ground arith) ms (contains_self ms))

  module _ (look : String → Option (ModelSpec F)) where
    same_named :
        (m m' : ModelSpec F)
        → look m.id ≡ some m
        → look m'.id ≡ some m'
        → (m.id == m'.id) ≡ true
        → m ≡ m'
    same_named m m' h h' e = let i = eq_of_beq m.id m'.id e in cc

    -- A name is kept if it is there and its deployment passes the test.
    pub contains-keep_named :
        (test : ModelSpec F → Bool) (m : ModelSpec F)
        → look m.id ≡ some m
        → (ms : List (ModelSpec F)) → IsNamed look ms
        → contains m.id (ids (keep test ms)) ≡ (test m && contains m.id (ids ms))
    unfolding contains keep
    contains-keep_named test m h [] hs = ground arith
    contains-keep_named test m h (x ∷ xs) hs =
        let rest = contains-keep_named test m h xs hs.1 in
        elim (Bool-cases (m.id == x.id)) [
          | inl e ↦ rw (sym (same_named m x h hs.0 e)) (ground (arith, rest, beq_refl m.id))
          | inr e ↦ elim (Bool-cases (test x)) [
            | inl t ↦ rw t (ground (arith, rest, e))
            | inr t ↦ rw t (ground (arith, rest, e))
          ]
        ]

    keep-named_complement :
        (test : ModelSpec F → Bool) (ms : List (ModelSpec F))
        → IsNamed look ms
        → keep (λ m. not (contains m.id (ids (keep test ms)))) ms ≡ keep (λ m. not (test m)) ms
    keep-named_complement test ms h = keep_congr _ _ ms (agree ms h (contains_self ms))
      where
        agree :
            (xs : List (ModelSpec F))
            → IsNamed look xs
            → Every (λ m. contains m.id (ids ms) ≡ true) xs
            → Every (λ m. not (contains m.id (ids (keep test ms))) ≡ not (test m)) xs
        agree [] n c = tt
        agree (x ∷ xs) n c =
            (ground (arith, contains-keep_named test x n.0 ms h, c.0), agree xs n.1 c.1)

    decided-keeping :
        (rule : ExclusionRule) (test : ModelSpec F → Bool) (k : String) (d : Decision F)
        → IsNamed look d.0
        → decided k (keeping rule test d).0 (keeping rule test d).1 ≡ decided k d.0 d.1
    unfolding keeping
    decided-keeping rule test k (eligible, excluded) h =
        let gone = keep (λ m. not (test m)) eligible in
        rw
          (
            keep-named_complement test eligible h,
            names-append excluded (map (exclusion rule) gone),
            names-exclusion rule gone,
            count-append k (names excluded) (ids gone),
          )
          (omega (arith, count-split test k eligible))

    decided-preferring :
        (rule : ExclusionRule) (test : ModelSpec F → Bool) (k : String) (d : Decision F)
        → IsNamed look d.0
        → decided k (preferring rule test d).0 (preferring rule test d).1 ≡ decided k d.0 d.1
    unfolding preferring
    decided-preferring rule test k d h = elim (List-cases (keep test d.0)) [
      | inl e ↦ rw (preferring, e) refl
      | inr (m, ms, e) ↦ rw (preferring, e) (decided-keeping rule test k d h)
    ]

    decided-prefer_tiers :
        (tiers : List ServiceTier) (k : String) (d : Decision F)
        → IsNamed look d.0
        → decided k (prefer_tiers tiers d).0 (prefer_tiers tiers d).1 ≡ decided k d.0 d.1
    unfolding prefer_tiers
    decided-prefer_tiers [] k d h = refl
    decided-prefer_tiers (t ∷ ts) k d h = decided-preferring _ _ k d h

    decided-prefer_models :
        (models : List String) (k : String) (d : Decision F)
        → IsNamed look d.0
        → decided k (prefer_models models d).0 (prefer_models models d).1 ≡ decided k d.0 d.1
    unfolding prefer_models
    decided-prefer_models [] k d h = refl
    decided-prefer_models (n ∷ ns) k d h = decided-preferring _ _ k d h

  module _ {ℓ} (P : ModelSpec F → Type ℓ) where
    Every-preferring :
        (rule : ExclusionRule) (test : ModelSpec F → Bool) (d : Decision F)
        → Every P d.0
        → Every P (preferring rule test d).0
    unfolding preferring keeping
    Every-preferring rule test d h = elim (List-cases (keep test d.0)) [
      | inl e ↦ rw (preferring, e) h
      | inr (m, ms, e) ↦ rw (preferring, e) (Every-keep P test d.0 h)
    ]

    Every-prefer_tiers :
        (tiers : List ServiceTier) (d : Decision F) → Every P d.0 → Every P (prefer_tiers tiers d).0
    unfolding prefer_tiers
    Every-prefer_tiers [] d h = h
    Every-prefer_tiers (t ∷ ts) d h = Every-preferring _ _ d h

    Every-prefer_models :
        (models : List String) (d : Decision F) → Every P d.0 → Every P (prefer_models models d).0
    unfolding prefer_models
    Every-prefer_models [] d h = h
    Every-prefer_models (n ∷ ns) d h = Every-preferring _ _ d h

    -- What holds of every eligible deployment still does.
    pub Every-narrow_to_intent_policy :
        (policy : Option IntentRoutePolicy) (d : Decision F)
        → Every P d.0
        → Every P (narrow_to_intent_policy policy d).0
    unfolding narrow_to_intent_policy
    Every-narrow_to_intent_policy none d h = h
    Every-narrow_to_intent_policy (some p) ([], excluded) h = h
    Every-narrow_to_intent_policy (some p) (m ∷ ms, excluded) h =
        Every-prefer_models p.preferred_models _ (Every-prefer_tiers p.preferred_tiers _ h)

  -- The preferences of an intent's policy lose no deployment: each that they drop is recorded as
  -- excluded, provided that the eligible deployments are the ones that their names stand for.
  pub narrow_to_intent_policy_accounts :
      (look : String → Option (ModelSpec F)) (policy : Option IntentRoutePolicy) (k : String)
      (d : Decision F)
      → IsNamed look d.0
      → decided k (narrow_to_intent_policy policy d).0 (narrow_to_intent_policy policy d).1
        ≡ decided k d.0 d.1
  unfolding narrow_to_intent_policy
  narrow_to_intent_policy_accounts look none k d h = refl
  narrow_to_intent_policy_accounts look (some p) k ([], excluded) h = refl
  narrow_to_intent_policy_accounts look (some p) k (m ∷ ms, excluded) h =
      decided-prefer_models look p.preferred_models k _
        (Every-prefer_tiers (λ x. look x.id ≡ some x) p.preferred_tiers (m ∷ ms, excluded) h)
      ∙ decided-prefer_tiers look p.preferred_tiers k (m ∷ ms, excluded) h
