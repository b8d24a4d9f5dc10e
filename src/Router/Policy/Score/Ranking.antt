-- ===== src/Router/Policy/Score/Ranking.antt =====
-- The order in which `score_candidates` returns the deployments.
use llm_fabric.Prelude.{
  ℕ, suc, ◌≡◌, refl, ap, ◌∙◌, arith, Bool, true, false, List, [], ◌∷◌, map, String, string_eq, ◌==◌,
  count, if◌then◌else◌, Bool-cases, Every, inl, inr,
}
use llm_fabric.Prelude.Float.{Float}
use llm_fabric.Router.Registry.{ModelSpec}
use llm_fabric.Router.Policy.{RoutePolicy, is_declared_policy, PolicyWeights}
use llm_fabric.Router.Policy.Features.{ScoringInputs}
use llm_fabric.Router.Policy.Score.{
  ScoredCandidate, is_empty, total, usable_features, insert, sort, ranked, scored, score_candidates,
}

-- The deployments of a ranking, in its order.
abbrev pub specs : {F : Float} → List (ScoredCandidate F) → List (ModelSpec F)
specs cs = map (λ c. c.spec) cs

-- The names, likewise.
abbrev pub ranking : {F : Float} → List (ScoredCandidate F) → List String
ranking cs = map (λ c. c.spec.id) cs

module _ {F : Float} where
  -- No candidate has a lower score than the one behind it.
  abbrev pub IsFalling : List (ScoredCandidate F) → Type 0
  IsFalling [] = Unit
  IsFalling (c ∷ []) = Unit
  IsFalling (c ∷ d ∷ ds) = (F.ltb c.score d.score ≡ false) × IsFalling (d ∷ ds)

  -- The ranks count from the given number.
  abbrev pub IsNumbered : ℕ → List (ScoredCandidate F) → Type 0
  IsNumbered n [] = Unit
  IsNumbered n (c ∷ cs) = (c.rank ≡ n) × IsNumbered (suc n) cs

  count-insert :
      (k : String) (c : ScoredCandidate F) (ds : List (ScoredCandidate F))
      → count k (ranking (insert c ds)) ≡ count k (ranking (c ∷ ds))
  unfolding insert count
  count-insert k c [] = refl
  count-insert k c (d ∷ ds) = elim (Bool-cases (F.ltb c.score d.score)) [
    | inl e ↦ rw e (ground (arith, count-insert k c ds))
    | inr e ↦ rw e refl
  ]

  count-sort :
      (k : String) (cs : List (ScoredCandidate F))
      → count k (ranking (sort cs)) ≡ count k (ranking cs)
  unfolding sort count
  count-sort k [] = refl
  count-sort k (c ∷ cs) =
      count-insert k c (sort cs) ∙ ap (λ n. if k == c.spec.id then suc n else n) (count-sort k cs)

  ranking-ranked : (n : ℕ) (cs : List (ScoredCandidate F)) → ranking (ranked n cs) ≡ ranking cs
  unfolding ranked
  ranking-ranked n [] = refl
  ranking-ranked n (c ∷ cs) = ap (λ r. c.spec.id ∷ r) (ranking-ranked (suc n) cs)

  ranking-scored :
      (score : ModelSpec F → F.Carrier) (ms : List (ModelSpec F))
      → ranking (scored score ms) ≡ map (λ m. m.id) ms
  unfolding scored
  ranking-scored score [] = refl
  ranking-scored score (m ∷ ms) = ap (λ r. m.id ∷ r) (ranking-scored score ms)

  module _ (asymmetric : (a b : F.Carrier) → F.ltb a b ≡ true → F.ltb b a ≡ false) where
    IsFalling-insert :
        (c : ScoredCandidate F) (ds : List (ScoredCandidate F))
        → IsFalling ds
        → IsFalling (insert c ds)
    unfolding insert
    IsFalling-insert c [] h = tt
    IsFalling-insert c (d ∷ []) h = elim (Bool-cases (F.ltb c.score d.score)) [
      | inl e ↦ rw (e, IsFalling) (asymmetric c.score d.score e, tt)
      | inr e ↦ rw (e, IsFalling) (e, tt)
    ]
    IsFalling-insert c (d ∷ d' ∷ ds) h =
        let rest = IsFalling-insert c (d' ∷ ds) h.1 in
        elim (Bool-cases (F.ltb c.score d.score)) [
          | inl e ↦ elim (Bool-cases (F.ltb c.score d'.score)) [
            | inl e' ↦ rw (e, e', IsFalling) (h.0, rw e' at rest)
            | inr e' ↦ rw (e, e', IsFalling) (asymmetric c.score d.score e, rw e' at rest)
          ]
          | inr e ↦ rw (e, IsFalling) (e, h)
        ]

    IsFalling-sort : (cs : List (ScoredCandidate F)) → IsFalling (sort cs)
    unfolding sort
    IsFalling-sort [] = tt
    IsFalling-sort (c ∷ cs) = IsFalling-insert c (sort cs) (IsFalling-sort cs)

  IsNumbered-ranked : (n : ℕ) (cs : List (ScoredCandidate F)) → IsNumbered n (ranked n cs)
  unfolding ranked
  IsNumbered-ranked n [] = tt
  IsNumbered-ranked n (c ∷ cs) = (refl, IsNumbered-ranked (suc n) cs)

  IsFalling-ranked :
      (n : ℕ) (cs : List (ScoredCandidate F)) → IsFalling cs → IsFalling (ranked n cs)
  unfolding ranked
  IsFalling-ranked n [] h = tt
  IsFalling-ranked n (c ∷ []) h = tt
  IsFalling-ranked n (c ∷ d ∷ ds) h = (h.0, IsFalling-ranked (suc n) (d ∷ ds) h.1)

  -- Each score is the one that is computed for the deployment.
  abbrev pub IsScoredBy : (ModelSpec F → F.Carrier) → List (ScoredCandidate F) → Type 0
  IsScoredBy score cs = Every (λ c. c.score ≡ score c.spec) cs

  module _ (score : ModelSpec F → F.Carrier) where
    IsScoredBy-insert :
        (c : ScoredCandidate F) (ds : List (ScoredCandidate F))
        → c.score ≡ score c.spec
        → IsScoredBy score ds
        → IsScoredBy score (insert c ds)
    unfolding insert
    IsScoredBy-insert c [] h hs = (h, tt)
    IsScoredBy-insert c (d ∷ ds) h hs = elim (Bool-cases (F.ltb c.score d.score)) [
      | inl e ↦ rw (e, Every) (hs.0, IsScoredBy-insert c ds h hs.1)
      | inr e ↦ rw (e, Every) (h, hs)
    ]

    IsScoredBy-sort : (ms : List (ModelSpec F)) → IsScoredBy score (sort (scored score ms))
    unfolding sort scored
    IsScoredBy-sort [] = tt
    IsScoredBy-sort (m ∷ ms) =
        IsScoredBy-insert (record { spec = m; score = score m; rank = 0 }) (sort (scored score ms))
          refl (IsScoredBy-sort ms)

    IsScoredBy-ranked :
        (n : ℕ) (cs : List (ScoredCandidate F))
        → IsScoredBy score cs
        → IsScoredBy score (ranked n cs)
    unfolding ranked
    IsScoredBy-ranked n [] h = tt
    IsScoredBy-ranked n (c ∷ cs) h = (h.0, IsScoredBy-ranked (suc n) cs h.1)

  module _ (policy : RoutePolicy) (inputs : ScoringInputs F) (w : PolicyWeights F) where
    ranking_lem :
        (sorted : Bool) (score : ModelSpec F → F.Carrier) (k : String) (ms : List (ModelSpec F))
        → count k (ranking (ranked 0 (if sorted then scored score ms else sort (scored score ms))))
          ≡ count k (map (λ m. m.id) ms)
    ranking_lem true score k ms =
        ap (count k) (ranking-ranked 0 (scored score ms) ∙ ranking-scored score ms)
    ranking_lem false score k ms =
        ap (count k) (ranking-ranked 0 (sort (scored score ms)))
        ∙ count-sort k (scored score ms)
        ∙ ap (count k) (ranking-scored score ms)

    -- The ranking names each deployment as often as the candidates do.
    pub score_candidates_complete :
        (k : String) (ms : List (ModelSpec F))
        → count k (ranking (score_candidates policy inputs w ms).candidates)
          ≡ count k (map (λ m. m.id) ms)
    unfolding score_candidates
    score_candidates_complete k [] = refl
    score_candidates_complete k (m ∷ ms) =
        let all = m ∷ ms in
        elim (Bool-cases (is_declared_policy policy)) [
          | inl e ↦ rw e (ranking_lem true (λ x. F.of_nat 0) k all)
          | inr e ↦
              rw e
                (ranking_lem (is_empty (usable_features inputs w all)) (total inputs w all) k all)
        ]

    -- The ranks count from 0. Where the ranking falls back, it is the order of the candidates; else
    -- no deployment has a lower score than the one behind it, and the scores are those computed.
    pub score_candidates_order :
        (ms : List (ModelSpec F))
        → ((a b : F.Carrier) → F.ltb a b ≡ true → F.ltb b a ≡ false)
        → (let result = score_candidates policy inputs w ms in
            IsNumbered 0 result.candidates
            × (result.fell_back_to_registry_order ≡ true
                → ranking result.candidates ≡ map (λ m. m.id) ms)
            × (result.fell_back_to_registry_order ≡ false
                → IsFalling result.candidates × IsScoredBy (total inputs w ms) result.candidates))
    unfolding score_candidates
    score_candidates_order [] asymmetric = (tt, λ h. refl, λ h. (tt, tt))
    score_candidates_order (m ∷ ms) asymmetric =
        let all = m ∷ ms in
        let score = total inputs w all in
        let order = sort (scored score all) in
        elim (Bool-cases (is_declared_policy policy)) [
          | inl e ↦ rw e (
            IsNumbered-ranked 0 (scored (λ x. F.of_nat 0) all),
            λ h.
                ranking-ranked 0 (scored (λ x. F.of_nat 0) all)
                ∙ ranking-scored (λ x. F.of_nat 0) all,
            λ h. cc,
          )
          | inr e ↦ elim (Bool-cases (is_empty (usable_features inputs w all))) [
            | inl none_used ↦
                rw (e, none_used)
                  (
                    IsNumbered-ranked 0 (scored score all),
                    λ h. ranking-ranked 0 (scored score all) ∙ ranking-scored score all,
                    λ h. cc,
                  )
            | inr used ↦
                rw (e, used)
                  (
                    IsNumbered-ranked 0 order,
                    λ h. cc,
                    λ h. (
                      IsFalling-ranked 0 order (IsFalling-sort asymmetric (scored score all)),
                      IsScoredBy-ranked score 0 order (IsScoredBy-sort score all),
                    ),
                  )
          ]
        ]
