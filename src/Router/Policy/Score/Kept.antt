-- ===== src/Router/Policy/Score/Kept.antt =====
-- The ranking holds deployments of the candidates only.
use llm_fabric.Prelude.{ℕ, suc, List, [], ◌∷◌, Bool-cases, Every, inl, inr}
use llm_fabric.Prelude.Float.{Float}
use llm_fabric.Router.Registry.{ModelSpec}
use llm_fabric.Router.Policy.{RoutePolicy, is_declared_policy, PolicyWeights}
use llm_fabric.Router.Policy.Features.{ScoringInputs}
use llm_fabric.Router.Policy.Score.{
  ScoredCandidate, is_empty, total, usable_features, insert, sort, ranked, scored, score_candidates,
}
use llm_fabric.Router.Policy.Score.Ranking.{specs}

module _ {ℓ} {F : Float} (P : ModelSpec F → Type ℓ) where
  Every-insert :
      (c : ScoredCandidate F) (ds : List (ScoredCandidate F))
      → P c.spec
      → Every P (specs ds)
      → Every P (specs (insert c ds))
  unfolding insert
  Every-insert c [] h hs = (h, tt)
  Every-insert c (d ∷ ds) h hs = elim (Bool-cases (F.ltb c.score d.score)) [
    | inl e ↦ rw (e, Every) (hs.0, Every-insert c ds h hs.1)
    | inr e ↦ rw (e, Every) (h, hs)
  ]

  Every-sort : (cs : List (ScoredCandidate F)) → Every P (specs cs) → Every P (specs (sort cs))
  unfolding sort
  Every-sort [] h = tt
  Every-sort (c ∷ cs) h = Every-insert c (sort cs) h.0 (Every-sort cs h.1)

  Every-ranked :
      (n : ℕ) (cs : List (ScoredCandidate F)) → Every P (specs cs) → Every P (specs (ranked n cs))
  unfolding ranked
  Every-ranked n [] h = tt
  Every-ranked n (c ∷ cs) h = (h.0, Every-ranked (suc n) cs h.1)

  Every-scored :
      (score : ModelSpec F → F.Carrier) (ms : List (ModelSpec F))
      → Every P ms
      → Every P (specs (scored score ms))
  unfolding scored
  Every-scored score [] h = tt
  Every-scored score (m ∷ ms) h = (h.0, Every-scored score ms h.1)

  -- What holds of every candidate holds of every deployment in the ranking.
  pub Every-score_candidates :
      (policy : RoutePolicy) (inputs : ScoringInputs F) (w : PolicyWeights F)
      (ms : List (ModelSpec F))
      → Every P ms
      → Every P (specs (score_candidates policy inputs w ms).candidates)
  unfolding score_candidates
  Every-score_candidates policy inputs w [] h = tt
  Every-score_candidates policy inputs w (m ∷ ms) h =
      let all = m ∷ ms in
      let score = total inputs w all in
      elim (Bool-cases (is_declared_policy policy)) [
        | inl e ↦
            rw e
              (Every-ranked 0 (scored (λ x. F.of_nat 0) all) (Every-scored (λ x. F.of_nat 0) all h))
        | inr e ↦ elim (Bool-cases (is_empty (usable_features inputs w all))) [
          | inl n ↦ rw (e, n) (Every-ranked 0 (scored score all) (Every-scored score all h))
          | inr n ↦
              rw (e, n)
                (Every-ranked 0 (sort (scored score all))
                  (Every-sort (scored score all) (Every-scored score all h)))
        ]
      ]
