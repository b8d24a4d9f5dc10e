-- ===== src/Router/Policy/Examples.antt =====
-- Tests of the ranking: three deployments with two prices, in whole numbers.
use llm_fabric.Prelude.{
  ◌≡◌, refl, arith, true, false, none, List, [], ◌∷◌, string_eq, count, map, keep,
}
use llm_fabric.Prelude.Float.{whole}
use llm_fabric.Router.Registry.{ModelSpec, local}
use llm_fabric.Router.Policy.{PolicyWeights, balanced}
use llm_fabric.Router.Policy.Features.{ScoringInputs}
use llm_fabric.Router.Policy.Score.{total, score_candidates}
use llm_fabric.Router.Policy.Score.Ranking.{
  ranking, IsNumbered, IsFalling, IsScoredBy, score_candidates_complete, score_candidates_order,
}
use llm_fabric.Router.Plan.Planner.Examples.{deployment}

abbrev priced : List (ModelSpec whole)
priced = deployment "dear" local 9 ∷ deployment "first" local 2 ∷ deployment "second" local 2 ∷ []

abbrev weights : PolicyWeights whole
weights = record { quality = 0; latency = 0; cost = 1; health = 0 }

abbrev inputs : ScoringInputs whole
inputs = record { health = []; quality_dimension = none; expected_output_tokens = 0 }

-- The cheaper ones come first, and of two with one price the earlier one.
order_test :
    ranking (score_candidates balanced inputs weights priced).candidates
    ≡ "first" ∷ "second" ∷ "dear" ∷ []
unfolding score_candidates keep
order_test = refl

score_candidates_complete_example :
    count "first" (ranking (score_candidates balanced inputs weights priced).candidates)
    ≡ count "first" (map (λ m. m.id) priced)
score_candidates_complete_example = score_candidates_complete balanced inputs weights "first" priced

score_candidates_order_example :
    let result = score_candidates balanced inputs weights priced in
    IsNumbered 0 result.candidates
    × (result.fell_back_to_registry_order ≡ true
        → ranking result.candidates ≡ map (λ m. m.id) priced)
    × (result.fell_back_to_registry_order ≡ false
        → IsFalling result.candidates × IsScoredBy (total inputs weights priced) result.candidates)
score_candidates_order_example =
    score_candidates_order balanced inputs weights priced (λ a b h. ground arith)
