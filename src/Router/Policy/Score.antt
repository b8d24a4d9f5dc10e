-- ===== src/Router/Policy/Score.antt =====
-- router/policy.py: `score_candidates`, the ranking of the deployments that a plan may use. The
-- sentences and the sources of an explanation are left out.
pub mod Ranking
pub mod Kept
use llm_fabric.Prelude.{
  ℕ, suc, Bool, true, false, not, ◌&&◌, ◌||◌, Option, none, some, List, [], ◌∷◌, map, keep, length,
  nat_beq, if◌then◌else◌,
}
use llm_fabric.Prelude.Float.{Float}
use llm_fabric.Router.Registry.{ModelSpec}
use llm_fabric.Router.Policy.{
  RoutePolicy, is_declared_policy, Feature, quality, latency, cost, health, features, PolicyWeights,
  weight,
}
use llm_fabric.Router.Policy.Numbers.{sum, normalise}
use llm_fabric.Router.Policy.Features.{ScoringInputs, raw_feature, present, values_of}

pub record ScoredCandidate (F : Float) : Type 0 where
  pub spec : ModelSpec F
  pub score : F.Carrier
  pub rank : ℕ

pub record ScoringResult (F : Float) : Type 0 where
  pub candidates : List (ScoredCandidate F)
  pub used_features : List Feature
  pub fell_back_to_registry_order : Bool

unfoldable pub same_feature : Feature → Feature → Bool
same_feature quality quality = true
same_feature latency latency = true
same_feature cost cost = true
same_feature health health = true
same_feature _ _ = false

-- `feature in usable`
unfoldable pub is_in : Feature → List Feature → Bool
unfolding same_feature
is_in f [] = false
is_in f (g ∷ gs) = same_feature f g || is_in f gs

-- `feature in _LOWER_IS_BETTER`
unfoldable pub lower_is_better : Feature → Bool
lower_is_better latency = true
lower_is_better cost = true
lower_is_better _ = false

unfoldable pub is_empty {ℓ} : {A : Type ℓ} → List A → Bool
is_empty [] = true
is_empty (x ∷ xs) = false

module _ {F : Float} where
  open F use {Carrier, of_nat, mul, div, ltb as flt, leb as fle}

  -- Whether a feature is weighed: some candidate has a value, and all of them unless it is the cost.
  unfoldable pub is_usable : ScoringInputs F → PolicyWeights F → List (ModelSpec F) → Feature → Bool
  unfolding weight values_of same_feature is_empty
  is_usable inputs w ms f =
      let present_values = values_of inputs ms f in
      not (fle (weight w f) (of_nat 0))
      && (not (is_empty present_values)
          && (same_feature f cost || nat_beq (length present_values) (length ms)))

  unfoldable pub usable_features :
      ScoringInputs F → PolicyWeights F → List (ModelSpec F) → List Feature
  unfolding is_usable
  usable_features inputs w ms = keep (is_usable inputs w ms) features

  -- `PolicyWeights.over`
  unfoldable pub over : PolicyWeights F → List Feature → Feature → Carrier
  unfolding sum weight
  over w usable f =
      let subtotal = sum F (of_nat 0) (map (weight w) usable) in
      if fle subtotal (of_nat 0) then of_nat 0 else div (weight w f) subtotal

  -- What one feature adds to a candidate's score.
  unfoldable pub contribution :
      ScoringInputs F
      → PolicyWeights F
      → List (ModelSpec F)
      → ModelSpec F
      → Feature
      → Option Carrier
  unfolding usable_features is_in raw_feature normalise lower_is_better values_of over
  contribution inputs w ms m f =
      let usable = usable_features inputs w ms in
      if is_in f usable
      then elim (raw_feature inputs m f) [
        | none ↦ none
        | some v ↦
            some (mul (normalise F (lower_is_better f) (values_of inputs ms f) v) (over w usable f))
      ]
      else none

  unfoldable pub total :
      ScoringInputs F → PolicyWeights F → List (ModelSpec F) → ModelSpec F → Carrier
  unfolding sum present contribution
  total inputs w ms m = sum F (of_nat 0) (present (map (contribution inputs w ms m) features))

  -- The sort, by falling score: of two candidates with one score, the earlier one stays in front.
  unfoldable pub insert : ScoredCandidate F → List (ScoredCandidate F) → List (ScoredCandidate F)
  insert c [] = c ∷ []
  insert c (d ∷ ds) = let rest = insert c ds in if flt c.score d.score then d ∷ rest else c ∷ d ∷ ds

  unfoldable pub sort : List (ScoredCandidate F) → List (ScoredCandidate F)
  unfolding insert
  sort [] = []
  sort (c ∷ cs) = insert c (sort cs)

  unfoldable pub ranked : ℕ → List (ScoredCandidate F) → List (ScoredCandidate F)
  ranked n [] = []
  ranked n (c ∷ cs) = record c { rank = n } ∷ ranked (suc n) cs

  unfoldable pub scored : (ModelSpec F → Carrier) → List (ModelSpec F) → List (ScoredCandidate F)
  scored score ms = map (λ m. record { spec = m; score = score m; rank = 0 }) ms

  -- `score_candidates`
  unfoldable pub score_candidates :
      RoutePolicy → ScoringInputs F → PolicyWeights F → List (ModelSpec F) → ScoringResult F
  unfolding is_declared_policy usable_features total sort ranked scored is_empty
  score_candidates policy inputs w [] = record {
    candidates = [];
    used_features = [];
    fell_back_to_registry_order = false;
  }
  score_candidates policy inputs w (m ∷ ms) =
      let usable = usable_features inputs w (m ∷ ms) in
      let all = scored (total inputs w (m ∷ ms)) (m ∷ ms) in
      if is_declared_policy policy
      then record {
        candidates = ranked 0 (scored (λ x. of_nat 0) (m ∷ ms));
        used_features = [];
        fell_back_to_registry_order = true;
      }
      else record {
        candidates = ranked 0 (if is_empty usable then all else sort all);
        used_features = usable;
        fell_back_to_registry_order = is_empty usable;
      }
