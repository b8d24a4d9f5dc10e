-- ===== src/Router/Policy/Numbers.antt =====
-- router/policy.py and router/registry.py: sums, means and the rescaling of a feature's values.
use llm_fabric.Prelude.{
  Bool, ◌&&◌, Option, none, some, List, [], ◌∷◌, map, String, length, if◌then◌else◌,
}
use llm_fabric.Prelude.Float.{Float, fmax, fmin}
use llm_fabric.Prelude.Dict.{Dict}

module _ (F : Float) where
  open F use {Carrier, of_nat, add as plus, sub, div, leb as fle}

  -- `sum(values)`
  unfoldable pub sum : Carrier → List Carrier → Carrier
  sum total [] = total
  sum total (x ∷ xs) = sum (plus total x) xs

  -- `QualityScores.mean`
  unfoldable pub mean : Dict String Carrier → Option Carrier
  unfolding sum
  mean [] = none
  mean (q ∷ qs) = some (div (sum (of_nat 0) (map (λ e. e.1) (q ∷ qs))) (of_nat (length (q ∷ qs))))

  unfoldable pub smallest : Carrier → List Carrier → Carrier
  unfolding fmin
  smallest x [] = x
  smallest x (y ∷ ys) = let rest = smallest (fmin F x y) ys in rest

  unfoldable pub largest : Carrier → List Carrier → Carrier
  unfolding fmax
  largest x [] = x
  largest x (y ∷ ys) = let rest = largest (fmax F x y) ys in rest

  -- `_normalise`, for one of the values.
  unfoldable pub normalise : Bool → List Carrier → Carrier → Carrier
  unfolding smallest largest
  normalise lower [] v = v
  normalise lower (x ∷ xs) v =
      let low = smallest x xs in
      let high = largest x xs in
      if fle high low && fle low high
      then of_nat 1
      else (if lower then div (sub high v) (sub high low) else div (sub v low) (sub high low))
