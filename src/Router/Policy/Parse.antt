-- ===== src/Router/Policy/Parse.antt =====
-- router/policy.py: `parse_policy`. The letters are the ASCII ones; no other letter becomes one that a
-- name of a policy has.
use llm_fabric.Prelude.{
  ℕ, ◌+◌, Bool, true, false, ◌&&◌, Option, none, some, List, [], ◌∷◌, map, String, nat_beq, leb,
  if◌then◌else◌, Result, ok, err,
}
use llm_fabric.Errors.{ErrorClass}
use llm_fabric.Router.Tiers.{codes, strip}
use llm_fabric.Router.Policy.{
  RoutePolicy, quality_first, latency_first, cost_first, balanced, local_only, private_only, custom,
  declared,
}

-- `c.lower()`, with `_` for `-`
unfoldable pub fold_code : ℕ → ℕ
fold_code c = if leb 65 c && leb c 90 then c + 32 else (if nat_beq c 45 then 95 else c)

unfoldable pub normal : List ℕ → List ℕ
unfolding strip fold_code
normal cs = map fold_code (strip cs)

unfoldable pub same_codes : List ℕ → List ℕ → Bool
same_codes [] [] = true
same_codes [] (d ∷ ds) = false
same_codes (c ∷ cs) [] = false
same_codes (c ∷ cs) (d ∷ ds) = nat_beq c d && same_codes cs ds

unfoldable pub find_name : List ℕ → List (String × RoutePolicy) → Option RoutePolicy
unfolding same_codes
find_name cs [] = none
find_name cs ((name, policy) ∷ table) =
    let rest = find_name cs table in if same_codes cs (codes name) then some policy else rest

-- `POLICY_ALIASES`, and behind them the names of the policies.
abbrev pub policy_names : List (String × RoutePolicy)
policy_names =
    ("cheapest", cost_first)
    ∷ ("cost", cost_first)
    ∷ ("quality", quality_first)
    ∷ ("latency", latency_first)
    ∷ ("fastest", latency_first)
    ∷ ("local", local_only)
    ∷ ("private", private_only)
    ∷ ("quality_first", quality_first)
    ∷ ("latency_first", latency_first)
    ∷ ("cost_first", cost_first)
    ∷ ("balanced", balanced)
    ∷ ("local_only", local_only)
    ∷ ("private_only", private_only)
    ∷ ("custom", custom)
    ∷ ("declared", declared)
    ∷ []

unfoldable pub parse_policy : String → Result ErrorClass RoutePolicy
unfolding normal find_name
parse_policy name = elim (find_name (normal (codes name)) policy_names) [
  | none ↦ err ErrorClass.configuration
  | some policy ↦ ok policy
]
