-- ===== src/Router/Policy.antt =====
-- router/policy.py: the routing policies, what each weighs and which localities it accepts.
pub mod Parse
pub mod Numbers
pub mod Features
pub mod Score
pub mod Examples
use llm_fabric.Prelude.{ℕ, Bool, true, false, Option, none, some, List, [], ◌∷◌}
use llm_fabric.Prelude.Float.{Float}
use llm_fabric.Router.Registry.{Locality, local, private}

pub data RoutePolicy : Type 0 where
  quality_first latency_first cost_first balanced : RoutePolicy
  local_only private_only custom declared : RoutePolicy

-- `policy is RoutePolicy.DECLARED`
unfoldable pub is_declared_policy : RoutePolicy → Bool
is_declared_policy declared = true
is_declared_policy _ = false

-- `POLICY_LOCALITIES.get(policy)`
unfoldable pub permitted_localities : RoutePolicy → Option (List Locality)
permitted_localities local_only = some (local ∷ [])
permitted_localities private_only = some (local ∷ private ∷ [])
permitted_localities _ = none

pub data Feature : Type 0 where
  quality latency cost health : Feature

-- `FEATURES`
abbrev pub features : List Feature
features = quality ∷ latency ∷ cost ∷ health ∷ []

pub record PolicyWeights (F : Float) : Type 0 where
  pub quality : F.Carrier
  pub latency : F.Carrier
  pub cost : F.Carrier
  pub health : F.Carrier

module _ {F : Float} where
  open F use {Carrier}

  -- `PolicyWeights.get`
  unfoldable pub weight : PolicyWeights F → Feature → Carrier
  weight w quality = w.quality
  weight w latency = w.latency
  weight w cost = w.cost
  weight w health = w.health

-- A number of hundredths.
hundredths : (F : Float) → ℕ → F.Carrier
hundredths F n = F.div (F.of_nat n) (F.of_nat 100)

weights_of : (F : Float) → ℕ → ℕ → ℕ → ℕ → PolicyWeights F
unfolding hundredths
weights_of F q l c h = record {
  quality = hundredths F q;
  latency = hundredths F l;
  cost = hundredths F c;
  health = hundredths F h;
}

-- `POLICY_WEIGHTS`
unfoldable pub policy_weights : (F : Float) → RoutePolicy → PolicyWeights F
unfolding weights_of
policy_weights F quality_first = weights_of F 70 10 5 15
policy_weights F latency_first = weights_of F 5 70 5 20
policy_weights F cost_first = weights_of F 3 2 80 15
policy_weights F balanced = weights_of F 30 25 30 15
policy_weights F local_only = weights_of F 30 25 30 15
policy_weights F private_only = weights_of F 30 25 30 15
policy_weights F custom = weights_of F 25 25 25 25
policy_weights F declared = weights_of F 100 0 0 0
