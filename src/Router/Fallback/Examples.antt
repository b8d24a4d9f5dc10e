-- ===== src/Router/Fallback/Examples.antt =====
-- Tests of the fallback graph on small graphs.
use mathlib.Core.Option
use llm_fabric.Prelude.{
  ◌≡◌, refl, some, List, [], ◌∷◌, map, String, ◌==◌, string_eq, contains, keep, ◌&&◌, ok, err, true,
}
use llm_fabric.Prelude.Dict
use llm_fabric.Prelude.{◌↔◌, none}
use llm_fabric.Prelude.Float.{whole}
use llm_fabric.Router.Fallback.Ledger.{FallbackBudget, new_ledger, charge, refuse_reason}
use llm_fabric.Router.Fallback.Ledger.Allows.{IsAllowed, refuse_reason_iff}
use llm_fabric.Errors.{ErrorClass, is_instance, rate_limited}
use llm_fabric.Router.Fallback.Reason.{
  FallbackReason, reason_eq, same_reason, timeout, provider_down, reason_for_error, fabric_error,
}
use llm_fabric.Router.Fallback.Classes.{retried_reasons, retryable_reason}
use llm_fabric.Router.Fallback.Graph.{
  FallbackEdge, FallbackGraph, of_edges, successors, answers, next_hop, from_chain,
}
use llm_fabric.Router.Fallback.Graph.Successors.{successors-of_edges}
use llm_fabric.Router.Fallback.Graph.Chain.{next_in, from_chain-successors, from_chain_repeats}

abbrev edge : String → String → FallbackReason → FallbackEdge
edge a b reason = record { source = a; target = b; reasons = reason ∷ []; note = "" }

abbrev three_edges : List FallbackEdge
three_edges = edge "a" "b" timeout ∷ edge "b" "c" timeout ∷ edge "a" "c" timeout ∷ []

next_hop_test :
    next_hop (of_edges three_edges) "a" timeout ("b" ∷ []) (some ("b" ∷ "c" ∷ [])) ≡ some "c"
unfolding next_hop keep Dict.get of_edges Dict.put contains same_reason
next_hop_test = refl

successors-of_edges_example :
    successors (of_edges three_edges) "a" timeout
    ≡ map (λ e. e.target) (keep (λ e. "a" == e.source && answers e timeout) three_edges)
successors-of_edges_example = successors-of_edges three_edges "a" timeout

from_chain-successors_example :
    (g : FallbackGraph) × (from_chain ("a" ∷ "b" ∷ "c" ∷ []) (timeout ∷ provider_down ∷ []) ≡ ok g)
    × ((node : String) (reason : FallbackReason)
        → contains reason (timeout ∷ provider_down ∷ []) ≡ true
        → successors g node reason ≡ next_in node ("a" ∷ "b" ∷ "c" ∷ []))
unfolding contains
from_chain-successors_example =
    from_chain-successors timeout (provider_down ∷ []) ("a" ∷ "b" ∷ "c" ∷ [])
      (refl, (refl, (refl, tt)))

from_chain_repeats_example :
    from_chain ("a" ∷ "b" ∷ "b" ∷ "c" ∷ []) (timeout ∷ []) ≡ err ErrorClass.configuration
from_chain_repeats_example = from_chain_repeats (timeout ∷ []) ("a" ∷ []) ("c" ∷ []) "b"

retryable_reason_example :
    contains (reason_for_error (fabric_error rate_limited)) retried_reasons ≡ true
retryable_reason_example = retryable_reason rate_limited (unfold is_instance in refl)

-- Two hops, and no more than 500 ms.
abbrev budget : FallbackBudget whole
budget = record { max_depth = 2; max_cost_usd = none; max_latency_ms = some 500 }

refuse_reason_iff_example :
    (refuse_reason (charge (new_ledger budget) 0 200) 0 ≡ none)
    ↔ IsAllowed (charge (new_ledger budget) 0 200) 0
refuse_reason_iff_example = refuse_reason_iff (charge (new_ledger budget) 0 200) 0
