-- ===== src/Router/Plan/Examples.antt =====
-- Tests of the fallback graph of a plan: one declared edge, and a chain of three deployments.
use llm_fabric.Prelude.{◌≡◌, refl, List, [], ◌∷◌, String, string_eq, contains, keep, first, ok}
use llm_fabric.Router.Fallback.Reason.{FallbackReason, reason_eq, timeout}
use llm_fabric.Router.Fallback.Graph.{FallbackGraph, of_edges, restricted_to, successors}
use llm_fabric.Router.Plan.{answered, graph_for}
use llm_fabric.Router.Plan.Ranked.{or_ranked, targets, ranked_target, graph_for-successors}

abbrev declared : FallbackGraph
declared = of_edges (
    record { source = "a"; target = "b"; reasons = timeout ∷ []; note = "" }
    ∷ record { source = "a"; target = "z"; reasons = timeout ∷ []; note = "" }
    ∷ [])

-- With one declared fallback and nothing behind it, the reasons that its edge does not answer have
-- no fallback.
no_fallback_test : answered (restricted_to declared ("a" ∷ "b" ∷ [])).edges "a" ≡ timeout ∷ []
unfolding answered restricted_to of_edges keep contains
no_fallback_test = refl

no_target_test :
    ranked_target (restricted_to declared ("a" ∷ "b" ∷ [])).edges "a" ("a" ∷ "b" ∷ []) ≡ []
unfolding restricted_to of_edges keep contains first
no_target_test = refl

graph_for-successors_example :
    let chain : List String = "a" ∷ "b" ∷ "c" ∷ [] in
    let inner = (restricted_to declared chain).edges in
    (g : FallbackGraph) × (graph_for declared chain ≡ ok g)
    × ((node : String) (reason : FallbackReason)
        → successors g node reason
          ≡ or_ranked (targets node reason inner) (ranked_target inner node chain))
unfolding contains
graph_for-successors_example =
    graph_for-successors declared ("a" ∷ "b" ∷ "c" ∷ []) (refl, (refl, (refl, tt)))
