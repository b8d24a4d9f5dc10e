-- ===== src/Router/Plan.antt =====
-- router/plan.py: the fallback graph of a plan, `_graph_for`. The declared graph is an argument.
pub mod Added
pub mod Ranked
pub mod Request
pub mod Candidates
pub mod Limits
pub mod Filter
pub mod Narrow
pub mod Planner
pub mod Examples
use llm_fabric.Prelude.{
  Bool, true, false, not, ◌&&◌, ◌||◌, Option, none, some, List, [], ◌∷◌, ◌++◌, map, String, ◌==◌,
  string_eq, contains, keep, first, if◌then◌else◌, Result, ok, err, ◌>>=◌,
}
use llm_fabric.Errors.{ErrorClass}
use llm_fabric.Router.Fallback.Reason.{FallbackReason, reason_eq, any_reason}
use llm_fabric.Router.Fallback.Graph
use llm_fabric.Router.Fallback.Graph.{
  FallbackEdge, FallbackGraph, make_edge, of_edges, restricted_to,
}

-- `(source, target) in declared_pairs`
unfoldable pub is_declared : List FallbackEdge → String → String → Bool
is_declared [] source target = false
is_declared (e ∷ es) source target =
    (e.source == source && e.target == target) || is_declared es source target

-- `answered.get(source, set())`
unfoldable pub answered : List FallbackEdge → String → List FallbackReason
answered [] source = []
answered (e ∷ es) source =
    let rest = answered es source in if source == e.source then e.reasons ++ rest else rest

unfoldable pub unanswered : List FallbackEdge → String → List FallbackReason
unfolding answered
unanswered declared source = keep (λ r. not (contains r (answered declared source))) any_reason

-- The first target of the inner loop that is not passed over.
unfoldable pub next_ranked : List FallbackEdge → String → List String → Option String
unfolding is_declared
next_ranked declared source targets = first (λ t. not (is_declared declared source t)) targets

-- The body of the outer loop, for a source with the reasons that are not answered.
unfoldable pub add_ranked :
    String → List FallbackReason → Option String → FallbackGraph → Result ErrorClass FallbackGraph
unfolding make_edge Graph.add
add_ranked source [] target g = ok g
add_ranked source (r ∷ rs) none g = ok g
add_ranked source (r ∷ rs) (some target) g = do
  e ← make_edge source target (r ∷ rs) "ranked order"
  ok (Graph.add g e)

-- The outer loop, over the chain without its last element.
unfoldable pub add_all_ranked :
    List FallbackEdge → List String → FallbackGraph → Result ErrorClass FallbackGraph
unfolding add_ranked next_ranked unanswered
add_all_ranked declared [] g = ok g
add_all_ranked declared (source ∷ []) g = ok g
add_all_ranked declared (source ∷ t ∷ ts) g = do
  g' ← add_ranked source (unanswered declared source) (next_ranked declared source (t ∷ ts)) g
  add_all_ranked declared (t ∷ ts) g'

-- `_graph_for` of a planner with the given declared graph.
unfoldable pub graph_for : FallbackGraph → List String → Result ErrorClass FallbackGraph
unfolding restricted_to add_all_ranked
graph_for declared chain = let g = restricted_to declared chain in add_all_ranked g.edges chain g
