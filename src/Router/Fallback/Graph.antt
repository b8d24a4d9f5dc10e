-- ===== src/Router/Fallback/Graph.antt =====
-- router/fallback.py: `FallbackEdge` and `FallbackGraph`.
pub mod Successors
pub mod Hops
pub mod Chain
use llm_fabric.Prelude.{
  ℕ, ◌≡◌, refl, Bool, true, false, not, ◌&&◌, Option, none, some, List, [], ◌∷◌, ◌++◌, map, String,
  Eq, ◌==◌, string_eq, contains, keep, length, or_else, if◌then◌else◌, Result, ok, err, ◌>>=◌,
}
use llm_fabric.Prelude.Dict
use llm_fabric.Prelude.Dict.{Dict}
use llm_fabric.Errors.{ErrorClass}
use llm_fabric.Router.Fallback.Reason.{FallbackReason, reason_eq, any_reason}

pub record FallbackEdge : Type 0 where
  pub source : String
  pub target : String
  pub reasons : List FallbackReason
  pub note : String

-- The constructor with the checks of `__post_init__`.
unfoldable pub make_edge :
    String → String → List FallbackReason → String → Result ErrorClass FallbackEdge
make_edge source target [] note = err ErrorClass.configuration
make_edge source target (r ∷ rs) note =
    if source == target
    then err ErrorClass.configuration
    else ok (record { source = source; target = target; reasons = r ∷ rs; note = note })

unfoldable pub answers : FallbackEdge → FallbackReason → Bool
answers e reason = contains reason e.reasons

pub record FallbackGraph : Type 0 where
  pub edges : List FallbackEdge
  pub by_source : Dict String (List FallbackEdge)

abbrev pub empty_graph : FallbackGraph
empty_graph = record { edges = []; by_source = [] }

-- `self._by_source.get(node, ())`
unfoldable pub edges_from : FallbackGraph → String → List FallbackEdge
edges_from g node = or_else (Dict.get node g.by_source) []

unfoldable pub add : FallbackGraph → FallbackEdge → FallbackGraph
unfolding edges_from
add g e = record {
  edges = g.edges ++ e ∷ [];
  by_source = Dict.put e.source (edges_from g e.source ++ e ∷ []) g.by_source;
}

unfoldable pub add_all : FallbackGraph → List FallbackEdge → FallbackGraph
unfolding add
add_all g [] = g
add_all g (e ∷ es) = add_all (add g e) es

-- `FallbackGraph(edges)`
unfoldable pub of_edges : List FallbackEdge → FallbackGraph
unfolding add_all
of_edges es = add_all empty_graph es

unfoldable pub successors : FallbackGraph → String → FallbackReason → List String
unfolding edges_from answers
successors g node reason = map (λ e. e.target) (keep (λ e. answers e reason) (edges_from g node))

-- `target in seen`, or outside the eligible set where there is one.
unfoldable pub blocked : List String → Option (List String) → String → Bool
blocked visited none target = contains target visited
blocked visited (some eligible) target =
    if contains target visited then true else not (contains target eligible)

unfoldable pub first_open : List String → Option (List String) → List String → Option String
unfolding blocked
first_open visited eligible [] = none
first_open visited eligible (t ∷ ts) =
    if blocked visited eligible t then first_open visited eligible ts else some t

unfoldable pub next_hop :
    FallbackGraph → String → FallbackReason → List String → Option (List String) → Option String
unfolding successors first_open
next_hop g node reason visited eligible = first_open visited eligible (successors g node reason)

unfoldable pub restricted_to : FallbackGraph → List String → FallbackGraph
unfolding of_edges
restricted_to g nodes =
    of_edges (keep (λ e. contains e.source nodes && contains e.target nodes) g.edges)

unfoldable pub chain_edges :
    List String → List FallbackReason → Result ErrorClass (List FallbackEdge)
unfolding make_edge
chain_edges [] reasons = ok []
chain_edges (a ∷ []) reasons = ok []
chain_edges (a ∷ b ∷ rest) reasons = do
  e ← make_edge a b reasons ""
  es ← chain_edges (b ∷ rest) reasons
  ok (e ∷ es)

unfoldable pub from_chain : List String → List FallbackReason → Result ErrorClass FallbackGraph
unfolding chain_edges of_edges
from_chain chain reasons = do es ← chain_edges chain reasons; ok (of_edges es)
