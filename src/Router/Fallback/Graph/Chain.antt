-- ===== src/Router/Fallback/Graph/Chain.antt =====
-- `from_chain`: a flat fallback list as a graph.
use llm_fabric.Prelude.{
  ◌≡◌, refl, true, false, ◌&&◌, List, [], ◌∷◌, ◌++◌, map, String, ◌==◌, string_eq, ok, err,
  contains, Distinct, keep, if◌then◌else◌, arith, eq_of_beq, beq_refl,
}
use llm_fabric.Errors.{ErrorClass}
use llm_fabric.Router.Fallback.Reason.{FallbackReason, reason_eq}
use llm_fabric.Router.Fallback.Graph.{
  FallbackEdge, FallbackGraph, of_edges, successors, answers, chain_edges, from_chain,
}
use llm_fabric.Router.Fallback.Graph.Successors.{successors-of_edges}

abbrev link : List FallbackReason → String → String → FallbackEdge
link reasons a b = record { source = a; target = b; reasons = reasons; note = "" }

-- The edges between neighbours, without the checks.
links : List FallbackReason → List String → List FallbackEdge
links reasons [] = []
links reasons (a ∷ []) = []
links reasons (a ∷ b ∷ rest) = link reasons a b ∷ links reasons (b ∷ rest)

-- The element that follows the first `node` of the list.
abbrev pub next_in : String → List String → List String
next_in node [] = []
next_in node (a ∷ []) = []
next_in node (a ∷ b ∷ rest) = if node == a then b ∷ [] else next_in node (b ∷ rest)

chain_edges-links :
    (r : FallbackReason) (rs : List FallbackReason) (chain : List String)
    → Distinct chain
    → chain_edges chain (r ∷ rs) ≡ ok (links (r ∷ rs) chain)
unfolding chain_edges links contains
chain_edges-links r rs [] d = refl
chain_edges-links r rs (a ∷ []) d = refl
chain_edges-links r rs (a ∷ b ∷ rest) d =
    ground (arith, chain_edges-links r rs (b ∷ rest) d.1, eq_of_beq a b, beq_refl b)

abbrev taken : FallbackReason → List FallbackReason → String → List String → List String
taken reason reasons node chain =
    map (λ e. e.target) (keep (λ e. node == e.source && answers e reason) (links reasons chain))

taken-absent :
    (reason : FallbackReason) (reasons : List FallbackReason) (node : String) (chain : List String)
    → contains node chain ≡ false
    → taken reason reasons node chain ≡ []
unfolding links keep contains
taken-absent reason reasons node [] h = refl
taken-absent reason reasons node (a ∷ []) h = refl
taken-absent reason reasons node (a ∷ b ∷ rest) h =
    ground (arith, taken-absent reason reasons node (b ∷ rest))

taken-next_in :
    (reason : FallbackReason) (reasons : List FallbackReason) (node : String) (chain : List String)
    → contains reason reasons ≡ true
    → Distinct chain
    → taken reason reasons node chain ≡ next_in node chain
unfolding links keep answers
taken-next_in reason reasons node [] h d = refl
taken-next_in reason reasons node (a ∷ []) h d = refl
taken-next_in reason reasons node (a ∷ b ∷ rest) h d = ground (
  arith,
  taken-next_in reason reasons node (b ∷ rest) h d.1,
  taken-absent reason reasons node (b ∷ rest),
  eq_of_beq node a,
)

-- For a chain of different deployments and at least one reason, `from_chain` succeeds, and for each
-- of these reasons every deployment has exactly one successor, the next one in the chain; the last
-- one, and a deployment outside the chain, have none.
pub from_chain-successors :
    (r : FallbackReason) (rs : List FallbackReason) (chain : List String)
    → Distinct chain
    → (g : FallbackGraph) × (from_chain chain (r ∷ rs) ≡ ok g)
      × ((node : String) (reason : FallbackReason)
          → contains reason (r ∷ rs) ≡ true
          → successors g node reason ≡ next_in node chain)
unfolding from_chain
from_chain-successors r rs chain d = (
  of_edges (links (r ∷ rs) chain),
  rw (chain_edges-links r rs chain d),
  λ node reason h.
      rw (successors-of_edges (links (r ∷ rs) chain) node reason)
        (taken-next_in reason (r ∷ rs) node chain h d),
)

chain_edges_repeats :
    (reasons : List FallbackReason) (before after : List String) (a : String)
    → chain_edges (before ++ a ∷ a ∷ after) reasons ≡ err ErrorClass.configuration
unfolding chain_edges
chain_edges_repeats [] [] after a = refl
chain_edges_repeats (r ∷ rs) [] after a = ground (arith, beq_refl a)
chain_edges_repeats [] (b ∷ []) after a = refl
chain_edges_repeats (r ∷ rs) (b ∷ []) after a = ground (arith, beq_refl a)
chain_edges_repeats [] (b ∷ c ∷ before) after a = refl
chain_edges_repeats (r ∷ rs) (b ∷ c ∷ before) after a =
    ground (arith, chain_edges_repeats (r ∷ rs) (c ∷ before) after a)

-- A chain that names a deployment twice in a row is refused as a configuration error.
pub from_chain_repeats :
    (reasons : List FallbackReason) (before after : List String) (a : String)
    → from_chain (before ++ a ∷ a ∷ after) reasons ≡ err ErrorClass.configuration
unfolding from_chain
from_chain_repeats reasons before after a = rw (chain_edges_repeats reasons before after a)
