-- ===== src/Router/Fallback/Graph/Successors.antt =====
-- The index by source agrees with the list of edges, so `successors` reads the edges as declared.
use llm_fabric.Prelude.{
  ◌≡◌, refl, ◌∙◌, ◌&&◌, List, [], ◌∷◌, ◌++◌, map, String, ◌==◌, string_eq, keep, keep-append,
  keep-keep, arith, eq_of_beq,
}
use mathlib.Core.List.{append-nil, append_assoc}
use llm_fabric.Prelude.Dict
use llm_fabric.Router.Fallback.Reason.{FallbackReason}
use llm_fabric.Router.Fallback.Graph.{
  FallbackEdge, FallbackGraph, empty_graph, edges_from, add, add_all, of_edges, successors, answers,
}

-- The edges that leave `node`, in declaration order.
abbrev pub leaving : String → List FallbackEdge → List FallbackEdge
leaving node es = keep (λ e. node == e.source) es

pub record IsIndexed (g : FallbackGraph) : Type 0 where
  pub at : (node : String) → edges_from g node ≡ leaving node g.edges

add-IsIndexed : {g : FallbackGraph} (e : FallbackEdge) → IsIndexed g → IsIndexed (add g e)
unfolding add edges_from keep
add-IsIndexed {g} e h = record {
  at = λ node. rw keep-append (
      ground (
        arith,
        Dict.get-put node e.source (edges_from g e.source ++ e ∷ []) g.by_source,
        h.at node,
        eq_of_beq node e.source,
        append-nil (leaving node g.edges),
      ));
}

pub edges-add_all :
    (g : FallbackGraph) (es : List FallbackEdge) → (add_all g es).edges ≡ g.edges ++ es
unfolding add_all
edges-add_all g [] = rw append-nil
edges-add_all g (e ∷ es) = edges-add_all (add g e) es ∙ append_assoc g.edges (e ∷ []) es

add_all-IsIndexed :
    (g : FallbackGraph) (es : List FallbackEdge) → IsIndexed g → IsIndexed (add_all g es)
unfolding add_all
add_all-IsIndexed g [] h = h
add_all-IsIndexed g (e ∷ es) h = add_all-IsIndexed (add g e) es (add-IsIndexed e h)

pub of_edges-IsIndexed : (es : List FallbackEdge) → IsIndexed (of_edges es)
unfolding of_edges
of_edges-IsIndexed es =
    add_all-IsIndexed empty_graph es
      (record { at = λ node. unfold edges_from Dict.get keep in refl })

pub edges-of_edges : (es : List FallbackEdge) → (of_edges es).edges ≡ es
unfolding of_edges
edges-of_edges es = edges-add_all empty_graph es

-- In a graph built from any list of edges, the successors of a node for a reason are the targets
-- of exactly the edges that leave the node and answer the reason, in declaration order.
pub successors-of_edges :
    (es : List FallbackEdge) (node : String) (reason : FallbackReason)
    → successors (of_edges es) node reason
      ≡ map (λ e. e.target) (keep (λ e. node == e.source && answers e reason) es)
unfolding successors
successors-of_edges es node reason =
    rw ((of_edges-IsIndexed es).at node, edges-of_edges) (rw keep-keep)
