-- ===== src/Router/Plan/Ranked.antt =====
-- What the ranked order adds to the declared edges.
use mathlib.Core.List.{map-append, append-nil}
use llm_fabric.Prelude.{
  Bool, ◌≡◌, refl, ◌∙◌, sym, ap, true, false, not, ◌&&◌, Option, none, some, List, [], ◌∷◌, ◌++◌,
  map, String, ◌==◌, string_eq, contains, contains-keep, keep, keep-append, first, Distinct,
  if◌then◌else◌, ok, arith, Bool-cases, inl, inr, eq_of_beq, beq_refl,
}
use llm_fabric.Router.Fallback.Reason.{FallbackReason, reason_eq, any_reason, timeout, same_reason}
use llm_fabric.Router.Fallback.Graph
use llm_fabric.Router.Fallback.Graph.{
  FallbackEdge, FallbackGraph, make_edge, answers, add_all, of_edges, restricted_to, successors,
}
use llm_fabric.Router.Fallback.Graph.Successors.{successors-of_edges, edges-of_edges}
use llm_fabric.Prelude.{contains-append}
use llm_fabric.Router.Plan.{is_declared, answered, unanswered, next_ranked, graph_for}
use llm_fabric.Router.Plan.Added.{
  ranked_edge, ranked_edges, add_all-append, add_all_ranked-ranked_edges,
}

-- The deployments to which some edge leaves the node.
abbrev pub declared_targets : List FallbackEdge → String → List String
declared_targets declared node = map (λ e. e.target) (keep (λ e. node == e.source) declared)

-- The first deployment behind the node in the chain that no edge of the node leads to.
abbrev pub ranked_target : List FallbackEdge → String → List String → List String
ranked_target declared node [] = []
ranked_target declared node (source ∷ ts) =
    if node == source
    then elim (first (λ t. not (contains t (declared_targets declared node))) ts) [
      | none ↦ []
      | some t ↦ t ∷ []
    ]
    else ranked_target declared node ts

-- The first list, or the second one where the first is empty.
abbrev pub or_ranked : List String → List String → List String
or_ranked [] ranked = ranked
or_ranked (t ∷ ts) ranked = t ∷ ts

is_declared-contains :
    (declared : List FallbackEdge) (node t : String)
    → is_declared declared node t ≡ contains t (declared_targets declared node)
unfolding is_declared contains keep
is_declared-contains [] node t = refl
is_declared-contains (e ∷ es) node t = ground (
  arith,
  is_declared-contains es node t,
  eq_of_beq node e.source,
  eq_of_beq e.source node,
  eq_of_beq t e.target,
  eq_of_beq e.target t,
  beq_refl node,
  beq_refl t,
)

first-cong :
    (p q : String → Bool) (xs : List String) → ((x : String) → p x ≡ q x) → first p xs ≡ first q xs
unfolding first
first-cong p q [] h = refl
first-cong p q (x ∷ xs) h = rw (h x, first-cong p q xs h)

next_ranked-first :
    (declared : List FallbackEdge) (node : String) (ts : List String)
    → next_ranked declared node ts
      ≡ first (λ t. not (contains t (declared_targets declared node))) ts
unfolding next_ranked
next_ranked-first declared node ts =
    first-cong (λ t. not (is_declared declared node t)) _ ts
      (λ t. ap not (is_declared-contains declared node t))

any_reason-contains : (r : FallbackReason) → contains r any_reason ≡ true
unfolding contains same_reason
any_reason-contains timeout = refl
any_reason-contains _ = refl

unanswered-contains :
    (declared : List FallbackEdge) (source : String) (r : FallbackReason)
    → contains r (unanswered declared source) ≡ not (contains r (answered declared source))
unfolding unanswered
unanswered-contains declared source r = ground (
  arith,
  contains-keep (λ x. not (contains x (answered declared source))) r any_reason,
  any_reason-contains r,
)

-- The targets of the edges that leave the node and answer the reason.
abbrev pub targets : String → FallbackReason → List FallbackEdge → List String
targets node reason es = map (λ e. e.target) (keep (λ e. node == e.source && answers e reason) es)

targets-append :
    (node : String) (reason : FallbackReason) (xs ys : List FallbackEdge)
    → targets node reason (xs ++ ys) ≡ targets node reason xs ++ targets node reason ys
targets-append node reason xs ys = rw keep-append (
    map-append (λ (e : FallbackEdge). e.target)
      (keep (λ e. node == e.source && answers e reason) xs)
      (keep (λ e. node == e.source && answers e reason) ys))

abbrev one : Option String → List String
one none = []
one (some t) = t ∷ []

targets-ranked_edge :
    (node source : String) (reason : FallbackReason) (reasons : List FallbackReason)
    (target : Option String)
    → targets node reason (ranked_edge source reasons target)
      ≡ (if node == source && contains reason reasons then one target else [])
unfolding ranked_edge keep answers
targets-ranked_edge node source reason [] target = unfold contains in ground arith
targets-ranked_edge node source reason (r ∷ rs) none = ground arith
targets-ranked_edge node source reason (r ∷ rs) (some target) = ground arith

targets-ranked_edges_absent :
    (declared : List FallbackEdge) (node : String) (reason : FallbackReason) (chain : List String)
    → contains node chain ≡ false
    → targets node reason (ranked_edges declared chain) ≡ []
unfolding ranked_edges contains
targets-ranked_edges_absent declared node reason [] h = unfold keep in refl
targets-ranked_edges_absent declared node reason (s ∷ []) h = unfold keep in refl
targets-ranked_edges_absent declared node reason (s ∷ t ∷ ts) h =
    let u = unanswered declared s in
    let next = next_ranked declared s (t ∷ ts) in
    rw (targets-append node reason (ranked_edge s u next) (ranked_edges declared (t ∷ ts))) (
      ground (
        arith,
        targets-ranked_edge node s reason u next,
        targets-ranked_edges_absent declared node reason (t ∷ ts),
      ))

targets-ranked_edges :
    (declared : List FallbackEdge) (node : String) (reason : FallbackReason) (chain : List String)
    → Distinct chain
    → targets node reason (ranked_edges declared chain)
      ≡ (if contains reason (answered declared node) then [] else ranked_target declared node chain)
unfolding ranked_edges
targets-ranked_edges declared node reason [] d = unfold keep in ground arith
targets-ranked_edges declared node reason (s ∷ []) d = unfold keep next_ranked first in ground arith
targets-ranked_edges declared node reason (s ∷ t ∷ ts) d =
    let u = unanswered declared s in
    let next = next_ranked declared s (t ∷ ts) in
    rw (targets-append node reason (ranked_edge s u next) (ranked_edges declared (t ∷ ts)))
      (elim (Bool-cases (node == s)) [
        | inl same ↦ rw (eq_of_beq node s same) (
            ground (
              arith,
              targets-ranked_edge s s reason u next,
              beq_refl s,
              unanswered-contains declared s reason,
              targets-ranked_edges_absent declared s reason (t ∷ ts) d.0,
              next_ranked-first declared s (t ∷ ts),
              append-nil (one next),
            ))
        | inr other ↦ ground (
          arith,
          targets-ranked_edge node s reason u next,
          targets-ranked_edges declared node reason (t ∷ ts) d.1,
        )
      ])

abbrev is_empty : List String → Bool
is_empty [] = true
is_empty (t ∷ ts) = false

answered-targets :
    (declared : List FallbackEdge) (node : String) (reason : FallbackReason)
    → contains reason (answered declared node) ≡ not (is_empty (targets node reason declared))
unfolding answered keep answers contains
answered-targets [] node reason = refl
answered-targets (e ∷ es) node reason =
    ground
      (arith, answered-targets es node reason, contains-append reason e.reasons (answered es node))

or_ranked-append :
    (ts ranked : List String)
    → ts ++ (if not (is_empty ts) then [] else ranked) ≡ or_ranked ts ranked
or_ranked-append [] ranked = refl
or_ranked-append (t ∷ ts) ranked = append-nil (t ∷ ts)

-- For a chain of different deployments a plan gets its graph. In it the successors of a deployment
-- for a reason are the targets of the declared edges within the chain that leave it and answer the
-- reason, in declaration order; where there are none, the successor is the first deployment behind
-- it in the chain to which no declared edge of it leads, and without such a one there is none.
pub graph_for-successors :
    (declared : FallbackGraph) (chain : List String)
    → Distinct chain
    → let inner = (restricted_to declared chain).edges in
      (g : FallbackGraph) × (graph_for declared chain ≡ ok g)
      × ((node : String) (reason : FallbackReason)
          → successors g node reason
            ≡ or_ranked (targets node reason inner) (ranked_target inner node chain))
unfolding graph_for restricted_to of_edges
graph_for-successors declared chain d =
    let inner = (restricted_to declared chain).edges in
    let kept =
      keep (λ (e : FallbackEdge). contains e.source chain && contains e.target chain)
        declared.edges in
    let same : inner ≡ kept = edges-of_edges kept in
    (
      of_edges (kept ++ ranked_edges inner chain),
      add_all_ranked-ranked_edges inner chain (of_edges kept) d
          ∙ ap ok (sym (add_all-append Graph.empty_graph kept (ranked_edges inner chain))),
      λ node reason.
          successors-of_edges (kept ++ ranked_edges inner chain) node reason
          ∙ targets-append node reason kept (ranked_edges inner chain)
          ∙ ground (
            arith,
            ap (targets node reason) same,
            targets-ranked_edges inner node reason chain d,
            answered-targets inner node reason,
            or_ranked-append (targets node reason inner) (ranked_target inner node chain),
          ),
    )
