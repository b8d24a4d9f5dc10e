-- ===== src/Router/Plan/Added.antt =====
-- The edges that the ranked order adds, as a list.
use llm_fabric.Prelude.{
  ◌≡◌, refl, true, false, Option, none, some, List, [], ◌∷◌, ◌++◌, String, ◌==◌, string_eq,
  contains, first, Distinct, ok, arith, eq_of_beq, beq_refl,
}
use llm_fabric.Router.Fallback.Reason.{FallbackReason, reason_eq}
use llm_fabric.Router.Fallback.Graph
use llm_fabric.Router.Fallback.Graph.{
  FallbackEdge, FallbackGraph, make_edge, answers, add_all, of_edges, restricted_to, successors,
}
use llm_fabric.Router.Plan.{unanswered, next_ranked, add_ranked, add_all_ranked}

-- The edge of one source, without the checks.
unfoldable pub ranked_edge : String → List FallbackReason → Option String → List FallbackEdge
ranked_edge source [] target = []
ranked_edge source (r ∷ rs) none = []
ranked_edge source (r ∷ rs) (some target) =
    record { source = source; target = target; reasons = r ∷ rs; note = "ranked order" } ∷ []

unfoldable pub ranked_edges : List FallbackEdge → List String → List FallbackEdge
ranked_edges declared [] = []
ranked_edges declared (source ∷ []) = []
ranked_edges declared (source ∷ t ∷ ts) =
    ranked_edge source (unanswered declared source) (next_ranked declared source (t ∷ ts))
    ++ ranked_edges declared (t ∷ ts)

-- The next target comes from the targets.
next_ranked-contains :
    (declared : List FallbackEdge) (source : String) (ts : List String) (t : String)
    → next_ranked declared source ts ≡ some t
    → contains t ts ≡ true
unfolding next_ranked first contains
next_ranked-contains declared source [] t h = cc
next_ranked-contains declared source (x ∷ xs) t h =
    ground (arith, next_ranked-contains declared source xs t, beq_refl t)

add_ranked-ranked_edge :
    (source : String) (reasons : List FallbackReason) (target : Option String) (g : FallbackGraph)
    → ((t : String) → target ≡ some t → (source == t) ≡ false)
    → add_ranked source reasons target g ≡ ok (add_all g (ranked_edge source reasons target))
unfolding add_ranked ranked_edge add_all make_edge
add_ranked-ranked_edge source [] target g h = refl
add_ranked-ranked_edge source (r ∷ rs) none g h = refl
add_ranked-ranked_edge source (r ∷ rs) (some target) g h = rw (h target refl)

pub add_all-append :
    (g : FallbackGraph) (xs ys : List FallbackEdge)
    → add_all g (xs ++ ys) ≡ add_all (add_all g xs) ys
unfolding add_all
add_all-append g [] ys = refl
add_all-append g (x ∷ xs) ys = add_all-append (Graph.add g x) xs ys

differs :
    (a t : String) (ts : List String)
    → contains a ts ≡ false
    → contains t ts ≡ true
    → (a == t) ≡ false
differs a t ts absent present = ground (arith, eq_of_beq a t)

pub add_all_ranked-ranked_edges :
    (declared : List FallbackEdge) (chain : List String) (g : FallbackGraph)
    → Distinct chain
    → add_all_ranked declared chain g ≡ ok (add_all g (ranked_edges declared chain))
unfolding add_all_ranked ranked_edges add_all
add_all_ranked-ranked_edges declared [] g d = refl
add_all_ranked-ranked_edges declared (source ∷ []) g d = refl
add_all_ranked-ranked_edges declared (source ∷ t ∷ ts) g d =
    rw
      (
        add_ranked-ranked_edge source (unanswered declared source)
            (next_ranked declared source (t ∷ ts)) g
            (λ x e.
              differs source x (t ∷ ts) d.0 (next_ranked-contains declared source (t ∷ ts) x e)),
        add_all-append g
            (ranked_edge source (unanswered declared source) (next_ranked declared source (t ∷ ts)))
            (ranked_edges declared (t ∷ ts)),
      )
      (add_all_ranked-ranked_edges declared (t ∷ ts) _ d.1)
