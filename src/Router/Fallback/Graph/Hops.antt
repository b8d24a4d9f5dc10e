-- ===== src/Router/Fallback/Graph/Hops.antt =====
-- `next_hop` finds the first untried, eligible successor.
use mathlib.Core.Option
use llm_fabric.Prelude.{
  ◌≡◌, Bool, true, false, not, ◌&&◌, Option, some, List, [], ◌∷◌, String, ◌==◌, string_eq, contains,
  arith, beq_refl,
}
use llm_fabric.Router.Fallback.Reason.{FallbackReason}
use llm_fabric.Router.Fallback.Graph.{
  FallbackEdge, FallbackGraph, successors, answers, blocked, first_open, next_hop,
}

-- The edge may be taken now, from `node` and for `reason`.
abbrev pub is_open_edge :
    String → FallbackReason → List String → Option (List String) → FallbackEdge → Bool
is_open_edge node reason visited eligible e =
    (node == e.source && answers e reason) && not (blocked visited eligible e.target)

pub first_open_sound :
    (visited : List String) (eligible : Option (List String)) (ts : List String) (t : String)
    → first_open visited eligible ts ≡ some t
    → (contains t ts ≡ true) × (blocked visited eligible t ≡ false)
unfolding first_open contains
first_open_sound visited eligible [] t h = cc
first_open_sound visited eligible (x ∷ xs) t h =
    ground (arith, first_open_sound visited eligible xs t, beq_refl t)

pub next_hop_sound :
    (g : FallbackGraph) (node : String) (reason : FallbackReason) (visited : List String)
    (eligible : Option (List String)) (t : String)
    → next_hop g node reason visited eligible ≡ some t
    → (contains t (successors g node reason) ≡ true) × (blocked visited eligible t ≡ false)
unfolding next_hop
next_hop_sound g node reason visited eligible t h =
    first_open_sound visited eligible (successors g node reason) t h
