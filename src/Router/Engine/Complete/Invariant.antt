-- ===== src/Router/Engine/Complete/Invariant.antt =====
-- What the loop of `complete` keeps: no deployment is tried twice, and every hop follows an edge.
use mathlib.Core.List.{map-append}
use llm_fabric.Prelude.{
  ℕ, ◌+◌, ◌<◌, ◌≤◌, ◌≡◌, refl, sym, ◌∙◌, true, false, some, List, [], ◌∷◌, ◌++◌, map, String,
  string_eq, add, contains, contains-add, contains-append, Distinct, Distinct-append, Every,
  Every-append, length, length-append, arith,
}
use llm_fabric.Prelude.Float.{Float}
use llm_fabric.Router.Fallback.Reason.{FallbackReason}
use llm_fabric.Router.Fallback.Graph.{FallbackGraph, successors}
use llm_fabric.Router.Fallback.Ledger
use llm_fabric.Router.Fallback.Ledger.{FallbackLedger, FallbackHop, charge, record_hop}
use llm_fabric.Router.Registry.{ModelSpec}
use llm_fabric.Router.Engine.Walk.{Attempt, Walk, moved, stopped, advance, take_hop}
use llm_fabric.Router.Engine.Walk.Moves.{charged, advance-moved, advance-stopped}
use llm_fabric.Router.Engine.Complete.{add_attempt}

-- The hop follows an edge of the graph that answers its reason.
abbrev pub Follows : FallbackGraph → FallbackHop → Type 0
Follows g hop = contains hop.target (successors g hop.source hop.reason) ≡ true

abbrev pub tried : {F : Float} → List (Attempt F) → List String
tried xs = map (λ a. a.model_id) xs

-- What holds of a walk whenever the loop is left.
pub record Traced {F : Float} (limit : ℕ) (g : FallbackGraph) (l : FallbackLedger F)
    (attempts : List (Attempt F)) (hops : List FallbackHop) : Type 0 where
  pub distinct : Distinct (tried attempts)
  pub limited : length attempts ≤ limit
  pub followed : Every (Follows g) hops
  pub counted : length hops ≡ l.depth
  pub deep : l.depth ≤ l.budget.max_depth
  pub nearly : length attempts ≤ l.depth + 1

abbrev pub IsTraced : {F : Float} → ℕ → Walk F → Type 0
IsTraced limit w = Traced limit w.plan.graph w.ledger w.decision.attempts w.decision.fallback.hops

-- What holds before each round, of the deployment that is tried next.
pub record IsReady {F : Float} (limit : ℕ) (spec : ModelSpec F) (w : Walk F) : Type 0 where
  pub traced : IsTraced limit w
  pub even : length w.decision.attempts ≡ w.ledger.depth
  pub room : length w.decision.attempts < limit
  pub untried : contains spec.id w.visited ≡ false
  pub marked : (j : String) → contains j w.visited ≡ contains j (tried w.decision.attempts)

module _ {F : Float} (limit : ℕ) where
  open F use {Carrier}

  tried-append :
      (xs : List (Attempt F)) (a : Attempt F) → tried (xs ++ a ∷ []) ≡ tried xs ++ a.model_id ∷ []
  tried-append xs a = map-append (λ (x : Attempt F). x.model_id) xs (a ∷ [])

  pub add_attempt-IsTraced :
      (spec : ModelSpec F) (w : Walk F) (a : Attempt F)
      → IsReady limit spec w
      → a.model_id ≡ spec.id
      → IsTraced limit (add_attempt w a)
  unfolding add_attempt
  add_attempt-IsTraced spec w a r same = record {
    distinct =
        rw (tried-append w.decision.attempts a, same)
          (Distinct-append (tried w.decision.attempts) spec.id (sym (r.marked spec.id) ∙ r.untried)
            r.traced.distinct);
    limited = omega (arith, r.room, length-append w.decision.attempts (a ∷ []));
    followed = r.traced.followed;
    counted = r.traced.counted;
    deep = r.traced.deep;
    nearly = omega (arith, r.even, length-append w.decision.attempts (a ∷ []));
  }

  add_attempt-marked :
      (spec : ModelSpec F) (w : Walk F) (a : Attempt F)
      → IsReady limit spec w
      → a.model_id ≡ spec.id
      → (j : String)
      → contains j (add spec.id w.visited) ≡ contains j (tried (add_attempt w a).decision.attempts)
  unfolding add_attempt
  add_attempt-marked spec w a r same j =
      rw (tried-append w.decision.attempts a, same)
        (unfold contains in
          ground (
            arith,
            contains-add j spec.id w.visited,
            contains-append j (tried w.decision.attempts) (spec.id ∷ []),
            r.marked j,
          ))

  -- The hop that `advance` takes makes the walk ready for the next round.
  take_hop-IsReady :
      (spec next : ModelSpec F) (w : Walk F) (reason : FallbackReason) (elapsed : Carrier)
      (message : String)
      → IsTraced limit w
      → length w.decision.attempts ≡ w.ledger.depth + 1
      → ((j : String) → contains j (add spec.id w.visited) ≡ contains j (tried w.decision.attempts))
      → length w.decision.attempts < limit
      → contains next.id (add spec.id w.visited) ≡ false
      → contains next.id (successors w.plan.graph spec.id reason) ≡ true
      → w.ledger.depth < w.ledger.budget.max_depth
      → IsReady limit next (take_hop (charged w spec elapsed) spec.id next.id reason message)
  unfolding take_hop record_hop charge Ledger.advance
  take_hop-IsReady spec next w reason elapsed message t even marked room fresh edge deep = record {
    traced = record {
      distinct = t.distinct;
      limited = t.limited;
      followed = Every-append (Follows w.plan.graph) w.decision.fallback.hops _ t.followed edge;
      counted = omega (arith, t.counted, length-append w.decision.fallback.hops (hop ∷ []));
      deep = omega arith;
      nearly = omega arith;
    };
    even = even;
    room = room;
    untried = fresh;
    marked = marked;
  }
    where
      hop : FallbackHop
      hop = record {
        source = spec.id;
        target = next.id;
        reason = reason;
        depth = w.ledger.depth + 1;
        error = some message;
      }

  pub length-add_attempt :
      (w : Walk F) (a : Attempt F)
      → length (add_attempt w a).decision.attempts ≡ length w.decision.attempts + 1
  unfolding add_attempt
  length-add_attempt w a = length-append w.decision.attempts (a ∷ [])

  depth-add_attempt : (w : Walk F) (a : Attempt F) → (add_attempt w a).ledger.depth ≡ w.ledger.depth
  unfolding add_attempt
  depth-add_attempt w a = refl

  visited-add_attempt : (w : Walk F) (a : Attempt F) → (add_attempt w a).visited ≡ w.visited
  unfolding add_attempt
  visited-add_attempt w a = refl

  pub advance-IsReady :
      (spec next : ModelSpec F) (w : Walk F) (a : Attempt F) (reason : FallbackReason)
      (elapsed : Carrier) (message : String)
      → IsReady limit spec w
      → a.model_id ≡ spec.id
      → (advance (add_attempt w a) spec reason elapsed message limit).1 ≡ moved next
      → IsReady limit next (advance (add_attempt w a) spec reason elapsed message limit).0
  advance-IsReady spec next w a reason elapsed message r same h =
      let (room, fresh, edge, deep, moves) =
        advance-moved (add_attempt w a) spec next reason elapsed message limit h in
      rw moves (
        take_hop-IsReady spec next (add_attempt w a) reason elapsed message
          (add_attempt-IsTraced spec w a r same)
          (omega (arith, r.even, length-add_attempt w a, depth-add_attempt w a))
          (rw (visited-add_attempt w a) (add_attempt-marked spec w a r same)) room fresh edge deep)

  pub stopped-IsTraced :
      (w : Walk F) (spec : ModelSpec F) (reason : FallbackReason) (elapsed : Carrier)
      (message : String)
      → IsTraced limit w
      → (advance w spec reason elapsed message limit).1 ≡ stopped
      → IsTraced limit (advance w spec reason elapsed message limit).0
  stopped-IsTraced w spec reason elapsed message t h =
      let (attempts, hops, plan, depth, budget) =
        advance-stopped w spec reason elapsed message limit h in
      record {
        distinct = rw attempts t.distinct;
        limited = rw attempts t.limited;
        followed = rw (hops, plan) t.followed;
        counted = rw (hops, depth) t.counted;
        deep = rw (depth, budget) t.deep;
        nearly = rw (attempts, depth) t.nearly;
      }

  pub attempts-advance :
      (spec next : ModelSpec F) (w : Walk F) (reason : FallbackReason) (elapsed : Carrier)
      (message : String)
      → (advance w spec reason elapsed message limit).1 ≡ moved next
      → (advance w spec reason elapsed message limit).0.decision.attempts ≡ w.decision.attempts
  unfolding take_hop
  attempts-advance spec next w reason elapsed message h =
      let (room, fresh, edge, deep, moves) =
        advance-moved w spec next reason elapsed message limit h in
      rw moves
