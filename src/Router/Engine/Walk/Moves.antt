-- ===== src/Router/Engine/Walk/Moves.antt =====
-- What `advance` does to a walk: a move goes to a fresh, ranked successor within the limits.
use llm_fabric.Prelude.{
  ℕ, ◌<◌, ◌≡◌, ◌≢◌, first_found, true, false, Option, none, some, String, ◌==◌, string_eq,
  eq_of_beq, add, contains, length, first, first_sound, Option-cases, Every, Every-append,
  Bool-cases, leb, inl, inr, arith,
}
use llm_fabric.Prelude.Float.{Float}
use llm_fabric.Router.Fallback.Reason.{FallbackReason}
use llm_fabric.Router.Fallback.Graph.{next_hop, successors, blocked}
use llm_fabric.Router.Fallback.Graph.Hops.{next_hop_sound}
use llm_fabric.Router.Fallback.Ledger
use llm_fabric.Router.Fallback.Ledger.{
  charge, FallbackHop, record_hop, refuse_reason, refuse_reason_depth, refuse,
}
use llm_fabric.Router.Registry.{ModelSpec, blended_cost_per_mtok}
use llm_fabric.Router.Engine.Walk.{
  Walk, moved, stopped, unmatched, ids, give_up, take_hop, hop_to, follow, advance, estimated_cost,
}

module _ {F : Float} where
  open F use {Carrier, of_nat}

  -- The walk with the deployment marked as tried and the elapsed time charged.
  abbrev pub charged : Walk F → ModelSpec F → Carrier → Walk F
  charged w current elapsed_ms = record w {
    visited = add current.id w.visited;
    ledger = charge w.ledger (of_nat 0) elapsed_ms;
  }

  hop_to-moved :
      (w : Walk F) (source target : String) (spec next : ModelSpec F) (reason : FallbackReason)
      (error : String)
      → (hop_to w source target spec reason error).1 ≡ moved next
      → (next ≡ spec)
        × ((hop_to w source target spec reason error).0 ≡ take_hop w source target reason error)
        × (w.ledger.depth < w.ledger.budget.max_depth)
  unfolding hop_to
  hop_to-moved w source target spec next reason error h =
      ground (arith, refuse_reason_depth w.ledger (estimated_cost F (blended_cost_per_mtok spec)))

  follow-moved :
      (w : Walk F) (source : String) (found : Option String) (next : ModelSpec F)
      (reason : FallbackReason) (error : String)
      → (follow w source found reason error).1 ≡ moved next
      → (found ≡ some next.id)
        × ((follow w source found reason error).0 ≡ take_hop w source next.id reason error)
        × (w.ledger.depth < w.ledger.budget.max_depth)
  unfolding follow
  follow-moved w source none next reason error h = cc
  follow-moved w source (some target) next reason error h =
      elim (Option-cases (first (λ m. m.id == target) w.plan.ranked)) [
        | inl e ↦ ground arith
        | inr (spec, e) ↦ ground (
          arith,
          hop_to-moved w source target spec next reason error,
          eq_of_beq spec.id target (first_sound (λ m. m.id == target) w.plan.ranked spec e),
        )
      ]

  pub advance-moved :
      (w : Walk F) (current next : ModelSpec F) (reason : FallbackReason) (elapsed_ms : Carrier)
      (error : String) (limit : ℕ)
      → (advance w current reason elapsed_ms error limit).1 ≡ moved next
      → (length w.decision.attempts < limit)
        × (contains next.id (add current.id w.visited) ≡ false)
        × (contains next.id (successors w.plan.graph current.id reason) ≡ true)
        × (w.ledger.depth < w.ledger.budget.max_depth)
        × ((advance w current reason elapsed_ms error limit).0
            ≡ take_hop (charged w current elapsed_ms) current.id next.id reason error)
  unfolding advance charge blocked
  advance-moved w current next reason elapsed_ms error limit h = ground (
    arith,
    follow-moved (charged w current elapsed_ms) current.id found next reason error,
    next_hop_sound w.plan.graph current.id reason (add current.id w.visited)
        (some (ids w.plan.ranked)) next.id,
  )
    where
      found : Option String
      found =
          next_hop w.plan.graph current.id reason (add current.id w.visited)
            (some (ids w.plan.ranked))

  -- A walk that stops keeps its attempts, its hops and its ledger's depth.
  pub advance-stopped :
      (w : Walk F) (current : ModelSpec F) (reason : FallbackReason) (elapsed_ms : Carrier)
      (error : String) (limit : ℕ)
      → (advance w current reason elapsed_ms error limit).1 ≡ stopped
      → let w' = (advance w current reason elapsed_ms error limit).0 in
        (w'.decision.attempts ≡ w.decision.attempts)
        × (w'.decision.fallback.hops ≡ w.decision.fallback.hops)
        × (w'.plan ≡ w.plan)
        × (w'.ledger.depth ≡ w.ledger.depth)
        × (w'.ledger.budget ≡ w.ledger.budget)
  unfolding advance hop_to give_up charge refuse
  advance-stopped w current reason elapsed_ms error limit h = ground arith

  follow-ne-unmatched :
      (w : Walk F) (source target : String) (reason : FallbackReason) (error : String)
      → contains target (ids w.plan.ranked) ≡ true
      → (follow w source (some target) reason error).1 ≢ unmatched
  unfolding follow hop_to
  follow-ne-unmatched w source target reason error c h =
      let (spec, e) = first_found (λ (m : ModelSpec F). m.id) target w.plan.ranked c in
      ground (arith, e)

  -- The target of `next_hop` is eligible, so it is the id of a ranked candidate.
  pub advance-ne-unmatched :
      (w : Walk F) (current : ModelSpec F) (reason : FallbackReason) (elapsed_ms : Carrier)
      (error : String) (limit : ℕ)
      → (advance w current reason elapsed_ms error limit).1 ≢ unmatched
  unfolding advance blocked
  advance-ne-unmatched w current reason elapsed_ms error limit h = elim (Option-cases found) [
    | inl e ↦ unfold follow in ground (arith, e)
    | inr (target, e) ↦ ground (
      arith,
      next_hop_sound w.plan.graph current.id reason (add current.id w.visited)
          (some (ids w.plan.ranked)) target e,
      follow-ne-unmatched (charged w current elapsed_ms) current.id target reason error,
    )
  ]
    where
      found : Option String
      found =
          next_hop w.plan.graph current.id reason (add current.id w.visited)
            (some (ids w.plan.ranked))

  -- Whatever `advance` answers, it leaves the plan, the budget, the attempts and the selection alone.
  pub advance-keeps :
      (w : Walk F) (current : ModelSpec F) (reason : FallbackReason) (elapsed_ms : Carrier)
      (error : String) (limit : ℕ)
      → let w' = (advance w current reason elapsed_ms error limit).0 in
        (w'.plan ≡ w.plan)
        × (w'.ledger.budget ≡ w.ledger.budget)
        × (w'.decision.attempts ≡ w.decision.attempts)
        × (w'.decision.selected_model ≡ w.decision.selected_model)
  unfolding advance hop_to give_up charge refuse take_hop record_hop Ledger.advance
  advance-keeps w current reason elapsed_ms error limit = ground arith

  hops-hop_to :
      (Q : FallbackHop → Type 0) (w : Walk F) (source target : String) (spec : ModelSpec F)
      (reason : FallbackReason) (error : String)
      → Every Q w.decision.fallback.hops
      → ((t : String) (depth : ℕ)
          → Q (record {
            source = source;
            target = t;
            reason = reason;
            depth = depth;
            error = some error;
          }))
      → Every Q (hop_to w source target spec reason error).0.decision.fallback.hops
  unfolding hop_to take_hop record_hop give_up refuse
  hops-hop_to Q w source target spec reason error old new =
      elim (Option-cases (refuse_reason w.ledger (estimated_cost F (blended_cost_per_mtok spec)))) [
        | inl e ↦ rw (e, Every) (Every-append Q w.decision.fallback.hops _ old (new target _))
        | inr (why, e) ↦ rw (e, Every) old
      ]

  hops-follow :
      (Q : FallbackHop → Type 0) (w : Walk F) (source : String) (found : Option String)
      (reason : FallbackReason) (error : String)
      → Every Q w.decision.fallback.hops
      → ((t : String) (depth : ℕ)
          → Q (record {
            source = source;
            target = t;
            reason = reason;
            depth = depth;
            error = some error;
          }))
      → Every Q (follow w source found reason error).0.decision.fallback.hops
  unfolding follow give_up refuse
  hops-follow Q w source none reason error old new = old
  hops-follow Q w source (some target) reason error old new =
      elim (Option-cases (first (λ m. m.id == target) w.plan.ranked)) [
        | inl e ↦ rw (e, Every) old
        | inr (spec, e) ↦ rw (e, Every) (hops-hop_to Q w source target spec reason error old new)
      ]

  -- `advance` adds at most one hop, which has the given source, reason and error.
  pub hops-advance :
      (Q : FallbackHop → Type 0) (w : Walk F) (current : ModelSpec F) (reason : FallbackReason)
      (elapsed_ms : Carrier) (error : String) (limit : ℕ)
      → Every Q w.decision.fallback.hops
      → ((t : String) (depth : ℕ)
          → Q (record {
            source = current.id;
            target = t;
            reason = reason;
            depth = depth;
            error = some error;
          }))
      → Every Q (advance w current reason elapsed_ms error limit).0.decision.fallback.hops
  unfolding advance give_up refuse
  hops-advance Q w current reason elapsed_ms error limit old new =
      elim (Bool-cases (leb limit (length w.decision.attempts))) [
        | inl full ↦ rw (full, Every) old
        | inr room ↦
            rw (room, Every)
              (hops-follow Q (charged w current elapsed_ms) current.id _ reason error old new)
      ]
