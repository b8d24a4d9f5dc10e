-- ===== src/Router/Fallback/Ledger/Allows.antt =====
-- When the budget of a walk allows one more hop.
use llm_fabric.Prelude.{◌<◌, ◌≡◌, ◌↔◌, false, none, some, arith, Option-cases, inl, inr}
use llm_fabric.Prelude.Float.{Float, fmax}
use llm_fabric.Router.Fallback.Ledger.{FallbackLedger, refuse_reason, refuse_reason_depth}

module _ {F : Float} where
  open F use {Carrier, of_nat, add, ltb, leb}

  -- The depth is below its limit, and, where the budget sets one, the time that has passed is below
  -- its limit and the cost with that of the next attempt does not go over its limit.
  pub record IsAllowed (l : FallbackLedger F) (cost : Carrier) : Type 0 where
    pub depth : l.depth < l.budget.max_depth
    pub latency :
        (limit : Carrier) → l.budget.max_latency_ms ≡ some limit → leb limit l.elapsed_ms ≡ false
    pub spend :
        (limit : Carrier)
        → l.budget.max_cost_usd ≡ some limit
        → ltb limit (add l.spent_usd (fmax F (of_nat 0) cost)) ≡ false

  module _ (l : FallbackLedger F) (cost : Carrier) where
    allowed_latency :
        (limit : Carrier)
        → refuse_reason l cost ≡ none
        → l.budget.max_latency_ms ≡ some limit
        → leb limit l.elapsed_ms ≡ false
    unfolding refuse_reason
    allowed_latency limit h e = ground (arith, e)

    allowed_cost :
        (limit : Carrier)
        → refuse_reason l cost ≡ none
        → l.budget.max_cost_usd ≡ some limit
        → ltb limit (add l.spent_usd (fmax F (of_nat 0) cost)) ≡ false
    unfolding refuse_reason
    allowed_cost limit h e = ground (arith, e)

    refuse_reason-IsAllowed : IsAllowed l cost → refuse_reason l cost ≡ none
    unfolding refuse_reason
    refuse_reason-IsAllowed h = elim (Option-cases l.budget.max_latency_ms) [
      | inl e ↦ elim (Option-cases l.budget.max_cost_usd) [
        | inl e' ↦ ground (arith, h.depth)
        | inr (most, e') ↦ ground (arith, h.depth, h.spend most e')
      ]
      | inr (limit, e) ↦ elim (Option-cases l.budget.max_cost_usd) [
        | inl e' ↦ ground (arith, h.depth, h.latency limit e)
        | inr (most, e') ↦ ground (arith, h.depth, h.latency limit e, h.spend most e')
      ]
    ]

    -- The ledger refuses no hop that its budget allows and every other one: there is no reason to
    -- refuse exactly if the depth is below its limit, and, where the budget sets these limits, the
    -- time that has passed is below its limit and the cost, with that of the next attempt, is not
    -- above its limit.
    pub refuse_reason_iff : (refuse_reason l cost ≡ none) ↔ IsAllowed l cost
    refuse_reason_iff = (
      λ h. record {
        depth = refuse_reason_depth l cost h;
        latency = λ limit e. allowed_latency limit h e;
        spend = λ limit e. allowed_cost limit h e;
      },
      refuse_reason-IsAllowed,
    )
