-- ===== src/Router/Fallback/Ledger.antt =====
-- router/fallback.py: `FallbackBudget`, `FallbackLedger`, `FallbackHop` and `FallbackTrace`.
pub mod Allows
use llm_fabric.Prelude.{
  ℕ, ◌+◌, ◌<◌, ◌≡◌, arith, Bool, false, ◌||◌, Option, none, some, List, [], ◌∷◌, ◌++◌, String, leb,
  if◌then◌else◌, Result, ok, err, length,
}
use llm_fabric.Prelude.Float.{Float, fmax}
use llm_fabric.Prelude.Int.{ℤ, pos, negsuc}
use llm_fabric.Errors.{ErrorClass}
use llm_fabric.Router.Fallback.Reason.{FallbackReason}

pub record FallbackBudget (F : Float) : Type 0 where
  pub max_depth : ℕ
  pub max_cost_usd : Option F.Carrier
  pub max_latency_ms : Option F.Carrier

pub record FallbackLedger (F : Float) : Type 0 where
  pub budget : FallbackBudget F
  pub depth : ℕ
  pub spent_usd : F.Carrier
  pub elapsed_ms : F.Carrier

-- Why a walk stopped: the sentences that the code writes, with the values they hold.
pub data Refusal (F : Float) : Type 0 where
  attempt_limit : ℕ → String → Refusal F
  no_untried : String → FallbackReason → Refusal F
  depth_limit : ℕ → ℕ → Refusal F
  latency_limit : F.Carrier → F.Carrier → Refusal F
  cost_limit : F.Carrier → F.Carrier → Refusal F

pub record FallbackHop : Type 0 where
  pub source : String
  pub target : String
  pub reason : FallbackReason
  pub depth : ℕ
  pub error : Option String

pub record FallbackTrace (F : Float) : Type 0 where
  pub hops : List FallbackHop
  pub refused : List (Refusal F)

below_zero : (F : Float) → Option F.Carrier → Bool
below_zero F none = false
below_zero F (some x) = F.ltb x (F.of_nat 0)

module _ {F : Float} where
  open F use {Carrier, of_nat, add as plus, ltb as flt, leb as fle}

  -- The constructor with the checks of `__post_init__`.
  unfoldable pub make_budget :
      ℤ → Option Carrier → Option Carrier → Result ErrorClass (FallbackBudget F)
  unfolding below_zero
  make_budget (negsuc n) cost latency = err ErrorClass.configuration
  make_budget (pos n) cost latency =
      if below_zero F cost || below_zero F latency
      then err ErrorClass.configuration
      else ok (record { max_depth = n; max_cost_usd = cost; max_latency_ms = latency })

  unfoldable pub new_ledger : FallbackBudget F → FallbackLedger F
  new_ledger b = record { budget = b; depth = 0; spent_usd = of_nat 0; elapsed_ms = of_nat 0 }

  unfoldable pub charge : FallbackLedger F → Carrier → Carrier → FallbackLedger F
  charge l cost_usd latency_ms = record l {
    spent_usd = plus l.spent_usd (fmax F (of_nat 0) cost_usd);
    elapsed_ms = plus l.elapsed_ms (fmax F (of_nat 0) latency_ms);
  }

  refuse_cost : FallbackLedger F → Carrier → Option (Refusal F)
  refuse_cost l next_cost_usd = elim l.budget.max_cost_usd [
    | none ↦ none
    | some limit ↦
        let projected = plus l.spent_usd (fmax F (of_nat 0) next_cost_usd) in
        if flt limit projected then some (cost_limit projected limit) else none
  ]

  refuse_latency : FallbackLedger F → Carrier → Option (Refusal F)
  unfolding refuse_cost
  refuse_latency l next_cost_usd = elim l.budget.max_latency_ms [
    | none ↦ refuse_cost l next_cost_usd
    | some limit ↦
        if fle limit l.elapsed_ms
        then some (latency_limit l.elapsed_ms limit)
        else refuse_cost l next_cost_usd
  ]

  unfoldable pub refuse_reason : FallbackLedger F → Carrier → Option (Refusal F)
  unfolding refuse_latency
  refuse_reason l next_cost_usd =
      if leb l.budget.max_depth l.depth
      then some (depth_limit l.depth l.budget.max_depth)
      else refuse_latency l next_cost_usd

  unfoldable pub advance : FallbackLedger F → FallbackLedger F
  advance l = record l { depth = l.depth + 1 }

  abbrev pub empty_trace : FallbackTrace F
  empty_trace = record { hops = []; refused = [] }

  unfoldable pub record_hop : FallbackTrace F → FallbackHop → FallbackTrace F
  record_hop t hop = record t { hops = t.hops ++ hop ∷ [] }

  unfoldable pub refuse : FallbackTrace F → Refusal F → FallbackTrace F
  refuse t why = record t { refused = t.refused ++ why ∷ [] }

  -- The property `depth` of the trace.
  unfoldable pub trace_depth : FallbackTrace F → ℕ
  trace_depth t = length t.hops

  -- A hop that is not refused is within the depth.
  pub refuse_reason_depth :
      (l : FallbackLedger F) (cost : Carrier)
      → refuse_reason l cost ≡ none
      → l.depth < l.budget.max_depth
  unfolding refuse_reason
  refuse_reason_depth l cost h = ground arith
