-- ===== src/Tenancy/Quota/Calls.antt =====
-- tenancy/quota.py: any method of `QuotaLedger` as one step, and runs of them.
use llm_fabric.Prelude.{ℕ, Option, List, [], ◌∷◌, String, or_else}
use llm_fabric.Prelude.Float.{Float}
use llm_fabric.Prelude.Int.{ℤ}
use llm_fabric.Tenancy.Scope.{TenantScope}
use llm_fabric.Tenancy.Quota.{QuotaLevel, QuotaPolicy}
use llm_fabric.Tenancy.Quota.Ledger.{QuotaLedger, set_tenant_policy, set_user_policy}
use llm_fabric.Tenancy.Quota.Requests.{
  admit, acquire_concurrency, release_concurrency, record_usage, snapshot,
}

-- A call of the ledger, with the clock reading that it makes. A refused `record_usage` has no effect.
pub data Request (F : Float) : Type 0 where
  asked : TenantScope → Option String → Option String → ℕ → Request F
  acquired released : TenantScope → ℕ → Request F
  used : TenantScope → ℤ → F.Carrier → ℕ → Request F
  looked : TenantScope → QuotaLevel → ℕ → Request F
  tenant_set user_set : String → QuotaPolicy F → Request F

module _ {F : Float} where
  unfoldable pub step : QuotaLedger F → Request F → QuotaLedger F
  step l (asked scope provider model now) = (admit scope provider model now l).0
  step l (acquired scope now) = (acquire_concurrency scope now l).0
  step l (released scope now) = release_concurrency scope now l
  step l (used scope tokens cost_usd now) = or_else (record_usage scope tokens cost_usd now l) l
  step l (looked scope level now) = (snapshot scope level now l).0
  step l (tenant_set id p) = set_tenant_policy id p l
  step l (user_set key p) = set_user_policy key p l

  unfoldable pub run : QuotaLedger F → List (Request F) → QuotaLedger F
  run l [] = l
  run l (r ∷ rs) = run (step l r) rs
