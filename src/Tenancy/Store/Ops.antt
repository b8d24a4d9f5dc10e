-- ===== src/Tenancy/Store/Ops.antt =====
-- The calls of a `TenantScopedStore`, and what a run of them leaves behind.
use llm_fabric.Prelude.{Bool, Option, List, [], ◌∷◌, String}
use llm_fabric.Prelude.Int.{ℤ}
use llm_fabric.Tenancy.Scope.{TenantScope}
use llm_fabric.Tenancy.Store.{
  TenantOwned, TenantScopedStore, put, delete, clear_tenant, get, require, list_records,
}

-- `keys` and `count` change nothing.
pub data Op (V : Type 0) : Type 0 where
  putting : TenantScope → String → V → Op V
  deleting getting requiring : TenantScope → String → Op V
  clearing : TenantScope → Op V
  listing : TenantScope → ℤ → Option (V → Bool) → Op V

abbrev pub scope_of : {V : Type 0} → Op V → TenantScope
scope_of (putting scope key value) = scope
scope_of (deleting scope key) = scope
scope_of (getting scope key) = scope
scope_of (requiring scope key) = scope
scope_of (clearing scope) = scope
scope_of (listing scope limit predicate) = scope

module _ {V : Type 0} ⦃owned : TenantOwned V⦄ where
  unfoldable pub step : TenantScopedStore V → Op V → TenantScopedStore V
  step s (putting scope key value) = (put scope key value s).0
  step s (deleting scope key) = (delete scope key s).0
  step s (getting scope key) = (get scope key s).0
  step s (requiring scope key) = (require scope key s).0
  step s (clearing scope) = (clear_tenant scope s).0
  step s (listing scope limit predicate) = (list_records scope limit predicate s).0

  unfoldable pub run : TenantScopedStore V → List (Op V) → TenantScopedStore V
  run s [] = s
  run s (c ∷ cs) = run (step s c) cs
