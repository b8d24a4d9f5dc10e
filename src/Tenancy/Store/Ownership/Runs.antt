-- ===== src/Tenancy/Store/Ownership/Runs.antt =====
-- A new store after any calls: what it answers, and how much it holds.
use llm_fabric.Prelude.{
  ◌≤◌, ◌≡◌, refl, ◌∙◌, Bool, Option, some, List, [], ◌∷◌, String, string_eq, Every, arith, ok,
}
use llm_fabric.Prelude.Dict
use llm_fabric.Prelude.Int.{ℤ, pos_part}
use llm_fabric.Tenancy.Scope.{TenantScope}
use llm_fabric.Tenancy.Store.{
  TenantOwned, TenantScopedStore, make_store, bucket_of, flag, put, delete, clear_tenant, checked,
  get, require, list_records, count,
}
use llm_fabric.Tenancy.Store.Ops.{
  Op, putting, deleting, getting, requiring, clearing, listing, step, run,
}
use llm_fabric.Tenancy.Store.Ownership.{AllKept, put-AllKept, delete-AllKept, clear_tenant-AllKept}
use llm_fabric.Tenancy.Store.Ownership.Reads.{get_kept, list_records_kept, require_kept}

module _ {V : Type 0} ⦃owned : TenantOwned V⦄ where
  step-AllKept : (s : TenantScopedStore V) (c : Op V) → AllKept s → AllKept (step s c)
  unfolding step
  step-AllKept s (putting scope key value) h = put-AllKept scope key value s h
  step-AllKept s (deleting scope key) h = delete-AllKept scope key s h
  step-AllKept s (clearing scope) h = clear_tenant-AllKept scope s h
  step-AllKept s (getting scope key) h = rw ((get_kept scope key s h).0) h
  step-AllKept s (requiring scope key) h = rw (require_kept scope key s h) h
  step-AllKept s (listing scope limit predicate) h =
      rw ((list_records_kept scope limit predicate s h).0) h

  run-AllKept : (s : TenantScopedStore V) (cs : List (Op V)) → AllKept s → AllKept (run s cs)
  unfolding run
  run-AllKept s [] h = h
  run-AllKept s (c ∷ cs) h = run-AllKept (step s c) cs (step-AllKept s c h)

  pub make_store_new :
      (name : String) (max_records : ℤ) (s : TenantScopedStore V)
      → make_store name max_records ≡ some s
      → (s.buckets ≡ []) × (s.max_records ≡ pos_part max_records) × (1 ≤ s.max_records)
  unfolding make_store
  make_store_new name max_records s e = ground arith

  make_store-AllKept :
      (name : String) (max_records : ℤ) (s : TenantScopedStore V)
      → make_store name max_records ≡ some s
      → AllKept s
  unfolding bucket_of Dict.get
  make_store-AllKept name max_records s e tenant =
      rw ((make_store_new name max_records s e).0) (record { mine = tt; bounded = omega arith })

  step-max_records : (s : TenantScopedStore V) (c : Op V) → (step s c).max_records ≡ s.max_records
  unfolding step put delete clear_tenant flag get checked require list_records
  step-max_records s (putting scope key value) = ground arith
  step-max_records s (deleting scope key) = ground arith
  step-max_records s (clearing scope) = refl
  step-max_records s (getting scope key) = ground arith
  step-max_records s (requiring scope key) = ground arith
  step-max_records s (listing scope limit predicate) = ground arith

  pub run-max_records :
      (s : TenantScopedStore V) (cs : List (Op V)) → (run s cs).max_records ≡ s.max_records
  unfolding run
  run-max_records s [] = refl
  run-max_records s (c ∷ cs) = run-max_records (step s c) cs ∙ step-max_records s c

  module _ (name : String) (max_records : ℤ) (s : TenantScopedStore V)
      (made : make_store name max_records ≡ some s) (cs : List (Op V)) where
    -- Whatever calls a new store has had, for any tenants, a read never raises the isolation error
    -- and flags nothing: `get` and `list` answer, and all that they answer belongs to the tenant
    -- that asks.
    pub reads_owned :
        (scope : TenantScope) (key : String) (limit : ℤ) (predicate : Option (V → Bool))
        → let s' = run s cs in
          (((get scope key s').0 ≡ s')
            × ((value : Option V) × ((get scope key s').1 ≡ ok value)
                × ((v : V) → value ≡ some v → owned.owner v ≡ scope.tenant_id)))
          × (((list_records scope limit predicate s').0 ≡ s')
              × ((vs : List V) × ((list_records scope limit predicate s').1 ≡ ok vs)
                  × Every (λ v. owned.owner v ≡ scope.tenant_id) vs))
    reads_owned scope key limit predicate =
        let kept = run-AllKept s cs (make_store-AllKept name max_records s made) in
        (
          get_kept scope key (run s cs) kept,
          list_records_kept scope limit predicate (run s cs) kept,
        )

    -- Whatever calls a new store has had, no tenant has more records than the store was made for.
    pub count_bounded : (scope : TenantScope) → count scope (run s cs) ≤ pos_part max_records
    unfolding count
    count_bounded scope = omega (
      arith,
      (run-AllKept s cs (make_store-AllKept name max_records s made) scope.tenant_id).bounded,
      run-max_records s cs,
      (make_store_new name max_records s made).1,
    )
