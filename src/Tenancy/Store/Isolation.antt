-- ===== src/Tenancy/Store/Isolation.antt =====
-- What one tenant does is not seen by another.
use llm_fabric.Prelude.{
  ◌≡◌, refl, ◌∙◌, Bool, true, not, Option, List, [], ◌∷◌, String, ◌==◌, string_eq, Every, arith,
  Bool-cases, Option-cases, inl, inr,
}
use llm_fabric.Prelude.Int.{ℤ}
use llm_fabric.Prelude.Dict
use llm_fabric.Tenancy.Scope.{TenantScope}
use llm_fabric.Tenancy.Store.{
  TenantOwned, Bucket, TenantScopedStore, bucket_of, flag, put, delete, clear_tenant, checked, get,
  require, list_records, keys, count,
}
use llm_fabric.Tenancy.Store.Ops.{
  Op, putting, deleting, getting, requiring, clearing, listing, scope_of, step, run,
}

module _ {V : Type 0} ⦃owned : TenantOwned V⦄ where
  -- The call is made by another tenant.
  abbrev pub is_other : String → Op V → Bool
  is_other tenant c = not (tenant == (scope_of c).tenant_id)

  bucket_of-write :
      (tenant t : String) (b : Bucket V) (s : TenantScopedStore V)
      → not (tenant == t) ≡ true
      → bucket_of tenant (record s { buckets = Dict.put t b s.buckets }) ≡ bucket_of tenant s
  unfolding bucket_of
  bucket_of-write tenant t b s h = ground (arith, Dict.get-put tenant t b s.buckets)

  bucket_of-put :
      (tenant : String) (scope : TenantScope) (key : String) (value : V) (s : TenantScopedStore V)
      → not (tenant == scope.tenant_id) ≡ true
      → bucket_of tenant (put scope key value s).0 ≡ bucket_of tenant s
  unfolding put flag
  bucket_of-put tenant scope key value s h =
      elim (Bool-cases (owned.owner value == scope.tenant_id)) [
        | inl own ↦ rw (own, put) (bucket_of-write tenant scope.tenant_id _ s h)
        | inr foreign ↦ rw (foreign, put) (unfold bucket_of in refl)
      ]

  bucket_of-delete :
      (tenant : String) (scope : TenantScope) (key : String) (s : TenantScopedStore V)
      → not (tenant == scope.tenant_id) ≡ true
      → bucket_of tenant (delete scope key s).0 ≡ bucket_of tenant s
  unfolding delete
  bucket_of-delete tenant scope key s h = elim (Option-cases (bucket_of scope.tenant_id s)) [
    | inl e ↦ rw (e, delete)
    | inr (b, e) ↦ rw (e, delete) (bucket_of-write tenant scope.tenant_id _ s h)
  ]

  bucket_of-step :
      (tenant : String) (s : TenantScopedStore V) (c : Op V)
      → is_other tenant c ≡ true
      → bucket_of tenant (step s c) ≡ bucket_of tenant s
  unfolding step clear_tenant flag get checked require list_records bucket_of
  bucket_of-step tenant s (putting scope key value) h = bucket_of-put tenant scope key value s h
  bucket_of-step tenant s (deleting scope key) h = bucket_of-delete tenant scope key s h
  bucket_of-step tenant s (clearing scope) h =
      ground (arith, Dict.get-remove tenant scope.tenant_id s.buckets)
  bucket_of-step tenant s (getting scope key) h = ground arith
  bucket_of-step tenant s (requiring scope key) h = ground arith
  bucket_of-step tenant s (listing scope limit predicate) h = ground arith

  bucket_of-run :
      (tenant : String) (s : TenantScopedStore V) (cs : List (Op V))
      → Every (λ c. is_other tenant c ≡ true) cs
      → bucket_of tenant (run s cs) ≡ bucket_of tenant s
  unfolding run
  bucket_of-run tenant s [] h = refl
  bucket_of-run tenant s (c ∷ cs) h =
      bucket_of-run tenant (step s c) cs h.1 ∙ bucket_of-step tenant s c h.0

  -- Calls of other tenants, whatever they are, change nothing that a tenant reads: not what `get`
  -- and `list` answer, not the keys, not the number of records.
  pub others_unseen :
      (scope : TenantScope) (s : TenantScopedStore V) (cs : List (Op V)) (key : String) (limit : ℤ)
      (predicate : Option (V → Bool))
      → Every (λ c. is_other scope.tenant_id c ≡ true) cs
      → ((get scope key (run s cs)).1 ≡ (get scope key s).1)
        × ((list_records scope limit predicate (run s cs)).1
            ≡ (list_records scope limit predicate s).1)
        × (keys scope (run s cs) ≡ keys scope s)
        × (count scope (run s cs) ≡ count scope s)
  unfolding get list_records keys count
  others_unseen scope s cs key limit predicate h =
      let same = bucket_of-run scope.tenant_id s cs h in
      (ground (arith, same), ground (arith, same), rw same, rw same)
