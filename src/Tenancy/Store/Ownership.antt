-- ===== src/Tenancy/Store/Ownership.antt =====
-- Whatever calls a store has had, what a bucket holds belongs to its tenant, and it is bounded.
pub mod Reads
pub mod Runs
use llm_fabric.Prelude.{
  ℕ, ◌≤◌, ◌≡◌, refl, ◌∙◌, Bool, true, false, not, Option, none, some, List, [], ◌∷◌, ◌++◌, String,
  ◌==◌, string_eq, if◌then◌else◌, leb, length, Every, Every-append, arith, Bool-cases, Option-cases,
  inl, inr, beq_refl, eq_of_beq, ok, err, Result,
}
use llm_fabric.Prelude.Dict
use llm_fabric.Prelude.Int.{ℤ, pos_part}
use llm_fabric.Tenancy.Scope.{TenantScope}
use llm_fabric.Tenancy.Store.{
  TenantOwned, Entry, Bucket, TenantScopedStore, make_store, bucket_of, flag, insert, put, delete,
  clear_tenant, checked, get, require, list_records, newest_first, collect, count,
}
use llm_fabric.Tenancy.Store.Ops.{
  Op, putting, deleting, getting, requiring, clearing, listing, step, run,
}
use llm_fabric.Tenancy.Store.Buckets.{
  entries, entries-put, entries-remove, Every-insert, length-insert-le,
}

module _ {V : Type 0} ⦃owned : TenantOwned V⦄ where
  abbrev pub IsOwned : String → Entry V → Type 0
  IsOwned tenant e = (e.tenant_id ≡ tenant) × (owned.owner e.value ≡ tenant)

  -- The bucket of a tenant holds entries of that tenant only, and no more than the limit.
  pub record IsKept (limit : ℕ) (tenant : String) (b : Bucket V) : Type 0 where
    pub mine : Every (λ x. IsOwned tenant x.1) b
    pub bounded : length b ≤ limit

  abbrev pub AllKept : TenantScopedStore V → Type 0
  AllKept s = (tenant : String) → IsKept s.max_records tenant (entries tenant s)

  put_bucket-AllKept :
      (s : TenantScopedStore V) (t : String) (b : Bucket V)
      → IsKept s.max_records t b
      → AllKept s
      → AllKept (record s { buckets = Dict.put t b s.buckets })
  put_bucket-AllKept s t b new old j = elim (Bool-cases (j == t)) [
    | inl same ↦ rw (entries-put s t j b, same, eq_of_beq j t same) new
    | inr other ↦ rw (entries-put s t j b, other) (old j)
  ]

  insert-IsKept :
      (limit : ℕ) (t key : String) (value : V) (b : Bucket V)
      → owned.owner value ≡ t
      → IsKept limit t b
      → IsKept limit t (insert limit key (record { tenant_id = t; value = value }) b)
  insert-IsKept limit t key value b own h = record {
    mine = Every-insert (λ x. IsOwned t x.1) limit key _ b h.mine (refl, own);
    bounded = length-insert-le limit key _ b;
  }

  pub put-AllKept :
      (scope : TenantScope) (key : String) (value : V) (s : TenantScopedStore V)
      → AllKept s
      → AllKept (put scope key value s).0
  unfolding put flag
  put-AllKept scope key value s h = elim (Bool-cases (owned.owner value == scope.tenant_id)) [
    | inl own ↦ rw own (
        put_bucket-AllKept s scope.tenant_id _
          (insert-IsKept s.max_records scope.tenant_id key value (entries scope.tenant_id s)
            (eq_of_beq _ _ own) (h scope.tenant_id))
          h)
    | inr foreign ↦ rw foreign h
  ]

  remove-IsKept :
      (limit : ℕ) (t key : String) (b : Bucket V)
      → IsKept limit t b
      → IsKept limit t (Dict.remove key b)
  remove-IsKept limit t key b h = record {
    mine = Dict.Every-remove (λ x. IsOwned t x.1) key b h.mine;
    bounded = omega (arith, h.bounded, Dict.length-remove-le key b);
  }

  pub delete-AllKept :
      (scope : TenantScope) (key : String) (s : TenantScopedStore V)
      → AllKept s
      → AllKept (delete scope key s).0
  unfolding delete
  delete-AllKept scope key s h = elim (Option-cases (bucket_of scope.tenant_id s)) [
    | inl e ↦ rw (e, delete) h
    | inr (b, e) ↦
        rw (e, delete)
          (put_bucket-AllKept s scope.tenant_id _
            (remove-IsKept s.max_records scope.tenant_id key b (rw e at (h scope.tenant_id))) h)
  ]

  pub clear_tenant-AllKept :
      (scope : TenantScope) (s : TenantScopedStore V) → AllKept s → AllKept (clear_tenant scope s).0
  unfolding clear_tenant
  clear_tenant-AllKept scope s h j = elim (Bool-cases (j == scope.tenant_id)) [
    | inl same ↦
        rw (entries-remove s scope.tenant_id j, same) (record { mine = tt; bounded = omega arith })
    | inr other ↦ rw (entries-remove s scope.tenant_id j, other) (h j)
  ]
