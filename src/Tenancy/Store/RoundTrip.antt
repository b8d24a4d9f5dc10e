-- ===== src/Tenancy/Store/RoundTrip.antt =====
-- What was put is what is got, until it is deleted, replaced or evicted.
use llm_fabric.Prelude.{
  ◌+◌, ◌≤◌, ◌≡◌, ap, false, none, some, [], String, ◌==◌, string_eq, arith, Option-cases, inl, inr,
  beq_refl, or_else, ok,
}
use llm_fabric.Prelude.Dict
use llm_fabric.Tenancy.Scope.{TenantScope}
use llm_fabric.Tenancy.Store.{
  TenantOwned, Entry, TenantScopedStore, bucket_of, insert, put, delete, checked, get, require,
  count,
}
use llm_fabric.Tenancy.Store.Buckets.{entries, entries-put, get-insert_self, get-insert_other}

module _ {V : Type 0} ⦃owned : TenantOwned V⦄ where
  abbrev entry : TenantScope → V → Entry V
  entry scope value = record { tenant_id = scope.tenant_id; value = value }

  entries-put_own :
      (scope : TenantScope) (key : String) (value : V) (s : TenantScopedStore V)
      → owned.owner value ≡ scope.tenant_id
      → entries scope.tenant_id (put scope key value s).0
        ≡ insert s.max_records key (entry scope value) (entries scope.tenant_id s)
  unfolding put
  entries-put_own scope key value s own =
      rw (own, beq_refl scope.tenant_id)
        (rw (
          entries-put s scope.tenant_id scope.tenant_id
              (insert s.max_records key (entry scope value) (entries scope.tenant_id s)),
          beq_refl scope.tenant_id,
        ))

  get-entry :
      (scope : TenantScope) (key : String) (value : V) (s : TenantScopedStore V)
      → owned.owner value ≡ scope.tenant_id
      → Dict.get key (entries scope.tenant_id s) ≡ some (entry scope value)
      → ((get scope key s).1 ≡ ok (some value)) × ((require scope key s).1 ≡ ok value)
  unfolding get checked require
  get-entry scope key value s own found = ground (arith, found, own, beq_refl scope.tenant_id)

  -- A tenant's own value is stored by `put`: `get` and `require` answer it under its key, and, as
  -- long as the tenant has room for one more record, every other key of the tenant still leads to
  -- the record that it had.
  pub get-put :
      (scope : TenantScope) (key : String) (value : V) (s : TenantScopedStore V)
      → 1 ≤ s.max_records
      → owned.owner value ≡ scope.tenant_id
      → let r = put scope key value s in
        (r.1 ≡ ok value)
        × ((get scope key r.0).1 ≡ ok (some value))
        × ((require scope key r.0).1 ≡ ok value)
        × ((j : String)
            → (j == key) ≡ false
            → count scope s + 1 ≤ s.max_records
            → (get scope j r.0).1 ≡ (get scope j s).1)
  unfolding put get count checked
  get-put scope key value s positive own =
      (answer, stored.0, stored.1, λ j other room. kept j other room)
    where
      now :
          entries scope.tenant_id (put scope key value s).0
          ≡ insert s.max_records key (entry scope value) (entries scope.tenant_id s)
      now = entries-put_own scope key value s own

      answer : (put scope key value s).1 ≡ ok value
      answer = rw (own, beq_refl scope.tenant_id, put)

      stored :
          ((get scope key (put scope key value s).0).1 ≡ ok (some value))
          × ((require scope key (put scope key value s).0).1 ≡ ok value)
      stored = get-entry scope key value (put scope key value s).0 own (
          rw (
            now,
            get-insert_self s.max_records key (entry scope value) (entries scope.tenant_id s)
                positive,
          ))

      kept :
          (j : String)
          → (j == key) ≡ false
          → count scope s + 1 ≤ s.max_records
          → (get scope j (put scope key value s).0).1 ≡ (get scope j s).1
      kept j other room = ground (
        arith,
        ap (Dict.get j) now,
        get-insert_other s.max_records key j (entry scope value) (entries scope.tenant_id s) room
            other,
      )

  entries-delete :
      (scope : TenantScope) (key : String) (s : TenantScopedStore V)
      → entries scope.tenant_id (delete scope key s).0 ≡ Dict.remove key (entries scope.tenant_id s)
  unfolding delete Dict.remove bucket_of
  entries-delete scope key s = elim (Option-cases (bucket_of scope.tenant_id s)) [
    | inl e ↦ rw (e, delete) (ap (λ o. or_else o []) e)
    | inr (b, e) ↦
        rw (e, delete)
          (rw (
            entries-put s scope.tenant_id scope.tenant_id (Dict.remove key b),
            beq_refl scope.tenant_id,
          ))
  ]

  -- After a tenant deletes a key, it finds no record there, and its other keys are as they were.
  pub get-delete :
      (scope : TenantScope) (key j : String) (s : TenantScopedStore V)
      → let s' = (delete scope key s).0 in
        ((get scope key s').1 ≡ ok none)
        × ((j == key) ≡ false → (get scope j s').1 ≡ (get scope j s).1)
  unfolding get checked
  get-delete scope key j s = ground (
    arith,
    ap (Dict.get key) (entries-delete scope key s),
    ap (Dict.get j) (entries-delete scope key s),
    Dict.get-remove key key (entries scope.tenant_id s),
    Dict.get-remove j key (entries scope.tenant_id s),
    beq_refl key,
  )
