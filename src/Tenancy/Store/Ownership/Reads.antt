-- ===== src/Tenancy/Store/Ownership/Reads.antt =====
-- What the reads of a store answer when its buckets hold what belongs to their tenants.
use llm_fabric.Prelude.{
  ℕ, ◌≡◌, refl, Bool, false, not, Option, none, some, List, [], ◌∷◌, ◌++◌, String, string_eq, leb,
  length, Every, Every-append, Bool-cases, Option-cases, inl, inr, beq_refl, ok,
}
use llm_fabric.Prelude.Dict
use llm_fabric.Prelude.Int.{ℤ, pos_part}
use llm_fabric.Tenancy.Scope.{TenantScope}
use llm_fabric.Tenancy.Store.{
  TenantOwned, Entry, Bucket, TenantScopedStore, checked, get, require, list_records, newest_first,
  collect,
}
use llm_fabric.Tenancy.Store.Buckets.{entries}
use llm_fabric.Tenancy.Store.Ownership.{IsOwned, AllKept}

module _ {V : Type 0} ⦃owned : TenantOwned V⦄ where
  -- An entry of the tenant passes the check, and nothing is flagged.
  checked_owned :
      (t key : String) (found : Option (Entry V)) (s : TenantScopedStore V)
      → ((e : Entry V) → found ≡ some e → IsOwned t e)
      → ((checked t key found s).0 ≡ s)
        × ((value : Option V) × ((checked t key found s).1 ≡ ok value)
            × ((v : V) → value ≡ some v → owned.owner v ≡ t))
  unfolding checked
  checked_owned t key none s h = (refl, (none, refl, λ v e. cc))
  checked_owned t key (some e) s h =
      rw ((h e refl).0, (h e refl).1, beq_refl t)
        (refl, (some e.value, refl, λ v same. cc (h e refl).1))

  pub get_kept :
      (scope : TenantScope) (key : String) (s : TenantScopedStore V)
      → AllKept s
      → ((get scope key s).0 ≡ s)
        × ((value : Option V) × ((get scope key s).1 ≡ ok value)
            × ((v : V) → value ≡ some v → owned.owner v ≡ scope.tenant_id))
  unfolding get
  get_kept scope key s h = checked_owned scope.tenant_id key _ s (λ e found.
      Dict.Every-get (λ x. IsOwned scope.tenant_id x.1) key e (entries scope.tenant_id s) found
        (h scope.tenant_id).mine)

  -- The loop of `list` never meets an entry of another tenant.
  collect_owned :
      (t : String) (limit : ℕ) (predicate : Option (V → Bool)) (results : List V)
      (es : List (Entry V))
      → Every (IsOwned t) es
      → Every (λ v. owned.owner v ≡ t) results
      → (vs : List V) × (collect t limit predicate results es ≡ ok vs)
        × Every (λ v. owned.owner v ≡ t) vs
  unfolding collect
  collect_owned t limit predicate results [] h r = (results, refl, r)
  collect_owned t limit predicate results (e ∷ es) h r =
      let skipped = collect_owned t limit predicate results es h.1 r in
      let more = Every-append (λ v. owned.owner v ≡ t) results e.value r h.0.1 in
      let taken = collect_owned t limit predicate (results ++ e.value ∷ []) es h.1 more in
      rw (h.0.0, beq_refl t)
        (elim (Bool-cases (elim predicate [ none ↦ false | some p ↦ not (p e.value) ])) [
          | inl skip ↦ rw skip skipped
          | inr keep ↦ rw keep (elim (Bool-cases (leb limit (length (results ++ e.value ∷ [])))) [
            | inl full ↦ rw full (results ++ e.value ∷ [], refl, more)
            | inr room ↦ rw room taken
          ])
        ])

  newest_first-IsOwned :
      (t : String) (b : Bucket V)
      → Every (λ x. IsOwned t x.1) b
      → Every (IsOwned t) (newest_first b)
  unfolding newest_first
  newest_first-IsOwned t [] h = tt
  newest_first-IsOwned t ((k, e) ∷ b) h =
      Every-append (IsOwned t) (newest_first b) e (newest_first-IsOwned t b h.1) h.0

  pub list_records_kept :
      (scope : TenantScope) (limit : ℤ) (predicate : Option (V → Bool)) (s : TenantScopedStore V)
      → AllKept s
      → ((list_records scope limit predicate s).0 ≡ s)
        × ((vs : List V) × ((list_records scope limit predicate s).1 ≡ ok vs)
            × Every (λ v. owned.owner v ≡ scope.tenant_id) vs)
  unfolding list_records
  list_records_kept scope limit predicate s h = elim (Bool-cases (leb (pos_part limit) 0)) [
    | inl nothing ↦ rw nothing (refl, ([], refl, tt))
    | inr some_left ↦
        let (vs, found, mine) =
          collect_owned scope.tenant_id (pos_part limit) predicate []
            (newest_first (entries scope.tenant_id s))
            (newest_first-IsOwned scope.tenant_id _ (h scope.tenant_id).mine) tt in
        rw (some_left, found) (refl, (vs, refl, mine))
  ]

  pub require_kept :
      (scope : TenantScope) (key : String) (s : TenantScopedStore V)
      → AllKept s
      → (require scope key s).0 ≡ s
  unfolding require
  require_kept scope key s h =
      let (same, (value, found, mine)) = get_kept scope key s h in
      elim (Option-cases value) [
        | inl e ↦ rw (found, e, require) same
        | inr (v, e) ↦ rw (found, e, require) same
      ]
