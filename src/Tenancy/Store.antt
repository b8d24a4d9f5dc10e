-- ===== src/Tenancy/Store.antt =====
-- tenancy/store.py: `TenantScopedStore`. Each method holds the lock of the store while it reads or
-- writes the buckets, so each is one step.
pub mod Ops
pub mod Buckets
pub mod Ownership
pub mod Isolation
pub mod RoundTrip
use llm_fabric.Prelude.{
  ℕ, Bool, true, false, not, Option, none, some, List, [], ◌∷◌, ◌++◌, map, String, ◌==◌, string_eq,
  if◌then◌else◌, or_else, leb, ltb, length, Result, ok, err,
}
use llm_fabric.Prelude.Dict
use llm_fabric.Prelude.Dict.{Dict}
use llm_fabric.Prelude.Int.{ℤ, pos_part}
use llm_fabric.Errors.{ErrorClass}
use llm_fabric.Tenancy.Scope.{TenantScope}

-- The protocol of the values that are stored: they say which tenant owns them.
pub record TenantOwned (V : Type 0) : Type 0 where
  pub owner : V → String

pub record IsolationViolation : Type 0 where
  pub store : String
  pub requesting_tenant : String
  pub owning_tenant : String
  pub key : String

pub record Entry (V : Type 0) : Type 0 where
  pub tenant_id : String
  pub value : V

-- The `OrderedDict` of one tenant.
abbrev pub Bucket : Type 0 → Type 0
Bucket V = Dict String (Entry V)

-- `violations` is the audit of the store.
pub record TenantScopedStore (V : Type 0) : Type 0 where
  pub name : String
  pub max_records : ℕ
  pub violations : List IsolationViolation
  pub buckets : Dict String (Bucket V)

module _ {V : Type 0} where
  -- `__init__`; `none` is its `ValueError`.
  unfoldable pub make_store : String → ℤ → Option (TenantScopedStore V)
  make_store name max_records =
      if leb (pos_part max_records) 0
      then none
      else some (record {
        name = name;
        max_records = pos_part max_records;
        violations = [];
        buckets = [];
      })

  -- `self._buckets.get(tenant_id)`
  unfoldable pub bucket_of : String → TenantScopedStore V → Option (Bucket V)
  bucket_of tenant s = Dict.get tenant s.buckets

  unfoldable pub flag : String → String → String → TenantScopedStore V → TenantScopedStore V
  flag requesting owning key s = record s {
    violations =
        s.violations
        ++ record {
          store = s.name;
          requesting_tenant = requesting;
          owning_tenant = owning;
          key = key;
        }
          ∷ [];
  }

  -- `while len(bucket) > limit: bucket.popitem(last=False)`
  unfoldable pub evict : ℕ → Bucket V → Bucket V
  evict limit [] = []
  evict limit (x ∷ xs) =
      let rest = evict limit xs in if ltb limit (length (x ∷ xs)) then rest else x ∷ xs

  -- The body of the `with` statement of `put`.
  unfoldable pub insert : ℕ → String → Entry V → Bucket V → Bucket V
  unfolding evict
  insert limit key entry bucket = evict limit (Dict.move_to_end key (Dict.put key entry bucket))

  unfoldable pub delete : TenantScope → String → TenantScopedStore V → TenantScopedStore V × Bool
  unfolding bucket_of
  delete scope key s = elim (bucket_of scope.tenant_id s) [
    | none ↦ (s, false)
    | some bucket ↦ (
      record s { buckets = Dict.put scope.tenant_id (Dict.remove key bucket) s.buckets },
      elim (Dict.get key bucket) [ none ↦ false | some entry ↦ true ],
    )
  ]

  unfoldable pub clear_tenant : TenantScope → TenantScopedStore V → TenantScopedStore V × ℕ
  unfolding bucket_of
  clear_tenant scope s = (
    record s { buckets = Dict.remove scope.tenant_id s.buckets },
    length (or_else (bucket_of scope.tenant_id s) []),
  )

  unfoldable pub keys : TenantScope → TenantScopedStore V → List String
  unfolding bucket_of
  keys scope s = map (λ entry. entry.0) (or_else (bucket_of scope.tenant_id s) [])

  unfoldable pub count : TenantScope → TenantScopedStore V → ℕ
  unfolding bucket_of
  count scope s = length (or_else (bucket_of scope.tenant_id s) [])

  -- `reversed(entries)` of the values of a bucket, the newest first.
  unfoldable pub newest_first : Bucket V → List (Entry V)
  newest_first [] = []
  newest_first ((k, entry) ∷ rest) = newest_first rest ++ entry ∷ []

  -- The loop of `list`; an entry of another tenant ends it with an error and the entry's owner.
  unfoldable pub collect :
      String → ℕ → Option (V → Bool) → List V → List (Entry V) → Result String (List V)
  collect tenant limit predicate results [] = ok results
  collect tenant limit predicate results (e ∷ es) =
      let skipped = collect tenant limit predicate results es in
      let taken = collect tenant limit predicate (results ++ e.value ∷ []) es in
      if not (e.tenant_id == tenant)
      then err e.tenant_id
      else if elim predicate [ none ↦ false | some p ↦ not (p e.value) ]
      then skipped
      else if leb limit (length (results ++ e.value ∷ []))
      then ok (results ++ e.value ∷ [])
      else taken

  unfoldable pub list_records :
      TenantScope
      → ℤ
      → Option (V → Bool)
      → TenantScopedStore V
      → TenantScopedStore V × Result ErrorClass (List V)
  unfolding bucket_of newest_first collect flag
  list_records scope limit predicate s =
      if leb (pos_part limit) 0
      then (s, ok [])
      else elim (collect scope.tenant_id (pos_part limit) predicate []
          (newest_first (or_else (bucket_of scope.tenant_id s) []))) [
            | ok results ↦ (s, ok results)
            | err owning ↦ (flag scope.tenant_id owning "<list>" s, err ErrorClass.tenant_isolation)
          ]

  module _ ⦃owned : TenantOwned V⦄ where
    unfoldable pub put :
        TenantScope → String → V → TenantScopedStore V → TenantScopedStore V × Result ErrorClass V
    unfolding flag insert bucket_of
    put scope key value s =
        if not (owned.owner value == scope.tenant_id)
        then (flag scope.tenant_id (owned.owner value) key s, err ErrorClass.tenant_isolation)
        else (
          record s {
            buckets =
                Dict.put scope.tenant_id
                  (insert s.max_records key (record { tenant_id = scope.tenant_id; value = value })
                    (or_else (bucket_of scope.tenant_id s) []))
                  s.buckets;
          },
          ok value,
        )

    -- The test on the entry that `get` has found.
    unfoldable pub checked :
        String
        → String
        → Option (Entry V)
        → TenantScopedStore V
        → TenantScopedStore V × Result ErrorClass (Option V)
    unfolding flag
    checked tenant key none s = (s, ok none)
    checked tenant key (some e) s =
        if e.tenant_id == tenant
        then (if owned.owner e.value == tenant
            then (s, ok (some e.value))
            else (flag tenant e.tenant_id key s, err ErrorClass.tenant_isolation))
        else (flag tenant e.tenant_id key s, err ErrorClass.tenant_isolation)

    unfoldable pub get :
        TenantScope
        → String
        → TenantScopedStore V
        → TenantScopedStore V × Result ErrorClass (Option V)
    unfolding checked bucket_of
    get scope key s =
        checked scope.tenant_id key (Dict.get key (or_else (bucket_of scope.tenant_id s) [])) s

    unfoldable pub require :
        TenantScope → String → TenantScopedStore V → TenantScopedStore V × Result ErrorClass V
    unfolding get
    require scope key s = elim (get scope key s).1 [
      | err e ↦ ((get scope key s).0, err e)
      | ok none ↦ ((get scope key s).0, err ErrorClass.resource_not_found)
      | ok (some value) ↦ ((get scope key s).0, ok value)
    ]
