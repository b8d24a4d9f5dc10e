-- ===== src/Tenancy/Examples.antt =====
-- Tests of the tenant-scoped store with two tenants and room for two records each.
use llm_fabric.Prelude.{
  ◌+◌, ◌≤◌, ◌≡◌, refl, false, Option, none, some, List, [], ◌∷◌, String, ◌==◌, string_eq, Every,
  arith, ok,
}
use llm_fabric.Prelude.Dict
use llm_fabric.Prelude.Int.{pos, pos_part}
use llm_fabric.Tenancy.Scope.{TenantScope}
use llm_fabric.Tenancy.Store.{
  TenantOwned, TenantScopedStore, make_store, put, delete, get, require, list_records, keys, count,
}
use llm_fabric.Tenancy.Store.Ops.{Op, putting, deleting, clearing, step, run}
use llm_fabric.Tenancy.Store.Ownership.Runs.{reads_owned, count_bounded}
use llm_fabric.Tenancy.Store.Isolation.{others_unseen}
use llm_fabric.Tenancy.Store.RoundTrip.{get-put, get-delete}

-- A note with the tenant that wrote it.
abbrev Note : Type 0
Note = String × String

instance abbrev note_owned : TenantOwned Note
note_owned = record { owner = λ note. note.0 }

abbrev scope : String → TenantScope
scope tenant = record { tenant_id = tenant; user_id = none; project_id = none }

abbrev acme : TenantScope
acme = scope "acme"

abbrev zeta : TenantScope
zeta = scope "zeta"

abbrev empty : TenantScopedStore Note
empty = record { name = "notes"; max_records = 2; violations = []; buckets = [] }

empty-make_store : make_store "notes" (pos 2) ≡ some empty
unfolding make_store
empty-make_store = refl

abbrev calls : List (Op Note)
calls =
    putting acme "a" ("acme", "first")
    ∷ putting zeta "a" ("zeta", "hello")
    ∷ putting acme "b" ("acme", "second")
    ∷ putting acme "c" ("acme", "third")
    ∷ putting acme "d" ("zeta", "stolen")
    ∷ deleting zeta "x"
    ∷ []

keys_test : keys acme (run empty calls) ≡ "b" ∷ "c" ∷ []
unfolding run keys Dict.get step delete put Dict.put Dict.move_to_end
keys_test = refl

reads_owned_example :
    let s = run empty calls in
    (((get acme "b" s).0 ≡ s)
      × ((value : Option Note) × ((get acme "b" s).1 ≡ ok value)
          × ((v : Note) → value ≡ some v → note_owned.owner v ≡ "acme")))
    × (((list_records acme (pos 5) none s).0 ≡ s)
        × ((vs : List Note) × ((list_records acme (pos 5) none s).1 ≡ ok vs)
            × Every (λ v. note_owned.owner v ≡ "acme") vs))
reads_owned_example = reads_owned "notes" (pos 2) empty empty-make_store calls acme "b" (pos 5) none

count_bounded_example : count acme (run empty calls) ≤ pos_part (pos 2)
count_bounded_example = count_bounded "notes" (pos 2) empty empty-make_store calls acme

others_unseen_example :
    let s = run empty calls in
    let s' = run s (putting zeta "b" ("zeta", "x") ∷ clearing zeta ∷ []) in
    ((get acme "b" s').1 ≡ (get acme "b" s).1)
    × ((list_records acme (pos 5) none s').1 ≡ (list_records acme (pos 5) none s).1)
    × (keys acme s' ≡ keys acme s)
    × (count acme s' ≡ count acme s)
others_unseen_example =
    others_unseen acme (run empty calls) (putting zeta "b" ("zeta", "x") ∷ clearing zeta ∷ []) "b"
      (pos 5) none (refl, (refl, tt))

get-put_example :
    let r = put acme "a" ("acme", "first") empty in
    (r.1 ≡ ok ("acme", "first"))
    × ((get acme "a" r.0).1 ≡ ok (some ("acme", "first")))
    × ((require acme "a" r.0).1 ≡ ok ("acme", "first"))
    × ((j : String)
        → (j == "a") ≡ false
        → count acme empty + 1 ≤ empty.max_records
        → (get acme j r.0).1 ≡ (get acme j empty).1)
get-put_example = get-put acme "a" ("acme", "first") empty (omega arith) refl

get-delete_example :
    let s' = (delete acme "b" (run empty calls)).0 in
    ((get acme "b" s').1 ≡ ok none)
    × (◌==◌ {K = String} "c" "b" ≡ false → (get acme "c" s').1 ≡ (get acme "c" (run empty calls)).1)
get-delete_example = get-delete acme "b" "c" (run empty calls)
