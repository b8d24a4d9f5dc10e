-- ===== src/Tenancy/Quota/Tracked.antt =====
-- The ledger tracks a bounded number of subjects, whatever requests it has had.
use llm_fabric.Prelude.{
  ℕ, ◌≤◌, ◌<◌, ◌≡◌, Every, Every-map, Every-append, ltb, true, false, Bool, if◌then◌else◌, ◌||◌,
  Option, none, some, List, [], ◌∷◌, String, or_else, length, arith, Bool-cases, Option-cases, inl,
  inr,
}
use llm_fabric.Prelude.Float.{Float}
use llm_fabric.Prelude.Dict
use llm_fabric.Prelude.Dict.{Dict}
use llm_fabric.Prelude.Dict.Distinct.{Every-put}
use llm_fabric.Prelude.Int.{ℤ, is_negative, pos_part}
use llm_fabric.Tenancy.Scope.{TenantScope, given, user_key}
use llm_fabric.Tenancy.Quota.{
  tenant, user, QuotaPolicy, Counters, Exhausted, at_ceiling, model_requests, provider_requests,
  project_requests, QuotaExceeded,
}
use llm_fabric.Tenancy.Quota.Keys.{Key, key_eq}
use llm_fabric.Tenancy.Quota.Ledger.{
  QuotaLedger, make_ledger, set_tenant_policy, set_user_policy, tenant_policy, user_policy, object,
  update, trim, find_or_add, counters_for,
}
use llm_fabric.Tenancy.Quota.Requests.{
  prefixed, project_subject, unless_refused, consume, admit_request, admit_model, admit_provider,
  admit_subjects, admit, acquire_concurrency, release_concurrency, record_usage, use_up, snapshot,
}
use llm_fabric.Tenancy.Quota.Calls.{
  Request, asked, acquired, released, used, looked, tenant_set, user_set, step, run,
}

length-trim-le : (limit : ℕ) (d : Dict Key ℕ) → length (trim limit d) ≤ limit
unfolding trim
length-trim-le limit [] = omega arith
length-trim-le limit (x ∷ xs) = ground (arith, length-trim-le limit xs)

Every-trim :
    (P : Key × ℕ → Type 0) (limit : ℕ) (d : Dict Key ℕ) → Every P d → Every P (trim limit d)
unfolding trim
Every-trim P limit [] h = tt
Every-trim P limit (x ∷ xs) h = elim (Bool-cases (ltb limit (length (x ∷ xs)))) [
  | inl long ↦ rw long (Every-trim P limit xs h.1)
  | inr short ↦ rw short h
]

Every-move_to_end :
    (P : Key × ℕ → Type 0) (key : Key) (d : Dict Key ℕ)
    → Every P d
    → Every P (Dict.move_to_end key d)
unfolding Dict.move_to_end
Every-move_to_end P key d h = elim (Option-cases (Dict.get key d)) [
  | inl e ↦ rw (e, Dict.move_to_end) h
  | inr (r, e) ↦
      rw (e, Dict.move_to_end)
        (Every-append P (Dict.remove key d) (key, r) (Dict.Every-remove P key d h)
          (Dict.Every-get P key r d e h))
]

module _ {F : Float} (n : ℕ) where
  open F use {Carrier}

  -- The ledger is within its bound, and what it tracks leads to objects that it has made.
  abbrev pub IsTracked : QuotaLedger F → Type 0
  IsTracked l =
      (length l.counters ≤ n)
      × (l.max_tracked ≡ n)
      × Every (λ entry. entry.1 < l.next_object) l.counters

  find_or_add-IsTracked :
      (key : Key) (l : QuotaLedger F) → IsTracked l → IsTracked (find_or_add key l).0
  unfolding find_or_add
  find_or_add-IsTracked key l h = elim (Option-cases (Dict.get key l.counters)) [
    | inl e ↦
        rw (e, find_or_add)
          (
            omega (arith, h, length-trim-le l.max_tracked (Dict.put key l.next_object l.counters)),
            h.1,
            Every-trim _ l.max_tracked _ (
                Every-put _ key l.next_object l.counters (omega arith)
                  (Every-map (λ entry k. omega (arith, k)) l.counters h.2)),
          )
    | inr (r, e) ↦ rw (e, find_or_add) h
  ]

  counters_for-IsTracked :
      (key : Key) (now : ℕ) (l : QuotaLedger F) → IsTracked l → IsTracked (counters_for key now l).0
  unfolding counters_for update
  counters_for-IsTracked key now l h =
      let found = find_or_add-IsTracked key l h in
      (
        omega (arith, found, Dict.length-move_to_end-le key (find_or_add key l).0.counters),
        found.1,
        Every-move_to_end _ key (find_or_add key l).0.counters found.2,
      )

  update-IsTracked :
      (r : ℕ) (f : Counters F → Counters F) (l : QuotaLedger F)
      → IsTracked l
      → IsTracked (update r f l)
  unfolding update
  update-IsTracked r f l h = h

  -- The ledger after the counters of the tenant and of the user have been found.
  both-IsTracked :
      (scope : TenantScope) (now : ℕ) (l : QuotaLedger F)
      → IsTracked l
      → IsTracked
          (counters_for
            (user, user_key scope)
            now
            (counters_for (tenant, scope.tenant_id) now l).0).0
  both-IsTracked scope now l h =
      counters_for-IsTracked (user, user_key scope) now _
        (counters_for-IsTracked (tenant, scope.tenant_id) now l h)

  either-IsTracked :
      (b : Bool) (x y : QuotaLedger F × Option QuotaExceeded)
      → IsTracked x.0
      → IsTracked y.0
      → IsTracked (if b then x else y).0
  either-IsTracked true x y h k = h
  either-IsTracked false x y h k = k

  consume-IsTracked :
      (ceiling : Option ℤ) (subject : Option String) (why : Exhausted) (now : ℕ) (l : QuotaLedger F)
      → IsTracked l
      → IsTracked (consume ceiling subject why now l).0
  unfolding consume update
  consume-IsTracked none subject why now l h = h
  consume-IsTracked (some limit) none why now l h = h
  consume-IsTracked (some limit) (some subject) why now l h =
      let found = counters_for-IsTracked (user, subject) now l h in
      either-IsTracked _ _ _ found found

  unless_refused-IsTracked :
      (r : QuotaLedger F × Option QuotaExceeded)
      (next : QuotaLedger F → QuotaLedger F × Option QuotaExceeded)
      → IsTracked r.0
      → ((l : QuotaLedger F) → IsTracked l → IsTracked (next l).0)
      → IsTracked (unless_refused r next).0
  unfolding unless_refused
  unless_refused-IsTracked (l, some e) next h k = h
  unless_refused-IsTracked (l, none) next h k = k l h

  module _ (policy : QuotaPolicy F) (now t u : ℕ) where
    admit_request-IsTracked : (l : QuotaLedger F) → IsTracked l → IsTracked (admit_request t u l).0
    unfolding admit_request update
    admit_request-IsTracked l h = h

    admit_model-IsTracked :
        (model : Option String) (l : QuotaLedger F)
        → IsTracked l
        → IsTracked (admit_model model policy now t u l).0
    unfolding admit_model
    admit_model-IsTracked model l h =
        unless_refused-IsTracked
          (consume policy.model_requests_per_minute (prefixed "model:" (given model)) model_requests
            now l)
          (admit_request t u) (consume-IsTracked _ (prefixed "model:" (given model)) _ now l h)
          admit_request-IsTracked

    admit_provider-IsTracked :
        (provider model : Option String) (l : QuotaLedger F)
        → IsTracked l
        → IsTracked (admit_provider provider model policy now t u l).0
    unfolding admit_provider
    admit_provider-IsTracked provider model l h =
        unless_refused-IsTracked
          (consume policy.provider_requests_per_minute (prefixed "provider:" (given provider))
            provider_requests now l)
          (admit_model model policy now t u)
          (consume-IsTracked _ (prefixed "provider:" (given provider)) _ now l h)
          (admit_model-IsTracked model)

    admit_subjects-IsTracked :
        (scope : TenantScope) (provider model : Option String) (l : QuotaLedger F)
        → IsTracked l
        → IsTracked (admit_subjects scope provider model policy now t u l).0
    unfolding admit_subjects
    admit_subjects-IsTracked scope provider model l h =
        unless_refused-IsTracked
          (consume policy.project_requests_per_minute (project_subject scope) project_requests now
            l)
          (admit_provider provider model policy now t u)
          (consume-IsTracked _ (project_subject scope) _ now l h)
          (admit_provider-IsTracked provider model)

  admit-IsTracked :
      (scope : TenantScope) (provider model : Option String) (now : ℕ) (l : QuotaLedger F)
      → IsTracked l
      → IsTracked (admit scope provider model now l).0
  unfolding admit
  admit-IsTracked scope provider model now l h =
      let (l1, t) = counters_for (tenant, scope.tenant_id) now l in
      let (l2, u) = counters_for (user, user_key scope) now l1 in
      let policy = tenant_policy scope.tenant_id l2 in
      let both = both-IsTracked scope now l h in
      ground (arith, both, admit_subjects-IsTracked policy now t u scope provider model l2 both)

  record_usage-IsTracked :
      (scope : TenantScope) (tokens : ℤ) (cost_usd : Carrier) (now : ℕ) (l : QuotaLedger F)
      → IsTracked l
      → IsTracked (or_else (record_usage scope tokens cost_usd now l) l)
  unfolding record_usage update
  record_usage-IsTracked scope tokens cost_usd now l h =
      let (l1, t) = counters_for (tenant, scope.tenant_id) now l in
      elim (Bool-cases (is_negative tokens || F.ltb cost_usd (F.of_nat 0))) [
        | inl refused ↦ rw (refused, record_usage) h
        | inr fine ↦
            rw (fine, record_usage)
              (counters_for-IsTracked (user, user_key scope) now
                (update t (use_up tokens cost_usd) l1)
                (counters_for-IsTracked (tenant, scope.tenant_id) now l h))
      ]

  acquire_concurrency-IsTracked :
      (scope : TenantScope) (now : ℕ) (l : QuotaLedger F)
      → IsTracked l
      → IsTracked (acquire_concurrency scope now l).0
  unfolding acquire_concurrency update
  acquire_concurrency-IsTracked scope now l h =
      let (l1, t) = counters_for (tenant, scope.tenant_id) now l in
      let (l2, u) = counters_for (user, user_key scope) now l1 in
      let both = both-IsTracked scope now l h in
      let of_tenant =
        at_ceiling (object t l2).inflight (tenant_policy scope.tenant_id l).max_concurrency in
      let of_user =
        at_ceiling (object u l2).inflight (user_policy (user_key scope) l).max_concurrency in
      elim (Bool-cases of_tenant) [
        | inl full ↦ rw full both
        | inr free ↦ elim (Bool-cases of_user) [
          | inl full ↦ rw (free, full) both
          | inr room ↦ rw (free, room) both
        ]
      ]

  step-IsTracked : (l : QuotaLedger F) (r : Request F) → IsTracked l → IsTracked (step l r)
  unfolding step release_concurrency record_usage snapshot set_tenant_policy set_user_policy update
  step-IsTracked l (asked scope provider model now) h = admit-IsTracked scope provider model now l h
  step-IsTracked l (acquired scope now) h = acquire_concurrency-IsTracked scope now l h
  step-IsTracked l (released scope now) h = both-IsTracked scope now l h
  step-IsTracked l (used scope tokens cost_usd now) h =
      record_usage-IsTracked scope tokens cost_usd now l h
  step-IsTracked l (looked scope level now) h = counters_for-IsTracked _ now l h
  step-IsTracked l (tenant_set id p) h = h
  step-IsTracked l (user_set key p) h = h

  pub run-IsTracked :
      (l : QuotaLedger F) (rs : List (Request F)) → IsTracked l → IsTracked (run l rs)
  unfolding run
  run-IsTracked l [] h = h
  run-IsTracked l (r ∷ rs) h = run-IsTracked (step l r) rs (step-IsTracked l r h)

module _ {F : Float} where
  pub make_ledger-IsTracked :
      (tenant_default user_default : QuotaPolicy F) (tenants users : Dict String (QuotaPolicy F))
      (max_tracked : ℤ) (l : QuotaLedger F)
      → make_ledger tenant_default user_default tenants users max_tracked ≡ some l
      → IsTracked (pos_part max_tracked) l
  unfolding make_ledger
  make_ledger-IsTracked tenant_default user_default tenants users max_tracked l h = ground arith

  -- A new ledger, whatever calls it has had, tracks at most as many subjects as it was made for.
  pub tracked_bounded :
      (tenant_default user_default : QuotaPolicy F) (tenants users : Dict String (QuotaPolicy F))
      (max_tracked : ℤ) (l : QuotaLedger F) (rs : List (Request F))
      → make_ledger tenant_default user_default tenants users max_tracked ≡ some l
      → length (run l rs).counters ≤ pos_part max_tracked
  tracked_bounded tenant_default user_default tenants users max_tracked l rs h =
      (run-IsTracked (pos_part max_tracked) l rs
        (make_ledger-IsTracked tenant_default user_default tenants users max_tracked l h)).0
