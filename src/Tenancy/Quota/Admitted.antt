-- ===== src/Tenancy/Quota/Admitted.antt =====
-- tenancy/quota.py: what it takes for a request to be admitted.
use llm_fabric.Prelude.{
  ℕ, ◌<◌, ◌≡◌, ◌↔◌, true, refl, sym, ap, ◌∙◌, Option, none, some, List, String, nat_eq, nat_beq,
  arith, if◌then◌else◌, ◌==◌, eq_of_beq, Option-cases, Bool-cases, inl, inr,
}
use mathlib.Core.Path.{subst}
use llm_fabric.Prelude.Float.{Float}
use llm_fabric.Prelude.Dict
use llm_fabric.Prelude.Dict.{Dict}
use llm_fabric.Prelude.Int.{ℤ, pos_part}
use llm_fabric.Tenancy.Scope.{TenantScope, user_key}
use llm_fabric.Tenancy.Quota.{
  tenant, user, QuotaPolicy, Counters, new_counters, window, minute, day, month, roll, is_past,
}
use llm_fabric.Tenancy.Quota.Keys.{Key, key_eq}
use llm_fabric.Tenancy.Quota.Ledger.{
  QuotaLedger, make_ledger, tenant_policy, user_policy, object, update, find_or_add, counters_for,
}
use llm_fabric.Tenancy.Quota.Requests.{admit}
use llm_fabric.Tenancy.Quota.Headroom.{HasRoom}
use llm_fabric.Tenancy.Quota.Passed.{gets_past, gets_past-admit}
use llm_fabric.Tenancy.Quota.Calls.{Request, run}
use llm_fabric.Tenancy.Quota.Tracked.{IsTracked, run-IsTracked, make_ledger-IsTracked}

-- An amount counts in the window that it was recorded in, and starts again in any other.
abbrev pub counted {ℓ} : {A : Type ℓ} → Option ℕ → ℕ → A → A → A
counted none w amount start = start
counted (some v) w amount start = if nat_beq v w then amount else start

module _ {F : Float} where
  -- What the counters say of the windows that a time stands in.
  abbrev pub current : ℕ → Counters F → Counters F
  current now c = record c {
    minute_window = some (window minute now);
    day_window = some (window day now);
    month_window = some (window month now);
    requests_this_minute = counted c.minute_window (window minute now) c.requests_this_minute 0;
    requests_today = counted c.day_window (window day now) c.requests_today 0;
    requests_this_month = counted c.month_window (window month now) c.requests_this_month 0;
    tokens_today = counted c.day_window (window day now) c.tokens_today 0;
    cost_today_usd = counted c.day_window (window day now) c.cost_today_usd (F.of_nat 0);
  }

  -- The counters that the ledger keeps for a subject, new ones where it keeps none.
  unfoldable pub stored : Key → QuotaLedger F → Counters F
  stored key l = elim (Dict.get key l.counters) [ none ↦ new_counters | some r ↦ object r l ]

  roll-current : (now : ℕ) (c : Counters F) → roll now c ≡ current now c
  unfolding roll is_past
  roll-current now c = ground arith

  roll-roll : (now : ℕ) (c : Counters F) → roll now (roll now c) ≡ roll now c
  unfolding roll is_past
  roll-roll now c = ground arith

  object-update :
      (r j : ℕ) (f : Counters F → Counters F) (l : QuotaLedger F)
      → object j (update r f l) ≡ (if j == r then f (object r l) else object j l)
  unfolding object update
  object-update r j f l = ground (arith, Dict.get-put j r (f (object r l)) l.objects)

  object-find_or_add :
      (key : Key) (l : QuotaLedger F)
      → object (find_or_add key l).1 (find_or_add key l).0 ≡ stored key l
  unfolding find_or_add stored object
  object-find_or_add key l = elim (Option-cases (Dict.get key l.counters)) [
    | inl e ↦
        rw (e, find_or_add, stored)
          (rw (Dict.get-put_self l.next_object new_counters l.objects) refl)
    | inr (r, e) ↦ rw (e, find_or_add, stored) refl
  ]

  object-find_or_add_kept :
      (key : Key) (l : QuotaLedger F) (j : ℕ)
      → j < l.next_object
      → object j (find_or_add key l).0 ≡ object j l
  unfolding find_or_add object
  object-find_or_add_kept key l j h = elim (Option-cases (Dict.get key l.counters)) [
    | inl e ↦
        rw (e, find_or_add) (ground (arith, Dict.get-put j l.next_object new_counters l.objects))
    | inr (r, e) ↦ rw (e, find_or_add) refl
  ]

  find_or_add-lt :
      (n : ℕ) (key : Key) (l : QuotaLedger F)
      → IsTracked n l
      → (find_or_add key l).1 < (find_or_add key l).0.next_object
  unfolding find_or_add
  find_or_add-lt n key l h = elim (Option-cases (Dict.get key l.counters)) [
    | inl e ↦ rw (e, find_or_add) (omega arith)
    | inr (r, e) ↦ rw (e, find_or_add) (Dict.Every-get _ key r l.counters e h.2)
  ]

  find_or_add-policies :
      (key : Key) (l : QuotaLedger F) (id : String)
      → (tenant_policy id (find_or_add key l).0 ≡ tenant_policy id l)
        × (user_policy id (find_or_add key l).0 ≡ user_policy id l)
  unfolding find_or_add tenant_policy user_policy
  find_or_add-policies key l id = elim (Option-cases (Dict.get key l.counters)) [
    | inl e ↦ rw (e, find_or_add) (refl, refl)
    | inr (r, e) ↦ rw (e, find_or_add) (refl, refl)
  ]

  -- The counters that `_counters_for` answers with.
  object-counters_for :
      (key : Key) (now : ℕ) (l : QuotaLedger F)
      → object (counters_for key now l).1 (counters_for key now l).0 ≡ roll now (stored key l)
  unfolding counters_for object update
  object-counters_for key now l =
      let (l', r) = find_or_add key l in
      rw (Dict.get-put_self r (roll now (object r l')) l'.objects)
        (ap (roll now) (object-find_or_add key l))

  object-update_rolled :
      (r j now : ℕ) (l : QuotaLedger F) (c : Counters F)
      → object j l ≡ roll now c
      → object j (update r (roll now) l) ≡ roll now c
  object-update_rolled r j now l c e = elim (Bool-cases (j == r)) [
    | inl it ↦
        object-update r j (roll now) l
        ∙ rw it (
            ap (λ k. roll now (object k l)) (sym (eq_of_beq j r it))
            ∙ ap (roll now) e
            ∙ roll-roll now c)
    | inr other ↦ object-update r j (roll now) l ∙ rw other e
  ]

  -- Counters that have been rolled stay as they are.
  object-counters_for_kept :
      (key : Key) (now : ℕ) (l : QuotaLedger F) (j : ℕ) (c : Counters F)
      → j < l.next_object
      → object j l ≡ roll now c
      → object j (counters_for key now l).0 ≡ roll now c
  unfolding counters_for
  object-counters_for_kept key now l j c h e =
      let (l', r) = find_or_add key l in
      object-update_rolled r j now (record l' { counters = Dict.move_to_end key l'.counters }) c
        (unfold object in (object-find_or_add_kept key l j h ∙ e))

  counters_for-lt :
      (n : ℕ) (key : Key) (now : ℕ) (l : QuotaLedger F)
      → IsTracked n l
      → (counters_for key now l).1 < (counters_for key now l).0.next_object
  unfolding counters_for update
  counters_for-lt n key now l h = find_or_add-lt n key l h

  counters_for-policies :
      (key : Key) (now : ℕ) (l : QuotaLedger F) (id : String)
      → (tenant_policy id (counters_for key now l).0 ≡ tenant_policy id l)
        × (user_policy id (counters_for key now l).0 ≡ user_policy id l)
  unfolding counters_for update tenant_policy user_policy
  counters_for-policies key now l id =
      unfold tenant_policy user_policy in find_or_add-policies key l id

  -- Whatever calls a ledger has had since it was made, `admit` refuses a request for the quota of its
  -- tenant or user exactly if one of the two has no room; else it admits the request or refuses it for
  -- its project, provider or model. A subject has room if what is recorded of the windows that the
  -- time of the request stands in is below each ceiling of its policy; what is recorded of other
  -- windows does not count, and a subject that the ledger does not track counts from 0. The counters
  -- of the user are those that the look-up of the tenant's leaves.
  pub admit_room :
      (tenant_default user_default : QuotaPolicy F) (tenants users : Dict String (QuotaPolicy F))
      (max_tracked : ℤ) (made : QuotaLedger F) (rs : List (Request F)) (scope : TenantScope)
      (provider model : Option String) (now : ℕ)
      → make_ledger tenant_default user_default tenants users max_tracked ≡ some made
      → let l = run made rs in
        let l' = (counters_for (tenant, scope.tenant_id) now l).0 in
        (gets_past (admit scope provider model now l).1 ≡ true) ↔ (
          HasRoom
            (current now (stored (tenant, scope.tenant_id) l))
            (tenant_policy scope.tenant_id l)
          × HasRoom
              (current now (stored (user, user_key scope) l'))
              (user_policy (user_key scope) l))
  admit_room tenant_default user_default tenants users max_tracked made rs scope provider model now
        h =
      let l = run made rs in
      let sound =
        run-IsTracked (pos_part max_tracked) made rs
          (make_ledger-IsTracked tenant_default user_default tenants users max_tracked made h) in
      let tenant_key : Key = (tenant, scope.tenant_id) in
      let user_subject : Key = (user, user_key scope) in
      let (l1, t) = counters_for tenant_key now l in
      let (l2, u) = counters_for user_subject now l1 in
      let of_tenant =
        object-counters_for_kept user_subject now l1 t (stored tenant_key l)
          (counters_for-lt (pos_part max_tracked) tenant_key now l sound)
          (object-counters_for tenant_key now l)
        ∙ roll-current now (stored tenant_key l) in
      let of_user =
        object-counters_for user_subject now l1 ∙ roll-current now (stored user_subject l1) in
      let tenant_limits =
        (counters_for-policies user_subject now l1 scope.tenant_id).0
        ∙ (counters_for-policies tenant_key now l scope.tenant_id).0 in
      let user_limits =
        (counters_for-policies user_subject now l1 (user_key scope)).1
        ∙ (counters_for-policies tenant_key now l (user_key scope)).1 in
      subst (λ rooms. (gets_past (admit scope provider model now l).1 ≡ true) ↔ rooms)
        (λ i. HasRoom (of_tenant i) (tenant_limits i) × HasRoom (of_user i) (user_limits i))
        (gets_past-admit scope provider model now l)
