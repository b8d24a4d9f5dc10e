-- ===== src/Tenancy/Quota/Requests.antt =====
-- tenancy/quota.py: the methods of `QuotaLedger` that a request calls.
use Prim.Native.String.{◌++◌}
use llm_fabric.Prelude.{
  ℕ, ◌+◌, ◌-◌, ◌||◌, Option, none, some, String, string_eq, nat_eq, if◌then◌else◌,
}
use llm_fabric.Prelude.Float.{Float}
use llm_fabric.Prelude.Int.{ℤ, is_negative, pos_part}
use llm_fabric.Tenancy.Scope.{TenantScope, given, user_key}
use llm_fabric.Tenancy.Quota.{
  QuotaLevel, tenant, user, QuotaPolicy, Counters, Exhausted, concurrency, project_requests,
  provider_requests, model_requests, QuotaExceeded, quota_exceeded, minute, seconds_until_next,
  at_ceiling, assert_request_headroom,
}
use llm_fabric.Tenancy.Quota.Keys.{key_eq}
use llm_fabric.Tenancy.Quota.Ledger.{
  QuotaLedger, tenant_policy, user_policy, object, update, counters_for,
}

pub record QuotaSnapshot (F : Float) : Type 0 where
  pub subject : String
  pub level : QuotaLevel
  pub requests_this_minute : ℕ
  pub requests_today : ℕ
  pub tokens_today : ℕ
  pub cost_today_usd : F.Carrier
  pub policy : QuotaPolicy F

-- A subject that is given, behind its prefix.
abbrev pub prefixed : String → Option String → Option String
prefixed prefix none = none
prefixed prefix (some subject) = some (prefix ++ subject)

abbrev subject_of : QuotaLevel → TenantScope → String
subject_of tenant scope = scope.tenant_id
subject_of user scope = user_key scope

abbrev pub project_subject : TenantScope → Option String
project_subject scope = prefixed ("project:" ++ scope.tenant_id ++ "/") (given scope.project_id)

module _ {F : Float} where
  open F use {Carrier, of_nat, add, ltb as flt}

  -- Go on unless an error has been raised.
  unfoldable pub unless_refused :
      QuotaLedger F × Option QuotaExceeded
      → (QuotaLedger F → QuotaLedger F × Option QuotaExceeded)
      → QuotaLedger F × Option QuotaExceeded
  unless_refused (l, some e) next = (l, some e)
  unless_refused (l, none) next = next l

  abbrev count_minute : Counters F → Counters F
  count_minute c = record c { requests_this_minute = c.requests_this_minute + 1 }

  abbrev count_request : Counters F → Counters F
  count_request c = record c {
    requests_this_minute = c.requests_this_minute + 1;
    requests_today = c.requests_today + 1;
    requests_this_month = c.requests_this_month + 1;
  }

  -- One of the three blocks of `admit` for a project, a provider or a model.
  unfoldable pub consume :
      Option ℤ
      → Option String
      → Exhausted
      → ℕ
      → QuotaLedger F
      → QuotaLedger F × Option QuotaExceeded
  unfolding counters_for at_ceiling update
  consume none subject why now l = (l, none)
  consume (some limit) none why now l = (l, none)
  consume (some limit) (some subject) why now l =
      let (l', r) = counters_for (user, subject) now l in
      if at_ceiling (object r l').requests_this_minute (some limit)
      then (l', some (quota_exceeded why (seconds_until_next now minute)))
      else (update r count_minute l', none)

  -- The last lines of `admit`, with the counters `t` of the tenant and `u` of the user.
  unfoldable pub admit_request : ℕ → ℕ → QuotaLedger F → QuotaLedger F × Option QuotaExceeded
  unfolding update
  admit_request t u l = (update u count_request (update t count_request l), none)

  unfoldable pub admit_model :
      Option String
      → QuotaPolicy F
      → ℕ
      → ℕ
      → ℕ
      → QuotaLedger F
      → QuotaLedger F × Option QuotaExceeded
  unfolding consume unless_refused admit_request
  admit_model model policy now t u l =
      unless_refused
        (consume policy.model_requests_per_minute (prefixed "model:" (given model)) model_requests
          now l)
        (admit_request t u)

  unfoldable pub admit_provider :
      Option String
      → Option String
      → QuotaPolicy F
      → ℕ
      → ℕ
      → ℕ
      → QuotaLedger F
      → QuotaLedger F × Option QuotaExceeded
  unfolding consume unless_refused admit_model
  admit_provider provider model policy now t u l =
      unless_refused
        (consume policy.provider_requests_per_minute (prefixed "provider:" (given provider))
          provider_requests now l)
        (admit_model model policy now t u)

  -- `admit` after the two headroom tests.
  unfoldable pub admit_subjects :
      TenantScope
      → Option String
      → Option String
      → QuotaPolicy F
      → ℕ
      → ℕ
      → ℕ
      → QuotaLedger F
      → QuotaLedger F × Option QuotaExceeded
  unfolding consume unless_refused admit_provider
  admit_subjects scope provider model policy now t u l =
      unless_refused
        (consume policy.project_requests_per_minute (project_subject scope) project_requests now l)
        (admit_provider provider model policy now t u)

  unfoldable pub admit :
      TenantScope
      → Option String
      → Option String
      → ℕ
      → QuotaLedger F
      → QuotaLedger F × Option QuotaExceeded
  unfolding counters_for tenant_policy user_policy admit_subjects
  admit scope provider model now l =
      let (l1, t) = counters_for (tenant, scope.tenant_id) now l in
      let (l2, u) = counters_for (user, user_key scope) now l1 in
      let policy = tenant_policy scope.tenant_id l2 in
      elim (assert_request_headroom (object t l2) policy tenant now) [
        | some e ↦ (l2, some e)
        | none ↦
            elim (assert_request_headroom (object u l2) (user_policy (user_key scope) l2) user
              now) [
                | some e ↦ (l2, some e)
                | none ↦ admit_subjects scope provider model policy now t u l2
              ]
      ]

  abbrev start_one : Counters F → Counters F
  start_one c = record c { inflight = c.inflight + 1 }

  -- `max(0, n - 1)` is the subtraction of the natural numbers.
  abbrev end_one : Counters F → Counters F
  end_one c = record c { inflight = c.inflight - 1 }

  unfoldable pub acquire_concurrency :
      TenantScope → ℕ → QuotaLedger F → QuotaLedger F × Option QuotaExceeded
  unfolding counters_for tenant_policy user_policy at_ceiling update
  acquire_concurrency scope now l =
      let (l1, t) = counters_for (tenant, scope.tenant_id) now l in
      let (l2, u) = counters_for (user, user_key scope) now l1 in
      if at_ceiling (object t l2).inflight (tenant_policy scope.tenant_id l).max_concurrency
      then (l2, some (quota_exceeded (concurrency tenant) 1))
      else if at_ceiling (object u l2).inflight (user_policy (user_key scope) l).max_concurrency
      then (l2, some (quota_exceeded (concurrency user) 1))
      else (update u start_one (update t start_one l2), none)

  unfoldable pub release_concurrency : TenantScope → ℕ → QuotaLedger F → QuotaLedger F
  unfolding counters_for update
  release_concurrency scope now l =
      let (l1, t) = counters_for (tenant, scope.tenant_id) now l in
      let (l2, u) = counters_for (user, user_key scope) now l1 in
      update u end_one (update t end_one l2)

  abbrev pub use_up : ℤ → Carrier → Counters F → Counters F
  use_up tokens cost_usd c = record c {
    tokens_today = c.tokens_today + pos_part tokens;
    cost_today_usd = add c.cost_today_usd cost_usd;
  }

  -- `none` is the `ValueError` for a negative amount.
  unfoldable pub record_usage :
      TenantScope → ℤ → Carrier → ℕ → QuotaLedger F → Option (QuotaLedger F)
  unfolding counters_for update
  record_usage scope tokens cost_usd now l =
      if is_negative tokens || flt cost_usd (of_nat 0)
      then none
      else some (
          let (l1, t) = counters_for (tenant, scope.tenant_id) now l in
          let (l2, u) =
            counters_for (user, user_key scope) now (update t (use_up tokens cost_usd) l1) in
          update u (use_up tokens cost_usd) l2)

  abbrev policy_of : QuotaLevel → String → QuotaLedger F → QuotaPolicy F
  policy_of tenant subject l = tenant_policy subject l
  policy_of user subject l = user_policy subject l

  unfoldable pub snapshot :
      TenantScope → QuotaLevel → ℕ → QuotaLedger F → QuotaLedger F × QuotaSnapshot F
  unfolding counters_for object tenant_policy user_policy
  snapshot scope level now l =
      let subject = subject_of level scope in
      let (l', r) = counters_for (level, subject) now l in
      (
        l',
        record {
          subject = subject;
          level = level;
          requests_this_minute = (object r l').requests_this_minute;
          requests_today = (object r l').requests_today;
          tokens_today = (object r l').tokens_today;
          cost_today_usd = (object r l').cost_today_usd;
          policy = policy_of level subject l;
        },
      )
