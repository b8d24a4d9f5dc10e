-- ===== src/Tenancy/Quota/Passed.antt =====
-- tenancy/quota.py: which requests get past the two headroom tests of `admit`.
use llm_fabric.Prelude.{
  ℕ, ◌≡◌, ◌↔◌, refl, Option, none, some, String, arith, Option-cases, Bool, true, false, Bool-cases,
  inl, inr,
}
use mathlib.Core.Path.{subst}
use llm_fabric.Prelude.Float.{Float}
use llm_fabric.Prelude.Int.{ℤ}
use llm_fabric.Tenancy.Scope.{TenantScope, given, user_key}
use llm_fabric.Tenancy.Quota.{
  QuotaLevel, tenant, user, QuotaPolicy, Counters, Exhausted, project_requests, provider_requests,
  model_requests, QuotaExceeded, quota_exceeded, first_exhausted, at_ceiling,
  assert_request_headroom,
}
use llm_fabric.Tenancy.Quota.Ledger.{QuotaLedger, tenant_policy, user_policy, object, counters_for}
use llm_fabric.Tenancy.Quota.Requests.{
  prefixed, project_subject, unless_refused, consume, admit_request, admit_model, admit_provider,
  admit_subjects, admit,
}
use llm_fabric.Tenancy.Quota.Headroom.{HasRoom, headroom_iff}

-- What is exhausted is the quota of a project, a provider or a model.
abbrev is_of_subject : Exhausted → Bool
is_of_subject project_requests = true
is_of_subject provider_requests = true
is_of_subject model_requests = true
is_of_subject _ = false

-- The outcome of a request that neither the tenant's nor the user's quota refuses: it is admitted, or
-- refused for its project, provider or model.
abbrev pub gets_past : Option QuotaExceeded → Bool
gets_past none = true
gets_past (some (quota_exceeded why wait)) = is_of_subject why

abbrev IsPassed : Option QuotaExceeded → Type 0
IsPassed outcome = gets_past outcome ≡ true

module _ {F : Float} where
  unpassed :
      (c : Counters F) (p : QuotaPolicy F) (level : QuotaLevel) (now : ℕ) (e : QuotaExceeded)
      → assert_request_headroom c p level now ≡ some e
      → IsPassed (some e)
      → ⊥
  unfolding assert_request_headroom first_exhausted
  unpassed c p level now (quota_exceeded why wait) h passed = ground arith

  consume-IsPassed :
      (ceiling : Option ℤ) (subject : Option String) (why : Exhausted) (now : ℕ) (l : QuotaLedger F)
      → is_of_subject why ≡ true
      → IsPassed (consume ceiling subject why now l).1
  unfolding consume
  consume-IsPassed none subject why now l h = refl
  consume-IsPassed (some limit) none why now l h = refl
  consume-IsPassed (some limit) (some subject) why now l h =
      let (l', r) = counters_for (user, subject) now l in
      elim (Bool-cases (at_ceiling (object r l').requests_this_minute (some limit))) [
        | inl full ↦ rw full h
        | inr free ↦ rw free refl
      ]

  unless_refused-IsPassed :
      (r : QuotaLedger F × Option QuotaExceeded)
      (next : QuotaLedger F → QuotaLedger F × Option QuotaExceeded)
      → IsPassed r.1
      → ((l : QuotaLedger F) → IsPassed (next l).1)
      → IsPassed (unless_refused r next).1
  unfolding unless_refused
  unless_refused-IsPassed (l, some e) next h k = h
  unless_refused-IsPassed (l, none) next h k = k l

  module _ (policy : QuotaPolicy F) (now t u : ℕ) where
    admit_request-IsPassed : (l : QuotaLedger F) → IsPassed (admit_request t u l).1
    unfolding admit_request
    admit_request-IsPassed l = refl

    admit_model-IsPassed :
        (model : Option String) (l : QuotaLedger F)
        → IsPassed (admit_model model policy now t u l).1
    unfolding admit_model
    admit_model-IsPassed model l =
        unless_refused-IsPassed
          (consume policy.model_requests_per_minute (prefixed "model:" (given model)) model_requests
            now l)
          (admit_request t u)
          (consume-IsPassed _ (prefixed "model:" (given model)) model_requests now l refl)
          admit_request-IsPassed

    admit_provider-IsPassed :
        (provider model : Option String) (l : QuotaLedger F)
        → IsPassed (admit_provider provider model policy now t u l).1
    unfolding admit_provider
    admit_provider-IsPassed provider model l =
        unless_refused-IsPassed
          (consume policy.provider_requests_per_minute (prefixed "provider:" (given provider))
            provider_requests now l)
          (admit_model model policy now t u)
          (consume-IsPassed _ (prefixed "provider:" (given provider)) provider_requests now l refl)
          (admit_model-IsPassed model)

    admit_subjects-IsPassed :
        (scope : TenantScope) (provider model : Option String) (l : QuotaLedger F)
        → IsPassed (admit_subjects scope provider model policy now t u l).1
    unfolding admit_subjects
    admit_subjects-IsPassed scope provider model l =
        unless_refused-IsPassed
          (consume policy.project_requests_per_minute (project_subject scope) project_requests now
            l)
          (admit_provider provider model policy now t u)
          (consume-IsPassed _ (project_subject scope) project_requests now l refl)
          (admit_provider-IsPassed provider model)

  module _ (scope : TenantScope) (provider model : Option String) (now : ℕ)
      (l : QuotaLedger F) where
    -- The counters of the tenant and of the user, as the ledger has them once both are found.
    abbrev found : QuotaLedger F × ℕ × ℕ
    found =
        let (l1, t) = counters_for (tenant, scope.tenant_id) now l in
        let (l2, u) = counters_for (user, user_key scope) now l1 in (l2, t, u)

    abbrev of_tenant : Option QuotaExceeded
    of_tenant =
        assert_request_headroom (object found.1 found.0) (tenant_policy scope.tenant_id found.0)
          tenant now

    abbrev of_user : Option QuotaExceeded
    of_user =
        assert_request_headroom (object found.2 found.0) (user_policy (user_key scope) found.0) user
          now

    abbrev Rooms : Type 0
    Rooms =
        HasRoom (object found.1 found.0) (tenant_policy scope.tenant_id found.0)
        × HasRoom (object found.2 found.0) (user_policy (user_key scope) found.0)

    refused_tenant :
        (e : QuotaExceeded) → of_tenant ≡ some e → (admit scope provider model now l).1 ≡ some e
    unfolding admit
    refused_tenant e h = rw (h, admit) refl

    refused_user :
        (e : QuotaExceeded)
        → of_tenant ≡ none
        → of_user ≡ some e
        → (admit scope provider model now l).1 ≡ some e
    unfolding admit
    refused_user e h k = rw (h, k, admit) refl

    refused_none : of_tenant ≡ none → of_user ≡ none → IsPassed (admit scope provider model now l).1
    unfolding admit
    refused_none h k =
        rw (h, k, admit)
          (admit_subjects-IsPassed (tenant_policy scope.tenant_id found.0) now found.1 found.2 scope
            provider model found.0)

    pub gets_past-admit : IsPassed (admit scope provider model now l).1 ↔ Rooms
    gets_past-admit = elim (Option-cases of_tenant) [
      | inr (e, h) ↦ (
        λ passed. absurd (unpassed _ _ tenant now e h (subst IsPassed (refused_tenant e h) passed)),
        λ rooms. cc ((headroom_iff _ _ tenant now).1 rooms.0),
      )
      | inl h ↦ elim (Option-cases of_user) [
        | inr (e, k) ↦ (
          λ passed. absurd (unpassed _ _ user now e k (subst IsPassed (refused_user e h k) passed)),
          λ rooms. cc ((headroom_iff _ _ user now).1 rooms.1),
        )
        | inl k ↦ (
          λ passed. ((headroom_iff _ _ tenant now).0 h, (headroom_iff _ _ user now).0 k),
          λ rooms. refused_none h k,
        )
      ]
    ]
