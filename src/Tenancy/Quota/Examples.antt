-- ===== src/Tenancy/Quota/Examples.antt =====
-- Tests of the quota ledger with whole numbers as its floats.
use llm_fabric.Prelude.{
  ℕ, ◌+◌, ◌*◌, ◌≤◌, ◌<◌, ◌≡◌, ◌↔◌, ◌⊎◌, refl, true, none, some, [], ◌∷◌, length, arith,
}
use llm_fabric.Prelude.Float.{whole}
use llm_fabric.Prelude.Dict
use llm_fabric.Prelude.Int.{pos, pos_part}
use llm_fabric.Tenancy.Scope.{TenantScope, given, user_key}
use llm_fabric.Tenancy.Quota.{
  tenant, user, QuotaPolicy, microseconds, seconds_until_next, new_counters, roll,
  assert_request_headroom, quota_exceeded, minute_requests, is_past, window,
}
use llm_fabric.Tenancy.Quota.Keys.{same_key}
use llm_fabric.Tenancy.Quota.Ledger.{
  QuotaLedger, make_ledger, tenant_policy, user_policy, trim, counters_for,
}
use llm_fabric.Tenancy.Quota.Requests.{admit}
use llm_fabric.Tenancy.Quota.Retry.{left_in_window, seconds_until_next_bounds}
use llm_fabric.Tenancy.Quota.Headroom.{HasRoom, headroom_iff}
use llm_fabric.Tenancy.Quota.Passed.{gets_past}
use llm_fabric.Tenancy.Quota.Admitted.{current, stored, admit_room}
use llm_fabric.Tenancy.Quota.Calls.{Request, asked, acquired, run, step}
use llm_fabric.Tenancy.Quota.Tracked.{tracked_bounded}

-- Two requests in a minute, and no other ceiling.
abbrev two_per_minute : QuotaPolicy whole
two_per_minute = record {
  requests_per_minute = some (pos 2);
  requests_per_day = none;
  requests_per_month = none;
  tokens_per_day = none;
  cost_per_day_usd = none;
  max_concurrency = none;
  project_requests_per_minute = none;
  provider_requests_per_minute = none;
  model_requests_per_minute = none;
}

abbrev ledger : QuotaLedger whole
ledger = record {
  default_tenant_policy = two_per_minute;
  default_user_policy = two_per_minute;
  tenant_policies = [];
  user_policies = [];
  max_tracked = 10;
  counters = [];
  objects = [];
  next_object = 0;
}

ledger-make_ledger : make_ledger two_per_minute two_per_minute [] [] (pos 10) ≡ some ledger
unfolding make_ledger
ledger-make_ledger = refl

abbrev acme : TenantScope
acme = record { tenant_id = "acme"; user_id = some "ada"; project_id = none }

-- 30 seconds into the first minute.
abbrev now : ℕ
now = 30000000

abbrev ask : Request whole
ask = asked acme (some "openai") none now

second_test : (admit acme none none now (run ledger (ask ∷ []))).1 ≡ none
unfolding run step admit trim same_key window is_past user_key given assert_request_headroom
    Dict.get Dict.move_to_end Dict.put roll new_counters
second_test = refl

-- The third request of a minute is refused for the 30 seconds that are left.
third_test :
    (admit acme none none now (run ledger (ask ∷ ask ∷ []))).1
    ≡ some (quota_exceeded (minute_requests tenant) 30)
unfolding run step admit assert_request_headroom Dict.get Dict.move_to_end Dict.put same_key roll
    new_counters user_key
third_test = refl

seconds_until_next_bounds_example :
    let wait = seconds_until_next now 60 in
    (1 ≤ wait)
    × (wait ≤ 60)
    × (left_in_window now 60 < (wait + 1) * microseconds)
    × ((wait * microseconds ≤ left_in_window now 60) ⊎ (wait ≡ 1))
seconds_until_next_bounds_example = seconds_until_next_bounds now 60 (omega arith)

headroom_iff_example :
    (assert_request_headroom new_counters two_per_minute tenant now ≡ none)
    ↔ HasRoom new_counters two_per_minute
headroom_iff_example = headroom_iff new_counters two_per_minute tenant now

admit_room_example :
    let l = run ledger (ask ∷ []) in
    let l' = (counters_for (tenant, "acme") now l).0 in
    (gets_past (admit acme none none now l).1 ≡ true) ↔ (
      HasRoom (current now (stored (tenant, "acme") l)) (tenant_policy "acme" l)
      × HasRoom (current now (stored (user, user_key acme) l')) (user_policy (user_key acme) l))
admit_room_example =
    admit_room two_per_minute two_per_minute [] [] (pos 10) ledger (ask ∷ []) acme none none now
      ledger-make_ledger

tracked_bounded_example :
    length (run ledger (ask ∷ acquired acme now ∷ [])).counters ≤ pos_part (pos 10)
tracked_bounded_example =
    tracked_bounded two_per_minute two_per_minute [] [] (pos 10) ledger
      (ask ∷ acquired acme now ∷ []) ledger-make_ledger
