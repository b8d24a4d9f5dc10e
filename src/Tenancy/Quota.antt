-- ===== src/Tenancy/Quota.antt =====
-- tenancy/quota.py: `QuotaPolicy`, `_Counters` and the tests on them.
--
-- A clock reading is in whole microseconds. A window is `none` where the code has -1.
pub mod Keys
pub mod Ledger
pub mod Requests
pub mod Headroom
pub mod Retry
pub mod Calls
pub mod Tracked
pub mod Passed
pub mod Admitted
pub mod Examples
use llm_fabric.Prelude.{
  ℕ, ◌+◌, ◌-◌, ◌*◌, ◌/◌, ◌%◌, max, Bool, true, false, not, ◌&&◌, Option, none, some, String,
  nat_beq, leb, if◌then◌else◌,
}
use llm_fabric.Prelude.Float.{Float}
use llm_fabric.Prelude.Int.{ℤ, pos_part}

pub data QuotaLevel : Type 0 where
  tenant user : QuotaLevel

pub record QuotaPolicy (F : Float) : Type 0 where
  pub requests_per_minute : Option ℤ
  pub requests_per_day : Option ℤ
  pub requests_per_month : Option ℤ
  pub tokens_per_day : Option ℤ
  pub cost_per_day_usd : Option F.Carrier
  pub max_concurrency : Option ℤ
  pub project_requests_per_minute : Option ℤ
  pub provider_requests_per_minute : Option ℤ
  pub model_requests_per_minute : Option ℤ

pub record Counters (F : Float) : Type 0 where
  pub minute_window : Option ℕ
  pub day_window : Option ℕ
  pub month_window : Option ℕ
  pub requests_this_minute : ℕ
  pub requests_today : ℕ
  pub requests_this_month : ℕ
  pub tokens_today : ℕ
  pub cost_today_usd : F.Carrier
  pub inflight : ℕ

-- What a `QuotaExceededError` says is exhausted.
pub data Exhausted : Type 0 where
  minute_requests day_requests month_requests day_tokens day_spend concurrency :
      QuotaLevel → Exhausted
  project_requests provider_requests model_requests : Exhausted

-- The error with its `retry_after_s`.
pub data QuotaExceeded : Type 0 where
  quota_exceeded : Exhausted → ℕ → QuotaExceeded

abbrev pub microseconds : ℕ
microseconds = 1000000

abbrev pub minute : ℕ
minute = 60

abbrev pub day : ℕ
day = 86400

abbrev pub month : ℕ
month = 2592000

-- `int(now // seconds)`
unfoldable pub window : ℕ → ℕ → ℕ
window seconds now = now / (seconds * microseconds)

unfoldable pub seconds_until_next : ℕ → ℕ → ℕ
seconds_until_next now seconds =
    max 1 ((seconds * microseconds - now % (seconds * microseconds)) / microseconds)

-- The window that is recorded is another one.
unfoldable pub is_past : Option ℕ → ℕ → Bool
is_past none w = true
is_past (some v) w = not (nat_beq w v)

-- `limit is not None and used >= limit`
unfoldable pub at_ceiling : ℕ → Option ℤ → Bool
at_ceiling used none = false
at_ceiling used (some limit) = leb (pos_part limit) used

abbrev is_none {ℓ} : {A : Type ℓ} → Option A → Bool
is_none none = true
is_none (some a) = false

-- `policy.cost_per_day_usd is not None and counters.cost_today_usd >= policy.cost_per_day_usd`
unfoldable pub at_spend : (F : Float) → F.Carrier → Option F.Carrier → Bool
at_spend F spent none = false
at_spend F spent (some limit) = F.leb limit spent

module _ {F : Float} where
  open F use {of_nat}

  unfoldable pub new_counters : Counters F
  new_counters = record {
    minute_window = none;
    day_window = none;
    month_window = none;
    requests_this_minute = 0;
    requests_today = 0;
    requests_this_month = 0;
    tokens_today = 0;
    cost_today_usd = of_nat 0;
    inflight = 0;
  }

  roll_minute : ℕ → Counters F → Counters F
  unfolding is_past window
  roll_minute now c =
      if is_past c.minute_window (window minute now)
      then record c { minute_window = some (window minute now); requests_this_minute = 0 }
      else c

  roll_day : ℕ → Counters F → Counters F
  unfolding is_past window
  roll_day now c =
      if is_past c.day_window (window day now)
      then record c {
        day_window = some (window day now);
        requests_today = 0;
        tokens_today = 0;
        cost_today_usd = of_nat 0;
      }
      else c

  roll_month : ℕ → Counters F → Counters F
  unfolding is_past window
  roll_month now c =
      if is_past c.month_window (window month now)
      then record c { month_window = some (window month now); requests_this_month = 0 }
      else c

  unfoldable pub roll : ℕ → Counters F → Counters F
  unfolding roll_minute roll_day roll_month
  roll now c = roll_month now (roll_day now (roll_minute now c))

  unfoldable pub is_unlimited : QuotaPolicy F → Bool
  is_unlimited p =
      is_none p.requests_per_minute
      && is_none p.requests_per_day
      && is_none p.requests_per_month
      && is_none p.tokens_per_day
      && is_none p.cost_per_day_usd
      && is_none p.max_concurrency
      && is_none p.project_requests_per_minute
      && is_none p.provider_requests_per_minute
      && is_none p.model_requests_per_minute

  -- The tests in their order, for a policy that is not unlimited.
  unfoldable pub first_exhausted :
      Counters F → QuotaPolicy F → QuotaLevel → ℕ → Option QuotaExceeded
  unfolding at_ceiling at_spend seconds_until_next
  first_exhausted c p level now =
      if at_ceiling c.requests_this_minute p.requests_per_minute
      then some (quota_exceeded (minute_requests level) (seconds_until_next now minute))
      else if at_ceiling c.requests_today p.requests_per_day
      then some (quota_exceeded (day_requests level) (seconds_until_next now day))
      else if at_ceiling c.requests_this_month p.requests_per_month
      then some (quota_exceeded (month_requests level) (seconds_until_next now month))
      else if at_ceiling c.tokens_today p.tokens_per_day
      then some (quota_exceeded (day_tokens level) (seconds_until_next now day))
      else if at_spend F c.cost_today_usd p.cost_per_day_usd
      then some (quota_exceeded (day_spend level) (seconds_until_next now day))
      else none

  -- `_assert_request_headroom`: the error that it raises.
  unfoldable pub assert_request_headroom :
      Counters F → QuotaPolicy F → QuotaLevel → ℕ → Option QuotaExceeded
  unfolding is_unlimited first_exhausted
  assert_request_headroom c p level now =
      if is_unlimited p then none else first_exhausted c p level now
