-- ===== src/Tenancy/Quota/Retry.antt =====
-- How long a refused caller is told to wait.
use llm_fabric.Prelude.{ℕ, ◌+◌, ◌-◌, ◌*◌, ◌%◌, ◌≤◌, ◌<◌, ◌≡◌, ◌⊎◌, arith}
use llm_fabric.Tenancy.Quota.{microseconds, seconds_until_next}

-- The time from `now` to the end of its window, in microseconds.
abbrev pub left_in_window : ℕ → ℕ → ℕ
left_in_window now seconds = seconds * microseconds - now % (seconds * microseconds)

-- A wait is at least one second and at most the whole window; the window ends less than one second
-- after the wait is over, and the wait is over within the window unless it is the one second that
-- is the least.
pub seconds_until_next_bounds :
    (now seconds : ℕ)
    → 1 ≤ seconds
    → let wait = seconds_until_next now seconds in
      (1 ≤ wait)
      × (wait ≤ seconds)
      × (left_in_window now seconds < (wait + 1) * microseconds)
      × ((wait * microseconds ≤ left_in_window now seconds) ⊎ (wait ≡ 1))
unfolding seconds_until_next
seconds_until_next_bounds now seconds h = ground arith
