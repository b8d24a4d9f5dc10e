-- ===== src/Tenancy/Quota/Headroom.antt =====
-- tenancy/quota.py: when a request has headroom.
use llm_fabric.Prelude.{
  ℕ, ◌<◌, ◌≡◌, ◌↔◌, refl, true, false, Option, none, some, arith, Bool-cases, inl, inr,
}
use llm_fabric.Prelude.Float.{Float}
use llm_fabric.Prelude.Int.{ℤ, pos_part}
use llm_fabric.Tenancy.Quota.{
  QuotaLevel, QuotaPolicy, Counters, at_ceiling, at_spend, is_unlimited, first_exhausted,
  assert_request_headroom,
}

-- Below a ceiling, where there is one. A negative ceiling leaves no room, like 0.
abbrev pub IsBelow : ℕ → Option ℤ → Type 0
IsBelow used ceiling = (limit : ℤ) → ceiling ≡ some limit → used < pos_part limit

pub record HasRoom {F : Float} (c : Counters F) (p : QuotaPolicy F) : Type 0 where
  pub this_minute : IsBelow c.requests_this_minute p.requests_per_minute
  pub today : IsBelow c.requests_today p.requests_per_day
  pub this_month : IsBelow c.requests_this_month p.requests_per_month
  pub tokens : IsBelow c.tokens_today p.tokens_per_day
  pub spend :
      (limit : F.Carrier) → p.cost_per_day_usd ≡ some limit → F.leb limit c.cost_today_usd ≡ false

IsBelow-of_ceiling :
    (used : ℕ) (ceiling : Option ℤ) → at_ceiling used ceiling ≡ false → IsBelow used ceiling
unfolding at_ceiling
IsBelow-of_ceiling used none h limit e = cc
IsBelow-of_ceiling used (some n) h limit e = ground arith

at_ceiling-IsBelow :
    (used : ℕ) (ceiling : Option ℤ) → IsBelow used ceiling → at_ceiling used ceiling ≡ false
unfolding at_ceiling
at_ceiling-IsBelow used none h = refl
at_ceiling-IsBelow used (some n) h = ground (arith, h n refl)

below_of_spend :
    (F : Float) (spent : F.Carrier) (ceiling : Option F.Carrier)
    → at_spend F spent ceiling ≡ false
    → (limit : F.Carrier) → ceiling ≡ some limit
    → F.leb limit spent ≡ false
unfolding at_spend
below_of_spend F spent none h limit e = cc
below_of_spend F spent (some n) h limit e = ground arith

spend_of_below :
    (F : Float) (spent : F.Carrier) (ceiling : Option F.Carrier)
    → ((limit : F.Carrier) → ceiling ≡ some limit → F.leb limit spent ≡ false)
    → at_spend F spent ceiling ≡ false
unfolding at_spend
spend_of_below F spent none h = refl
spend_of_below F spent (some n) h = h n refl

module _ {F : Float} where
  -- The tests that `first_exhausted` has passed.
  abbrev Passes : Counters F → QuotaPolicy F → Type 0
  Passes c p =
      (at_ceiling c.requests_this_minute p.requests_per_minute ≡ false)
      × (at_ceiling c.requests_today p.requests_per_day ≡ false)
      × (at_ceiling c.requests_this_month p.requests_per_month ≡ false)
      × (at_ceiling c.tokens_today p.tokens_per_day ≡ false)
      × (at_spend F c.cost_today_usd p.cost_per_day_usd ≡ false)

  module _ (c : Counters F) (p : QuotaPolicy F) where
    Passes-of_none :
        (level : QuotaLevel) (now : ℕ) → first_exhausted c p level now ≡ none → Passes c p
    unfolding first_exhausted
    Passes-of_none level now h = ground arith

    none_of_Passes :
        (level : QuotaLevel) (now : ℕ) → Passes c p → first_exhausted c p level now ≡ none
    unfolding first_exhausted
    none_of_Passes level now h = ground arith

    Passes-of_unlimited : is_unlimited p ≡ true → Passes c p
    unfolding is_unlimited at_ceiling at_spend
    Passes-of_unlimited h = ground arith

    HasRoom-of_Passes : Passes c p → HasRoom c p
    HasRoom-of_Passes h = record {
      this_minute = IsBelow-of_ceiling _ _ h.0;
      today = IsBelow-of_ceiling _ _ h.1;
      this_month = IsBelow-of_ceiling _ _ h.2;
      tokens = IsBelow-of_ceiling _ _ h.3;
      spend = below_of_spend F _ _ h.4;
    }

    Passes-of_HasRoom : HasRoom c p → Passes c p
    Passes-of_HasRoom h = (
      at_ceiling-IsBelow _ _ h.this_minute,
      at_ceiling-IsBelow _ _ h.today,
      at_ceiling-IsBelow _ _ h.this_month,
      at_ceiling-IsBelow _ _ h.tokens,
      spend_of_below F _ _ h.spend,
    )

    -- A request has headroom exactly if each of the five numbers is below its ceiling, where the
    -- policy sets one: the requests of the minute, the day and the month, the day's tokens and the
    -- day's cost.
    pub headroom_iff :
        (level : QuotaLevel) (now : ℕ)
        → (assert_request_headroom c p level now ≡ none) ↔ HasRoom c p
    unfolding assert_request_headroom
    headroom_iff level now = elim (Bool-cases (is_unlimited p)) [
      | inl unlimited ↦
          rw unlimited (λ h. HasRoom-of_Passes (Passes-of_unlimited unlimited), λ h. refl)
      | inr limited ↦ rw limited (
        λ h. HasRoom-of_Passes (Passes-of_none level now h),
        λ h. none_of_Passes level now (Passes-of_HasRoom h),
      )
    ]
