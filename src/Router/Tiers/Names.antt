-- ===== src/Router/Tiers/Names.antt =====
-- The public names of the tiers, and what the order of the bands is worth.
use llm_fabric.Prelude.{
  ℕ, ◌+◌, ◌/◌, ◌%◌, ◌<◌, ◌≡◌, some, List, [], ◌∷◌, ltb, if◌then◌else◌, arith, Bool-cases, inl, inr,
}
use llm_fabric.Router.Tiers.{
  ServiceTier, tier_count, parse_service_tier_codes, strip, drop_blanks, all_digits, is_digit,
  number, from_ordinal,
}

-- The decimal digits of a number below 100.
abbrev pub decimal : ℕ → List ℕ
decimal n = if ltb n 10 then (n + 48) ∷ [] else (n / 10 + 48) ∷ (n % 10 + 48) ∷ []

-- `f"L{index}"`
abbrev pub tier_name : ServiceTier → List ℕ
tier_name t = 76 ∷ decimal t

-- Every tier is read back from its name.
pub parse_tier_name :
    (t : ServiceTier) → t < tier_count → parse_service_tier_codes (tier_name t) ≡ some t
unfolding parse_service_tier_codes strip drop_blanks all_digits is_digit number from_ordinal
parse_tier_name t h = elim (Bool-cases (ltb t 10)) [
  | inl one ↦ rw one (ground arith)
  | inr two ↦ rw two (ground arith)
]
