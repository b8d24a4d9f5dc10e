-- ===== src/Tenancy/Quota/Keys.antt =====
-- tenancy/quota.py: the keys of the counters, a level with a subject.
use llm_fabric.Prelude.{
  ◌≡◌, ◌↔◌, Bool, true, false, ◌&&◌, String, Eq, ◌==◌, string_eq, eq_of_beq, beq_refl,
}
use llm_fabric.Tenancy.Quota.{QuotaLevel, tenant, user}

abbrev pub Key : Type 0
Key = QuotaLevel × String

same_level : QuotaLevel → QuotaLevel → Bool
same_level tenant tenant = true
same_level user user = true
same_level _ _ = false

unfoldable pub same_key : Key → Key → Bool
unfolding same_level
same_key a b = same_level a.0 b.0 && a.1 == b.1

same_key_sound : (a b : Key) → same_key a b ≡ true → a ≡ b
unfolding same_key
same_key_sound (tenant, s) (tenant, t) h = cc (eq_of_beq s t h)
same_key_sound (user, s) (user, t) h = cc (eq_of_beq s t h)
same_key_sound (tenant, s) (user, t) h = cc
same_key_sound (user, s) (tenant, t) h = cc

same_key_refl : (a : Key) → same_key a a ≡ true
unfolding same_key
same_key_refl (tenant, s) = beq_refl s
same_key_refl (user, s) = beq_refl s

pub same_key_iff : (a b : Key) → (same_key a b ≡ true) ↔ (a ≡ b)
same_key_iff a b = (same_key_sound a b, λ e. rw e (same_key_refl b))

instance abbrev pub key_eq : Eq Key
key_eq = record { same = same_key; same_iff = same_key_iff }
