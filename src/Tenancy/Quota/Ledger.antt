-- ===== src/Tenancy/Quota/Ledger.antt =====
-- tenancy/quota.py: `QuotaLedger`. Each method holds the lock of the ledger, so each is one step.
--
-- A `_Counters` is a shared object: a method may hold one that the dictionary has since evicted. So
-- the dictionary leads to references, and `objects` holds what they refer to.
use llm_fabric.Prelude.{
  ℕ, ◌+◌, Option, none, some, [], ◌∷◌, String, string_eq, nat_eq, leb, ltb, if◌then◌else◌, or_else,
  length,
}
use llm_fabric.Prelude.Float.{Float}
use llm_fabric.Prelude.Dict
use llm_fabric.Prelude.Dict.{Dict}
use llm_fabric.Prelude.Int.{ℤ, pos_part}
use llm_fabric.Tenancy.Quota.{QuotaPolicy, Counters, new_counters, roll}
use llm_fabric.Tenancy.Quota.Keys.{Key, key_eq}

pub record QuotaLedger (F : Float) : Type 0 where
  pub default_tenant_policy : QuotaPolicy F
  pub default_user_policy : QuotaPolicy F
  pub tenant_policies : Dict String (QuotaPolicy F)
  pub user_policies : Dict String (QuotaPolicy F)
  pub max_tracked : ℕ
  pub counters : Dict Key ℕ
  pub objects : Dict ℕ (Counters F)
  pub next_object : ℕ

-- `while len(counters) > limit: counters.popitem(last=False)`
unfoldable pub trim : ℕ → Dict Key ℕ → Dict Key ℕ
trim limit [] = []
trim limit (x ∷ xs) =
    let rest = trim limit xs in if ltb limit (length (x ∷ xs)) then rest else x ∷ xs

module _ {F : Float} where
  open F use {Carrier, of_nat, add, ltb as flt}

  -- `__init__`; `none` is its `ValueError`.
  unfoldable pub make_ledger :
      QuotaPolicy F
      → QuotaPolicy F
      → Dict String (QuotaPolicy F)
      → Dict String (QuotaPolicy F)
      → ℤ
      → Option (QuotaLedger F)
  make_ledger tenant_default user_default tenants users max_tracked =
      if leb (pos_part max_tracked) 0
      then none
      else some (record {
        default_tenant_policy = tenant_default;
        default_user_policy = user_default;
        tenant_policies = tenants;
        user_policies = users;
        max_tracked = pos_part max_tracked;
        counters = [];
        objects = [];
        next_object = 0;
      })

  unfoldable pub set_tenant_policy : String → QuotaPolicy F → QuotaLedger F → QuotaLedger F
  set_tenant_policy id p l = record l { tenant_policies = Dict.put id p l.tenant_policies }

  unfoldable pub set_user_policy : String → QuotaPolicy F → QuotaLedger F → QuotaLedger F
  set_user_policy key p l = record l { user_policies = Dict.put key p l.user_policies }

  unfoldable pub tenant_policy : String → QuotaLedger F → QuotaPolicy F
  tenant_policy id l = or_else (Dict.get id l.tenant_policies) l.default_tenant_policy

  unfoldable pub user_policy : String → QuotaLedger F → QuotaPolicy F
  user_policy key l = or_else (Dict.get key l.user_policies) l.default_user_policy

  -- The fields of an object, and writing them.
  unfoldable pub object : ℕ → QuotaLedger F → Counters F
  object r l = or_else (Dict.get r l.objects) new_counters

  unfoldable pub update : ℕ → (Counters F → Counters F) → QuotaLedger F → QuotaLedger F
  unfolding object
  update r f l = record l { objects = Dict.put r (f (object r l)) l.objects }

  -- The reference that the dictionary has or gets, before `move_to_end` and `roll`.
  unfoldable pub find_or_add : Key → QuotaLedger F → QuotaLedger F × ℕ
  unfolding trim
  find_or_add key l = elim (Dict.get key l.counters) [
    | some r ↦ (l, r)
    | none ↦ (
      record l {
        counters = trim l.max_tracked (Dict.put key l.next_object l.counters);
        objects = Dict.put l.next_object new_counters l.objects;
        next_object = l.next_object + 1;
      },
      l.next_object,
    )
  ]

  -- `_counters_for`
  unfoldable pub counters_for : Key → ℕ → QuotaLedger F → QuotaLedger F × ℕ
  unfolding find_or_add update
  counters_for key now l =
      let (l', r) = find_or_add key l in
      (update r (roll now) (record l' { counters = Dict.move_to_end key l'.counters }), r)
