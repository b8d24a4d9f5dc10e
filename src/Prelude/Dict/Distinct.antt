-- ===== src/Prelude/Dict/Distinct.antt =====
-- A dictionary that `put` has built has each key once.
use mathlib.Core.Path.{◌≡◌, refl, sym}
use mathlib.Core.Bool.{false}
use mathlib.Core.List.{List, [], ◌∷◌, ◌++◌, map}
use mathlib.Core.Logic.{inl, inr}
use mathlib.Core.Option.{some}
use native.Mathlib.Omega.{arith}
use llm_fabric.Prelude.Lists.{Every, Distinct, Distinct-append, contains}
use llm_fabric.Prelude.Tests.{if◌then◌else◌, Bool-cases}
use llm_fabric.Prelude.Keys.{Eq, ◌==◌, beq_refl, eq_of_beq}
use llm_fabric.Prelude.Dict.{Dict, get, put}

module _ {ℓ κ} {K : Type ℓ} {V : Type κ} ⦃e : Eq K⦄ where
  abbrev pub keys : Dict K V → List K
  keys d = map (λ entry. entry.0) d

  keys-put :
      (k : K) (v : V) (d : Dict K V)
      → keys (put k v d) ≡ (if contains k (keys d) then keys d else keys d ++ k ∷ [])
  unfolding put contains
  keys-put k v [] = refl
  keys-put k v ((j, w) ∷ d) = elim (Bool-cases (k == j)) [
    | inl same ↦ rw same refl
    | inr other ↦ elim (Bool-cases (contains k (keys d))) [
      | inl h ↦ rw (other, h, keys-put k v d, h) refl
      | inr h ↦ rw (other, h, keys-put k v d, h) refl
    ]
  ]

  pub Distinct-put :
      (k : K) (v : V) (d : Dict K V) → Distinct (keys d) → Distinct (keys (put k v d))
  Distinct-put k v d h = elim (Bool-cases (contains k (keys d))) [
    | inl there ↦ rw (keys-put k v d, there) h
    | inr fresh ↦ rw (keys-put k v d, fresh) (Distinct-append (keys d) k fresh h)
  ]

  -- Each entry is the one that its key finds.
  pub Distinct-reach :
      (d : Dict K V) → Distinct (keys d) → Every (λ entry. get entry.0 d ≡ some entry.1) d
  unfolding get contains
  Distinct-reach [] h = tt
  Distinct-reach ((k, v) ∷ d) h = (rw (beq_refl k) refl, behind d h.0 (Distinct-reach d h.1))
    where
      behind :
          (d' : Dict K V)
          → contains k (keys d') ≡ false
          → Every (λ entry. get entry.0 d ≡ some entry.1) d'
          → Every (λ entry. get entry.0 ((k, v) ∷ d) ≡ some entry.1) d'
      behind [] n hs = tt
      behind ((j, w) ∷ d') n hs =
          (ground (arith, eq_of_beq j k, beq_refl k, hs.0), behind d' (ground arith) hs.1)

  module _ {μ} (P : K × V → Type μ) where
    pub Every-put : (k : K) (v : V) (d : Dict K V) → P (k, v) → Every P d → Every P (put k v d)
    unfolding put
    Every-put k v [] h hs = (h, tt)
    Every-put k v ((j, w) ∷ d) h hs = elim (Bool-cases (k == j)) [
      | inl same ↦ rw (same, Every) (rw (sym (eq_of_beq k j same)) h, hs.1)
      | inr other ↦ rw (other, Every) (hs.0, Every-put k v d h hs.1)
    ]
