-- ===== src/Prelude/Dict.antt =====
-- Python's `dict`: an association list in insertion order.
pub mod Distinct
use Prim.Native.Nat.{◌≤◌, ◌<◌}
use mathlib.Core.Path.{◌≡◌, refl, sym}
use mathlib.Core.List.{List, [], ◌∷◌, ◌++◌}
use llm_fabric.Prelude.Lists.{Every, length, length-append}
use mathlib.Core.Logic.{inl, inr}
use mathlib.Core.Option.{Option, none, some}
use native.Mathlib.Omega.{arith}
use llm_fabric.Prelude.Tests.{if◌then◌else◌, Bool-cases, Option-cases}
use llm_fabric.Prelude.Keys.{Eq, ◌==◌, beq_refl, eq_of_beq}

abbrev pub Dict {ℓ κ} : Type ℓ → Type κ → Type (ℓ ⊔ κ)
Dict K V = List (K × V)

module _ {ℓ κ} {K : Type ℓ} {V : Type κ} ⦃e : Eq K⦄ where
  -- `d.get(k)`
  unfoldable pub get : K → Dict K V → Option V
  get k [] = none
  get k ((j, v) ∷ d) = if k == j then some v else get k d

  -- `d[k] = v`: in place for a key that is there, at the end for a new one
  unfoldable pub put : K → V → Dict K V → Dict K V
  put k v [] = (k, v) ∷ []
  put k v ((j, w) ∷ d) = if k == j then (j, v) ∷ d else (j, w) ∷ put k v d

  -- `d.pop(k, None)`
  unfoldable pub remove : K → Dict K V → Dict K V
  remove k [] = []
  remove k ((j, w) ∷ d) = let rest = remove k d in if k == j then rest else (j, w) ∷ rest

  pub get-put_self : (k : K) (v : V) (d : Dict K V) → get k (put k v d) ≡ some v
  unfolding get put
  get-put_self k v [] = ground (arith, beq_refl k)
  get-put_self k v ((j, w) ∷ d) = ground (arith, get-put_self k v d)

  pub get-put :
      (k j : K) (v : V) (d : Dict K V) → get k (put j v d) ≡ (if k == j then some v else get k d)
  unfolding get put
  get-put k j v [] = refl
  get-put k j v ((i, w) ∷ d) =
      ground (arith, get-put k j v d, eq_of_beq j i, eq_of_beq k j, eq_of_beq k i, beq_refl i)

  pub put_new : (k : K) (v : V) (d : Dict K V) → get k d ≡ none → put k v d ≡ d ++ (k, v) ∷ []
  unfolding get put
  put_new k v [] h = refl
  put_new k v ((j, w) ∷ d) h = ground (arith, put_new k v d)

  pub get-remove :
      (k j : K) (d : Dict K V) → get k (remove j d) ≡ (if k == j then none else get k d)
  unfolding get remove
  get-remove k j [] = ground arith
  get-remove k j ((i, w) ∷ d) =
      ground (arith, get-remove k j d, eq_of_beq j i, eq_of_beq k j, eq_of_beq k i, beq_refl i)

  -- `d.move_to_end(k)` of an `OrderedDict`, for a key that is there.
  unfoldable pub move_to_end : K → Dict K V → Dict K V
  unfolding get remove
  move_to_end k d = elim (get k d) [ none ↦ d | some v ↦ remove k d ++ (k, v) ∷ [] ]

  pub put-move_to_end :
      (k : K) (v : V) (d : Dict K V)
      → move_to_end k (put k v d) ≡ remove k (put k v d) ++ (k, v) ∷ []
  unfolding move_to_end
  put-move_to_end k v d = rw (get-put_self k v d, move_to_end)

  pub remove-put : (k : K) (v : V) (d : Dict K V) → remove k (put k v d) ≡ remove k d
  unfolding remove put
  remove-put k v [] = ground (arith, beq_refl k)
  remove-put k v ((j, w) ∷ d) = ground (arith, remove-put k v d)

  pub get-append :
      (k : K) (d d' : Dict K V)
      → get k (d ++ d') ≡ elim (get k d) [ none ↦ get k d' | some v ↦ some v ]
  unfolding get
  get-append k [] d' = refl
  get-append k ((j, v) ∷ d) d' = ground (arith, get-append k d d')

  pub length-remove-le : (k : K) (d : Dict K V) → length (remove k d) ≤ length d
  unfolding remove
  length-remove-le k [] = omega arith
  length-remove-le k ((j, v) ∷ d) = ground (arith, length-remove-le k d)

  length-remove-lt :
      (k : K) (v : V) (d : Dict K V) → get k d ≡ some v → length (remove k d) < length d
  unfolding get remove
  length-remove-lt k v [] h = cc
  length-remove-lt k v ((j, w) ∷ d) h = ground (arith, length-remove-lt k v d, length-remove-le k d)

  pub length-move_to_end-le : (k : K) (d : Dict K V) → length (move_to_end k d) ≤ length d
  unfolding move_to_end
  length-move_to_end-le k d = elim (Option-cases (get k d)) [
    | inl e ↦ rw (e, move_to_end) (omega arith)
    | inr (v, e) ↦
        rw (e, move_to_end)
          (omega (arith, length-remove-lt k v d e, length-append (remove k d) ((k, v) ∷ [])))
  ]

  module _ {μ} (P : K × V → Type μ) where
    pub Every-remove : (k : K) (d : Dict K V) → Every P d → Every P (remove k d)
    unfolding remove
    Every-remove k [] h = h
    Every-remove k ((j, v) ∷ d) h = elim (Bool-cases (k == j)) [
      | inl same ↦ rw (same, Every) (Every-remove k d h.1)
      | inr other ↦ rw (other, Every) (h.0, Every-remove k d h.1)
    ]

    pub Every-get : (k : K) (v : V) (d : Dict K V) → get k d ≡ some v → Every P d → P (k, v)
    unfolding get
    Every-get k v [] e h = cc
    Every-get k v ((j, w) ∷ d) e h = elim (Bool-cases (k == j)) [
      | inl same ↦ let value : w ≡ v = cc (rw same at e) in rw (eq_of_beq k j same, sym value) h.0
      | inr other ↦ Every-get k v d (rw other at e) h.1
    ]
