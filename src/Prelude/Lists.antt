-- ===== src/Prelude/Lists.antt =====
-- Lists measured by native numbers, and lists read as Python's sets.
use Prim.Native.Nat.{ℕ, suc, ◌+◌, ◌≤◌}
use mathlib.Core.Path.{◌≡◌, refl}
use mathlib.Core.Bool.{Bool, true, false, ◌&&◌, ◌||◌}
use mathlib.Core.List.{List, [], ◌∷◌, ◌++◌, map}
use mathlib.Core.Logic.{◌⊎◌, inl, inr}
use mathlib.Core.Option.{Option, none, some}
use native.Mathlib.Omega.{arith}
use llm_fabric.Prelude.Tests.{if◌then◌else◌, Bool-cases}
use llm_fabric.Prelude.Keys.{Eq, ◌==◌, beq_refl, eq_of_beq}

module _ {ℓ} {A : Type ℓ} where
  abbrev pub length : List A → ℕ
  length [] = 0
  length (x ∷ xs) = suc (length xs)

  pub length-append : (xs ys : List A) → length (xs ++ ys) ≡ length xs + length ys
  length-append [] ys = omega arith
  length-append (x ∷ xs) ys = omega (arith, length-append xs ys)

  -- `[x for x in xs if p(x)]`
  unfoldable pub keep : (A → Bool) → List A → List A
  keep p [] = []
  keep p (x ∷ xs) = let rest = keep p xs in if p x then x ∷ rest else rest

  pub keep-append : (p : A → Bool) (xs ys : List A) → keep p (xs ++ ys) ≡ keep p xs ++ keep p ys
  unfolding keep
  keep-append p [] ys = refl
  keep-append p (x ∷ xs) ys = ground (arith, keep-append p xs ys)

  pub keep-keep : (p q : A → Bool) (xs : List A) → keep p (keep q xs) ≡ keep (λ x. q x && p x) xs
  unfolding keep
  keep-keep p q [] = refl
  keep-keep p q (x ∷ xs) = ground (arith, keep-keep p q xs)

  pub length-keep-le : (p : A → Bool) (xs : List A) → length (keep p xs) ≤ length xs
  unfolding keep
  length-keep-le p [] = omega arith
  length-keep-le p (x ∷ xs) = ground (arith, length-keep-le p xs)

module _ {ℓ} {A : Type ℓ} ⦃e : Eq A⦄ where
  -- `a in xs`
  unfoldable pub contains : A → List A → Bool
  contains a [] = false
  contains a (x ∷ xs) = a == x || contains a xs

  -- `xs.add(a)` of a set
  unfoldable pub add : A → List A → List A
  unfolding contains
  add a xs = if contains a xs then xs else a ∷ xs

  pub contains-add_self : (a : A) (xs : List A) → contains a (add a xs) ≡ true
  unfolding add
  contains-add_self a xs = ground (arith, beq_refl a)

  pub contains-add : (a b : A) (xs : List A) → contains a (add b xs) ≡ (a == b || contains a xs)
  unfolding add
  contains-add a b xs = ground (arith, eq_of_beq a b)

  pub contains-append :
      (a : A) (xs ys : List A) → contains a (xs ++ ys) ≡ (contains a xs || contains a ys)
  unfolding contains
  contains-append a [] ys = refl
  contains-append a (x ∷ xs) ys = ground (arith, contains-append a xs ys)

  pub contains-keep :
      (p : A → Bool) (a : A) (xs : List A) → contains a (keep p xs) ≡ (p a && contains a xs)
  unfolding contains keep
  contains-keep p a [] = ground arith
  contains-keep p a (x ∷ xs) = ground (arith, contains-keep p a xs, eq_of_beq a x)

  -- No element stands twice.
  abbrev pub Distinct : List A → Type 0
  Distinct [] = Unit
  Distinct (x ∷ xs) = (contains x xs ≡ false) × Distinct xs

module _ {ℓ} {A : Type ℓ} where
  -- The first element that passes the test.
  unfoldable pub first : (A → Bool) → List A → Option A
  first p [] = none
  first p (x ∷ xs) = if p x then some x else first p xs

pub List-cases {ℓ} :
    {A : Type ℓ} (xs : List A) → (xs ≡ []) ⊎ ((x : A) × (rest : List A) × (xs ≡ x ∷ rest))
List-cases [] = inl refl
List-cases (x ∷ xs) = inr (x, xs, refl)

-- Every element has the property.
abbrev pub Every {ℓ κ} : {A : Type ℓ} → (A → Type κ) → List A → Type κ
Every P [] = Unit
Every P (x ∷ xs) = P x × Every P xs

module _ {ℓ} {A : Type ℓ} where
  pub first_sound : (p : A → Bool) (xs : List A) (x : A) → first p xs ≡ some x → p x ≡ true
  unfolding first
  first_sound p [] x h = cc
  first_sound p (y ∷ ys) x h = ground (arith, first_sound p ys x)

  pub Every-append {κ} :
      (P : A → Type κ) (xs : List A) (y : A) → Every P xs → P y → Every P (xs ++ y ∷ [])
  Every-append P [] y h k = (k, tt)
  Every-append P (x ∷ xs) y h k = (h.0, Every-append P xs y h.1 k)

module _ {ℓ κ} {A : Type ℓ} {B : Type κ} ⦃e : Eq B⦄ where
  -- A key that some element has is found.
  pub first_found :
      (f : A → B) (b : B) (xs : List A)
      → contains b (map f xs) ≡ true
      → (x : A) × (first (λ y. f y == b) xs ≡ some x)
  unfolding contains first
  first_found f b [] h = cc
  first_found f b (x ∷ xs) h = elim (Bool-cases (f x == b)) [
    | inl same ↦ (x, rw same)
    | inr other ↦ rw other (first_found f b xs (ground (arith, eq_of_beq b (f x), beq_refl b)))
  ]

module _ {ℓ} {A : Type ℓ} ⦃e : Eq A⦄ where
  pub Distinct-append :
      (xs : List A) (a : A) → contains a xs ≡ false → Distinct xs → Distinct (xs ++ a ∷ [])
  unfolding contains
  Distinct-append [] a h d = ground arith
  Distinct-append (x ∷ xs) a h d = (
    ground (arith, contains-append x xs (a ∷ []), eq_of_beq x a, beq_refl x),
    Distinct-append xs a (ground arith) d.1,
  )

module _ {ℓ} {A : Type ℓ} ⦃e : Eq A⦄ where
  -- How often an element stands in a list.
  unfoldable pub count : A → List A → ℕ
  count a [] = 0
  count a (x ∷ xs) = let rest = count a xs in if a == x then suc rest else rest

  pub count-append : (a : A) (xs ys : List A) → count a (xs ++ ys) ≡ count a xs + count a ys
  unfolding count
  count-append a [] ys = ground arith
  count-append a (x ∷ xs) ys = ground (arith, count-append a xs ys)

module _ {ℓ κ μ} {A : Type ℓ} {P : A → Type κ} {Q : A → Type μ} where
  pub Every-map : ((a : A) → P a → Q a) → (xs : List A) → Every P xs → Every Q xs
  Every-map f [] h = tt
  Every-map f (x ∷ xs) h = (f x h.0, Every-map f xs h.1)

module _ {ℓ κ} {A : Type ℓ} (P : A → Type κ) where
  pub Every-keep : (p : A → Bool) (xs : List A) → Every P xs → Every P (keep p xs)
  unfolding keep
  Every-keep p [] h = tt
  Every-keep p (x ∷ xs) h = elim (Bool-cases (p x)) [
    | inl e ↦ rw (e, Every) (h.0, Every-keep p xs h.1)
    | inr e ↦ rw e (Every-keep p xs h.1)
  ]
