-- ===== src/Tenancy/Store/Buckets.antt =====
-- One bucket: what inserting and evicting do to its entries.
use llm_fabric.Prelude.{
  ℕ, ◌+◌, ◌≤◌, ◌≡◌, refl, false, none, some, [], ◌∷◌, ◌++◌, String, ◌==◌, string_eq, if◌then◌else◌,
  or_else, ltb, length, length-append, Every, Every-append, arith, Bool-cases, Option-cases, inl,
  inr, beq_refl,
}
use llm_fabric.Prelude.Dict
use llm_fabric.Prelude.Dict.{Dict}
use llm_fabric.Tenancy.Store.{Entry, Bucket, TenantScopedStore, evict, insert, bucket_of}

module _ {V : Type 0} where
  pub length-evict-le : (limit : ℕ) (b : Bucket V) → length (evict limit b) ≤ limit
  unfolding evict
  length-evict-le limit [] = omega arith
  length-evict-le limit (x ∷ xs) = ground (arith, length-evict-le limit xs)

  pub evict_room : (limit : ℕ) (b : Bucket V) → length b ≤ limit → evict limit b ≡ b
  unfolding evict
  evict_room limit [] h = refl
  evict_room limit (x ∷ xs) h = ground arith

  Every-evict :
      (P : String × Entry V → Type 0) (limit : ℕ) (b : Bucket V)
      → Every P b
      → Every P (evict limit b)
  unfolding evict
  Every-evict P limit [] h = h
  Every-evict P limit (x ∷ xs) h = elim (Bool-cases (ltb limit (length (x ∷ xs)))) [
    | inl over ↦ rw (over, Every) (Every-evict P limit xs h.1)
    | inr fits ↦ rw (fits, Every) h
  ]

  -- The entry that is inserted stands last, and so is evicted last.
  insert-append :
      (limit : ℕ) (key : String) (entry : Entry V) (b : Bucket V)
      → insert limit key entry b ≡ evict limit (Dict.remove key b ++ (key, entry) ∷ [])
  unfolding insert
  insert-append limit key entry b =
      rw (Dict.put-move_to_end key entry b, Dict.remove-put key entry b)

  pub Every-insert :
      (P : String × Entry V → Type 0) (limit : ℕ) (key : String) (entry : Entry V) (b : Bucket V)
      → Every P b
      → P (key, entry)
      → Every P (insert limit key entry b)
  Every-insert P limit key entry b old new =
      rw (insert-append limit key entry b)
        (Every-evict P limit _ (Every-append P _ _ (Dict.Every-remove P key b old) new))

  pub length-insert-le :
      (limit : ℕ) (key : String) (entry : Entry V) (b : Bucket V)
      → length (insert limit key entry b) ≤ limit
  unfolding insert
  length-insert-le limit key entry b = length-evict-le limit _

  get-evict_last :
      (limit : ℕ) (key : String) (entry : Entry V) (b : Bucket V)
      → 1 ≤ limit
      → Dict.get key b ≡ none
      → Dict.get key (evict limit (b ++ (key, entry) ∷ [])) ≡ some entry
  unfolding evict Dict.get
  get-evict_last limit key entry [] positive absent = ground (arith, beq_refl key)
  get-evict_last limit key entry ((j, e) ∷ b) positive absent = ground (
    arith,
    get-evict_last limit key entry b positive,
    Dict.get-append key b ((key, entry) ∷ []),
    beq_refl key,
  )

  pub get-insert_self :
      (limit : ℕ) (key : String) (entry : Entry V) (b : Bucket V)
      → 1 ≤ limit
      → Dict.get key (insert limit key entry b) ≡ some entry
  get-insert_self limit key entry b positive = rw (insert-append limit key entry b) (
      get-evict_last limit key entry (Dict.remove key b) positive
        (rw (Dict.get-remove key key b, beq_refl key)))

  -- With room for one more, the other keys keep their entries.
  pub get-insert_other :
      (limit : ℕ) (key j : String) (entry : Entry V) (b : Bucket V)
      → length b + 1 ≤ limit
      → (j == key) ≡ false
      → Dict.get j (insert limit key entry b) ≡ Dict.get j b
  unfolding Dict.get
  get-insert_other limit key j entry b room other =
      rw
        (
          insert-append limit key entry b,
          evict_room limit (Dict.remove key b ++ (key, entry) ∷ []) fits,
          Dict.get-append j (Dict.remove key b) ((key, entry) ∷ []),
          Dict.get-remove j key b,
          other,
        )
        (elim (Option-cases (Dict.get j b)) [ inl e ↦ rw (e, Dict.get, other) | inr (v, e) ↦ rw e ])
    where
      fits : length (Dict.remove key b ++ (key, entry) ∷ []) ≤ limit
      fits = omega (
        arith,
        room,
        Dict.length-remove-le key b,
        length-append (Dict.remove key b) ((key, entry) ∷ []),
      )

  -- The entries of a tenant; a tenant without a bucket has none.
  abbrev pub entries : String → TenantScopedStore V → Bucket V
  entries tenant s = or_else (bucket_of tenant s) []

  pub entries-put :
      (s : TenantScopedStore V) (t j : String) (b : Bucket V)
      → entries j (record s { buckets = Dict.put t b s.buckets })
        ≡ (if j == t then b else entries j s)
  unfolding bucket_of
  entries-put s t j b = ground (arith, Dict.get-put j t b s.buckets)

  pub entries-remove :
      (s : TenantScopedStore V) (t j : String)
      → entries j (record s { buckets = Dict.remove t s.buckets })
        ≡ (if j == t then [] else entries j s)
  unfolding bucket_of
  entries-remove s t j = ground (arith, Dict.get-remove j t s.buckets)
