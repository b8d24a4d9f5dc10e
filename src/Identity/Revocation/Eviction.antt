-- ===== src/Identity/Revocation/Eviction.antt =====
-- What a full store does with the next revocation.
use llm_fabric.Prelude.{
  ℕ, ◌≡◌, refl, arith, false, Option, none, some, [], ◌∷◌, ◌++◌, String, ◌==◌, string_eq, beq_refl,
  length, length-append, ltb, if◌then◌else◌, Bool-cases, inl, inr,
}
use llm_fabric.Prelude.Float.{Float}
use llm_fabric.Prelude.Dict.{get, put, get-append}
use llm_fabric.Identity.Revocation.{
  Table, InMemoryRevocationStore, is_expired, purge, evict_overflow, denylist, revoke, active,
  listed, is_revoked,
}

module _ {Time : Type 0} where
  put_fresh :
      (k : String) (t : Option Time) (d : Table Time)
      → get k d ≡ none
      → put k t d ≡ d ++ (k, t) ∷ []
  unfolding get put
  put_fresh k t [] h = refl
  put_fresh k t ((j, w) ∷ d) h = ground (arith, put_fresh k t d)

  get_last :
      (k : String) (t : Option Time) (d : Table Time)
      → get k d ≡ none
      → get k (d ++ (k, t) ∷ []) ≡ some t
  unfolding get
  get_last k t d h = rw (get-append k d ((k, t) ∷ []), h) (ground (arith, beq_refl k))

  evict_last :
      (n : ℕ) (k : String) (t : Option Time) (ids fps : Table Time)
      → get k ids ≡ none
      → get k (evict_overflow n (ids ++ (k, t) ∷ []) fps).0
        ≡ (if ltb (length fps) n then some t else none)
  unfolding get evict_overflow
  evict_last n k t [] fps h = ground (arith, beq_refl k)
  evict_last n k t ((j, w) ∷ ids) fps h = elim (Bool-cases (k == j)) [
    | inl same ↦ absurd (cc (rw same at h))
    | inr other ↦
        let fresh = rw other at h in
        ground (
          arith,
          evict_last n k t ids fps fresh,
          get_last k t ids fresh,
          length-append ids ((k, t) ∷ []),
        )
  ]

module _ (F : Float) where
  get-purge :
      (now : F.Carrier) (k : String) (d : Table F.Carrier)
      → get k d ≡ none
      → get k (purge F now d) ≡ none
  unfolding get purge
  get-purge now k [] h = refl
  get-purge now k ((j, t) ∷ d) h = ground (arith, get-purge now k d)

  -- A token, with an id that is not empty and that the store does not hold, is revoked without a
  -- fingerprint. At any time before its entry expires it counts as revoked exactly where the
  -- fingerprints that had not expired when it was revoked number less than the cap: where they fill
  -- the store, the call evicts the token that it was made for.
  pub is_revoked-revoke :
      (now later : F.Carrier) (k : String) (t : Option F.Carrier) (s : InMemoryRevocationStore F)
      → (k == "") ≡ false
      → get k s.by_id ≡ none
      → is_expired F later t ≡ false
      → (is_revoked F later later (some k) none (revoke F now (some k) none t s).0).1
        ≡ ltb (length (purge F now s.by_fingerprint)) s.max_entries
  unfolding is_revoked revoke listed active denylist
  is_revoked-revoke now later k t s nonempty fresh live =
      let ids = purge F now s.by_id in
      let fps = purge F now s.by_fingerprint in
      let absent = get-purge now k s.by_id fresh in
      let kept = evict_last s.max_entries k t ids fps absent in
      elim (Bool-cases (ltb (length fps) s.max_entries)) [
        | inl h ↦ rw (nonempty, put_fresh k t ids absent, denylist, active, kept, h, live) refl
        | inr h ↦ rw (nonempty, put_fresh k t ids absent, denylist, active, kept, h) refl
      ]
