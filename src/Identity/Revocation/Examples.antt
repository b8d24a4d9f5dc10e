-- ===== src/Identity/Revocation/Examples.antt =====
-- Tests of the denylist: a store with room for two entries, with and without a free place.
use llm_fabric.Prelude.{◌≡◌, refl, true, false, none, some, [], ◌∷◌, string_eq, length, ltb}
use llm_fabric.Prelude.Dict
use llm_fabric.Prelude.Float.{whole}
use llm_fabric.Identity.Revocation.{
  InMemoryRevocationStore, make_revocation_store, is_expired, purge, revoke, is_revoked,
}
use llm_fabric.Identity.Revocation.Eviction.{is_revoked-revoke}

-- Two fingerprints, of which one expires at 5.
abbrev full : InMemoryRevocationStore whole
full = record { by_id = []; by_fingerprint = ("f", some 5) ∷ ("g", none) ∷ []; max_entries = 2 }

absent : Dict.get "t" full.by_id ≡ none
unfolding Dict.get
absent = refl

live : is_expired whole 4 (some 9) ≡ false
unfolding is_expired
live = refl

is_revoked-revoke_example :
    (is_revoked whole 4 4 (some "t") none (revoke whole 3 (some "t") none (some 9) full).0).1
    ≡ ltb (length (purge whole 3 full.by_fingerprint)) 2
is_revoked-revoke_example = is_revoked-revoke whole 3 4 "t" (some 9) full refl absent live

-- At 3 no place is free, at 5 one is.
lost : ltb (length (purge whole 3 full.by_fingerprint)) 2 ≡ false
unfolding purge
lost = refl

kept : ltb (length (purge whole 5 full.by_fingerprint)) 2 ≡ true
unfolding purge
kept = refl

-- A revoked fingerprint counts until its entry expires.
expires :
    (is_revoked whole 5 5 none
      (some "f")
      (revoke whole 3 none (some "f") (some 5) (make_revocation_store whole 2)).0).1
    ≡ false
unfolding is_revoked revoke make_revocation_store Dict.get Dict.put
expires = refl
