-- ===== src/Identity/Revocation.antt =====
-- identity/revocation.py: the denylist of a process, `InMemoryRevocationStore`.
--
-- The fingerprint of a token is given, as `token_fingerprint` has computed it. `max_entries` is not
-- negative: the eviction of a store with a negative cap would not end.
pub mod Eviction
pub mod Examples
use llm_fabric.Prelude.{
  ℕ, suc, ◌+◌, Bool, true, false, not, ◌&&◌, Option, none, some, List, [], ◌∷◌, String, ◌==◌,
  string_eq, keep, length, ltb, if◌then◌else◌,
}
use llm_fabric.Prelude.Float.{Float}
use llm_fabric.Prelude.Dict
use llm_fabric.Prelude.Dict.{Dict}

-- When an entry expires, if it does.
abbrev pub Table : Type 0 → Type 0
Table Time = Dict String (Option Time)

pub record InMemoryRevocationStore (F : Float) : Type 0 where
  pub by_id : Table F.Carrier
  pub by_fingerprint : Table F.Carrier
  pub max_entries : ℕ

-- `revoke` without a token and without a fingerprint raises `ValueError`.
pub data Outcome : Type 0 where
  done value_error : Outcome

module _ {Time : Type 0} where
  -- The loop of `_evict_overflow_unlocked`, when no token is left: the first fingerprint goes.
  unfoldable pub evict_fingerprints : ℕ → Table Time → Table Time
  evict_fingerprints n [] = []
  evict_fingerprints n (x ∷ fps) =
      let rest = evict_fingerprints n fps in if ltb n (suc (length fps)) then rest else x ∷ fps

  -- `_evict_overflow_unlocked`: while there are too many entries, the first token goes.
  unfoldable pub evict_overflow : ℕ → Table Time → Table Time → Table Time × Table Time
  unfolding evict_fingerprints
  evict_overflow n [] fps = ([], evict_fingerprints n fps)
  evict_overflow n (x ∷ ids) fps =
      let rest = evict_overflow n ids fps in
      if ltb n (suc (length ids) + length fps) then rest else (x ∷ ids, fps)

  -- `if token_id: self._by_id[token_id] = expires_at`
  unfoldable pub denylist : Option String → Option Time → Table Time → Table Time
  denylist none t d = d
  denylist (some k) t d = if k == "" then d else Dict.put k t d

module _ (F : Float) where
  unfoldable pub make_revocation_store : ℕ → InMemoryRevocationStore F
  make_revocation_store n = record { by_id = []; by_fingerprint = []; max_entries = n }

  -- `expires_at is not None and expires_at <= now`
  unfoldable pub is_expired : F.Carrier → Option F.Carrier → Bool
  is_expired now none = false
  is_expired now (some t) = F.leb t now

  -- `_purge_expired_unlocked`, for one of the two tables
  unfoldable pub purge : F.Carrier → Table F.Carrier → Table F.Carrier
  unfolding is_expired
  purge now [] = []
  purge now ((k, t) ∷ d) =
      let rest = purge now d in if is_expired now t then rest else (k, t) ∷ rest

  -- `revoke`
  unfoldable pub revoke :
      F.Carrier
      → Option String
      → Option String
      → Option F.Carrier
      → InMemoryRevocationStore F
      → InMemoryRevocationStore F × Outcome
  unfolding purge evict_overflow denylist
  revoke now none none t s = (s, value_error)
  revoke now token fingerprint t s =
      let (ids, fps) =
        evict_overflow s.max_entries (denylist token t (purge now s.by_id))
          (denylist fingerprint t (purge now s.by_fingerprint)) in
      (record s { by_id = ids; by_fingerprint = fps }, done)

  -- `_active`: an entry that has expired is deleted.
  unfoldable pub active : F.Carrier → Table F.Carrier → String → Table F.Carrier × Bool
  unfolding is_expired
  active now d k = elim (Dict.get k d) [
    | none ↦ (d, false)
    | some t ↦ if is_expired now t then (Dict.remove k d, false) else (d, true)
  ]

  -- `token_id and self._active(...)`
  unfoldable pub listed : F.Carrier → Table F.Carrier → Option String → Table F.Carrier × Bool
  unfolding active
  listed now d none = (d, false)
  listed now d (some k) = if k == "" then (d, false) else active now d k

  -- `is_revoked`, with the clock readings of its two tests
  unfoldable pub is_revoked :
      F.Carrier
      → F.Carrier
      → Option String
      → Option String
      → InMemoryRevocationStore F
      → InMemoryRevocationStore F × Bool
  unfolding listed
  is_revoked now now' token fingerprint s =
      let (ids, found) = listed now s.by_id token in
      let (fps, found') = listed now' s.by_fingerprint fingerprint in
      if found
      then (record s { by_id = ids }, true)
      else (record s { by_id = ids; by_fingerprint = fps }, found')
