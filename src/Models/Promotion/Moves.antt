-- ===== src/Models/Promotion/Moves.antt =====
-- The lifecycle as a state machine, which the transitions implement.
use llm_fabric.Prelude.{
  ℕ, suc, ◌≤◌, ◌≡◌, ◌⊎◌, refl, sym, ap, ◌∙◌, arith, Bool, true, false, some, List, [], ◌∷◌, String,
  string_eq, length, Every, or_else, Option-cases, List-cases, inl, inr,
}
use mathlib.Core.Path.{subst}
use llm_fabric.Prelude.Float.{Float}
use llm_fabric.Prelude.Dict
use llm_fabric.Prelude.Dict.{Dict}
use llm_fabric.Router.Registry.{
  PromotionState, registered, probed, evaluated, shadow, approved, disabled, ModelSpec,
}
use llm_fabric.Models.Promotion.{
  Artifact, Row, PromotionConfig, Request, spec_identity, identities_match, is_allowed,
  transition_tests, validate_transition, Blocker, new_row, written, apply_transition,
}
use llm_fabric.Models.Promotion.Overlay.{overlaid, served_as, row_matches}
use llm_fabric.Models.Promotion.Evidence.{unblocked, identities_match_own, state-written}

-- One move of the lifecycle.
pub data Move : PromotionState → PromotionState → Type 0 where
  probe : Move registered probed
  evaluate : Move probed evaluated
  shadow_it : Move evaluated shadow
  approve : Move shadow approved
  back_to_registered : Move probed registered
  back_to_probed : Move evaluated probed
  back_to_evaluated : Move shadow evaluated
  back_to_shadow : Move approved shadow
  disable_registered : Move registered disabled
  disable_probed : Move probed disabled
  disable_evaluated : Move evaluated disabled
  disable_shadow : Move shadow disabled
  disable_approved : Move approved disabled
  enable : Move disabled registered

-- A number of moves, one after the other.
pub data Moves : ℕ → PromotionState → PromotionState → Type 0 where
  stay : {s : PromotionState} → Moves 0 s s
  move_on : {n : ℕ} {s t u : PromotionState} → Move s t → Moves n t u → Moves (suc n) s u

-- At most one move.
unfoldable pub IsStep : PromotionState → PromotionState → Type 0
IsStep s t = (t ≡ s) ⊎ Move s t

Move-of_is_allowed : (s t : PromotionState) → is_allowed s t ≡ true → Move s t
unfolding is_allowed
Move-of_is_allowed registered registered h = cc
Move-of_is_allowed registered probed h = probe
Move-of_is_allowed registered evaluated h = cc
Move-of_is_allowed registered shadow h = cc
Move-of_is_allowed registered approved h = cc
Move-of_is_allowed registered disabled h = disable_registered
Move-of_is_allowed probed registered h = back_to_registered
Move-of_is_allowed probed probed h = cc
Move-of_is_allowed probed evaluated h = evaluate
Move-of_is_allowed probed shadow h = cc
Move-of_is_allowed probed approved h = cc
Move-of_is_allowed probed disabled h = disable_probed
Move-of_is_allowed evaluated registered h = cc
Move-of_is_allowed evaluated probed h = back_to_probed
Move-of_is_allowed evaluated evaluated h = cc
Move-of_is_allowed evaluated shadow h = shadow_it
Move-of_is_allowed evaluated approved h = cc
Move-of_is_allowed evaluated disabled h = disable_evaluated
Move-of_is_allowed shadow registered h = cc
Move-of_is_allowed shadow probed h = cc
Move-of_is_allowed shadow evaluated h = back_to_evaluated
Move-of_is_allowed shadow shadow h = cc
Move-of_is_allowed shadow approved h = approve
Move-of_is_allowed shadow disabled h = disable_shadow
Move-of_is_allowed approved registered h = cc
Move-of_is_allowed approved probed h = cc
Move-of_is_allowed approved evaluated h = cc
Move-of_is_allowed approved shadow h = back_to_shadow
Move-of_is_allowed approved approved h = cc
Move-of_is_allowed approved disabled h = disable_approved
Move-of_is_allowed disabled registered h = enable
Move-of_is_allowed disabled probed h = cc
Move-of_is_allowed disabled evaluated h = cc
Move-of_is_allowed disabled shadow h = cc
Move-of_is_allowed disabled approved h = cc
Move-of_is_allowed disabled disabled h = cc

module _ {F : Float} (valid : Artifact → Bool) (config : PromotionConfig) (spec : ModelSpec F) where
  -- The deployment as the registry serves it, with the rows of the store laid over it.
  abbrev pub served : Dict String Row → ModelSpec F
  served rows = served_as valid config rows spec

  -- Requests for one deployment, each against the registry as the rows make it.
  unfoldable pub session : List Request → Dict String Row → Dict String Row
  unfolding apply_transition
  session [] rows = rows
  session (q ∷ qs) rows = session qs (apply_transition config (served rows) q rows).0

  served_lem :
      (rows : Dict String Row)
      → ((served rows).id ≡ spec.id) × (spec_identity (served rows) ≡ spec_identity spec)
  unfolding served_as overlaid spec_identity
  served_lem rows = elim (Option-cases (Dict.get spec.id rows)) [
    | inl e ↦ rw (served_as, e) (refl, refl)
    | inr (row, e) ↦ rw (served_as, e) (refl, refl)
  ]

  served_row :
      (row : Row) (rows : Dict String Row)
      → Dict.get spec.id rows ≡ some row
      → served rows ≡ overlaid valid config row spec
  unfolding served_as
  served_row row rows h = rw (served_as, h) refl

  overlaid_state :
      (row : Row)
      → row_matches row spec ≡ true
      → (overlaid valid config row spec).lifecycle ≡ row.state
  unfolding overlaid
  overlaid_state row h = rw h refl

  row_matches-written :
      (m : ModelSpec F) (q : Request) (row : Row)
      → spec_identity m ≡ spec_identity spec
      → row_matches (written config m q row) spec ≡ true
  unfolding row_matches written
  row_matches-written m q row e =
      ap (λ i. identities_match spec (some i)) e ∙ identities_match_own spec

  -- The state that is served behind a transition that was written.
  served-written :
      (m : ModelSpec F) (q : Request) (row : Row) (rows : Dict String Row)
      → m.id ≡ spec.id
      → spec_identity m ≡ spec_identity spec
      → (served (Dict.put m.id (written config m q row) rows)).lifecycle ≡ q.target
  served-written m q row rows i e =
      let new = written config m q row in
      let found =
        ap (λ k. Dict.get k (Dict.put m.id new rows)) (sym i) ∙ Dict.get-put_self m.id new rows in
      ap (λ x. x.lifecycle) (served_row new (Dict.put m.id new rows) found)
      ∙ overlaid_state new (row_matches-written m q row e)
      ∙ state-written config m q row

  apply_accepted :
      (m : ModelSpec F) (q : Request) (rows : Dict String Row)
      → (let row = or_else (Dict.get m.id rows) new_row in
          validate_transition config m q row ≡ []
          → (apply_transition config m q rows).0 ≡ Dict.put m.id (written config m q row) rows)
  unfolding apply_transition
  apply_accepted m q rows h = rw (apply_transition, h) refl

  apply_blocked :
      (m : ModelSpec F) (q : Request) (rows : Dict String Row) (b : Blocker) (bs : List Blocker)
      → validate_transition config m q (or_else (Dict.get m.id rows) new_row) ≡ b ∷ bs
      → (apply_transition config m q rows).0 ≡ rows
  unfolding apply_transition
  apply_blocked m q rows b bs h = rw (apply_transition, h) refl

  Move-validated :
      (m : ModelSpec F) (q : Request) (row : Row)
      → q.force ≡ false
      → validate_transition config m q row ≡ []
      → Move m.lifecycle q.target
  unfolding transition_tests
  Move-validated m q row unforced h =
      let t = (unblocked config m q row h).1 in
      Move-of_is_allowed m.lifecycle q.target (ground (arith, t.0))

  pub apply_transition-Move :
      (q : Request) (rows : Dict String Row)
      → q.force ≡ false
      → IsStep
          (served rows).lifecycle
          (served (apply_transition config (served rows) q rows).0).lifecycle
  unfolding IsStep
  apply_transition-Move q rows unforced =
      let m = served rows in
      let row = or_else (Dict.get m.id rows) new_row in
      elim (List-cases (validate_transition config m q row)) [
        | inr (b, bs, e) ↦ inl (ap (λ x. (served x).lifecycle) (apply_blocked m q rows b bs e))
        | inl e ↦
            let (own_id, own_identity) = served_lem rows in
            let target =
              ap (λ x. (served x).lifecycle) (apply_accepted m q rows e)
              ∙ served-written m q row rows own_id own_identity in
            inr (subst (Move m.lifecycle) (sym target) (Move-validated m q row unforced e))
      ]

  Moves-step :
      {s t u : PromotionState} (n : ℕ) (qs : List Request)
      → IsStep s t
      → n ≤ length qs
      → Moves n t u
      → (k : ℕ) × (k ≤ suc (length qs)) × Moves k s u
  unfolding IsStep
  Moves-step {s} {t} {u} n qs (inl same) h ms = (n, omega arith, subst (λ x. Moves n x u) same ms)
  Moves-step n qs (inr m) h ms = (suc n, omega arith, move_on m ms)

  -- Requests without an override move the state that is served along the lifecycle only, at most one
  -- move for each request.
  pub session-Moves :
      (qs : List Request) (rows : Dict String Row)
      → Every (λ q. q.force ≡ false) qs
      → (n : ℕ) × (n ≤ length qs)
        × Moves n
            (served_as valid config rows spec).lifecycle
            (served_as valid config (session qs rows) spec).lifecycle
  unfolding session
  session-Moves [] rows h = (0, omega arith, stay)
  session-Moves (q ∷ qs) rows h =
      let rows' = (apply_transition config (served rows) q rows).0 in
      let (n, few, moves) = session-Moves qs rows' h.1 in
      Moves-step n qs (apply_transition-Move q rows h.0) few moves
