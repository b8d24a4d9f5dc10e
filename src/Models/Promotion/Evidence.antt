-- ===== src/Models/Promotion/Evidence.antt =====
-- What an approval rests on.
use llm_fabric.Prelude.{
  ◌≡◌, refl, ap, ◌∙◌, arith, Bool, true, false, not, ◌&&◌, ◌||◌, Option, none, some, List, [], ◌∷◌,
  String, ◌==◌, string_eq, nat_eq, beq_refl, Every, Bool-cases, inl, inr,
}
use llm_fabric.Prelude.Float.{Float}
use llm_fabric.Router.Registry.{approved, same_state, ModelSpec}
use llm_fabric.Models.Promotion.{
  Artifact, Row, PromotionConfig, Request, Blocker, policy_named, identities_match, key_matches,
  spec_identity, is_passed, is_present, missing_capabilities, is_nil, from_probed, from_evaluated,
  from_shadow, with_artifacts, transition_tests, raised_by, validate_transition, written,
}
use llm_fabric.Models.Promotion.Overlay.{
  is_stored, is_value, workload_name, approval_evidence_valid, row_matches, overlaid,
}

none_raised :
    (tests : List (Bool × Blocker)) → raised_by tests ≡ [] → Every (λ t. t.0 ≡ false) tests
unfolding raised_by
none_raised [] h = tt
none_raised ((true, b) ∷ tests) h = cc
none_raised ((false, b) ∷ tests) h = (refl, none_raised tests h)

key_matches_refl : (o : Option String) → key_matches o o ≡ true
unfolding key_matches
key_matches_refl none = refl
key_matches_refl (some v) = ground (arith, beq_refl v)

pub identities_match_own :
    {F : Float} (m : ModelSpec F) → identities_match m (some (spec_identity m)) ≡ true
unfolding identities_match
identities_match_own m =
    rw
      (
        key_matches_refl (some m.provider),
        key_matches_refl (some m.provider_model),
        key_matches_refl m.revision,
        key_matches_refl m.digest,
      )
      refl

-- No artifact of a row has changed since it was recorded.
pub record AreUnchanged (valid : Artifact → Bool) (row : Row) : Type 0 where
  pub probe : (a : Artifact) → row.probe ≡ some a → valid a ≡ true
  pub evaluation : (a : Artifact) → row.evaluation ≡ some a → valid a ≡ true
  pub shadow_run : (a : Artifact) → row.shadow_run ≡ some a → valid a ≡ true

stored_lem :
    (valid : Artifact → Bool) (o : Option Artifact)
    → ((a : Artifact) → o ≡ some a → valid a ≡ true)
    → is_present o ≡ true
    → is_stored valid o ≡ true
unfolding is_present is_stored
stored_lem valid none h e = cc
stored_lem valid (some a) h e = h a refl

present_of_passed : (o : Option Artifact) → is_passed o ≡ true → is_present o ≡ true
unfolding is_passed is_present
present_of_passed none h = cc
present_of_passed (some a) h = ground arith

-- An artifact that a rule requires is there and is the recorded file, where a transition has passed.
required_lem :
    (valid : Artifact → Bool) (o : Option Artifact) (required reached present : Bool)
    → reached ≡ true
    → (reached && (required && not present)) ≡ false
    → (present ≡ true → is_stored valid o ≡ true)
    → (not required || (present && is_stored valid o)) ≡ true
required_lem valid o required reached present r h s = elim (Bool-cases present) [
  | inl e ↦ ground (arith, s e)
  | inr e ↦ ground arith
]

module _ {F : Float} (config : PromotionConfig) (spec : ModelSpec F) (q : Request) where
  row_matches-written : (row : Row) → row_matches (written config spec q row) spec ≡ true
  unfolding row_matches written
  row_matches-written row = identities_match_own spec

  -- What a transition writes is what the next overlay reads: the deployment has the state that was
  -- asked for, and its identity matches.
  pub overlaid-written :
      (valid : Artifact → Bool) (row : Row)
      → ((overlaid valid config (written config spec q row) spec).lifecycle ≡ q.target)
        × ((overlaid valid config (written config spec q row) spec).promotion_identity_match ≡ true)
  unfolding overlaid written
  overlaid-written valid row = (rw (row_matches-written row) refl, row_matches-written row)

  pub unblocked :
      (row : Row)
      → validate_transition config spec q row ≡ []
      → (same_state q.target spec.lifecycle ≡ false)
        × Every (λ t. t.0 ≡ false) (transition_tests config spec q (with_artifacts q row))
  unfolding validate_transition
  unblocked row h = elim (Bool-cases (same_state q.target spec.lifecycle)) [
    | inl e ↦ absurd (cc (rw (validate_transition, e) at h))
    | inr e ↦ (
      e,
      none_raised (transition_tests config spec q (with_artifacts q row))
          (rw (validate_transition, e) at h),
    )
  ]

  evidence_lem :
      (valid : Artifact → Bool) (row : Row)
      → (let new = with_artifacts q row in
          same_state q.target approved ≡ true
          → (q.policy_name == "") ≡ false
          → is_passed new.probe ≡ true
          → is_stored valid new.probe ≡ true
          → is_nil (
              missing_capabilities
                (policy_named config q.policy_name).required_probe_capabilities
                new.probe)
            ≡ true
          → (not config.require_evaluation
              || (is_passed new.evaluation && is_stored valid new.evaluation))
            ≡ true
          → (not config.require_shadow_artifact
              || (is_present new.shadow_run && is_stored valid new.shadow_run))
            ≡ true
          → approval_evidence_valid valid config (written config spec q row) ≡ true)
  unfolding approval_evidence_valid written workload_name is_value
  evidence_lem valid row target name passed stored capable evaluated_ok shadow_ok =
      rw
        (
          target,
          workload_name,
          name,
          passed,
          stored,
          capable,
          evaluated_ok,
          shadow_ok,
          beq_refl config.version,
          beq_refl config.content_hash,
        )
        refl

  pub state-written : (row : Row) → (written config spec q row).state ≡ q.target
  unfolding written
  state-written row = refl

  evidence-written :
      (valid : Artifact → Bool) (row : Row)
      → validate_transition config spec q row ≡ []
      → q.target ≡ approved
      → config.require_probe ≡ true
      → (q.policy_name == "") ≡ false
      → AreUnchanged valid (with_artifacts q row)
      → (overlaid valid config (written config spec q row) spec).promotion_evidence_bound ≡ true
  unfolding overlaid transition_tests
  evidence-written valid row h target probe name unchanged =
      let t = (unblocked row h).1 in
      let new = with_artifacts q row in
      let is_target : same_state q.target approved ≡ true =
        ap (λ s. same_state s approved) target in
      let at_probed : from_probed q.target ≡ true = ap from_probed target in
      let at_evaluated : from_evaluated q.target ≡ true = ap from_evaluated target in
      let at_shadow : from_shadow q.target ≡ true = ap from_shadow target in
      let passed : is_passed new.probe ≡ true = ground arith in
      let capable : is_nil (
            missing_capabilities (policy_named config q.policy_name).required_probe_capabilities
              new.probe)
          ≡ true =
        ground arith in
      let probed_file = stored_lem valid new.probe unchanged.probe in
      rw
        (
          row_matches-written row,
          evidence_lem valid row is_target name passed
              (probed_file (present_of_passed new.probe passed)) capable
              (required_lem valid new.evaluation config.require_evaluation (from_evaluated q.target)
                (is_passed new.evaluation) at_evaluated (ground arith)
                (λ e.
                  stored_lem valid new.evaluation unchanged.evaluation
                    (present_of_passed new.evaluation e)))
              (required_lem valid new.shadow_run config.require_shadow_artifact
                (from_shadow q.target) (is_present new.shadow_run) at_shadow (ground arith)
                (stored_lem valid new.shadow_run unchanged.shadow_run)),
        )
        (ap (λ s. same_state s approved && true) (state-written row ∙ target) ∙ refl)

  -- A transition to approval that nothing blocks, even an overridden one, makes the deployment ready
  -- for production at the next overlay: it is approved, its identity matches and its evidence is bound.
  -- The configuration requires a probe, the workload's policy has a name, and no artifact has changed
  -- since it was recorded.
  pub overlaid-approval :
      (valid : Artifact → Bool) (row : Row)
      → validate_transition config spec q row ≡ []
      → q.target ≡ approved
      → config.require_probe ≡ true
      → (q.policy_name == "") ≡ false
      → AreUnchanged valid (with_artifacts q row)
      → (let served = overlaid valid config (written config spec q row) spec in
          (served.lifecycle ≡ approved)
          × (served.promotion_identity_match ≡ true)
          × (served.promotion_evidence_bound ≡ true))
  overlaid-approval valid row h target probe name unchanged = (
    (overlaid-written valid row).0 ∙ target,
    (overlaid-written valid row).1,
    evidence-written valid row h target probe name unchanged,
  )
