-- ===== src/Models/Promotion/Examples.antt =====
-- Tests of the lifecycle: a deployment that is probed, evaluated, run in the shadow and approved.
use llm_fabric.Prelude.{
  ◌≡◌, ◌≤◌, ℕ, refl, true, false, Bool, Option, some, List, [], ◌∷◌, String, length, keep, first,
  contains, string_eq, nat_eq, Every,
}
use llm_fabric.Prelude.Dict
use llm_fabric.Prelude.Dict.{Dict}
use llm_fabric.Prelude.Float.{whole}
use llm_fabric.Router.Registry.{
  PromotionState, registered, probed, evaluated, shadow, approved, local, ModelSpec,
}
use llm_fabric.Router.Plan.Planner.Examples.{deployment}
use llm_fabric.Models.Promotion.{
  Artifact, PromotionConfig, Request, validate_transition, written, new_row, with_artifacts,
  cannot_move,
}
use llm_fabric.Models.Promotion.Overlay.{overlaid, served_as}
use llm_fabric.Models.Promotion.Evidence.{AreUnchanged, overlaid-approval}
use llm_fabric.Models.Promotion.Moves.{Moves, session, session-Moves}
use llm_fabric.Models.Promotion.Stages.{Visits, states_served, session_approval}

abbrev spec : ModelSpec whole
spec = record (deployment "near" local 8) { lifecycle = registered; tiers = 3 ∷ 4 ∷ [] }

abbrev config : PromotionConfig
config = record {
  version = "2026.08.24";
  content_hash = "abc";
  commercial_use_required = false;
  bind_identity = true;
  require_probe = true;
  require_evaluation = true;
  require_shadow_artifact = true;
  policies = record { name = "default"; required_probe_capabilities = "chat" ∷ [] } ∷ [];
}

abbrev file : String → Option Artifact
file path = some (record { path = path; sha256 = "0f"; passed = true; supported = "chat" ∷ [] })

abbrev request : PromotionState → Request
request target = record {
  target = target;
  policy_name = "default";
  force = false;
  has_reason = false;
  probe = file "artifacts/probe.json";
  evaluation = file "artifacts/eval.json";
  shadow_run = file "artifacts/shadow.json";
  tiers = 3 ∷ [];
  workloads = ("coding", 3 ∷ []) ∷ [];
}

-- A file on the disk that is still the one that was recorded.
abbrev valid : Artifact → Bool
valid a = true

abbrev in_shadow : ModelSpec whole
in_shadow = record spec { lifecycle = shadow }

abbrev unchanged : AreUnchanged valid (with_artifacts (request approved) new_row)
unchanged = record { probe = λ a e. refl; evaluation = λ a e. refl; shadow_run = λ a e. refl }

validated : validate_transition config in_shadow (request approved) new_row ≡ []
unfolding validate_transition new_row keep first contains
validated = refl

overlaid-approval_example :
    let served =
      overlaid valid config (written config in_shadow (request approved) new_row) in_shadow in
    (served.lifecycle ≡ approved)
    × (served.promotion_identity_match ≡ true)
    × (served.promotion_evidence_bound ≡ true)
overlaid-approval_example =
    overlaid-approval config in_shadow (request approved) valid new_row validated refl refl refl
      unchanged

-- A registered deployment is not approved, without an override.
refused : validate_transition config spec (request approved) new_row ≡ cannot_move ∷ []
unfolding validate_transition new_row keep first contains
refused = refl

abbrev requests : List Request
requests = request probed ∷ request evaluated ∷ request shadow ∷ request approved ∷ []

unforced : Every (λ q. q.force ≡ false) requests
unforced = (refl, (refl, (refl, (refl, tt))))

session-Moves_example :
    (n : ℕ) × (n ≤ length requests)
    × Moves n
        (served_as valid config [] spec).lifecycle
        (served_as valid config (session valid config spec requests []) spec).lifecycle
session-Moves_example = session-Moves valid config spec requests [] unforced

started : (served_as valid config [] spec).lifecycle ≡ registered
unfolding served_as Dict.get
started = refl

ended : (served_as valid config (session valid config spec requests []) spec).lifecycle ≡ approved
unfolding session served_as Dict.get Dict.put keep first contains
ended = refl

session_approval_example :
    Visits
      (probed ∷ evaluated ∷ shadow ∷ approved ∷ [])
      (states_served valid config spec requests [])
    × (4 ≤ length requests)
session_approval_example = session_approval valid config spec requests [] unforced started ended
