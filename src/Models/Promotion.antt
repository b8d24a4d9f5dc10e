-- ===== src/Models/Promotion.antt =====
-- models/promotion.py: the lifecycle of a deployment, from registration to approval.
--
-- A row of the store is a record. What `artifact_ref` makes of a file, and whether a stored artifact
-- is still the file that was recorded, are arguments: both read the disk. `artifact_ref` writes the
-- key `path`, so the older key `artifact` is not read.
pub mod Overlay
pub mod Moves
pub mod Stages
pub mod Evidence
pub mod Examples
use llm_fabric.Prelude.{
  Bool, true, false, not, ◌&&◌, ◌||◌, Option, none, some, List, [], ◌∷◌, ◌++◌, map, String, ◌==◌,
  string_eq, nat_eq, contains, keep, first, or_else, if◌then◌else◌,
}
use llm_fabric.Prelude.Float.{Float}
use llm_fabric.Prelude.Dict
use llm_fabric.Prelude.Dict.{Dict}
use llm_fabric.Router.Tiers.{ServiceTier}
use llm_fabric.Router.Registry.{
  PromotionState, registered, probed, evaluated, shadow, approved, disabled, same_state, ModelSpec,
}

-- `target in TRANSITIONS.get(current, frozenset())`
unfoldable pub is_allowed : PromotionState → PromotionState → Bool
is_allowed registered probed = true
is_allowed registered disabled = true
is_allowed probed evaluated = true
is_allowed probed registered = true
is_allowed probed disabled = true
is_allowed evaluated shadow = true
is_allowed evaluated probed = true
is_allowed evaluated disabled = true
is_allowed shadow approved = true
is_allowed shadow evaluated = true
is_allowed shadow disabled = true
is_allowed approved disabled = true
is_allowed approved shadow = true
is_allowed disabled registered = true
is_allowed _ _ = false

-- Of `spec_identity`, the keys that are compared.
pub record Identity : Type 0 where
  pub provider : Option String
  pub provider_model : Option String
  pub revision : Option String
  pub digest : Option String

-- A reference to a file. `supported` holds the capabilities that it measured as supported.
pub record Artifact : Type 0 where
  pub path : String
  pub sha256 : String
  pub passed : Bool
  pub supported : List String

pub record Approval : Type 0 where
  pub is_approved : Bool
  pub policy_version : Option String
  pub policy_hash : Option String
  pub workload_policy : Option String

pub record Row : Type 0 where
  pub state : PromotionState
  pub probe : Option Artifact
  pub evaluation : Option Artifact
  pub shadow_run : Option Artifact
  pub approval : Approval
  pub identity : Option Identity
  pub approved_tiers : List ServiceTier
  pub approved_workloads : Dict String (List ServiceTier)
  pub history : List (PromotionState × PromotionState)

pub record WorkloadPolicy : Type 0 where
  pub name : String
  pub required_probe_capabilities : List String

pub record PromotionConfig : Type 0 where
  pub version : String
  pub content_hash : String
  pub commercial_use_required : Bool
  pub bind_identity : Bool
  pub require_probe : Bool
  pub require_evaluation : Bool
  pub require_shadow_artifact : Bool
  pub policies : List WorkloadPolicy

-- The arguments of a transition, with what `artifact_ref` has made of the files.
pub record Request : Type 0 where
  pub target : PromotionState
  pub policy_name : String
  pub force : Bool
  pub has_reason : Bool
  pub probe : Option Artifact
  pub evaluation : Option Artifact
  pub shadow_run : Option Artifact
  pub tiers : List ServiceTier
  pub workloads : Dict String (List ServiceTier)

-- The reasons that block a transition.
pub data Blocker : Type 0 where
  already cannot_move override_without_reason revision_mismatch : Blocker
  without_probe capabilities_not_measured without_evaluation without_shadow : Blocker
  without_tiers tiers_not_declared workload_outside_tiers : Blocker
  commercial_use_forbidden commercial_use_unknown : Blocker

-- The policy of the name, an empty one where there is none.
unfoldable pub policy_named : PromotionConfig → String → WorkloadPolicy
policy_named config name =
    or_else (first (λ p. p.name == name) config.policies)
      (record { name = name; required_probe_capabilities = [] })

unfoldable pub spec_identity : {F : Float} → ModelSpec F → Identity
spec_identity m = record {
  provider = some m.provider;
  provider_model = some m.provider_model;
  revision = m.revision;
  digest = m.digest;
}

-- One round of the loop of `identities_match`: a missing or empty value matches anything.
unfoldable pub key_matches : Option String → Option String → Bool
key_matches none right = true
key_matches (some left) none = true
key_matches (some left) (some right) = left == "" || (right == "" || left == right)

unfoldable pub identities_match : {F : Float} → ModelSpec F → Option Identity → Bool
unfolding spec_identity key_matches
identities_match m none = true
identities_match m (some recorded) =
    let own = spec_identity m in
    (key_matches own.provider recorded.provider
      && key_matches own.provider_model recorded.provider_model)
    && (key_matches own.revision recorded.revision && key_matches own.digest recorded.digest)

-- `_probe_passed` and `_eval_present`
unfoldable pub is_passed : Option Artifact → Bool
is_passed none = false
is_passed (some a) = a.passed && not (a.path == "")

-- `_shadow_present`
unfoldable pub is_present : Option Artifact → Bool
is_present none = false
is_present (some a) = not (a.path == "")

-- The capabilities of the workload's policy that the probe has not measured as supported.
unfoldable pub missing_capabilities : List String → Option Artifact → List String
missing_capabilities required none = required
missing_capabilities required (some a) = keep (λ c. not (contains c a.supported)) required

-- `row = store.record(spec.id)`
unfoldable pub new_row : Row
new_row = record {
  state = registered;
  probe = none;
  evaluation = none;
  shadow_run = none;
  approval = record {
    is_approved = false;
    policy_version = none;
    policy_hash = none;
    workload_policy = none;
  };
  identity = none;
  approved_tiers = [];
  approved_workloads = [];
  history = [];
}

-- The row with the artifacts that the request brings.
unfoldable pub with_artifacts : Request → Row → Row
with_artifacts q row = record row {
  probe = elim q.probe [ none ↦ row.probe | some a ↦ some a ];
  evaluation = elim q.evaluation [ none ↦ row.evaluation | some a ↦ some a ];
  shadow_run = elim q.shadow_run [ none ↦ row.shadow_run | some a ↦ some a ];
}

-- `target in {PROBED, EVALUATED, SHADOW, APPROVED}`, and the sets that begin with the others.
unfoldable pub from_probed : PromotionState → Bool
from_probed registered = false
from_probed disabled = false
from_probed _ = true

unfoldable pub from_evaluated : PromotionState → Bool
from_evaluated probed = false
from_evaluated s = from_probed s

unfoldable pub from_shadow : PromotionState → Bool
from_shadow shadow = true
from_shadow approved = true
from_shadow _ = false

unfoldable pub is_nil {ℓ} : {A : Type ℓ} → List A → Bool
is_nil [] = true
is_nil (x ∷ xs) = false

-- Every tier of the first list is in the second.
unfoldable pub within : List ServiceTier → List ServiceTier → Bool
within [] tiers = true
within (t ∷ ts) tiers = contains t tiers && within ts tiers

unfoldable pub workloads_within : Dict String (List ServiceTier) → List ServiceTier → Bool
unfolding within
workloads_within [] tiers = true
workloads_within ((name, ts) ∷ more) tiers = within ts tiers && workloads_within more tiers

-- `spec.commercial_use is False` and `is None`
unfoldable pub is_refused : Option Bool → Bool
is_refused (some false) = true
is_refused _ = false

unfoldable pub is_unknown : Option Bool → Bool
is_unknown none = true
is_unknown _ = false

module _ {F : Float} (config : PromotionConfig) (spec : ModelSpec F) (q : Request) where
  -- The tests of an approval.
  unfoldable pub approval_tests : List (Bool × Blocker)
  unfolding is_nil within workloads_within is_refused is_unknown
  approval_tests =
      (is_nil q.tiers, without_tiers)
      ∷ (not (within q.tiers spec.tiers), tiers_not_declared)
      ∷ (not (workloads_within q.workloads q.tiers), workload_outside_tiers)
      ∷ (config.commercial_use_required && is_refused spec.commercial_use, commercial_use_forbidden)
      ∷ (config.commercial_use_required && is_unknown spec.commercial_use, commercial_use_unknown)
      ∷ []

  -- The tests of `validate_transition` behind the first, for the row with the new artifacts.
  unfoldable pub transition_tests : Row → List (Bool × Blocker)
  unfolding is_allowed same_state identities_match policy_named is_passed is_present
      missing_capabilities from_probed from_evaluated from_shadow is_nil approval_tests
  transition_tests row =
      let required = (policy_named config q.policy_name).required_probe_capabilities in
      (not (is_allowed spec.lifecycle q.target) && not q.force, cannot_move)
      ∷ (q.force && not q.has_reason, override_without_reason)
      ∷ (config.bind_identity && not (identities_match spec row.identity), revision_mismatch)
      ∷ (not spec.promotion_identity_match, revision_mismatch)
      ∷ (from_probed q.target && (config.require_probe && not (is_passed row.probe)), without_probe)
      ∷ (
        from_probed q.target && not (is_nil (missing_capabilities required row.probe)),
        capabilities_not_measured,
      )
      ∷ (
        from_evaluated q.target && (config.require_evaluation && not (is_passed row.evaluation)),
        without_evaluation,
      )
      ∷ (
        from_shadow q.target && (config.require_shadow_artifact && not (is_present row.shadow_run)),
        without_shadow,
      )
      ∷ (if same_state q.target approved then approval_tests else [])

-- The reasons of the tests that hold.
unfoldable pub raised_by : List (Bool × Blocker) → List Blocker
raised_by [] = []
raised_by ((holds, b) ∷ tests) = let rest = raised_by tests in if holds then b ∷ rest else rest

module _ {F : Float} (config : PromotionConfig) (spec : ModelSpec F) (q : Request) where
  -- `validate_transition`
  unfoldable pub validate_transition : Row → List Blocker
  unfolding same_state with_artifacts transition_tests raised_by
  validate_transition row =
      if same_state q.target spec.lifecycle
      then already ∷ []
      else raised_by (transition_tests config spec q (with_artifacts q row))

  -- What `apply_transition` writes over the row.
  unfoldable pub written : Row → Row
  unfolding same_state with_artifacts spec_identity is_nil
  written row =
      let is_approval = same_state q.target approved in
      record (with_artifacts q row) {
        state = q.target;
        identity = some (spec_identity spec);
        approved_tiers = if is_nil q.tiers then row.approved_tiers else q.tiers;
        approved_workloads = if is_nil q.workloads then row.approved_workloads else q.workloads;
        approval = record {
          is_approved = is_approval;
          policy_version = if is_approval then some config.version else none;
          policy_hash = if is_approval then some config.content_hash else none;
          workload_policy = if is_approval then some q.policy_name else none;
        };
        history = row.history ++ (spec.lifecycle, q.target) ∷ [];
      }

  -- `apply_transition` without `dry_run`: the rows that are left, and what blocked it.
  unfoldable pub apply_transition : Dict String Row → Dict String Row × List Blocker
  unfolding validate_transition written new_row
  apply_transition rows =
      let row = or_else (Dict.get spec.id rows) new_row in
      elim (validate_transition row) [
        | [] ↦ (Dict.put spec.id (written row) rows, [])
        | b ∷ bs ↦ (rows, b ∷ bs)
      ]
