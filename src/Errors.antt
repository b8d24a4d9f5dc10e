-- ===== src/Errors.antt =====
-- errors.py: the exception classes of the fabric, with the class that each one extends.
use llm_fabric.Prelude.{ℕ, zero, suc, ◌≡◌, refl, Bool, false, ◌||◌, Option, none, some, beq_of_dec}

-- One constructor for each class, in the order of the file.
pub data ErrorClass : Type 0 where
  fabric configuration authentication authorization resource_not_found : ErrorClass
  tenant_isolation quota_exceeded forbidden_remediation invalid_request : ErrorClass
  model_not_found guardrail_blocked context_too_large dependency_unavailable : ErrorClass
  no_candidate retryable provider_timeout provider_unavailable litellm_unavailable : ErrorClass
  ollama_unavailable vllm_unavailable rate_limited model_unavailable : ErrorClass
  all_candidates_failed : ErrorClass

-- The class in brackets after the name; `fabric` extends Python's `Exception`.
unfoldable pub base : ErrorClass → Option ErrorClass
base fabric = none
base forbidden_remediation = some authorization
base model_not_found = some invalid_request
base guardrail_blocked = some invalid_request
base context_too_large = some invalid_request
base provider_timeout = some retryable
base provider_unavailable = some retryable
base litellm_unavailable = some provider_unavailable
base ollama_unavailable = some provider_unavailable
base vllm_unavailable = some provider_unavailable
base rate_limited = some retryable
base model_unavailable = some retryable
base _ = some fabric

-- The class attribute, the one of the base class where a class sets none.
unfoldable pub status_code : ErrorClass → ℕ
status_code authentication = 401
status_code authorization = 403
status_code forbidden_remediation = 403
status_code resource_not_found = 404
status_code quota_exceeded = 429
status_code invalid_request = 400
status_code model_not_found = 400
status_code guardrail_blocked = 400
status_code context_too_large = 400
status_code dependency_unavailable = 503
status_code no_candidate = 503
status_code retryable = 502
status_code provider_timeout = 502
status_code provider_unavailable = 502
status_code litellm_unavailable = 502
status_code ollama_unavailable = 502
status_code vllm_unavailable = 502
status_code rate_limited = 429
status_code model_unavailable = 502
status_code all_candidates_failed = 502
status_code _ = 500

unfoldable pub ErrorClass-discrete : Discrete ErrorClass
ErrorClass-discrete = hlevel

-- Python's `isinstance`, which walks up the base classes; the hierarchy is four classes deep.
pub is_a_within : ℕ → ErrorClass → ErrorClass → Bool
unfolding base ErrorClass-discrete
is_a_within zero c d = false
is_a_within (suc n) c d =
    beq_of_dec ErrorClass-discrete c d
    || elim (base c) [ none ↦ false | some b ↦ is_a_within n b d ]

unfoldable pub is_instance : ErrorClass → ErrorClass → Bool
unfolding is_a_within
is_instance c d = is_a_within 4 c d

-- More steps find no other base class.
pub is_a_within-enough :
    (n : ℕ) (c d : ErrorClass) → is_a_within (suc (suc (suc (suc n)))) c d ≡ is_instance c d
unfolding is_instance
is_a_within-enough n fabric d = refl
is_a_within-enough n _ d = refl
