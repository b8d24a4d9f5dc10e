-- ===== src/Router/Fallback/Classes.antt =====
-- Which reasons the error classes lead to.
use llm_fabric.Prelude.{◌≡◌, refl, true, List, [], ◌∷◌, contains, arith}
use llm_fabric.Errors.{ErrorClass, fabric, retryable, is_instance, status_code}
use llm_fabric.Router.Fallback.Reason.{
  FallbackReason, timeout, rate_limited, provider_down, model_unavailable, reason_eq, same_reason,
  reason_for_error, fabric_error,
}

-- The reasons of the errors after which the engine moves on.
abbrev pub retried_reasons : List FallbackReason
retried_reasons = timeout ∷ rate_limited ∷ provider_down ∷ model_unavailable ∷ []

-- Every retryable error leads to one of four reasons: it is never read as an oversized context, an
-- overload, a safety requirement, or a failure of structure or quality.
pub retryable_reason :
    (c : ErrorClass)
    → is_instance c ErrorClass.retryable ≡ true
    → contains (reason_for_error (fabric_error c)) retried_reasons ≡ true
unfolding reason_for_error is_instance contains same_reason status_code
retryable_reason fabric h = cc
retryable_reason retryable h = refl
retryable_reason _ h = ground arith
