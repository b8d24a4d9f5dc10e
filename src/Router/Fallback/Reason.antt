-- ===== src/Router/Fallback/Reason.antt =====
-- router/fallback.py: `FallbackReason` and `reason_for_error`.
use llm_fabric.Prelude.{
  ◌≡◌, refl, ◌↔◌, Bool, true, ◌||◌, Option, none, some, List, [], ◌∷◌, String, Eq, ◌==◌, string_eq,
  eq_of_beq, beq_refl, contains, if◌then◌else◌, nat_beq,
}
use llm_fabric.Errors.{ErrorClass, is_instance, status_code}

pub data FallbackReason : Type 0 where
  timeout overloaded rate_limited provider_down context_too_large : FallbackReason
  model_unavailable safety_requirement structured_output_failure quality_failure : FallbackReason

-- The string that a member of the `StrEnum` is.
unfoldable pub value : FallbackReason → String
value timeout = "timeout"
value overloaded = "overloaded"
value rate_limited = "rate_limited"
value provider_down = "provider_down"
value context_too_large = "context_too_large"
value model_unavailable = "model_unavailable"
value safety_requirement = "safety_requirement"
value structured_output_failure = "structured_output_failure"
value quality_failure = "quality_failure"

abbrev pub any_reason : List FallbackReason
any_reason =
    timeout ∷ overloaded ∷ rate_limited ∷ provider_down ∷ context_too_large ∷ model_unavailable
    ∷ safety_requirement ∷ structured_output_failure ∷ quality_failure ∷ []

-- `FallbackReason(text)`: the member with that value; `ValueError` is `none`.
find_value : String → List FallbackReason → Option FallbackReason
find_value text [] = none
find_value text (r ∷ rs) = if text == value r then some r else find_value text rs

unfoldable pub of_value : String → Option FallbackReason
unfolding find_value value
of_value text = find_value text any_reason

pub of_value-value : (r : FallbackReason) → of_value (value r) ≡ some r
unfolding of_value
of_value-value timeout = refl
of_value-value _ = refl

-- Members are compared as the strings that they are.
unfoldable pub same_reason : FallbackReason → FallbackReason → Bool
unfolding value
same_reason a b = value a == value b

pub same_reason_iff : (a b : FallbackReason) → (same_reason a b ≡ true) ↔ (a ≡ b)
unfolding same_reason
same_reason_iff a b = (
  λ h. cc (of_value-value a, of_value-value b, eq_of_beq (value a) (value b) h),
  λ e. rw e (beq_refl (value b)),
)

instance abbrev pub reason_eq : Eq FallbackReason
reason_eq = record { same = same_reason; same_iff = same_reason_iff }

unfoldable pub is_capacity : FallbackReason → Bool
is_capacity r = contains r (timeout ∷ overloaded ∷ rate_limited ∷ provider_down ∷ [])

-- What an `except` clause may hold: one of the fabric's errors, or any other exception.
pub data Raised : Type 0 where
  fabric_error : ErrorClass → Raised
  foreign : Raised

-- The tests of `reason_for_error`, in its order; each first argument is the class of the error.
unfoldable pub reason_for_class : ErrorClass → FallbackReason
reason_for_class c =
    if is_instance c ErrorClass.provider_timeout
    then timeout
    else if is_instance c ErrorClass.quota_exceeded || is_instance c ErrorClass.rate_limited
    then rate_limited
    else if is_instance c ErrorClass.context_too_large
    then context_too_large
    else if is_instance c ErrorClass.model_not_found || is_instance c ErrorClass.model_unavailable
    then model_unavailable
    else if is_instance c ErrorClass.provider_unavailable
    then provider_down
    else if is_instance c ErrorClass.invalid_request
    then model_unavailable
    else if is_instance c ErrorClass.retryable
    then (if nat_beq (status_code c) 429
        then rate_limited
        else if nat_beq (status_code c) 503
        then overloaded
        else provider_down)
    else provider_down

unfoldable pub reason_for_error : Raised → FallbackReason
unfolding reason_for_class
reason_for_error (fabric_error c) = reason_for_class c
reason_for_error foreign = provider_down
