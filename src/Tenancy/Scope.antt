-- ===== src/Tenancy/Scope.antt =====
-- tenancy/scope.py: `TenantScope`, who the caller is.
use Prim.Native.String.{◌++◌}
use llm_fabric.Prelude.{Option, none, some, String, ◌==◌, string_eq, if◌then◌else◌}

pub record TenantScope : Type 0 where
  pub tenant_id : String
  pub user_id : Option String
  pub project_id : Option String

-- An optional text that is missing or empty counts as false.
unfoldable pub given : Option String → Option String
given none = none
given (some text) = if text == "" then none else some text

-- The property `user_key`.
unfoldable pub user_key : TenantScope → String
unfolding given
user_key scope =
    scope.tenant_id ++ "/" ++ elim (given scope.user_id) [ none ↦ "-" | some user ↦ user ]
