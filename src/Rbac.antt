-- ===== src/Rbac.antt =====
-- crates/relay/src/rbac.rs: which controller may call which method on which device.
pub mod Access
use g_rpc_relay.Base.{
  Bool, true, not, List, Result, ok, err, if◌then◌else◌, any, is_empty, ◌==◌, list_eq, ℕ_eq,
}
use g_rpc_relay.Text.{Str}
use g_rpc_relay.Auth.{AuthConfig, ControllerPrincipal, DevicePrincipal, admin}

pub data AuthorizationError : Type 0 where
  unauthorized method_not_allowed device_project_forbidden : AuthorizationError

pub record RbacPolicyEngine : Type 0 where
  pub enabled : Bool
  pub method_whitelist : List Str

unfoldable pub new : AuthConfig → RbacPolicyEngine
new config = record { enabled = config.enabled; method_whitelist = config.method_whitelist }

unfoldable pub is_method_allowed : RbacPolicyEngine → Str → Bool
is_method_allowed e method_name =
    if not e.enabled
    then true
    else if is_empty e.method_whitelist
    then true
    else any (λ m. m == method_name) e.method_whitelist

unfoldable pub authorize_controller_to_device :
    RbacPolicyEngine
    → ControllerPrincipal
    → DevicePrincipal
    → Str
    → Result (Unit {0}) AuthorizationError
authorize_controller_to_device e controller device method_name =
    if not e.enabled
    then ok tt
    else if not (is_method_allowed e method_name)
    then err method_not_allowed
    else if controller.role == admin
    then ok tt
    else if any (λ pid. pid == device.project_id) controller.allowed_project_ids
    then ok tt
    else err device_project_forbidden
