-- ===== src/Tests/Access.antt =====
-- Authentication, authorisation and the checks of a controller's message.
use g_rpc_relay.Base.{
  ◌≡◌, ◌↔◌, refl, true, false, some, [], ◌∷◌, ok, list_beq, list_eq, ℕ_eq, ℤ_eq, pair_eq,
}
use g_rpc_relay.Collections.HashMap
use g_rpc_relay.Text.{str}
use g_rpc_relay.Proto.{device_not_found}
use g_rpc_relay.Auth
use g_rpc_relay.Auth.{
  ControllerPrincipal, DevicePrincipal, revoked_token, token_is_revoked, authenticate_controller,
  authenticate_controller_table, authenticate_device_by_token, get_device_principal_by_id,
  revoke_controller_token, revoke_device_token, index_devices,
}
use g_rpc_relay.Auth.Identity.{
  Vouched, authenticate_controller_sound, authenticate_device_by_token_sound,
}
use g_rpc_relay.Rbac.{RbacPolicyEngine, authorize_controller_to_device}
use g_rpc_relay.Rbac.Access.{MayUse, MayReach, authorize_controller_to_device_iff}
use g_rpc_relay.Validator.{ValidationError}
use g_rpc_relay.Tests.Data.{dev, ctl, secret_token, auth, decode, device_entry}

abbrev operator : ControllerPrincipal
operator = record {
  controller_id = ctl;
  role = str "operator";
  allowed_project_ids = str "p1" ∷ [];
}

abbrev principal : DevicePrincipal
principal = record { device_id = dev; project_id = str "p1" }

abbrev engine : RbacPolicyEngine
engine = record { enabled = true; method_whitelist = str "ping" ∷ [] }

authenticate_controller_sound_example :
    (operator.controller_id ≡ ctl)
    × (token_is_revoked auth.revoked_controller_tokens (str "token-of-ctl") ≡ false)
    × Vouched decode auth (str "token-of-ctl") operator
unfolding Auth.new authenticate_controller authenticate_controller_table token_is_revoked
    HashMap.get list_beq
authenticate_controller_sound_example =
    authenticate_controller_sound decode auth ctl (str "token-of-ctl") operator refl refl

authenticate_device_by_token_sound_example :
    (principal.device_id ≡ dev)
    × (token_is_revoked auth.revoked_device_tokens secret_token ≡ false)
    × (HashMap.get secret_token auth.device_tokens ≡ some device_entry)
unfolding Auth.new authenticate_device_by_token token_is_revoked HashMap.get list_beq
authenticate_device_by_token_sound_example =
    authenticate_device_by_token_sound auth dev secret_token principal refl refl

authorize_controller_to_device_iff_example :
    (authorize_controller_to_device engine operator principal (str "ping") ≡ ok tt)
    ↔ (MayUse engine (str "ping") × MayReach operator principal)
authorize_controller_to_device_iff_example =
    authorize_controller_to_device_iff engine operator principal (str "ping") refl

abbrev blank_device : ValidationError
blank_device = record {
  code = device_not_found;
  message = str "target_device_id must not be empty";
}
