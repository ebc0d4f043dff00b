-- ===== src/Handlers.antt =====
-- crates/relay/src/grpc_service.rs: the unary calls `list_online_devices` and `revoke_token`.
pub mod Permission
use g_rpc_relay.Base.{
  ℕ, ℤ, pos, Bool, false, not, ◌&&◌, ◌||◌, Option, none, some, List, [], Result, ok, err,
  if◌then◌else◌, any, filter, is_empty, ◌==◌, list_eq, ℕ_eq, ℤ_eq, ◌>>=◌, ◌>>◌,
}
use g_rpc_relay.Collections.HashMap
use g_rpc_relay.Text.{Str, str, is_blank}
use g_rpc_relay.Proto.{DeviceInfo}
use g_rpc_relay.Session
use g_rpc_relay.RateLimiter.Requests.{allow}
use g_rpc_relay.Auth.{
  AuthService, ControllerPrincipal, Decode, admin, authenticate_controller,
  get_device_principal_by_id, revoke_controller_token, revoke_device_token, token_prefix,
}
use g_rpc_relay.Service.{
  Relay, auth_success, auth_failure, rate_limit, authorization_denied, audited, record_auth_success,
  record_auth_failure, record_authorization_denied, record_rate_limit, record_revoked_token,
}

pub record ListOnlineDevicesRequest : Type 0 where
  pub controller_id : Str
  pub token : Str
  pub region_filter : Str

-- The target type is the number that prost leaves; the reason is only logged.
pub record RevokeTokenRequest : Type 0 where
  pub controller_id : Str
  pub admin_token : Str
  pub target_type : ℤ
  pub target_token_hash_or_prefix : Str

-- `tonic::Status`.
pub data Status : Type 0 where
  unauthenticated invalid_argument permission_denied resource_exhausted : Str → Status

-- A failed call has a status, and leaves the relay that goes with it.
abbrev pub Reply : Type 0 → Type 0
Reply A = Result (A × Relay) (Status × Relay)

abbrev pub controller : Str
controller = str "controller"

unfoldable pub fail_authentication : {A : Type 0} → Relay → Str → Str → Option Str → Str → Reply A
fail_authentication r controller_id reason prefix message = err (
  unauthenticated message,
  audited (auth_failure controller controller_id reason prefix)
      (record r { security_metrics = record_auth_failure r.security_metrics }),
)

unfoldable pub deny : {A : Type 0} → Relay → Str → Str → Str → Reply A
deny r controller_id reason message = err (
  permission_denied message,
  audited (authorization_denied controller_id [] [] reason)
      (record r { security_metrics = record_authorization_denied r.security_metrics }),
)

module _ (decode : Decode) where
  -- The credentials of both calls.
  unfoldable pub identify : Relay → Str → Str → Reply ControllerPrincipal
  identify r controller_id token =
      if is_blank controller_id || is_blank token
      then fail_authentication r controller_id (str "missing_credentials") none
          (str "missing controller_id or token")
      else elim (authenticate_controller decode r.auth controller_id token) [
        | err _ ↦
            fail_authentication r controller_id (str "invalid_controller_token")
              (some (token_prefix token)) (str "invalid controller token")
        | ok principal ↦ ok (
          principal,
          audited (auth_success controller controller_id)
              (record r { security_metrics = record_auth_success r.security_metrics }),
        )
      ]

-- The filter of the list.
unfoldable pub is_in_region : Str → DeviceInfo → Bool
is_in_region region_filter info =
    is_blank region_filter || elim (HashMap.get (str "region") info.metadata) as (λ _. Bool) [
      | none ↦ is_empty region_filter
      | some region ↦ region == region_filter
    ]

unfoldable pub is_visible : AuthService → ControllerPrincipal → DeviceInfo → Bool
is_visible a principal info =
    principal.role == admin || elim (get_device_principal_by_id a info.device_id) as (λ _. Bool) [
      | err _ ↦ false
      | ok device ↦ any (λ pid. pid == device.project_id) principal.allowed_project_ids
    ]

unfoldable pub limit_list : Relay → Str → (times : ℕ × ℕ × ℕ × ℕ) → Reply (Unit {0})
limit_list r controller_id times =
    let (t0, t1, t2, t3) = times in
    let (limiter, allowed) = allow r.rate_limiter (str "*") controller_id t0 t1 t2 t3 in
    let r1 = record r { rate_limiter = limiter } in
    if allowed
    then ok (tt, r1)
    else err (
      resource_exhausted (str "rate limited"),
      audited (rate_limit controller controller_id (str "request_rate"))
          (record r1 { security_metrics = record_rate_limit r.security_metrics }),
    )

unfoldable pub visible_devices :
    Relay → ListOnlineDevicesRequest → ControllerPrincipal → Reply (List DeviceInfo)
visible_devices r req principal =
    if not (principal.role == admin) && is_empty principal.allowed_project_ids
    then deny r req.controller_id (str "no_project_permissions") (str "no project permissions")
    else ok (
      filter (λ info. is_in_region req.region_filter info && is_visible r.auth principal info)
          (Session.list_online_devices r.state r.relay_address),
      r,
    )

unfoldable pub revoke : Relay → RevokeTokenRequest → Reply (Unit {0})
revoke r req =
    if req.target_type == pos 1
    then ok (tt, counted (revoke_controller_token r.auth req.target_token_hash_or_prefix))
    else if req.target_type == pos 2
    then ok (tt, counted (revoke_device_token r.auth req.target_token_hash_or_prefix))
    else err (invalid_argument (str "invalid target_type"), r)
  where
    counted : AuthService → Relay
    counted a = record r { auth = a; security_metrics = record_revoked_token r.security_metrics }

unfoldable pub revoke_as : ControllerPrincipal → Relay → RevokeTokenRequest → Reply (Unit {0})
revoke_as principal r req =
    if not (principal.role == admin)
    then deny r req.controller_id (str "revoke_requires_admin") (str "admin role required")
    else revoke r req

module _ (decode : Decode) where
  unfoldable pub list_online_devices :
      Relay → ListOnlineDevicesRequest → (times : ℕ × ℕ × ℕ × ℕ) → Reply (List DeviceInfo)
  list_online_devices r req times = do
    (principal, r1) ← identify decode r req.controller_id req.token
    (_, r2) ← limit_list r1 req.controller_id times
    visible_devices r2 req principal

  unfoldable pub revoke_token : Relay → RevokeTokenRequest → Reply (Unit {0})
  revoke_token r req =
      let identified = identify decode r req.controller_id req.admin_token in
      let unnamed =
        not (is_blank req.controller_id || is_blank req.admin_token)
        && is_blank req.target_token_hash_or_prefix in
      if unnamed
      then err (invalid_argument (str "missing target_token_hash_or_prefix"), r)
      else do (principal, r1) ← identified; revoke_as principal r1 req
