-- ===== src/Auth.antt =====
-- crates/relay/src/auth.rs: who may speak for a controller or a device. The JWT library decodes a
-- token for given settings: that function is a parameter. Locks are taken as never poisoned.
pub mod Revocation
pub mod Identity
use g_rpc_relay.Base.{
  ℕ, Bool, true, false, not, ◌||◌, Option, none, some, List, [], ◌∷◌, Result, ok, err,
  if◌then◌else◌, any, is_empty, take, ◌==◌, list_eq, ℕ_eq,
}
use g_rpc_relay.Collections.HashMap
use g_rpc_relay.Collections.HashMap.{HashMap}
use g_rpc_relay.Collections.HashSet
use g_rpc_relay.Collections.HashSet.{HashSet}
use g_rpc_relay.Text.{Str, str, starts_with}

pub record ControllerAuthEntry : Type 0 where
  pub controller_id : Str
  pub role : Str
  pub allowed_project_ids : List Str

pub record DeviceAuthEntry : Type 0 where
  pub device_id : Str
  pub project_id : Str

pub record JwtConfig : Type 0 where
  pub enabled : Bool
  pub hs256_secret : Str
  pub issuer : Option Str
  pub audience : Option Str
  pub clock_skew_seconds : ℕ

pub record AuthConfig : Type 0 where
  pub enabled : Bool
  pub controller_tokens : HashMap Str ControllerAuthEntry
  pub device_tokens : HashMap Str DeviceAuthEntry
  pub method_whitelist : List Str
  pub jwt : JwtConfig

pub record ControllerPrincipal : Type 0 where
  pub controller_id : Str
  pub role : Str
  pub allowed_project_ids : List Str

pub record DevicePrincipal : Type 0 where
  pub device_id : Str
  pub project_id : Str

pub data AuthError : Type 0 where
  invalid_token controller_id_mismatch device_id_mismatch unknown_device : AuthError
  revoked_token jwt_not_configured : AuthError

pub record JwtAuth : Type 0 where
  pub enabled : Bool
  pub secret : Str
  pub issuer : Option Str
  pub audience : Option Str
  pub clock_skew_seconds : ℕ

pub record AuthService : Type 0 where
  pub enabled : Bool
  pub jwt : JwtAuth
  pub controller_tokens : HashMap Str ControllerAuthEntry
  pub device_tokens : HashMap Str DeviceAuthEntry
  pub device_by_id : HashMap Str DeviceAuthEntry
  pub revoked_controller_tokens : HashSet Str
  pub revoked_device_tokens : HashSet Str

pub record ControllerClaims : Type 0 where
  pub sub : Str
  pub controller_id : Str
  pub role : Str
  pub allowed_project_ids : List Str

-- The settings of `jsonwebtoken::Validation` that the code sets; the algorithm is HS256.
pub record Validation : Type 0 where
  pub leeway : ℕ
  pub issuer : Option Str
  pub audience : Option Str
  pub validate_aud : Bool

-- `decode`: the settings, the secret and the token give the claims, if the token is valid.
abbrev pub Decode : Type 0
Decode = Validation → Str → Str → Option ControllerClaims

-- The loop of `new` over the values of `device_tokens`.
unfoldable pub index_devices :
    HashMap Str DeviceAuthEntry → HashMap Str DeviceAuthEntry → HashMap Str DeviceAuthEntry
index_devices [] by_id = by_id
index_devices ((_, entry) ∷ tokens) by_id =
    index_devices tokens (HashMap.insert entry.device_id entry by_id)

unfoldable pub new : AuthConfig → AuthService
unfolding index_devices
new config = record {
  enabled = config.enabled;
  jwt = record {
    enabled = config.jwt.enabled;
    secret = config.jwt.hs256_secret;
    issuer = config.jwt.issuer;
    audience = config.jwt.audience;
    clock_skew_seconds = config.jwt.clock_skew_seconds;
  };
  controller_tokens = config.controller_tokens;
  device_tokens = config.device_tokens;
  device_by_id = index_devices config.device_tokens [];
  revoked_controller_tokens = [];
  revoked_device_tokens = [];
}

abbrev pub admin : Str
admin = str "admin"

unfoldable pub token_is_revoked : HashSet Str → Str → Bool
token_is_revoked tokens token =
    any (λ revoked. token == revoked || starts_with token revoked) tokens

unfoldable pub validation : JwtAuth → Validation
validation jwt = record {
  leeway = jwt.clock_skew_seconds;
  issuer = jwt.issuer;
  audience = jwt.audience;
  validate_aud = elim jwt.audience [ none ↦ false | some _ ↦ true ];
}

module _ (decode : Decode) where
  unfoldable pub authenticate_controller_jwt :
      AuthService → Str → Str → Result ControllerPrincipal AuthError
  authenticate_controller_jwt a controller_id token =
      if is_empty a.jwt.secret
      then err jwt_not_configured
      else elim (decode (validation a.jwt) a.jwt.secret token) [
        | none ↦ err invalid_token
        | some claims ↦
            if not (claims.controller_id == controller_id) || not (claims.sub == controller_id)
            then err controller_id_mismatch
            else ok (record {
              controller_id = claims.controller_id;
              role = claims.role;
              allowed_project_ids = claims.allowed_project_ids;
            })
      ]

  -- The look-up in the static table.
  unfoldable pub authenticate_controller_table :
      AuthService → Str → Str → Result ControllerPrincipal AuthError
  authenticate_controller_table a controller_id token =
      elim (HashMap.get token a.controller_tokens) [
        | none ↦ err invalid_token
        | some entry ↦
            if not (entry.controller_id == controller_id)
            then err controller_id_mismatch
            else ok (record {
              controller_id = entry.controller_id;
              role = entry.role;
              allowed_project_ids = entry.allowed_project_ids;
            })
      ]

  unfoldable pub authenticate_controller :
      AuthService → Str → Str → Result ControllerPrincipal AuthError
  authenticate_controller a controller_id token =
      if not a.enabled
      then ok (record { controller_id = controller_id; role = admin; allowed_project_ids = [] })
      else if token_is_revoked a.revoked_controller_tokens token
      then err revoked_token
      else if a.jwt.enabled
      then authenticate_controller_jwt a controller_id token
      else authenticate_controller_table a controller_id token

unfoldable pub authenticate_device_by_token :
    AuthService → Str → Str → Result DevicePrincipal AuthError
authenticate_device_by_token a device_id token =
    if not a.enabled
    then ok (record { device_id = device_id; project_id = [] })
    else if token_is_revoked a.revoked_device_tokens token
    then err revoked_token
    else elim (HashMap.get token a.device_tokens) [
      | none ↦ err invalid_token
      | some entry ↦
          if not (entry.device_id == device_id)
          then err device_id_mismatch
          else ok (record { device_id = entry.device_id; project_id = entry.project_id })
    ]

unfoldable pub get_device_principal_by_id : AuthService → Str → Result DevicePrincipal AuthError
get_device_principal_by_id a device_id =
    if not a.enabled
    then ok (record { device_id = device_id; project_id = [] })
    else elim (HashMap.get device_id a.device_by_id) [
      | none ↦ err unknown_device
      | some entry ↦ ok (record { device_id = entry.device_id; project_id = entry.project_id })
    ]

unfoldable pub token_prefix : Str → Str
token_prefix token = take 8 token

unfoldable pub revoke_controller_token : AuthService → Str → AuthService
revoke_controller_token a token_hash_or_prefix = record a {
  revoked_controller_tokens = HashSet.insert token_hash_or_prefix a.revoked_controller_tokens;
}

unfoldable pub revoke_device_token : AuthService → Str → AuthService
revoke_device_token a token_hash_or_prefix = record a {
  revoked_device_tokens = HashSet.insert token_hash_or_prefix a.revoked_device_tokens;
}
