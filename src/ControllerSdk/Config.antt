-- ===== src/ControllerSdk/Config.antt =====
-- crates/controller-sdk/src/config.rs, `ControllerSdkConfig`.
use g_rpc_relay.Base.{ℕ, Bool, ◌||◌, ◌++◌, Result, ok, err, if◌then◌else◌, eqb, list_eq, ℕ_eq}
use g_rpc_relay.Text.{Str, str, is_blank, trim, starts_with}
use g_rpc_relay.ControllerSdk.{ControllerSdkError, invalid_config}

pub record ControllerSdkConfig : Type 0 where
  pub relay_address : Str
  pub controller_id : Str
  pub token : Str
  pub max_payload_bytes : ℕ

unfoldable pub default_max_payload_bytes : ℕ
default_max_payload_bytes = 10_485_760

unfoldable pub validate : ControllerSdkConfig → Result (Unit {0}) ControllerSdkError
validate c =
    if is_blank c.relay_address
    then err (invalid_config (str "relay_address must not be empty"))
    else if is_blank c.controller_id
    then err (invalid_config (str "controller_id must not be empty"))
    else if is_blank c.token
    then err (invalid_config (str "token must not be empty"))
    else if eqb c.max_payload_bytes 0
    then err (invalid_config (str "max_payload_bytes must be > 0"))
    else ok tt

-- `addr.starts_with("http://") || addr.starts_with("https://")`
unfoldable pub has_scheme : Str → Bool
has_scheme addr = starts_with addr (str "http://") || starts_with addr (str "https://")

unfoldable pub normalized_endpoint : ControllerSdkConfig → Str
normalized_endpoint c =
    let addr = trim c.relay_address in if has_scheme addr then addr else str "https://" ++ addr
