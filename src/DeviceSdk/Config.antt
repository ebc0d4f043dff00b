-- ===== src/DeviceSdk/Config.antt =====
-- crates/device-sdk/src/config.rs, `DeviceSdkConfig`.
use g_rpc_relay.Base.{
  ℕ, ◌<◌, ◌≡◌, ◌↔◌, Bool, true, false, ◌||◌, ◌&&◌, Option, none, some, List, [], ◌∷◌, map, leb, ◌+◌,
  ◌++◌, Result, ok, err, arith, if◌then◌else◌, eqb, ◌==◌, ◌>>=◌, list_eq, ℕ_eq,
}
use g_rpc_relay.Collections.HashMap
use g_rpc_relay.Collections.HashMap.{HashMap}
use g_rpc_relay.Text.{Str, str, is_blank, starts_with}
use g_rpc_relay.Text.Split.{drop}
use g_rpc_relay.Text.Decimal.{parse_uint}
use g_rpc_relay.DeviceSdk.{DeviceSdkError, invalid_config, missing_token}

pub record RelayEndpointConfig : Type 0 where
  pub tcp_addr : Str
  pub quic_addr : Option Str

pub record TransportConfig : Type 0 where
  pub max_payload_bytes : ℕ
  pub enable_tcp_fallback : Bool

pub record DeviceSdkConfig : Type 0 where
  pub relay : RelayEndpointConfig
  pub device_id : Str
  pub token : Str
  pub metadata : HashMap Str Str
  pub session_recovery_window_seconds : ℕ
  pub heartbeat_interval_seconds : ℕ
  pub backoff_initial_seconds : ℕ
  pub backoff_max_seconds : ℕ
  pub transport : TransportConfig

unfoldable pub validate : DeviceSdkConfig → Result (Unit {0}) DeviceSdkError
validate c =
    if is_blank c.relay.tcp_addr
    then err (invalid_config (str "relay.tcp_addr must not be empty"))
    else if is_blank c.device_id
    then err (invalid_config (str "device_id must not be empty"))
    else if is_blank c.token
    then err missing_token
    else if eqb c.heartbeat_interval_seconds 0
    then err (invalid_config (str "heartbeat_interval_seconds must be greater than 0"))
    else if eqb c.backoff_initial_seconds 0 || eqb c.backoff_max_seconds 0
    then err (invalid_config (str "backoff settings must be greater than 0"))
    else if eqb c.transport.max_payload_bytes 0
    then err (invalid_config (str "transport.max_payload_bytes must be greater than 0"))
    else ok tt

-- The environment: a variable that is set, and valid Unicode, has a value.
abbrev pub Env : Type 0
Env = Str → Option Str

abbrev pub u64_max : ℕ
u64_max = 18_446_744_073_709_551_615

unfoldable pub required : Env → Str → Result Str DeviceSdkError
required env name = elim (env name) [
  | some value ↦ ok value
  | none ↦ err (invalid_config (name ++ str " is required"))
]

-- The text of the parser's own error is left out of the messages.
unfoldable pub read_u64_env : Env → Str → ℕ → Result ℕ DeviceSdkError
read_u64_env env name default = elim (env name) [
  | none ↦ ok default
  | some value ↦ elim (parse_uint u64_max value) [
    | some n ↦ ok n
    | none ↦ err (invalid_config (name ++ str " must be u64"))
  ]
]

unfoldable pub read_usize_env : Env → Str → ℕ → Result ℕ DeviceSdkError
read_usize_env env name default = elim (env name) [
  | none ↦ ok default
  | some value ↦ elim (parse_uint u64_max value) [
    | some n ↦ ok n
    | none ↦ err (invalid_config (name ++ str " must be usize"))
  ]
]

unfoldable pub read_bool_env : Env → Str → Bool → Result Bool DeviceSdkError
read_bool_env env name default = elim (env name) [
  | none ↦ ok default
  | some value ↦
      if value == str "true"
      then ok true
      else if value == str "false"
      then ok false
      else err (invalid_config (name ++ str " must be bool"))
]

unfoldable pub checked : DeviceSdkConfig → Result DeviceSdkConfig DeviceSdkError
checked c = validate c >>= λ _. ok c

unfoldable pub to_ascii_lowercase : Str → Str
to_ascii_lowercase = map (λ (c : ℕ). if leb b'A' c && leb c b'Z' then c + 32 else c)

-- `replace("__", ".")`
unfoldable pub dotted : Str → Str
dotted [] = []
dotted (c ∷ []) = c ∷ []
dotted (c ∷ d ∷ s) = elim (eqb c b'_' && eqb d b'_') [
  | true ↦ b'.' ∷ dotted s
  | false ↦ c ∷ dotted (d ∷ s)
]

-- A variable behind the prefix, whose name may hold dots as double underscores; of two with one
-- name, the later one is kept.
unfoldable pub metadata_from_env :
    Str → (vars : List (Str × Str)) → HashMap Str Str → HashMap Str Str
metadata_from_env prefix [] metadata = metadata
metadata_from_env prefix ((key, value) ∷ vars) metadata =
    let name = dotted (to_ascii_lowercase (drop prefix key)) in
    metadata_from_env prefix vars
      (if starts_with key prefix then HashMap.insert name value metadata else metadata)

-- The variables are a function and, for the metadata, a list.
unfoldable pub from_env : Env → (vars : List (Str × Str)) → Result DeviceSdkConfig DeviceSdkError
from_env env vars = do
  relay_tcp_addr ← required env (str "RELAY_TCP_ADDR")
  device_id ← required env (str "DEVICE_ID")
  token ← required env (str "DEVICE_TOKEN")
  window ← read_u64_env env (str "SESSION_RECOVERY_WINDOW_SECONDS") 300
  heartbeat ← read_u64_env env (str "HEARTBEAT_INTERVAL_SECONDS") 30
  initial ← read_u64_env env (str "BACKOFF_INITIAL_SECONDS") 1
  longest ← read_u64_env env (str "BACKOFF_MAX_SECONDS") 60
  payload ← read_usize_env env (str "MAX_PAYLOAD_BYTES") 10_485_760
  fallback ← read_bool_env env (str "ENABLE_TCP_FALLBACK") true
  checked (record {
    relay = record { tcp_addr = relay_tcp_addr; quic_addr = env (str "RELAY_QUIC_ADDR") };
    device_id = device_id;
    token = token;
    metadata = metadata_from_env (str "DEVICE_METADATA_") vars [];
    session_recovery_window_seconds = window;
    heartbeat_interval_seconds = heartbeat;
    backoff_initial_seconds = initial;
    backoff_max_seconds = longest;
    transport = record { max_payload_bytes = payload; enable_tcp_fallback = fallback };
  })

-- What `validate` asks for.
pub record IsUsable (c : DeviceSdkConfig) : Type 0 where
  pub address : is_blank c.relay.tcp_addr ≡ false
  pub device : is_blank c.device_id ≡ false
  pub token : is_blank c.token ≡ false
  pub heartbeat : 0 < c.heartbeat_interval_seconds
  pub initial : 0 < c.backoff_initial_seconds
  pub longest : 0 < c.backoff_max_seconds
  pub payload : 0 < c.transport.max_payload_bytes

-- A configuration is accepted exactly when its address, device and token are not blank and its
-- heartbeat interval, back-off times and payload limit are not zero.
pub validate-IsUsable : (c : DeviceSdkConfig) → (validate c ≡ ok tt) ↔ IsUsable c
unfolding validate
validate-IsUsable c = (λ h. ground arith, λ h. ground arith)
