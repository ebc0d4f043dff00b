-- ===== src/Proto.antt =====
-- The messages of crates/relay-proto/proto/relay/v1/relay.proto. A oneof that is absent is `none`;
-- an enum field holds its number, as prost leaves it.
use g_rpc_relay.Base.{ℕ, ℤ, pos, Bool, Option, List, list_eq, ℕ_eq, ℤ_eq, pair_eq}
use g_rpc_relay.Collections.HashMap.{HashMap}
use g_rpc_relay.Text.{Str}

pub data ErrorCode : Type 0 where
  error_ok device_offline unauthorized device_not_found rate_limited internal_error : ErrorCode

-- `err as i32`
unfoldable pub as_i32 : ErrorCode → ℤ
as_i32 error_ok = pos 0
as_i32 device_offline = pos 1
as_i32 unauthorized = pos 2
as_i32 device_not_found = pos 3
as_i32 rate_limited = pos 4
as_i32 internal_error = pos 5

pub record RegisterRequest : Type 0 where
  pub device_id : Str
  pub metadata : HashMap Str Str
  pub previous_connection_id : Str

pub record HeartbeatRequest : Type 0 where
  pub connection_id : Str
  pub timestamp : ℤ

pub record DataResponse : Type 0 where
  pub connection_id : Str
  pub sequence_number : ℤ
  pub encrypted_payload : List ℕ
  pub error : ℤ

pub data DevicePayload : Type 0 where
  register : RegisterRequest → DevicePayload
  heartbeat : HeartbeatRequest → DevicePayload
  data_response : DataResponse → DevicePayload

pub record DeviceMessage : Type 0 where
  pub device_id : Str
  pub token : Str
  pub payload : Option DevicePayload

pub record RegisterResponse : Type 0 where
  pub connection_id : Str
  pub session_resumed : Bool
  pub timestamp : ℤ

pub record HeartbeatResponse : Type 0 where
  pub timestamp : ℤ

pub record DataRequest : Type 0 where
  pub connection_id : Str
  pub sequence_number : ℤ
  pub encrypted_payload : List ℕ

pub data RelayPayload : Type 0 where
  register_response : RegisterResponse → RelayPayload
  heartbeat_response : HeartbeatResponse → RelayPayload
  data_request : DataRequest → RelayPayload

pub record RelayMessage : Type 0 where
  pub payload : Option RelayPayload

pub record ControllerMessage : Type 0 where
  pub controller_id : Str
  pub token : Str
  pub target_device_id : Str
  pub method_name : Str
  pub sequence_number : ℤ
  pub encrypted_payload : List ℕ

pub record DeviceResponse : Type 0 where
  pub device_id : Str
  pub sequence_number : ℤ
  pub encrypted_payload : List ℕ
  pub error : ℤ

pub record DeviceInfo : Type 0 where
  pub device_id : Str
  pub connection_id : Str
  pub relay_address : Str
  pub connected_at : ℤ
  pub metadata : HashMap Str Str
