-- ===== src/DeviceSdk.antt =====
-- crates/device-sdk: the library that keeps a device connected to the relay.
pub mod Config
pub mod Backoff
pub mod Connection
pub mod Client
pub mod Tally
pub mod Replies
pub mod Recovery
use g_rpc_relay.Text.{Str}

-- `DeviceSdkError`; a status of gRPC and an error of the transport are third parties' values.
pub data DeviceSdkError : Type 0 where
  invalid_config : Str → DeviceSdkError
  missing_token recovery_disabled connection_closed grpc tonic : DeviceSdkError
