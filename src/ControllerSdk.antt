-- ===== src/ControllerSdk.antt =====
-- crates/controller-sdk: the library that a controller's program uses to reach devices through the
-- relay. The transport, tonic, is a third party's; what the stream brings is an argument.
pub mod Config
pub mod Session
pub mod Matching
pub mod Duplicates
pub mod Endpoint
use g_rpc_relay.Text.{Str}

pub data ControllerSdkError : Type 0 where
  invalid_config : Str → ControllerSdkError
  unauthorized device_offline device_not_found rate_limited : ControllerSdkError
  payload_too_large internal_error stream_closed sequence_response_not_found : ControllerSdkError
