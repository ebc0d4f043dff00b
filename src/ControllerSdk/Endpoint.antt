-- ===== src/ControllerSdk/Endpoint.antt =====
-- crates/controller-sdk: the configuration that a client accepts, and what its caller learns of the
-- relay's errors.
use g_rpc_relay.Base.{
  ◌<◌, ◌≡◌, refl, ◌↔◌, true, false, Option, none, some, ℤ, ok, err, arith, list_eq, ℕ_eq, ℤ_eq,
  int_beq,
}
use g_rpc_relay.Text.{Str, str, is_blank, trim, prefix-starts_with}
use g_rpc_relay.Proto
use g_rpc_relay.Proto.{ErrorCode, as_i32}
use g_rpc_relay.ControllerStream.{error_resp}
use g_rpc_relay.State.{make_error_response}
use g_rpc_relay.ControllerSdk
use g_rpc_relay.ControllerSdk.{ControllerSdkError}
use g_rpc_relay.ControllerSdk.Config.{
  ControllerSdkConfig, validate, has_scheme, normalized_endpoint,
}
use g_rpc_relay.ControllerSdk.Session.{
  SequenceResult, error_code_of, result_of, map_device_response_to_sequence_result,
}

-- A configuration is accepted exactly when no text of it is blank and the payload limit is not zero.
pub validate_iff :
    (c : ControllerSdkConfig)
    → (validate c ≡ ok tt) ↔ (
        (is_blank c.relay_address ≡ false)
        × (is_blank c.controller_id ≡ false)
        × (is_blank c.token ≡ false)
        × (0 < c.max_payload_bytes))
unfolding validate
validate_iff c = (λ h. ground arith, λ h. ground arith)

-- An endpoint has a scheme, so the transport takes it for a URI.
pub normalized_endpoint-has_scheme :
    (c : ControllerSdkConfig) → has_scheme (normalized_endpoint c) ≡ true
unfolding normalized_endpoint has_scheme
normalized_endpoint-has_scheme c =
    ground (arith, prefix-starts_with (str "https://") (trim c.relay_address))

-- The code that a result of the library stands for.
pub code_of : SequenceResult → Option ErrorCode
code_of (ok payload) = some Proto.error_ok
code_of (err ControllerSdk.device_offline) = some Proto.device_offline
code_of (err ControllerSdk.unauthorized) = some Proto.unauthorized
code_of (err ControllerSdk.device_not_found) = some Proto.device_not_found
code_of (err ControllerSdk.rate_limited) = some Proto.rate_limited
code_of (err ControllerSdk.internal_error) = some Proto.internal_error
code_of (err _) = none

-- The code with which the relay refuses a request, or fails it when the device is gone, is the code
-- that the controller's caller gets, with no payload for a success.
pub code_of-error_resp :
    (device_id : Str) (seq : ℤ) (code : ErrorCode)
    → (code_of (map_device_response_to_sequence_result (error_resp device_id seq code)) ≡ some code)
      × (code_of (map_device_response_to_sequence_result (make_error_response device_id seq code))
          ≡ some code)
unfolding map_device_response_to_sequence_result error_code_of result_of error_resp
    make_error_response as_i32 code_of int_beq
code_of-error_resp device_id seq Proto.error_ok = (refl, refl)
code_of-error_resp device_id seq Proto.device_offline = (refl, refl)
code_of-error_resp device_id seq Proto.unauthorized = (refl, refl)
code_of-error_resp device_id seq Proto.device_not_found = (refl, refl)
code_of-error_resp device_id seq Proto.rate_limited = (refl, refl)
code_of-error_resp device_id seq Proto.internal_error = (refl, refl)
