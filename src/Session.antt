-- ===== src/Session.antt =====
-- crates/relay/src/session.rs, `SessionRegistry`: a view of the shared state, which is its only
-- field.
use g_rpc_relay.Base.{ℕ, pos, ℤ, Bool, Option, List, [], map, length, list_eq, ℕ_eq, ℤ_eq, pair_eq}
use g_rpc_relay.Collections.HashMap
use g_rpc_relay.Text.{Str}
use g_rpc_relay.Proto
use g_rpc_relay.Proto.{DeviceInfo, DeviceResponse, as_i32}
use g_rpc_relay.State.{RelayState, DeviceSession}

unfoldable pub get_device_session : RelayState → Str → Option DeviceSession
get_device_session s device_id = HashMap.get device_id s.sessions_by_device_id

unfoldable pub is_device_online : RelayState → Str → Bool
is_device_online s device_id = HashMap.contains_key device_id s.sessions_by_device_id

unfoldable pub online_device_count : RelayState → ℕ
online_device_count s = length s.sessions_by_device_id

unfoldable pub list_online_devices : RelayState → Str → List DeviceInfo
list_online_devices s relay_address = map info s.sessions_by_device_id
  where
    info : Str × DeviceSession → DeviceInfo
    info (_, session) = record {
      device_id = session.device_id;
      connection_id = session.connection_id;
      relay_address = relay_address;
      connected_at = pos 0;
      metadata = session.metadata;
    }

unfoldable pub device_offline_response : Str → ℤ → DeviceResponse
device_offline_response device_id seq = record {
  device_id = device_id;
  sequence_number = seq;
  encrypted_payload = [];
  error = as_i32 Proto.device_offline;
}
