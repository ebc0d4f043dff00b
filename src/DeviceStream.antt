-- ===== src/DeviceStream.antt =====
-- crates/relay/src/grpc_service.rs, `run_device_connect_stream`: the loop that serves one device
-- connection. The clock and the answer of the resource monitor are arguments of a round.
pub mod Frames
pub mod Invariant
pub mod Register
pub mod Rounds
pub mod Guards
pub mod Closing
pub mod Answers
pub mod Conservation
mod Locals
mod Messages
mod Disconnect
pub use Locals.{
  DeviceStream, Reason, reason_text, Round, device, closed, timeout, failed, graceful_shutdown,
  continue, break,
}
pub use Messages.{is_register}
unfoldable pub use Messages.{
  is_established, touch_established, reject, accept, drop_previous, install_session, is_resumed,
  complete_register, on_register, on_heartbeat, answer, on_data, on_payload, on_message,
}
pub use Disconnect.{final_reason}
unfoldable pub use Disconnect.{
  offline_deliveries, notify_idle, owns_session, announce_offline, close_session, drop_device,
  finish,
}
use g_rpc_relay.Base.{ℕ, Bool, true, false, List, [], ◌∷◌, list_eq, ℕ_eq}
use g_rpc_relay.Collections.HashMap
use g_rpc_relay.Collections.HashMap.{HashMap}
use g_rpc_relay.Proto
use g_rpc_relay.Proto.{DeviceMessage}
use g_rpc_relay.Service.{Relay}

-- What the loop waits for: a message, with the time and the health of the machine when it is
-- served, an error of the transport, the end of the stream, or the heartbeat timeout.
pub data Inbound : Type 0 where
  message : DeviceMessage → ℕ → Bool → Inbound
  transport_error : Inbound
  end_of_stream : Inbound
  elapsed : Inbound

unfoldable pub round : Relay → DeviceStream → Inbound → Round
round r ds (message msg now healthy) = on_message r ds msg now healthy
round r ds transport_error = break r ds failed
round r ds end_of_stream = break r ds closed
round r ds elapsed = break r ds timeout

-- The loop and what follows it. The Boolean says whether the stream has ended.
unfoldable pub run_device_connect_stream :
    Relay → DeviceStream → List Inbound → Relay × DeviceStream × Bool
run_device_connect_stream r ds [] = (r, ds, false)
run_device_connect_stream r ds (i ∷ is) = elim (round r ds i) [
  | continue r' ds' ↦ run_device_connect_stream r' ds' is
  | break r' ds' reason ↦ (finish r' ds' reason, ds', true)
]
