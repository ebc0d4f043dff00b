-- ===== src/DeviceStream/Disconnect.antt =====
-- crates/relay/src/grpc_service.rs, `run_device_connect_stream`: what follows the loop.
use g_rpc_relay.Base.{
  ℤ, pos, Bool, false, Option, none, some, List, [], ◌∷◌, ◌++◌, if◌then◌else◌, eqb, list_eq, ℕ_eq,
  ℤ_eq, pair_eq,
}
use g_rpc_relay.Collections.HashMap
use g_rpc_relay.Collections.HashMap.{HashMap}
use g_rpc_relay.Text.{Str}
use g_rpc_relay.Proto
use g_rpc_relay.State.{
  RelayState, DeviceSession, has_active_device_connection, remove_device_session,
  take_inflight_for_device, make_error_response,
}
use g_rpc_relay.State.Inflight.{InFlight, Delivery, complete}
use g_rpc_relay.Stream.{StreamMapping, remove_all_for_device}
use g_rpc_relay.Service.{
  Relay, to_controller, device_offline, device_disconnect, emit, audited, published, deliver_all,
}
use g_rpc_relay.DeviceStream.Locals.{DeviceStream, Reason, reason_text, closed, graceful_shutdown}

-- The entries of the in-flight table that a disconnect completes.
unfoldable pub offline_deliveries : Str → List (ℤ × InFlight) → List Delivery
offline_deliveries device_id [] = []
offline_deliveries device_id ((seq, inflight) ∷ rest) =
    (complete inflight (make_error_response device_id seq Proto.device_offline)).1
    ++ offline_deliveries device_id rest

-- The controllers whose streams were removed while no request of theirs was in progress.
unfoldable pub notify_idle : Str → List StreamMapping → Relay → Relay
notify_idle device_id [] r = r
notify_idle device_id (mapping ∷ rest) r = notify_idle device_id rest (
    if eqb mapping.active_requests 0
    then emit
        (to_controller mapping.controller_tx
          (make_error_response device_id (pos 0) Proto.device_offline))
        r
    else r)

abbrev pub final_reason : Reason → Reason
final_reason closed = graceful_shutdown
final_reason r = r

-- Whether the stream's own connection is the one that the device is registered with.
unfoldable pub owns_session : RelayState → DeviceStream → Str → Bool
owns_session s ds device_id = elim ds.current_connection_id [
  | none ↦ false
  | some connection_id ↦ has_active_device_connection s device_id connection_id
]

-- The end of the session is published and audited under the connection of the session.
unfoldable pub announce_offline : Relay → Str → Reason → Option DeviceSession → Relay
announce_offline r device_id reason none =
    audited (device_disconnect device_id [] (reason_text reason)) r
announce_offline r device_id reason (some session) =
    audited (device_disconnect device_id session.connection_id (reason_text reason))
      (published (device_offline device_id session.connection_id (reason_text reason)) r)

unfoldable pub close_session : Relay → Str → Reason → Relay
close_session r device_id reason =
    record (announce_offline r device_id reason
      (HashMap.get device_id r.state.sessions_by_device_id)) {
        state = (remove_device_session r.state device_id).1;
      }

-- In-flight requests and streams of the device.
unfoldable pub drop_device : Relay → Str → Relay
drop_device r device_id =
    let (inflight, s1) = take_inflight_for_device r.state device_id in
    let (removed, router1) = remove_all_for_device r.router device_id in
    notify_idle device_id removed (
      deliver_all (offline_deliveries device_id inflight)
        (record r { state = s1; router = router1 }))

-- What follows the loop.
unfoldable pub finish : Relay → DeviceStream → Reason → Relay
finish r ds reason = elim ds.current_device_id [
  | none ↦ r
  | some device_id ↦
      let r1 = drop_device r device_id in
      if owns_session r1.state ds device_id
      then close_session r1 device_id (final_reason reason)
      else r1
]
