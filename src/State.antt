-- ===== src/State.antt =====
-- crates/relay/src/state.rs: the relay's in-memory state. A method that changes it returns the new
-- state. The time of `Instant::now()` is an argument, in nanoseconds; the sender of a channel is
-- its number; the messages that a method sends on one-shot channels are part of its result.
pub mod Sessions
pub mod Inflight
pub mod Waiters
pub mod Disconnect
use Inflight.{InFlight}
use g_rpc_relay.Base.{
  ℕ, ◌+◌, ◌-◌, ◌/◌, ◌%◌, ◌^◌, ℤ, pos, Bool, true, false, Option, none, some, List, [], ◌∷◌, ◌++◌,
  map, if◌then◌else◌, ◌==◌, list_eq, ℕ_eq, ℤ_eq, pair_eq,
}
use g_rpc_relay.Collections.HashMap
use g_rpc_relay.Collections.HashMap.{HashMap}
use g_rpc_relay.Text.{Str, str}
use g_rpc_relay.Text.Decimal.{to_string}
use g_rpc_relay.Proto.{
  ErrorCode, as_i32, DeviceInfo, DeviceResponse, RelayMessage, register_response,
  heartbeat_response, data_request,
}

abbrev pub u64_mod : ℕ
u64_mod = 2 ^ 64

pub record DeviceSession : Type 0 where
  pub device_id : Str
  pub connection_id : Str
  pub metadata : HashMap Str Str
  pub outbound_tx : ℕ

pub record RelayState : Type 0 where
  pub sessions_by_device_id : HashMap Str DeviceSession
  pub connection_to_device_id : HashMap Str Str
  pub inflight_by_sequence : HashMap (Str × ℤ) InFlight
  pub device_last_seen : HashMap Str ℕ
  pub connection_id_counter : ℕ
  pub controller_connection_count : ℕ

unfoldable pub new : RelayState
new = record {
  sessions_by_device_id = [];
  connection_to_device_id = [];
  inflight_by_sequence = [];
  device_last_seen = [];
  connection_id_counter = 1;
  controller_connection_count = 0;
}

-- `format!("conn-{id}")`
unfoldable pub connection_id : ℕ → Str
connection_id id = str "conn-" ++ to_string id

-- `fetch_add` returns the old value and wraps.
unfoldable pub next_connection_id : RelayState → Str × RelayState
unfolding connection_id
next_connection_id s = (
  connection_id s.connection_id_counter,
  record s { connection_id_counter = (s.connection_id_counter + 1) % u64_mod },
)

unfoldable pub list_online_devices : RelayState → List DeviceInfo
list_online_devices s = map info s.sessions_by_device_id
  where
    info : Str × DeviceSession → DeviceInfo
    info (_, session) = record {
      device_id = session.device_id;
      connection_id = session.connection_id;
      relay_address = [];
      connected_at = pos 0;
      metadata = session.metadata;
    }

-- The Boolean is `is_new_forwarder`. `tx` is the sender of the new one-shot channel.
unfoldable pub ensure_inflight_waiter : RelayState → ℤ → Str → ℕ → RelayState × Bool
unfolding Inflight.push_waiter Inflight.new
ensure_inflight_waiter s sequence_number device_id tx =
    elim (HashMap.get (device_id, sequence_number) s.inflight_by_sequence) [
      | some inflight ↦ (store (Inflight.push_waiter inflight tx), false)
      | none ↦ (store (Inflight.push_waiter (Inflight.new device_id) tx), true)
    ]
  where
    store : InFlight → RelayState
    store f = record s {
      inflight_by_sequence = HashMap.insert (device_id, sequence_number) f s.inflight_by_sequence;
    }

unfoldable pub take_inflight : RelayState → Str → ℤ → Option InFlight × RelayState
take_inflight s device_id sequence_number = (
  HashMap.get (device_id, sequence_number) s.inflight_by_sequence,
  record s {
    inflight_by_sequence = HashMap.remove (device_id, sequence_number) s.inflight_by_sequence;
  },
)

unfoldable pub device_id_for_connection : RelayState → Str → Option Str
device_id_for_connection s connection_id = HashMap.get connection_id s.connection_to_device_id

unfoldable pub has_active_device_connection : RelayState → Str → Str → Bool
has_active_device_connection s device_id connection_id =
    elim (HashMap.get device_id s.sessions_by_device_id) [
      | none ↦ false
      | some session ↦ session.connection_id == connection_id
    ]

unfoldable pub touch_device : RelayState → Str → ℕ → RelayState
touch_device s device_id now = record s {
  device_last_seen = HashMap.insert device_id now s.device_last_seen;
}

unfoldable pub device_last_seen_seconds : RelayState → Str → ℕ → Option ℕ
device_last_seen_seconds s device_id now = elim (HashMap.get device_id s.device_last_seen) [
  | none ↦ none
  | some seen ↦ some ((now - seen) / 1_000_000_000)
]

unfoldable pub remove_device_session : RelayState → Str → Option DeviceSession × RelayState
remove_device_session s device_id = elim (HashMap.get device_id s.sessions_by_device_id) [
  | none ↦ (none, s)
  | some session ↦ (
    some session,
    record s {
      sessions_by_device_id = HashMap.remove device_id s.sessions_by_device_id;
      connection_to_device_id = HashMap.remove session.connection_id s.connection_to_device_id;
      device_last_seen = HashMap.remove device_id s.device_last_seen;
    },
  )
]

-- The two passes of `take_inflight_for_device`: the keys are collected, then taken one by one.
unfoldable pub inflight_keys : Str → HashMap (Str × ℤ) InFlight → List (Str × ℤ)
inflight_keys device_id [] = []
inflight_keys device_id ((key, f) ∷ m) =
    let rest = inflight_keys device_id m in if f.device_id == device_id then key ∷ rest else rest

unfoldable pub take_keys : List (Str × ℤ) → RelayState → List (ℤ × InFlight) × RelayState
unfolding take_inflight
take_keys [] s = ([], s)
take_keys ((device_id, seq) ∷ keys) s =
    let (found, s1) = take_inflight s device_id seq in
    let (rest, s2) = take_keys keys s1 in
    (elim found [ none ↦ rest | some inflight ↦ (seq, inflight) ∷ rest ], s2)

unfoldable pub take_inflight_for_device : RelayState → Str → List (ℤ × InFlight) × RelayState
unfolding inflight_keys take_keys
take_inflight_for_device s device_id = take_keys (inflight_keys device_id s.inflight_by_sequence) s

unfoldable pub increment_controller_connections : RelayState → RelayState
increment_controller_connections s = record s {
  controller_connection_count = (s.controller_connection_count + 1) % u64_mod;
}

-- `saturating_sub`, as `-` on the natural numbers is.
unfoldable pub decrement_controller_connections : RelayState → RelayState
decrement_controller_connections s = record s {
  controller_connection_count = s.controller_connection_count - 1;
}

-- The helpers at the end of the file.
unfoldable pub device_response_from_device_data : Str → ℤ → List ℕ → ℤ → DeviceResponse
device_response_from_device_data device_id seq encrypted_payload error = record {
  device_id = device_id;
  sequence_number = seq;
  encrypted_payload = encrypted_payload;
  error = error;
}

unfoldable pub make_error_response : Str → ℤ → ErrorCode → DeviceResponse
unfolding as_i32
make_error_response device_id seq err = record {
  device_id = device_id;
  sequence_number = seq;
  encrypted_payload = [];
  error = as_i32 err;
}

unfoldable pub relay_message_data_request : Str → ℤ → List ℕ → RelayMessage
relay_message_data_request connection_id sequence_number encrypted_payload = record {
  payload = some (
      data_request (record {
        connection_id = connection_id;
        sequence_number = sequence_number;
        encrypted_payload = encrypted_payload;
      }));
}

unfoldable pub relay_message_register_response : Str → Bool → RelayMessage
relay_message_register_response connection_id session_resumed = record {
  payload = some (
      register_response (record {
        connection_id = connection_id;
        session_resumed = session_resumed;
        timestamp = pos 0;
      }));
}

unfoldable pub relay_message_heartbeat_response : RelayMessage
relay_message_heartbeat_response = record {
  payload = some (heartbeat_response (record { timestamp = pos 0 }));
}
