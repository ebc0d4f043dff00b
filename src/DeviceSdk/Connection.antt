-- ===== src/DeviceSdk/Connection.antt =====
-- crates/device-sdk/src/client.rs, `connect_once`: one connection of a device. The heartbeat task
-- and the tasks of the handler run beside the reader's loop; what happens next is an argument.
use g_rpc_relay.Base.{
  ℕ, zero, suc, ◌≡◌, refl, ◌⊎◌, inl, inr, ◌-◌, ◌*◌, Bool, true, false, not, ◌&&◌, Option, none,
  some, List, [], ◌∷◌, ◌++◌, ℤ, Result, ok, err, if◌then◌else◌, ltb, leb, eqb, length, is_some, min,
  list_eq, ℕ_eq, ℤ_eq,
}
use g_rpc_relay.Text.{Str, str, starts_with}
use g_rpc_relay.Proto
use g_rpc_relay.Proto.{
  as_i32, DeviceMessage, DevicePayload, RegisterRequest, HeartbeatRequest, DataRequest,
  DataResponse, RelayMessage, RelayPayload, register_response, heartbeat_response, data_request,
  register, heartbeat, data_response,
}
use g_rpc_relay.DeviceSdk.{DeviceSdkError, recovery_disabled, connection_closed, grpc}
use g_rpc_relay.DeviceSdk.Config.{DeviceSdkConfig, u64_max}

abbrev pub max_concurrent_data_handlers : ℕ
max_concurrent_data_handlers = 64

abbrev i64_max : ℕ
i64_max = 9_223_372_036_854_775_807

-- A handler that runs, holding a permit.
pub record HandlerTask : Type 0 where
  pub connection_id : Str
  pub sequence_number : ℤ
  pub payload : List ℕ

-- `heartbeat_task` is the connection that the task announces, for as long as `is_beating`; `held`, a request for which the
-- reader waits for a permit; `sent`, the messages that went to the relay.
pub record Connection : Type 0 where
  pub registered_connection_id : Option Str
  pub heartbeat_task : Option Str
  pub is_beating : Bool
  pub tasks : List HandlerTask
  pub held : Option HandlerTask
  pub sent : List DeviceMessage

pub data Round : Type 0 where
  continue : Connection → Round
  ends : Result Str DeviceSdkError → Connection → Round

abbrev pub connection_of : Round → Connection
connection_of (continue c) = c
connection_of (ends result c) = c

pub Round-cases :
    (r : Round)
    → ((c : Connection) × (r ≡ continue c))
      ⊎ ((result : Result Str DeviceSdkError) × (c : Connection) × (r ≡ ends result c))
Round-cases (continue c) = inl (c, refl)
Round-cases (ends result c) = inr (result, c, refl)

-- What happens next. `is_writable` tells whether the relay still takes messages; a handler's result
-- is a payload or an error.
pub data Happening : Type 0 where
  relay_message : RelayMessage → (is_writable : Bool) → Happening
  end_of_stream status_error : Happening
  beat : (timestamp : ℤ) → (is_writable : Bool) → Happening
  handled : (task : ℕ) → Result (List ℕ) (Unit {0}) → (is_writable : Bool) → Happening

-- `normalize_http_uri`
unfoldable pub normalize_http_uri : Str → Str
normalize_http_uri addr =
    if starts_with addr (str "http://")
    then addr
    else if starts_with addr (str "https://")
    then addr
    else str "http://" ++ addr

-- The connection to resume, if it was lost at most the window ago. Times are milliseconds.
unfoldable pub previous_for_register :
    DeviceSdkConfig → Option Str → Option ℕ → (now : ℕ) → Option Str
previous_for_register cfg none lost_at now = none
previous_for_register cfg (some cid) none now = none
previous_for_register cfg (some cid) (some disconnect_ms) now =
    let window_ms = min (min u64_max (cfg.session_recovery_window_seconds * 1000)) i64_max in
    if leb (now - disconnect_ms) window_ms then some cid else none

abbrev or_empty : Option Str → Str
or_empty none = []
or_empty (some s) = s

unfoldable pub take_task : ℕ → List HandlerTask → Option HandlerTask × List HandlerTask
take_task i [] = (none, [])
take_task zero (task ∷ tasks) = (some task, tasks)
take_task (suc i) (task ∷ tasks) = let (found, rest) = take_task i tasks in (found, task ∷ rest)

module _ (cfg : DeviceSdkConfig) where
  unfoldable pub device_message : DevicePayload → DeviceMessage
  device_message payload = record {
    device_id = cfg.device_id;
    token = cfg.token;
    payload = some payload;
  }

  unfoldable pub register_message : Option Str → DeviceMessage
  register_message previous = device_message (
      register (record {
        device_id = cfg.device_id;
        metadata = cfg.metadata;
        previous_connection_id = or_empty previous;
      }))

  unfoldable pub send : DeviceMessage → Connection → Connection
  send msg c = record c { sent = c.sent ++ msg ∷ [] }

  -- The handler's result, or `InternalError` with no payload.
  unfoldable pub reply : HandlerTask → Result (List ℕ) (Unit {0}) → DeviceMessage
  reply task (ok bytes) = device_message (
      data_response (record {
        connection_id = task.connection_id;
        sequence_number = task.sequence_number;
        encrypted_payload = bytes;
        error = as_i32 Proto.error_ok;
      }))
  reply task (err _) = device_message (
      data_response (record {
        connection_id = task.connection_id;
        sequence_number = task.sequence_number;
        encrypted_payload = [];
        error = as_i32 Proto.internal_error;
      }))

  -- The first registration starts the heartbeat, for its connection.
  unfoldable pub on_registered : Str → Connection → Connection
  on_registered connection_id c = record c {
    registered_connection_id = some connection_id;
    heartbeat_task = elim c.heartbeat_task [ none ↦ some connection_id | some id ↦ some id ];
    is_beating = elim c.heartbeat_task [ none ↦ true | some id ↦ c.is_beating ];
  }

  -- A task starts when there is a permit.
  unfoldable pub start_task : HandlerTask → Connection → Connection
  start_task task c =
      if ltb (length c.tasks) max_concurrent_data_handlers
      then record c { tasks = task ∷ c.tasks; held = none }
      else record c { held = some task }

  unfoldable pub on_data_request : DataRequest → (is_writable : Bool) → Connection → Round
  on_data_request req is_writable c =
      let task : HandlerTask = record {
        connection_id = req.connection_id;
        sequence_number = req.sequence_number;
        payload = req.encrypted_payload;
      } in
      if ltb cfg.transport.max_payload_bytes (length req.encrypted_payload)
      then if is_writable
        then continue (send (reply task (err tt)) c)
        else ends (err connection_closed) c
      else continue (start_task task c)

  unfoldable pub on_payload : Option RelayPayload → (is_writable : Bool) → Connection → Round
  on_payload none is_writable c = continue c
  on_payload (some (register_response r)) is_writable c = continue (on_registered r.connection_id c)
  on_payload (some (heartbeat_response h)) is_writable c = continue c
  on_payload (some (data_request req)) is_writable c = on_data_request req is_writable c

  -- What follows the loop.
  unfoldable pub finish : Connection → Round
  finish c = elim c.registered_connection_id [
    | some id ↦ ends (ok id) (record c { is_beating = false })
    | none ↦ ends (err connection_closed) (record c { is_beating = false })
  ]

  -- A handler's task ends: it sends its reply, and its permit goes to a request that is held.
  unfoldable pub on_handled :
      ℕ → Result (List ℕ) (Unit {0}) → (is_writable : Bool) → Connection → Connection
  on_handled i result is_writable c =
      let (found, rest) = take_task i c.tasks in
      elim found [
        | none ↦ c
        | some task ↦
            let c1 = record c { tasks = rest } in
            let c2 = if is_writable then send (reply task result) c1 else c1 in
            elim c.held [ none ↦ c2 | some waiting ↦ start_task waiting c2 ]
      ]

  -- A task whose message the relay does not take ends.
  unfoldable pub on_beat : Option Str → ℤ → (is_writable : Bool) → Connection → Connection
  on_beat none timestamp is_writable c = c
  on_beat (some id) timestamp is_writable c =
      if not c.is_beating
      then c
      else if is_writable
      then send (device_message (heartbeat (record { connection_id = id; timestamp = timestamp })))
          c
      else record c { is_beating = false }

  -- The reader does not take a message while it waits for a permit.
  unfoldable pub round : Happening → Connection → Round
  round (relay_message msg is_writable) c = elim c.held [
    | some task ↦ continue c
    | none ↦ on_payload msg.payload is_writable c
  ]
  round end_of_stream c = finish c
  round status_error c = elim c.registered_connection_id [
    | some id ↦ finish c
    | none ↦ ends (err grpc) c
  ]
  round (beat timestamp is_writable) c = continue (on_beat c.heartbeat_task timestamp is_writable c)
  round (handled i result is_writable) c = continue (on_handled i result is_writable c)

  unfoldable pub rounds : List Happening → Connection → Round
  rounds [] c = continue c
  rounds (h ∷ hs) c = elim (round h c) [
    | continue c1 ↦ rounds hs c1
    | ends result c1 ↦ ends result c1
  ]

  unfoldable pub opened : Option Str → Connection
  opened previous = record {
    registered_connection_id = none;
    heartbeat_task = none;
    is_beating = false;
    tasks = [];
    held = none;
    sent = register_message previous ∷ [];
  }

  -- Whether the connection is set up, and whether the relay takes the registration; then the stream
  -- brings something.
  unfoldable pub connect_once :
      Option Str
      → Option ℕ
      → (dialled : Result (Unit {0}) DeviceSdkError) → (now : ℕ) → (is_writable : Bool)
      → List Happening
      → Round
  connect_once previous lost_at (err e) now is_writable hs =
      ends (err e) (record (opened none) { sent = [] })
  connect_once previous lost_at (ok _) now is_writable hs =
      let empty : Connection = record (opened none) { sent = [] } in
      let stream = rounds hs (opened (previous_for_register cfg previous lost_at now)) in
      if is_some previous && eqb cfg.session_recovery_window_seconds 0
      then ends (err recovery_disabled) empty
      else if is_writable
      then stream
      else ends (err connection_closed) empty
