-- ===== src/DeviceSdk/Tally.antt =====
-- crates/device-sdk/src/client.rs: what there is of a request in a connection, counted.
use g_rpc_relay.Base.{
  ℕ, zero, suc, ◌+◌, ◌≡◌, refl, Bool, true, false, Option, none, some, List, [], ◌∷◌, ◌++◌, ℤ,
  arith, list_eq, ℕ_eq, ℤ_eq,
}
use g_rpc_relay.Text.{Str}
use g_rpc_relay.Proto.{
  DeviceMessage, DevicePayload, data_response, DataRequest, RelayPayload, data_request,
}
use g_rpc_relay.DeviceSdk.Connection.{
  HandlerTask, Connection, Happening, relay_message, end_of_stream, status_error, beat, handled,
  take_task,
}

-- The relay takes whatever is sent in this step.
abbrev pub IsWritable : Happening → Type 0
IsWritable (relay_message msg is_writable) = is_writable ≡ true
IsWritable end_of_stream = Unit {0}
IsWritable status_error = Unit {0}
IsWritable (beat timestamp is_writable) = Unit {0}
IsWritable (handled i result is_writable) = is_writable ≡ true

abbrev pub AllWritable : List Happening → Type 0
AllWritable [] = Unit {0}
AllWritable (h ∷ hs) = IsWritable h × AllWritable hs

abbrev pub tick : Bool → ℕ
tick true = 1
tick false = 0

abbrev pub task_of : DataRequest → HandlerTask
task_of req = record {
  connection_id = req.connection_id;
  sequence_number = req.sequence_number;
  payload = req.encrypted_payload;
}

-- What is counted: the requests whose connection and sequence number a test picks.
module _ (picks : Str → ℤ → Bool) where
  abbrev pub of_task : HandlerTask → ℕ
  of_task t = tick (picks t.connection_id t.sequence_number)

  abbrev pub of_tasks : List HandlerTask → ℕ
  of_tasks [] = 0
  of_tasks (t ∷ ts) = of_task t + of_tasks ts

  abbrev pub of_held : Option HandlerTask → ℕ
  of_held none = 0
  of_held (some t) = of_task t

  abbrev pub of_payload : Option DevicePayload → ℕ
  of_payload none = 0
  of_payload (some (data_response r)) = tick (picks r.connection_id r.sequence_number)
  of_payload (some _) = 0

  -- The replies among the messages that went to the relay.
  abbrev pub replies : List DeviceMessage → ℕ
  replies [] = 0
  replies (m ∷ ms) = of_payload m.payload + replies ms

  -- Replies sent, handlers that run and the request that waits.
  abbrev pub account : Connection → ℕ
  account c = replies c.sent + (of_tasks c.tasks + of_held c.held)

  abbrev pub of_request : Option RelayPayload → ℕ
  of_request (some (data_request req)) = tick (picks req.connection_id req.sequence_number)
  of_request _ = 0

  abbrev pub if_free : Option HandlerTask → ℕ → ℕ
  if_free none n = n
  if_free (some _) n = 0

  -- The data request that this step reads.
  abbrev pub asks : Happening → Connection → ℕ
  asks (relay_message msg is_writable) c = if_free c.held (of_request msg.payload)
  asks _ c = 0

  pub replies-++ : (a b : List DeviceMessage) → replies (a ++ b) ≡ replies a + replies b
  replies-++ [] b = omega arith
  replies-++ (m ∷ a) b = let rest = replies-++ a b in omega (arith, rest)

  pub take_task-of_tasks :
      (i : ℕ) (ts : List HandlerTask)
      → of_held (take_task i ts).0 + of_tasks (take_task i ts).1 ≡ of_tasks ts
  unfolding take_task
  take_task-of_tasks i [] = refl
  take_task-of_tasks zero (t ∷ ts) = refl
  take_task-of_tasks (suc i) (t ∷ ts) = let rest = take_task-of_tasks i ts in omega (arith, rest)
