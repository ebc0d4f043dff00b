-- ===== src/DeviceSdk/Replies.antt =====
-- crates/device-sdk/src/client.rs: the data requests a connection reads, the handlers that run for
-- them and the replies that go to the relay.
use g_rpc_relay.Base.{
  ℕ, ◌+◌, ◌≡◌, refl, ap, ◌∙◌, inl, inr, Bool, true, false, not, Option, none, some, List, [], ◌∷◌,
  ℤ, Result, ok, err, arith, if◌then◌else◌, ltb, length, Bool-cases, Option-cases, list_eq, ℕ_eq,
  ℤ_eq,
}
use g_rpc_relay.Text.{Str}
use g_rpc_relay.Proto.{
  DeviceMessage, heartbeat, DataRequest, RelayPayload, register_response, heartbeat_response,
  data_request,
}
use g_rpc_relay.DeviceSdk.Tally.{
  IsWritable, AllWritable, tick, of_task, of_tasks, of_held, of_payload, replies, account,
  of_request, asks, task_of, replies-++, take_task-of_tasks,
}
use g_rpc_relay.DeviceSdk.Config.{DeviceSdkConfig}
use g_rpc_relay.DeviceSdk.Connection.{
  HandlerTask, Connection, Happening, relay_message, end_of_stream, status_error, beat, handled,
  continue, ends, connection_of, Round-cases, device_message, send, reply, on_registered,
  start_task, on_data_request, on_payload, finish, take_task, on_handled, on_beat, round, rounds,
  opened, register_message, max_concurrent_data_handlers,
}

module _ (picks : Str → ℤ → Bool) where
  module _ (cfg : DeviceSdkConfig) where
    -- The data requests that a run of the stream reads.
    unfoldable pub asked : List Happening → Connection → ℕ
    asked [] c = 0
    asked (h ∷ hs) c = elim (round cfg h c) [
      | continue c1 ↦ asks picks h c + asked hs c1
      | ends result c1 ↦ asks picks h c
    ]

    start_task-account :
        (t : HandlerTask) (c : Connection)
        → account picks (start_task cfg t c)
          ≡ of_task picks t + (replies picks c.sent + of_tasks picks c.tasks)
    unfolding start_task
    start_task-account t c = elim (Bool-cases (ltb (length c.tasks) max_concurrent_data_handlers)) [
      | inl free ↦ rw (free, start_task) omega arith
      | inr full ↦ rw (full, start_task) omega arith
    ]

    reply-of_payload :
        (t : HandlerTask) (result : Result (List ℕ) (Unit {0}))
        → of_payload picks (reply cfg t result).payload ≡ of_task picks t
    unfolding reply device_message
    reply-of_payload t (ok bytes) = refl
    reply-of_payload t (err _) = refl

    send-account :
        (m : DeviceMessage) (c : Connection)
        → account picks (send cfg m c) ≡ of_payload picks m.payload + account picks c
    unfolding send
    send-account m c = let e = replies-++ picks c.sent (m ∷ []) in omega (arith, e)

    send-held :
        (m : DeviceMessage) (c : Connection)
        → of_held picks (send cfg m c).held ≡ of_held picks c.held
    unfolding send
    send-held m c = refl

    on_data_request-account :
        (req : DataRequest) (c : Connection)
        → c.held ≡ none
        → account picks (connection_of (on_data_request cfg req true c))
          ≡ tick (picks req.connection_id req.sequence_number) + account picks c
    unfolding on_data_request
    on_data_request-account req c free =
        elim (Bool-cases (ltb cfg.transport.max_payload_bytes (length req.encrypted_payload))) [
          | inl large ↦
              rw (large, on_data_request)
                (let one = send-account (reply cfg (task_of req) (err tt)) c in
                  let two = reply-of_payload (task_of req) (err tt) in omega (arith, one, two))
          | inr fits ↦
              rw (fits, on_data_request)
                (let one = start_task-account (task_of req) c in
                  let empty : of_held picks c.held ≡ 0 = ap (of_held picks) free in
                  omega (arith, one, empty))
        ]

    -- The task that ended, or none; its reply goes out and its permit to the request that waits.
    on_handled-account :
        (i : ℕ) (result : Result (List ℕ) (Unit {0})) (c : Connection)
        → account picks (on_handled cfg i result true c) ≡ account picks c
    unfolding on_handled
    on_handled-account i result c =
        let split = take_task-of_tasks picks i c.tasks in
        elim (Option-cases (take_task i c.tasks).0) [
          | inl none_found ↦ rw (none_found, on_handled) refl
          | inr (task, found) ↦
              let c1 : Connection = record c { tasks = (take_task i c.tasks).1 } in
              let c2 = send cfg (reply cfg task result) c1 in
              let sent = send-account (reply cfg task result) c1 in
              let is_reply = reply-of_payload task result in
              let weight = rw found at split in
              elim (Option-cases c.held) [
                | inl free ↦
                    rw (found, free, on_handled)
                      (let empty : of_held picks c.held ≡ 0 = ap (of_held picks) free in
                        omega (arith, sent, is_reply, weight, empty))
                | inr (waiting, busy) ↦
                    rw (found, busy, on_handled)
                      (let next = start_task-account waiting c2 in
                        let full : of_held picks c.held ≡ of_task picks waiting =
                          ap (of_held picks) busy in
                        let same = send-held (reply cfg task result) c1 in
                        omega (arith, sent, is_reply, weight, full, next, same))
              ]
        ]

    either_account :
        (b : Bool) (c1 c2 : Connection) {n : ℕ}
        → account picks c1 ≡ n
        → account picks c2 ≡ n
        → account picks (if b then c1 else c2) ≡ n
    either_account true c1 c2 v w = v
    either_account false c1 c2 v w = w

    on_beat-account :
        (id : Option Str) (timestamp : ℤ) (is_writable : Bool) (c : Connection)
        → account picks (on_beat cfg id timestamp is_writable c) ≡ account picks c
    unfolding on_beat device_message
    on_beat-account none timestamp is_writable c = refl
    on_beat-account (some id) timestamp is_writable c =
        let beat_message : DeviceMessage =
          device_message cfg (heartbeat (record { connection_id = id; timestamp = timestamp })) in
        let sent = send-account beat_message c in
        either_account (not c.is_beating) c _ refl (
          either_account is_writable (send cfg beat_message c) (record c { is_beating = false })
            (sent ∙ omega arith) refl)

    finish-account :
        (c : Connection) → account picks (connection_of (finish cfg c)) ≡ account picks c
    unfolding finish
    finish-account c = elim (Option-cases c.registered_connection_id) [
      | inl e ↦ rw (e, finish) refl
      | inr (id, e) ↦ rw (e, finish) refl
    ]

    on_payload-account :
        (payload : Option RelayPayload) (c : Connection)
        → c.held ≡ none
        → account picks (connection_of (on_payload cfg payload true c))
          ≡ of_request picks payload + account picks c
    unfolding on_payload on_registered
    on_payload-account none c free = omega arith
    on_payload-account (some (register_response r)) c free = omega arith
    on_payload-account (some (heartbeat_response h)) c free = omega arith
    on_payload-account (some (data_request req)) c free = on_data_request-account req c free

    round-account :
        (h : Happening) (c : Connection)
        → IsWritable h
        → account picks (connection_of (round cfg h c)) ≡ asks picks h c + account picks c
    unfolding round
    round-account (relay_message msg is_writable) c writable = elim (Option-cases c.held) [
      | inl free ↦
          rw (free, round, writable)
            (let e = on_payload-account msg.payload c free in
              let empty : of_held picks c.held ≡ 0 = ap (of_held picks) free in
              omega (arith, e, empty))
      | inr (task, busy) ↦
          rw (busy, round)
            (let full : of_held picks c.held ≡ of_task picks task = ap (of_held picks) busy in
              omega (arith, full))
    ]
    round-account end_of_stream c _ = let e = finish-account c in omega (arith, e)
    round-account status_error c _ =
        let e = finish-account c in
        elim (Option-cases c.registered_connection_id) [
          | inl none_yet ↦ rw (none_yet, round) omega arith
          | inr (id, registered) ↦ rw (registered, round) omega (arith, e)
        ]
    round-account (beat timestamp is_writable) c _ =
        let e = on_beat-account c.heartbeat_task timestamp is_writable c in omega (arith, e)
    round-account (handled i result is_writable) c writable =
        let e = on_handled-account i result c in rw writable (omega (arith, e))

    rounds-account_from :
        (hs : List Happening) (c : Connection)
        → AllWritable hs
        → account picks (connection_of (rounds cfg hs c)) ≡ asked hs c + account picks c
    unfolding rounds asked
    rounds-account_from [] c _ = omega arith
    rounds-account_from (h ∷ hs) c (writable, later) =
        let one = round-account h c writable in
        elim (Round-cases (round cfg h c)) [
          | inl (c1, e) ↦
              rw (e, rounds, asked)
                (let first = rw e at one in
                  let rest = rounds-account_from hs c1 later in omega (arith, first, rest))
          | inr (result, c1, e) ↦ rw (e, rounds, asked) (rw e at one)
        ]

    -- While the relay takes what is sent, no data request is lost and none is answered twice: the
    -- requests of any kind that a connection has read are as many as the replies it has sent, the
    -- handlers that run and the request that waits for a permit.
    pub rounds-account :
        (hs : List Happening) (previous : Option Str)
        → AllWritable hs
        → account picks (connection_of (rounds cfg hs (opened cfg previous)))
          ≡ asked hs (opened cfg previous)
    unfolding opened register_message device_message
    rounds-account hs previous writable =
        let e = rounds-account_from hs (opened cfg previous) writable in omega (arith, e)
