-- ===== src/DeviceSdk/Recovery.antt =====
-- crates/device-sdk/src/client.rs: how long the client goes on, and what it offers to resume.
use g_rpc_relay.Base.{
  ℕ, ◌≡◌, refl, ◌≢◌, ◌⊎◌, inl, inr, Bool, true, false, ◌&&◌, Option, none, some, List, [], ◌∷◌,
  ◌++◌, Result, ok, err, arith, eqb, ltb, length, is_some, Bool-cases, Option-cases, list_eq, ℕ_eq,
  ℤ_eq,
}
use g_rpc_relay.Text.{Str}
use g_rpc_relay.Proto.{
  RelayPayload, DataRequest, register_response, heartbeat_response, data_request,
}
use g_rpc_relay.DeviceSdk
use g_rpc_relay.DeviceSdk.{DeviceSdkError}
use g_rpc_relay.DeviceSdk.Config.{DeviceSdkConfig}
use g_rpc_relay.DeviceSdk.Connection.{
  Connection, Happening, relay_message, end_of_stream, status_error, beat, handled, Round, continue,
  ends, on_data_request, on_payload, finish, round, rounds, opened, connect_once,
  previous_for_register, Round-cases,
}
use g_rpc_relay.DeviceSdk.Client.{
  Recovery, Attempt, Progress, waits, connected, stopped, retry, after_connection, attempt_once,
  run,
}

-- An end that `run` does not return as an error.
abbrev pub Retried : {A : Type 0} → Result A DeviceSdkError → Type 0
Retried (ok _) = Unit {0}
Retried (err DeviceSdk.connection_closed) = Unit {0}
Retried (err DeviceSdk.grpc) = Unit {0}
Retried (err _) = ⊥

-- No attempt fails below gRPC.
abbrev pub AllReach : List Attempt → Type 0
AllReach [] = Unit {0}
AllReach (a ∷ attempts) = Retried a.dialled × AllReach attempts

-- Every attempt fails in gRPC before the connection is open.
abbrev pub AllFail : List Attempt → Type 0
AllFail [] = Unit {0}
AllFail (a ∷ attempts) = (a.dialled ≡ err DeviceSdk.grpc) × AllFail attempts

Progress-cases :
    (p : Progress)
    → ((seconds : ℕ) × (r : Recovery) × (p ≡ waits seconds r))
      ⊎ (p ≡ connected)
      ⊎ ((e : DeviceSdkError) × (p ≡ stopped e))
Progress-cases (waits seconds r) = inl (seconds, r, refl)
Progress-cases connected = inr (inl refl)
Progress-cases (stopped e) = inr (inr (e, refl))

abbrev EndsWell : Round → Type 0
EndsWell (continue c) = Unit {0}
EndsWell (ends result c) = Retried result

module _ (cfg : DeviceSdkConfig) where
  finish-EndsWell : (c : Connection) → EndsWell (finish cfg c)
  unfolding finish
  finish-EndsWell c = elim (Option-cases c.registered_connection_id) [
    | inl e ↦ rw (e, finish) tt
    | inr (id, e) ↦ rw (e, finish) tt
  ]

  on_data_request-EndsWell :
      (req : DataRequest) (is_writable : Bool) (c : Connection)
      → EndsWell (on_data_request cfg req is_writable c)
  unfolding on_data_request
  on_data_request-EndsWell req is_writable c =
      elim (Bool-cases (ltb cfg.transport.max_payload_bytes (length req.encrypted_payload))) [
        | inl large ↦ elim (Bool-cases is_writable) [
          | inl writable ↦ rw (large, writable, on_data_request) tt
          | inr broken ↦ rw (large, broken, on_data_request) tt
        ]
        | inr fits ↦ rw (fits, on_data_request) tt
      ]

  on_payload-EndsWell :
      (payload : Option RelayPayload) (is_writable : Bool) (c : Connection)
      → EndsWell (on_payload cfg payload is_writable c)
  unfolding on_payload
  on_payload-EndsWell none is_writable c = tt
  on_payload-EndsWell (some (register_response r)) is_writable c = tt
  on_payload-EndsWell (some (heartbeat_response h)) is_writable c = tt
  on_payload-EndsWell (some (data_request req)) is_writable c =
      on_data_request-EndsWell req is_writable c

  round-EndsWell : (h : Happening) (c : Connection) → EndsWell (round cfg h c)
  unfolding round
  round-EndsWell (relay_message msg is_writable) c = elim (Option-cases c.held) [
    | inl free ↦ rw (free, round) (on_payload-EndsWell msg.payload is_writable c)
    | inr (task, busy) ↦ rw (busy, round) tt
  ]
  round-EndsWell end_of_stream c = finish-EndsWell c
  round-EndsWell status_error c = elim (Option-cases c.registered_connection_id) [
    | inl e ↦ rw (e, round) tt
    | inr (id, e) ↦ rw (e, round) (finish-EndsWell c)
  ]
  round-EndsWell (beat timestamp is_writable) c = tt
  round-EndsWell (handled i result is_writable) c = tt

  rounds-EndsWell : (hs : List Happening) (c : Connection) → EndsWell (rounds cfg hs c)
  unfolding rounds
  rounds-EndsWell [] c = tt
  rounds-EndsWell (h ∷ hs) c =
      let one = round-EndsWell h c in
      elim (Round-cases (round cfg h c)) [
        | inl (c1, e) ↦ rw (e, rounds) (rounds-EndsWell hs c1)
        | inr (result, c1, e) ↦ rw (e, rounds) (rw e at one)
      ]

  connect_once-EndsWell :
      (previous : Option Str) (lost_at : Option ℕ) (dialled : Result (Unit {0}) DeviceSdkError)
      (now : ℕ) (is_writable : Bool) (hs : List Happening)
      → eqb cfg.session_recovery_window_seconds 0 ≡ false
      → Retried dialled
      → EndsWell (connect_once cfg previous lost_at dialled now is_writable hs)
  unfolding connect_once
  connect_once-EndsWell previous lost_at (err e) now is_writable hs window up = up
  connect_once-EndsWell previous lost_at (ok _) now is_writable hs window up =
      let off : (is_some previous && eqb cfg.session_recovery_window_seconds 0) ≡ false =
        ground (arith, window, Bool-cases (is_some previous)) in
      elim (Bool-cases is_writable) [
        | inl writable ↦
            rw (off, writable, connect_once)
              (rounds-EndsWell hs (opened cfg (previous_for_register cfg previous lost_at now)))
        | inr broken ↦ rw (off, broken, connect_once) tt
      ]

  module _ (jittered : ℕ → ℕ → ℕ) where
    after_connection-ne-stopped :
        (result : Result Str DeviceSdkError) (ended_at : ℕ) (r : Recovery) (e : DeviceSdkError)
        → Retried result
        → after_connection jittered cfg result ended_at r ≢ stopped e
    unfolding after_connection retry
    after_connection-ne-stopped (ok id) ended_at r e v = λ h. cc
    after_connection-ne-stopped (err DeviceSdk.connection_closed) ended_at r e v = λ h. cc
    after_connection-ne-stopped (err DeviceSdk.grpc) ended_at r e v = λ h. cc
    after_connection-ne-stopped (err (DeviceSdk.invalid_config m)) ended_at r e v = absurd v
    after_connection-ne-stopped (err DeviceSdk.missing_token) ended_at r e v = absurd v
    after_connection-ne-stopped (err DeviceSdk.recovery_disabled) ended_at r e v = absurd v
    after_connection-ne-stopped (err DeviceSdk.tonic) ended_at r e v = absurd v

    attempt_once-ne-stopped :
        (a : Attempt) (r : Recovery) (e : DeviceSdkError)
        → eqb cfg.session_recovery_window_seconds 0 ≡ false
        → Retried a.dialled
        → attempt_once jittered cfg a r ≢ stopped e
    unfolding attempt_once
    attempt_once-ne-stopped a r e window up =
        let well =
          connect_once-EndsWell r.last_connection_id r.last_disconnect_at_millis a.dialled a.now
            a.is_writable a.happenings window up in
        elim (Round-cases (
          connect_once cfg r.last_connection_id r.last_disconnect_at_millis a.dialled a.now
            a.is_writable a.happenings)) [
              | inl (c, e1) ↦ rw (e1, attempt_once) (λ h. cc)
              | inr (result, c, e1) ↦
                  rw (e1, attempt_once)
                    (after_connection-ne-stopped result a.ended_at r e (rw e1 at well))
            ]

    -- Whatever the relay and the handlers do, `run` does not return an error, if no attempt fails
    -- below gRPC and the recovery window is not zero: the device waits for its next attempt or is
    -- connected.
    pub run_goes_on :
        (attempts : List Attempt) (r : Recovery) (e : DeviceSdkError)
        → eqb cfg.session_recovery_window_seconds 0 ≡ false
        → AllReach attempts
        → run jittered cfg attempts r ≢ stopped e
    unfolding run
    run_goes_on [] r e window v = λ h. cc
    run_goes_on (a ∷ attempts) r e window (d, v) =
        let one = attempt_once-ne-stopped a r in
        elim (Progress-cases (attempt_once jittered cfg a r)) [
          | inl (seconds, r1, e1) ↦ rw (e1, run) (run_goes_on attempts r1 e window v)
          | inr (inl e1) ↦ rw (e1, run) (λ h. cc)
          | inr (inr (e2, e1)) ↦ absurd (one e2 window d e1)
        ]

    -- Attempts that do not get a gRPC connection, after a connection that the relay registered.
    module _ (id : Str) (window : eqb cfg.session_recovery_window_seconds 0 ≡ true) (b : Attempt)
        (later : List Attempt) (up : b.dialled ≡ ok tt) where
      refused_at_last :
          (gaps : List Attempt) (r : Recovery)
          → AllFail gaps
          → r.last_connection_id ≡ some id
          → run jittered cfg (gaps ++ (b ∷ later)) r ≡ stopped DeviceSdk.recovery_disabled
      unfolding run attempt_once connect_once after_connection retry
      refused_at_last [] r v lost =
          rw (run, attempt_once, up, connect_once, lost, window, after_connection) refl
      refused_at_last (a ∷ gaps) r (down, v) lost =
          rw (run, attempt_once, down, connect_once, after_connection, retry)
            (refused_at_last gaps _ v lost)

      -- With a recovery window of zero, and after a connection that the relay registered: if the
      -- attempts that follow fail in gRPC before the connection is open, however many they are, and
      -- the next one opens it, then `run` ends there with `RecoveryDisabled`.
      pub run_without_window :
          (a : Attempt) (gaps : List Attempt) (r : Recovery) (c : Connection)
          → connect_once cfg r.last_connection_id r.last_disconnect_at_millis a.dialled a.now
              a.is_writable a.happenings
            ≡ ends (ok id) c
          → AllFail gaps
          → run jittered cfg (a ∷ (gaps ++ (b ∷ later))) r ≡ stopped DeviceSdk.recovery_disabled
      unfolding run attempt_once after_connection retry
      run_without_window a gaps r c registered v =
          let first : attempt_once jittered cfg a r
              ≡ after_connection jittered cfg (ok id) a.ended_at r =
            rw (registered, attempt_once) refl in
          rw (first, run, after_connection, retry) (refused_at_last gaps _ v refl)
