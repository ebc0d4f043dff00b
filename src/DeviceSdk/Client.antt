-- ===== src/DeviceSdk/Client.antt =====
-- crates/device-sdk/src/client.rs, `run`: the loop that connects, waits and connects again.
use g_rpc_relay.Base.{
  ℕ, ◌+◌, min, Bool, Option, none, some, List, [], ◌∷◌, Result, ok, err, list_eq, ℕ_eq,
}
use g_rpc_relay.Text.{Str}
use g_rpc_relay.DeviceSdk
use g_rpc_relay.DeviceSdk.{DeviceSdkError}
use g_rpc_relay.DeviceSdk.Config.{DeviceSdkConfig}
use g_rpc_relay.DeviceSdk.Backoff.{RetryBackoff, next_sleep_seconds}
use g_rpc_relay.DeviceSdk.Backoff
use g_rpc_relay.DeviceSdk.Connection.{Happening, continue, ends, connect_once}

abbrev u32_max : ℕ
u32_max = 4_294_967_295

-- The recovery state and the count of attempts.
pub record Recovery : Type 0 where
  pub last_connection_id : Option Str
  pub last_disconnect_at_millis : Option ℕ
  pub attempt : ℕ

unfoldable pub first : Recovery
first = record { last_connection_id = none; last_disconnect_at_millis = none; attempt = 0 }

-- One connection: how it is set up, what its stream brings, and when it is over.
pub record Attempt : Type 0 where
  pub dialled : Result (Unit {0}) DeviceSdkError
  pub now : ℕ
  pub is_writable : Bool
  pub happenings : List Happening
  pub ended_at : ℕ

-- The loop waits for so many seconds, the connection is still up, or `run` returned an error.
pub data Progress : Type 0 where
  waits : (seconds : ℕ) → Recovery → Progress
  connected : Progress
  stopped : DeviceSdkError → Progress

module _ (jittered : ℕ → ℕ → ℕ) (cfg : DeviceSdkConfig) where
  unfoldable pub backoff : RetryBackoff
  backoff = Backoff.new cfg.backoff_initial_seconds cfg.backoff_max_seconds

  -- Wait and try again.
  unfoldable pub retry : (ended_at : ℕ) → Recovery → Progress
  retry ended_at r = waits (next_sleep_seconds jittered backoff r.attempt) (record r {
    attempt = min u32_max (r.attempt + 1);
    last_disconnect_at_millis = some ended_at;
  })

  unfoldable pub after_connection : Result Str DeviceSdkError → (ended_at : ℕ) → Recovery → Progress
  after_connection (ok id) ended_at r =
      retry ended_at (record r { last_connection_id = some id; attempt = 0 })
  after_connection (err DeviceSdk.connection_closed) ended_at r = retry ended_at r
  after_connection (err DeviceSdk.grpc) ended_at r = retry ended_at r
  after_connection (err (DeviceSdk.invalid_config message)) ended_at r =
      stopped (DeviceSdk.invalid_config message)
  after_connection (err DeviceSdk.missing_token) ended_at r = stopped DeviceSdk.missing_token
  after_connection (err DeviceSdk.recovery_disabled) ended_at r =
      stopped DeviceSdk.recovery_disabled
  after_connection (err DeviceSdk.tonic) ended_at r = stopped DeviceSdk.tonic

  unfoldable pub attempt_once : Attempt → Recovery → Progress
  attempt_once a r =
      elim (connect_once cfg r.last_connection_id r.last_disconnect_at_millis a.dialled a.now
        a.is_writable a.happenings) [
          | continue c ↦ connected
          | ends result c ↦ after_connection result a.ended_at r
        ]

  -- The loop over the connections that are tried one after the other.
  unfoldable pub run : List Attempt → Recovery → Progress
  run [] r = waits 0 r
  run (a ∷ attempts) r = elim (attempt_once a r) [
    | waits seconds r1 ↦ run attempts r1
    | connected ↦ connected
    | stopped e ↦ stopped e
  ]
