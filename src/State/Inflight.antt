-- ===== src/State/Inflight.antt =====
-- crates/relay/src/state.rs, `InFlight`: the controllers that wait for one response of a device.
use g_rpc_relay.Base.{ℕ, List, [], ◌∷◌, ◌++◌, map, list_eq, ℕ_eq}
use g_rpc_relay.Text.{Str}
use g_rpc_relay.Proto.{DeviceResponse}

pub record InFlight : Type 0 where
  pub device_id : Str
  pub waiters : List ℕ

-- A response sent on the one-shot channel of a waiter.
abbrev pub Delivery : Type 0
Delivery = ℕ × DeviceResponse

unfoldable pub new : Str → InFlight
new device_id = record { device_id = device_id; waiters = [] }

unfoldable pub push_waiter : InFlight → ℕ → InFlight
push_waiter f tx = record f { waiters = f.waiters ++ tx ∷ [] }

-- The waiters are taken, and each is sent the response.
unfoldable pub complete : InFlight → DeviceResponse → InFlight × List Delivery
complete f resp = (record f { waiters = [] }, map (λ waiter. (waiter, resp)) f.waiters)
