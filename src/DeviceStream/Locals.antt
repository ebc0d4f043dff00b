-- ===== src/DeviceStream/Locals.antt =====
-- crates/relay/src/grpc_service.rs, `run_device_connect_stream`: the local variables, and how a round
-- of the loop ends.
use g_rpc_relay.Base.{ℕ, Option, list_eq, ℕ_eq, ℤ_eq, pair_eq}
use g_rpc_relay.Text.{Str, str}
use g_rpc_relay.Service.{Relay}

-- The local variables of the loop.
pub record DeviceStream : Type 0 where
  pub current_device_id : Option Str
  pub current_connection_id : Option Str
  pub out_tx : ℕ

pub data Reason : Type 0 where
  closed timeout failed graceful_shutdown : Reason

-- The texts that `disconnect_reason` holds.
abbrev pub reason_text : Reason → Str
reason_text closed = str "closed"
reason_text timeout = str "timeout"
reason_text failed = str "error"
reason_text graceful_shutdown = str "graceful_shutdown"

-- A round goes on with the loop, or breaks out of it.
pub data Round : Type 0 where
  continue : Relay → DeviceStream → Round
  break : Relay → DeviceStream → Reason → Round

abbrev pub device : Str
device = str "device"
