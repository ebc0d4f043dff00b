-- ===== src/Tests/Devices.antt =====
-- The loop of a device stream, its sessions and its waiters.
use g_rpc_relay.Base.{◌≡◌, ◌≢◌, ◌↔◌, pos, refl, true, some, [], arith, list_eq, ℕ_eq, ℤ_eq, pair_eq}
use g_rpc_relay.Text.{str}
use g_rpc_relay.Proto.{DeviceMessage, heartbeat}
use g_rpc_relay.State.{DeviceSession, connection_id, has_active_device_connection}
use g_rpc_relay.Service.{Relay}
use g_rpc_relay.DeviceStream.{
  DeviceStream, break, failed, closed, is_resumed, on_message, owns_session, finish,
  run_device_connect_stream,
}
use g_rpc_relay.DeviceStream.Frames.{shared}
use g_rpc_relay.DeviceStream.Invariant.{IsSound}
use g_rpc_relay.DeviceStream.Rounds.{run_device_connect_stream-IsSound}
use g_rpc_relay.DeviceStream.Guards.{is_resumed_iff, on_message_foreign}
use g_rpc_relay.DeviceStream.Closing.{IsClosed, finish_lem}
use g_rpc_relay.DeviceStream.Answers.{account}
use g_rpc_relay.DeviceStream.Conservation.{run_device_connect_stream_conserves}
use g_rpc_relay.Tests.Data.{
  dev, secret_token, relay, state, stream, inbound, relay-IsSound, state-IsConsistent,
  state-IsTable, router-IsIndexed,
}

abbrev registered : DeviceStream
registered = record {
  current_device_id = some dev;
  current_connection_id = some (str "conn-1");
  out_tx = 3;
}

-- A heartbeat of another device.
abbrev stray : DeviceMessage
stray = record {
  device_id = str "dev-2";
  token = secret_token;
  payload = some (heartbeat (record { connection_id = []; timestamp = pos 0 }));
}

abbrev session : DeviceSession
session = record {
  device_id = dev;
  connection_id = connection_id 1;
  metadata = [];
  outbound_tx = 3;
}

run_device_connect_stream_conserves_example :
    account 9 (run_device_connect_stream relay stream inbound).0 ≡ account 9 relay
run_device_connect_stream_conserves_example =
    run_device_connect_stream_conserves 9 relay stream inbound 1 (omega arith) relay-IsSound

run_device_connect_stream-IsSound_example :
    IsSound 4 (shared (run_device_connect_stream relay stream inbound).0)
run_device_connect_stream-IsSound_example =
    run_device_connect_stream-IsSound relay stream inbound 1 (omega arith) relay-IsSound

finish_lem_example :
    IsClosed
      (owns_session state registered dev)
      dev
      (shared relay)
      (shared (finish relay registered closed))
finish_lem_example = finish_lem relay registered closed dev refl state-IsTable router-IsIndexed

on_message_foreign_example :
    (q : Relay) × (on_message relay registered stray 5 true ≡ break q registered failed)
    × (shared q ≡ shared relay)
on_message_foreign_example =
    on_message_foreign relay registered stray 5 true refl (λ id e. ground arith)

is_resumed_iff_example :
    (is_resumed state (str "conn-1") dev ≡ true)
    ↔ ((str "conn-1" ≢ []) × (has_active_device_connection state dev (str "conn-1") ≡ true))
is_resumed_iff_example = is_resumed_iff state (str "conn-1") dev state-IsConsistent
