-- ===== src/Tests/Calls.antt =====
-- The unary calls.
use g_rpc_relay.Base.{
  pos, ◌≡◌, refl, List, [], ◌∷◌, ◌++◌, ok, err, list_beq, int_beq, list_eq, ℕ_eq, ℤ_eq,
}
use g_rpc_relay.Collections.HashMap
use g_rpc_relay.Text
use g_rpc_relay.Text.{str}
use g_rpc_relay.Proto.{DeviceInfo}
use g_rpc_relay.Session
use g_rpc_relay.RateLimiter.Requests
use g_rpc_relay.RateLimiter.Requests.{allow, check_key, maybe_cleanup}
use g_rpc_relay.Auth
use g_rpc_relay.Auth.{
  ControllerPrincipal, admin, authenticate_controller, authenticate_controller_table,
  token_is_revoked, get_device_principal_by_id, index_devices,
}
use g_rpc_relay.Service
use g_rpc_relay.Service.{Relay}
use g_rpc_relay.Handlers.{
  ListOnlineDevicesRequest, RevokeTokenRequest, Reply, identify, limit_list, visible_devices,
  is_in_region, is_visible, revoke, revoke_as, list_online_devices, revoke_token,
}
use g_rpc_relay.Handlers.Permission.{
  IsRevocation, MaySee, revoke_token-IsRevocation, list_online_devices-MaySee,
}
use g_rpc_relay.Tests.Data.{dev, ctl, decode, relay, auth}

abbrev root : ControllerPrincipal
root = record { controller_id = str "root"; role = admin; allowed_project_ids = [] }

abbrev administered : Relay
administered = record relay {
  auth = record auth {
    controller_tokens =
        (
          str "token-of-root",
          record { controller_id = str "root"; role = admin; allowed_project_ids = [] },
        )
        ∷ auth.controller_tokens;
  };
}

abbrev revocation : RevokeTokenRequest
revocation = record {
  controller_id = str "root";
  admin_token = str "token-of-root";
  target_type = pos 2;
  target_token_hash_or_prefix = str "token-of-dev";
}

abbrev by_operator : RevokeTokenRequest
by_operator = record revocation { controller_id = ctl; admin_token = str "token-of-ctl" }

abbrev relay_of : {A : Type 0} → Reply A → Relay
relay_of (ok (x, q)) = q
relay_of (err (status, q)) = q

revoke_token-IsRevocation_example :
    (principal : ControllerPrincipal) × (authenticate_controller decode administered.auth
        (str "root")
        (str "token-of-root")
      ≡ ok principal)
    × (principal.role ≡ admin)
    × IsRevocation administered.auth
        (relay_of (revoke_token decode administered revocation)).auth
        (str "token-of-dev")
unfolding revoke_token identify revoke_as revoke Auth.new authenticate_controller
    authenticate_controller_table token_is_revoked HashMap.get list_beq int_beq Text.trim
revoke_token-IsRevocation_example =
    revoke_token-IsRevocation decode administered
      (relay_of (revoke_token decode administered revocation)) revocation tt refl

-- A relay with one device online.
abbrev online : Relay
online = record relay {
  state = record relay.state {
    sessions_by_device_id =
        (
          dev,
          record { device_id = dev; connection_id = str "conn-1"; metadata = []; outbound_tx = 3 },
        )
        ∷ [];
  };
}

abbrev query : ListOnlineDevicesRequest
query = record { controller_id = ctl; token = str "token-of-ctl"; region_filter = [] }

abbrev info : DeviceInfo
info = record {
  device_id = dev;
  connection_id = str "conn-1";
  relay_address = str "relay:50051";
  connected_at = pos 0;
  metadata = [];
}

list_online_devices-MaySee_example :
    (principal : ControllerPrincipal) × (authenticate_controller decode online.auth ctl
        (str "token-of-ctl")
      ≡ ok principal)
    × ((before : List DeviceInfo) (shown : DeviceInfo) (after : List DeviceInfo)
        → (info ∷ []) ≡ before ++ shown ∷ after
        → MaySee online.auth principal shown)
unfolding list_online_devices identify limit_list visible_devices is_in_region is_visible Auth.new
    index_devices authenticate_controller authenticate_controller_table token_is_revoked
    get_device_principal_by_id Session.list_online_devices allow check_key maybe_cleanup
    Requests.new HashMap.get HashMap.insert list_beq Text.trim Service.audited
list_online_devices-MaySee_example =
    list_online_devices-MaySee decode online
      (relay_of (list_online_devices decode online query (1, 2, 3, 4))) query (1, 2, 3, 4)
      (info ∷ []) refl
