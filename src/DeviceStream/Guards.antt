-- ===== src/DeviceStream/Guards.antt =====
-- crates/relay/src/grpc_service.rs, `run_device_connect_stream`: which messages a device stream
-- takes, and what a registration establishes.
use g_rpc_relay.Base.{
  ℕ, ◌+◌, ◌<◌, ◌≡◌, ◌≢◌, ◌↔◌, refl, sym, ap, subst, ◌∙◌, ◌⊎◌, inl, inr, Bool, true, false, none,
  some, [], arith, ok, ◌==◌, ==_iff, ==_refl, Option-cases, list_eq, ℕ_eq,
}
use g_rpc_relay.Collections.HashMap
use g_rpc_relay.Collections.HashMap.{HashMap, get-insert, get-remove_self, get-insert_self}
use g_rpc_relay.Text.{Str, str}
use g_rpc_relay.Proto.{DeviceMessage, RegisterRequest}
use g_rpc_relay.State.{
  RelayState, DeviceSession, connection_id, next_connection_id, u64_mod, device_id_for_connection,
  has_active_device_connection,
}
use g_rpc_relay.Stream.{StreamRouter}
use g_rpc_relay.State.Sessions.{IsConsistent}
use g_rpc_relay.RateLimiter.Connections.{allow_device}
use g_rpc_relay.Auth.{authenticate_device_by_token, DevicePrincipal}
use g_rpc_relay.Service.{Relay, audited}
use g_rpc_relay.DeviceStream.{
  DeviceStream, Round, continue, break, failed, is_established, touch_established, reject, accept,
  drop_previous, install_session, is_resumed, complete_register, on_register, on_message,
  is_register,
}
use g_rpc_relay.DeviceStream.Frames.{shared, shared-reject}
use g_rpc_relay.DeviceStream.Invariant.{relay_of}
use g_rpc_relay.DeviceStream.Rounds.{session_of, shared-complete_register}

-- The stream is registered for another device, or not registered at all.
abbrev pub IsForeign : DeviceStream → Str → Type 0
IsForeign ds d = (id : Str) → ds.current_device_id ≡ some id → id ≢ d

foreign_untouched :
    (r : Relay) (ds : DeviceStream) (d : Str) (now : ℕ)
    → IsForeign ds d
    → touch_established r ds d now ≡ r
unfolding touch_established is_established
foreign_untouched r ds d now foreign = elim (Option-cases ds.current_device_id) [
  | inl e ↦ elim (Option-cases ds.current_connection_id) [
    | inl f ↦ ground (arith, e, f)
    | inr (c, f) ↦ ground (arith, e, f)
  ]
  | inr (id, e) ↦ elim (Option-cases ds.current_connection_id) [
    | inl f ↦ ground (arith, e, f)
    | inr (c, f) ↦ ground (arith, e, f, foreign id e, ==_iff id d)
  ]
]

-- A message other than a registration, for a device that the stream is not registered for, ends
-- the stream with an error, and neither the state nor the router changes.
pub on_message_foreign :
    (r : Relay) (ds : DeviceStream) (msg : DeviceMessage) (now : ℕ) (healthy : Bool)
    → is_register msg.payload ≡ false
    → IsForeign ds msg.device_id
    → (q : Relay) × (on_message r ds msg now healthy ≡ break q ds failed) × (shared q ≡ shared r)
unfolding on_message
on_message_foreign r ds msg now healthy other foreign =
    let r0 = touch_established r ds msg.device_id now in
    let same = foreign_untouched r ds msg.device_id now foreign in
    elim (Option-cases ds.current_device_id) [
      | inl e ↦ (
        reject r0 msg.device_id msg.token (str "non_register_before_registration"),
        ground (arith, other, e),
        shared-reject r0 _ _ _ ∙ ap shared same,
      )
      | inr (id, e) ↦ (
        reject r0 msg.device_id msg.token (str "device_id_mismatch_on_stream"),
        ground (arith, other, e, foreign id e, ==_iff id msg.device_id),
        shared-reject r0 _ _ _ ∙ ap shared same,
      )
    ]

-- When the session maps agree, a registration counts as resumed exactly if it names a connection
-- and that connection is the one that the device is registered with.
pub is_resumed_iff :
    (s : RelayState) (previous d : Str)
    → IsConsistent s
    → (is_resumed s previous d ≡ true)
      ↔ ((previous ≢ []) × (has_active_device_connection s d previous ≡ true))
unfolding is_resumed device_id_for_connection has_active_device_connection
is_resumed_iff s previous d v = (resumed, active)
  where
    resumed :
        is_resumed s previous d ≡ true
        → (previous ≢ []) × (has_active_device_connection s d previous ≡ true)
    resumed h = elim (Option-cases (HashMap.get previous s.connection_to_device_id)) [
      | inl e ↦ absurd (unfold is_resumed device_id_for_connection in ground (arith, e))
      | inr (k, e) ↦
          let (x, found, same) = v.backward previous k e in
          unfold is_resumed device_id_for_connection has_active_device_connection in
          (
            (λ p. ground (arith, p)),
            ground (arith, e, found, same, ==_iff k d, ==_iff x.connection_id previous),
          )
    ]

    active :
        (previous ≢ []) × (has_active_device_connection s d previous ≡ true)
        → is_resumed s previous d ≡ true
    active (named, h) = elim (Option-cases (HashMap.get d s.sessions_by_device_id)) [
      | inl e ↦ absurd (unfold has_active_device_connection in ground (arith, e))
      | inr (x, e) ↦
          unfold is_resumed device_id_for_connection has_active_device_connection in
          ground (arith, e, v.forward d x e, ==_iff x.connection_id previous, ==_refl d)
    ]

stream_of : Round → DeviceStream
stream_of (continue r ds) = ds
stream_of (break r ds reason) = ds

-- What becomes of the session that a device had.
abbrev pub IsReplaced : RelayState → RelayState → Str → Type 0
IsReplaced s s' d =
    (HashMap.get d s.sessions_by_device_id ≡ none)
    ⊎ ((x : DeviceSession) × (HashMap.get d s.sessions_by_device_id ≡ some x)
        × (HashMap.get x.connection_id s'.connection_to_device_id ≡ none))

abbrev pub IsInstalled : RelayState → RelayState → Str → DeviceSession → Type 0
IsInstalled s s' d x =
    (HashMap.get d s'.sessions_by_device_id ≡ some x)
    × (has_active_device_connection s' d x.connection_id ≡ true)
    × IsReplaced s s' d

install_session-IsInstalled :
    (s : RelayState) (d : Str) (x : DeviceSession)
    → IsConsistent s
    → x.connection_id ≡ connection_id s.connection_id_counter
    → IsInstalled s (install_session (next_connection_id s).1 d x) d x
unfolding install_session next_connection_id drop_previous has_active_device_connection
install_session-IsInstalled s d x v new =
    let unused : HashMap.get x.connection_id s.connection_to_device_id ≡ none =
      rw new (v.fresh s.connection_id_counter (omega arith)) in
    (
      get-insert_self d x s.sessions_by_device_id,
      rw (get-insert_self d x s.sessions_by_device_id, has_active_device_connection)
          (==_refl x.connection_id),
      elim (Option-cases (HashMap.get d s.sessions_by_device_id)) [
        | inl e ↦ inl e
        | inr (y, e) ↦
            let left = drop_previous d s.sessions_by_device_id s.connection_to_device_id in
            let dropped : HashMap.get y.connection_id left ≡ none =
              ground (arith, e, get-remove_self y.connection_id s.connection_to_device_id) in
            let apart : (x.connection_id == y.connection_id) ≡ false =
              ground (arith, unused, v.forward d y e, ==_iff x.connection_id y.connection_id) in
            inr (
              y,
              e,
              get-insert x.connection_id y.connection_id d left ∙ ground (arith, apart, dropped),
            )
      ],
    )

on_register_passes :
    (r : Relay) (ds : DeviceStream) (d token : Str) (req : RegisterRequest) (now : ℕ)
    → (principal : DevicePrincipal) → authenticate_device_by_token r.auth d token ≡ ok principal
    → (allow_device (accept r d).connection_limiter d now).1 ≡ true
    → on_register r ds d token req now true
      ≡ complete_register
          (record (accept r d) {
            connection_limiter = (allow_device (accept r d).connection_limiter d now).0;
          })
          (record ds { current_device_id = some d })
          d
          req
unfolding on_register
on_register_passes r ds d token req now principal good room = rw (good, room, on_register) refl

-- A registration with a valid token, within the connection limit and on a healthy machine goes on
-- with the stream, from session maps that agree and a counter that does not wrap. The stream then
-- carries the device and the new connection, the device's session is the new one and active under
-- that connection, and the connection that the device had before, if any, leads nowhere.
pub on_register_admitted :
    (r : Relay) (ds : DeviceStream) (d token : Str) (req : RegisterRequest) (now : ℕ)
    → (principal : DevicePrincipal) → IsConsistent r.state
    → r.state.connection_id_counter + 1 < u64_mod
    → authenticate_device_by_token r.auth d token ≡ ok principal
    → (allow_device r.connection_limiter d now).1 ≡ true
    → (q : Relay) × (qs : DeviceStream) × (on_register r ds d token req now true ≡ continue q qs)
      × (qs.current_device_id ≡ some d)
      × (qs.current_connection_id ≡ some (session_of r ds d req).connection_id)
      × IsInstalled r.state q.state d (session_of r ds d req)
unfolding stream_of accept audited
on_register_admitted r ds d token req now principal v small good room = (
  relay_of (complete_register r2 named d req),
  stream_of (complete_register r2 named d req),
  on_register_passes r ds d token req now principal good room2 ∙ eta,
  unfold complete_register in refl,
  unfold complete_register in refl,
  subst (λ (s : RelayState). IsInstalled r.state s d (session_of r ds d req))
      (sym (ap (λ (p : RelayState × StreamRouter). p.0) (shared-complete_register r2 named d req)))
      (install_session-IsInstalled r.state d (session_of r ds d req) v
        (unfold next_connection_id in refl)),
)
  where
    named : DeviceStream
    named = record ds { current_device_id = some d }

    r2 : Relay
    r2 = record (accept r d) {
      connection_limiter = (allow_device (accept r d).connection_limiter d now).0;
    }

    room2 : (allow_device (accept r d).connection_limiter d now).1 ≡ true
    room2 = unfold accept audited in room

    eta :
        complete_register r2 named d req
        ≡ continue
            (relay_of (complete_register r2 named d req))
            (stream_of (complete_register r2 named d req))
    eta = unfold complete_register in refl
