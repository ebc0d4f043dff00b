-- ===== src/DeviceStream/Closing.antt =====
-- crates/relay/src/grpc_service.rs, `run_device_connect_stream`: what the end of a device stream
-- takes away.
use g_rpc_relay.Base.{
  ℕ, ◌≡◌, refl, sym, ap, subst, ◌∙◌, inl, inr, ℤ, Bool, true, false, not, ◌&&◌, none, some, arith,
  if◌then◌else◌, ◌==◌, Bool-cases, Option-cases, list_eq, ℕ_eq, ℤ_eq, pair_eq,
}
use g_rpc_relay.Collections.HashMap
use g_rpc_relay.Collections.HashMap.{HashMap}
use g_rpc_relay.Text.{Str}
use g_rpc_relay.State.{
  RelayState, DeviceSession, take_inflight_for_device, remove_device_session,
  has_active_device_connection,
}
use g_rpc_relay.State.Sessions.{remove_device_session-sessions}
use g_rpc_relay.State.Waiters.{IsTable}
use g_rpc_relay.State.Disconnect.{get-take_inflight_for_device, rest_of-take_inflight_for_device}
use g_rpc_relay.Stream.{StreamRouter, remove_all_for_device}
use g_rpc_relay.Stream.Invariant.{IsIndexed}
use g_rpc_relay.Stream.Removal.{only_if, remove_all_for_device_lem}
use g_rpc_relay.Service.{Relay}
use g_rpc_relay.DeviceStream.{DeviceStream, Reason, final_reason, drop_device, owns_session, finish}
use g_rpc_relay.DeviceStream.Frames.{shared}
use g_rpc_relay.DeviceStream.Invariant.{shared-drop_device, shared-close_session}

-- What the end of the stream of device `d` leaves: no request and no stream of the device; of the
-- sessions, that of `d` goes if `own` says so.
abbrev pub IsClosed : Bool → Str → RelayState × StreamRouter → RelayState × StreamRouter → Type 0
IsClosed own d p q =
    ((k : Str × ℤ)
      → HashMap.get k q.0.inflight_by_sequence
        ≡ (if k.0 == d then none else HashMap.get k p.0.inflight_by_sequence))
    × ((s : Str)
        → HashMap.get s q.1.mappings
          ≡ only_if (λ m. not (m.device_id == d)) (HashMap.get s p.1.mappings))
    × ((k : Str)
        → HashMap.get k q.0.sessions_by_device_id
          ≡ (if own && d == k then none else HashMap.get k p.0.sessions_by_device_id))

pub remove_device_session-inflight :
    (s : RelayState) (d : Str)
    → (remove_device_session s d).1.inflight_by_sequence ≡ s.inflight_by_sequence
unfolding remove_device_session
remove_device_session-inflight s d = elim (Option-cases (HashMap.get d s.sessions_by_device_id)) [
  | inl e ↦ rw (e, remove_device_session) refl
  | inr (x, e) ↦ rw (e, remove_device_session) refl
]

owns_session-cong :
    (s s' : RelayState) (ds : DeviceStream) (d : Str)
    → s'.sessions_by_device_id ≡ s.sessions_by_device_id
    → owns_session s' ds d ≡ owns_session s ds d
unfolding owns_session has_active_device_connection
owns_session-cong s s' ds d e = ground (arith, e)

module _ (s : RelayState) (ro : StreamRouter) (d : Str) (v : IsTable s) (w : IsIndexed ro) where
  abbrev s1 : RelayState
  s1 = (take_inflight_for_device s d).1

  same_sessions : s1.sessions_by_device_id ≡ s.sessions_by_device_id
  same_sessions =
      ap
        (λ (x : record {
          sessions : HashMap Str DeviceSession;
          connections : HashMap Str Str;
          seen : HashMap Str ℕ;
          counter : ℕ;
          controllers : ℕ;
        }).
          x.sessions)
        (rest_of-take_inflight_for_device s d)

  drop_device-IsClosed : IsClosed false d (s, ro) (s1, (remove_all_for_device ro d).1)
  drop_device-IsClosed = (
    get-take_inflight_for_device s d v,
    λ x. (remove_all_for_device_lem ro d w x).0,
    λ k. ap (HashMap.get k) same_sessions,
  )

  close_session-IsClosed :
      IsClosed true d (s, ro) ((remove_device_session s1 d).1, (remove_all_for_device ro d).1)
  close_session-IsClosed = (
    λ k.
        ap (HashMap.get k) (remove_device_session-inflight s1 d)
        ∙ get-take_inflight_for_device s d v k,
    λ x. (remove_all_for_device_lem ro d w x).0,
    λ k. ground (arith, remove_device_session-sessions s1 d k, same_sessions),
  )

abbrev removed : Str → RelayState × StreamRouter → RelayState × StreamRouter
removed d p = ((remove_device_session p.0 d).1, p.1)

-- The end of a stream that is registered for a device, on tables that agree, removes every request
-- of the device from the in-flight table and every stream of the device from the router, whether
-- or not the stream still owns the device's session, and nothing of another device; the session of
-- the device is removed if the stream owns it, and no session otherwise.
pub finish_lem :
    (r : Relay) (ds : DeviceStream) (reason : Reason) (d : Str)
    → ds.current_device_id ≡ some d
    → IsTable r.state
    → IsIndexed r.router
    → IsClosed (owns_session r.state ds d) d (shared r) (shared (finish r ds reason))
unfolding finish
finish_lem r ds reason d e v w =
    let r1 = drop_device r d in
    let dropped = shared-drop_device r d in
    let owner : owns_session r1.state ds d ≡ owns_session r.state ds d =
      ap (λ (p : RelayState × StreamRouter). owns_session p.0 ds d) dropped
      ∙ owns_session-cong r.state _ ds d (same_sessions r.state r.router d v w) in
    elim (Bool-cases (owns_session r.state ds d)) [
      | inl own ↦
          rw (own, e, owner ∙ own, finish)
            (subst (IsClosed true d (shared r))
              (sym (shared-close_session r1 d (final_reason reason) ∙ ap (removed d) dropped))
              (close_session-IsClosed r.state r.router d v w))
      | inr other ↦
          rw (other, e, owner ∙ other, finish)
            (subst (IsClosed false d (shared r)) (sym dropped)
              (drop_device-IsClosed r.state r.router d v w))
    ]
