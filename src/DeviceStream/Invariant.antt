-- ===== src/DeviceStream/Invariant.antt =====
-- crates/relay/src/grpc_service.rs: the tables of the relay and what the end of a device stream does
-- to them.
use g_rpc_relay.Base.{
  ℕ, ◌+◌, ◌≤◌, ◌<◌, ◌≡◌, sym, ap, ◌∙◌, ◌⊎◌, subst, inl, inr, ℤ, Option, none, some, arith,
  Bool-cases, Option-cases, list_eq, ℕ_eq, ℤ_eq, pair_eq,
}
use g_rpc_relay.Collections.HashMap
use g_rpc_relay.Text.{Str}
use g_rpc_relay.State.{
  RelayState, DeviceSession, next_connection_id, u64_mod, touch_device, take_inflight,
  take_inflight_for_device, remove_device_session,
}
use g_rpc_relay.State.Sessions.{IsConsistent, remove_device_session-IsConsistent}
use g_rpc_relay.State.Waiters.{IsTable, take_inflight-IsTable}
use g_rpc_relay.State.Disconnect.{
  take_inflight_for_device-IsTable, rest_of, rest_of-take_inflight_for_device,
}
use g_rpc_relay.Stream.{StreamRouter, remove_all_for_device}
use g_rpc_relay.Stream.Invariant.{IsIndexed}
use g_rpc_relay.Stream.Removal.{remove_all_for_device-IsIndexed}
use g_rpc_relay.Service.{Relay}
use g_rpc_relay.DeviceStream.{
  DeviceStream, Round, continue, break, Reason, final_reason, is_established, touch_established,
  install_session, drop_device, owns_session, announce_offline, close_session, finish,
}
use g_rpc_relay.DeviceStream.Frames.{
  shared, shared-audited, shared-published, shared-notify_idle, shared-deliver_all,
}
use g_rpc_relay.DeviceStream.Register.{install_session-IsConsistent}

-- The session maps agree, the in-flight table is keyed by device, the router's tables agree, and
-- at most `n` connection numbers were given out.
pub record IsSound (n : ℕ) (p : RelayState × StreamRouter) : Type 0 where
  pub sessions : IsConsistent p.0
  pub table : IsTable p.0
  pub indexed : IsIndexed p.1
  pub counted : p.0.connection_id_counter ≤ n

abbrev pub relay_of : Round → Relay
relay_of (continue r ds) = r
relay_of (break r ds reason) = r

pub at_most : (n k : ℕ) (p : RelayState × StreamRouter) → IsSound n p → IsSound (n + k) p
at_most n k p v = record {
  sessions = v.sessions;
  table = v.table;
  indexed = v.indexed;
  counted = omega (arith, v.counted);
}

pub later : (n : ℕ) (p : RelayState × StreamRouter) → IsSound n p → IsSound (n + 1) p
later n p v = at_most n 1 p v

-- A state with the same session maps and counter.
same_sessions : (s s' : RelayState) → rest_of s' ≡ rest_of s → IsConsistent s → IsConsistent s'
same_sessions s s' e v = record {
  forward = λ d x h. ground (arith, e, v.forward d x);
  backward = λ c d h.
      let (x, found, same) = v.backward c d (ground (arith, e)) in
      (x, ground (arith, e, found), same);
  fresh = λ n h. ground (arith, e, v.fresh n);
}

module _ (n : ℕ) (s : RelayState) (ro : StreamRouter) (d : Str) (v : IsSound n (s, ro)) where
  pub touch_device-IsSound : (now : ℕ) → IsSound n (touch_device s d now, ro)
  unfolding touch_device
  touch_device-IsSound now = record {
    sessions = record {
      forward = v.sessions.forward;
      backward = v.sessions.backward;
      fresh = v.sessions.fresh;
    };
    table = record { distinct = v.table.distinct; keyed = v.table.keyed };
    indexed = v.indexed;
    counted = v.counted;
  }

  pub take_inflight-IsSound : (seq : ℤ) → IsSound n ((take_inflight s d seq).1, ro)
  unfolding take_inflight
  take_inflight-IsSound seq = record {
    sessions = record {
      forward = v.sessions.forward;
      backward = v.sessions.backward;
      fresh = v.sessions.fresh;
    };
    table = take_inflight-IsTable s seq d v.table;
    indexed = v.indexed;
    counted = v.counted;
  }

  drop-IsSound : IsSound n ((take_inflight_for_device s d).1, (remove_all_for_device ro d).1)
  drop-IsSound =
      let same = rest_of-take_inflight_for_device s d in
      record {
        sessions = same_sessions s (take_inflight_for_device s d).1 same v.sessions;
        table = take_inflight_for_device-IsTable s d v.table;
        indexed = remove_all_for_device-IsIndexed ro d v.indexed;
        counted = ground (arith, same, v.counted);
      }

  close-IsSound : IsSound n ((remove_device_session s d).1, ro)
  unfolding remove_device_session
  close-IsSound =
      let (table, counted) = kept (Option-cases (HashMap.get d s.sessions_by_device_id)) in
      record {
        sessions = remove_device_session-IsConsistent s d v.sessions;
        table = table;
        indexed = v.indexed;
        counted = counted;
      }
    where
      kept :
          (HashMap.get d s.sessions_by_device_id ≡ none)
            ⊎ ((x : DeviceSession) × (HashMap.get d s.sessions_by_device_id ≡ some x))
          → IsTable (remove_device_session s d).1
            × ((remove_device_session s d).1.connection_id_counter ≤ n)
      kept (inl e) = rw (e, remove_device_session) (v.table, v.counted)
      kept (inr (x, e)) =
          rw (e, remove_device_session)
            (record { distinct = v.table.distinct; keyed = v.table.keyed }, v.counted)

  pub install-IsSound :
      (x : DeviceSession)
      → n + 1 < u64_mod
      → x.device_id ≡ d
      → x.connection_id ≡ (next_connection_id s).0
      → IsSound (n + 1) (install_session (next_connection_id s).1 d x, ro)
  unfolding next_connection_id
  install-IsSound x small own new = record {
    sessions = install_session-IsConsistent s d x v.sessions (omega (arith, v.counted)) own new;
    table =
        unfold install_session next_connection_id in
        record { distinct = v.table.distinct; keyed = v.table.keyed };
    indexed = v.indexed;
    counted = unfold install_session next_connection_id in omega (arith, v.counted);
  }

pub shared-touch_established :
    (r : Relay) (ds : DeviceStream) (d : Str) (now n : ℕ)
    → IsSound n (shared r)
    → IsSound n (shared (touch_established r ds d now))
unfolding touch_established
shared-touch_established r ds d now n v = elim (Bool-cases (is_established r.state ds d)) [
  | inl own ↦ rw (own, touch_established) (touch_device-IsSound n r.state r.router d v now)
  | inr other ↦ rw (other, touch_established) v
]

pub shared-drop_device :
    (r : Relay) (d : Str)
    → shared (drop_device r d)
      ≡ ((take_inflight_for_device r.state d).1, (remove_all_for_device r.router d).1)
unfolding drop_device
shared-drop_device r d = shared-notify_idle d _ _ ∙ shared-deliver_all _ _

pub shared-announce_offline :
    (r : Relay) (d : Str) (reason : Reason) (session : Option DeviceSession)
    → shared (announce_offline r d reason session) ≡ shared r
unfolding announce_offline
shared-announce_offline r d reason none = shared-audited _ r
shared-announce_offline r d reason (some x) = shared-audited _ _ ∙ shared-published _ r

pub shared-close_session :
    (r : Relay) (d : Str) (reason : Reason)
    → shared (close_session r d reason) ≡ ((remove_device_session r.state d).1, r.router)
unfolding close_session
shared-close_session r d reason =
    ap put (shared-announce_offline r d reason (HashMap.get d r.state.sessions_by_device_id))
  where
    put : RelayState × StreamRouter → RelayState × StreamRouter
    put p = ((remove_device_session r.state d).1, p.1)

-- What follows the loop keeps the tables in step.
pub finish-IsSound :
    (r : Relay) (ds : DeviceStream) (reason : Reason) (n : ℕ)
    → IsSound n (shared r)
    → IsSound n (shared (finish r ds reason))
unfolding finish
finish-IsSound r ds reason n v = elim (Option-cases ds.current_device_id) [
  | inl e ↦ rw (e, finish) v
  | inr (d, e) ↦
      let r1 = drop_device r d in
      let v1 : IsSound n (shared r1) =
        subst (IsSound n) (sym (shared-drop_device r d)) (drop-IsSound n r.state r.router d v) in
      elim (Bool-cases (owns_session r1.state ds d)) [
        | inl own ↦
            rw (e, own, finish)
              (subst (IsSound n) (sym (shared-close_session r1 d (final_reason reason)))
                (close-IsSound n r1.state r1.router d v1))
        | inr other ↦ rw (e, other, finish) v1
      ]
]
