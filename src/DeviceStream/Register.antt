-- ===== src/DeviceStream/Register.antt =====
-- crates/relay/src/grpc_service.rs: the session that a registration installs.
use g_rpc_relay.Base.{
  ℕ, ◌+◌, ◌%◌, ◌≤◌, ◌<◌, ◌≡◌, ◌≢◌, inl, inr, none, some, arith, ◌==◌, ==_iff, Bool-cases,
  Option-cases, list_eq, ℕ_eq,
}
use g_rpc_relay.Collections.HashMap
use g_rpc_relay.Collections.HashMap.{HashMap, get-insert, get-remove, get-insert_self}
use g_rpc_relay.Text.{Str}
use g_rpc_relay.State.{RelayState, DeviceSession, connection_id, next_connection_id, u64_mod}
use g_rpc_relay.State.Sessions.{IsConsistent, connection_id-injective}
use g_rpc_relay.DeviceStream.{install_session, drop_previous}

module _ (s : RelayState) (d : Str) (x : DeviceSession) (v : IsConsistent s)
    (small : s.connection_id_counter + 1 < u64_mod) (own : x.device_id ≡ d)
    (new : x.connection_id ≡ connection_id s.connection_id_counter) where
  conns : HashMap Str Str
  conns = drop_previous d s.sessions_by_device_id s.connection_to_device_id

  unused : HashMap.get x.connection_id s.connection_to_device_id ≡ none
  unused = rw new (v.fresh s.connection_id_counter (omega arith))

  -- The connections that are left when the previous one is dropped.
  get-conns :
      (c k : Str)
      → HashMap.get c conns ≡ some k
      → (HashMap.get c s.connection_to_device_id ≡ some k) × (d ≢ k)
  unfolding conns drop_previous
  get-conns c k h = elim (Option-cases (HashMap.get d s.sessions_by_device_id)) [
    | inl e ↦
        let kept : HashMap.get c s.connection_to_device_id ≡ some k = ground (arith, e) in
        let (y, found, same) = v.backward c k kept in (kept, λ p. ground arith)
    | inr (p, e) ↦
        let kept : HashMap.get c s.connection_to_device_id ≡ some k =
          ground (arith, e, get-remove p.connection_id c s.connection_to_device_id) in
        let (y, found, same) = v.backward c k kept in
        (
          kept,
          λ q. ground (
            arith,
            e,
            get-remove p.connection_id c s.connection_to_device_id,
            ==_iff p.connection_id c,
          ),
        )
  ]

  conns-get :
      (c k : Str)
      → HashMap.get c s.connection_to_device_id ≡ some k
      → d ≢ k
      → HashMap.get c conns ≡ some k
  unfolding conns drop_previous
  conns-get c k h other = elim (Option-cases (HashMap.get d s.sessions_by_device_id)) [
    | inl e ↦ ground (arith, e)
    | inr (p, e) ↦ ground (
      arith,
      e,
      get-remove p.connection_id c s.connection_to_device_id,
      ==_iff p.connection_id c,
      v.forward d p e,
    )
  ]

  install_forward :
      (k : Str) (y : DeviceSession)
      → HashMap.get k (HashMap.insert d x s.sessions_by_device_id) ≡ some y
      → (y.device_id ≡ k)
        × (HashMap.get y.connection_id (HashMap.insert x.connection_id d conns) ≡ some k)
  install_forward k y h = elim (Bool-cases (d == k)) [
    | inl same ↦
        let here : x ≡ y = ground (arith, get-insert d k x s.sessions_by_device_id) in
        let at_d : d ≡ k = (==_iff d k).0 same in
        (
          ground (arith, here, own, at_d),
          rw (← here, ← at_d) (get-insert_self x.connection_id d conns),
        )
    | inr other ↦
        let old : HashMap.get k s.sessions_by_device_id ≡ some y =
          ground (arith, get-insert d k x s.sessions_by_device_id) in
        let (named, connected) = v.forward k y old in
        (
          named,
          ground (
            arith,
            unused,
            connected,
            get-insert x.connection_id y.connection_id d conns,
            ==_iff x.connection_id y.connection_id,
            conns-get y.connection_id k connected (λ p. ground (arith, ==_iff d k)),
          ),
        )
  ]

  install_backward :
      (c k : Str)
      → HashMap.get c (HashMap.insert x.connection_id d conns) ≡ some k
      → (y : DeviceSession) × (HashMap.get k (HashMap.insert d x s.sessions_by_device_id) ≡ some y)
        × (y.connection_id ≡ c)
  install_backward c k h = elim (Bool-cases (x.connection_id == c)) [
    | inl same ↦
        let at_d : d ≡ k = ground (arith, get-insert x.connection_id c d conns) in
        (
          x,
          rw (← at_d) (get-insert_self d x s.sessions_by_device_id),
          (==_iff x.connection_id c).0 same,
        )
    | inr other ↦
        let (kept, apart) = get-conns c k (ground (arith, get-insert x.connection_id c d conns)) in
        let (y, found, same) = v.backward c k kept in
        (y, ground (arith, found, get-insert d k x s.sessions_by_device_id, ==_iff d k), same)
  ]

  install_fresh :
      (n : ℕ)
      → (s.connection_id_counter + 1) % u64_mod ≤ n
      → HashMap.get (connection_id n) (HashMap.insert x.connection_id d conns) ≡ none
  unfolding conns drop_previous
  install_fresh n h =
      let free = v.fresh n (omega (arith, small)) in
      elim (Option-cases (HashMap.get d s.sessions_by_device_id)) [
        | inl e ↦ ground (
          arith,
          e,
          free,
          new,
          get-insert x.connection_id (connection_id n) d s.connection_to_device_id,
          ==_iff x.connection_id (connection_id n),
          connection_id-injective s.connection_id_counter n,
        )
        | inr (p, e) ↦ ground (
          arith,
          e,
          free,
          new,
          get-insert x.connection_id (connection_id n) d
              (HashMap.remove p.connection_id s.connection_to_device_id),
          get-remove p.connection_id (connection_id n) s.connection_to_device_id,
          ==_iff x.connection_id (connection_id n),
          connection_id-injective s.connection_id_counter n,
        )
      ]

  -- From session maps that agree and a counter that does not wrap, installing a session of the
  -- device under the next connection number leads to session maps that agree, with the numbers
  -- still to be given out free.
  pub install_session-IsConsistent : IsConsistent (install_session (next_connection_id s).1 d x)
  unfolding install_session next_connection_id conns
  install_session-IsConsistent = record {
    forward = install_forward;
    backward = install_backward;
    fresh = install_fresh;
  }
