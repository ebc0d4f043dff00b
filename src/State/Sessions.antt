-- ===== src/State/Sessions.antt =====
-- crates/relay/src/state.rs: the two session maps, by device and by connection.
use g_rpc_relay.Base.{
  ℕ, ◌≤◌, ◌≡◌, refl, inl, inr, none, some, arith, if◌then◌else◌, ◌==◌, ==_iff, Option-cases,
  append-cancel, list_eq, ℕ_eq,
}
use g_rpc_relay.Collections.HashMap
use g_rpc_relay.Collections.HashMap.{HashMap, get-remove}
use g_rpc_relay.Text.{Str, str}
use g_rpc_relay.Text.Decimal.{to_string-injective}
use g_rpc_relay.State.{RelayState, DeviceSession, new, connection_id, remove_device_session}

-- Each session is found by its connection, each connection leads to the session that carries it,
-- and no number that the counter has yet to give out is taken.
pub record IsConsistent (s : RelayState) : Type 0 where
  pub forward :
      (d : Str) (x : DeviceSession)
      → HashMap.get d s.sessions_by_device_id ≡ some x
      → (x.device_id ≡ d) × (HashMap.get x.connection_id s.connection_to_device_id ≡ some d)
  pub backward :
      (c d : Str)
      → HashMap.get c s.connection_to_device_id ≡ some d
      → (x : DeviceSession) × (HashMap.get d s.sessions_by_device_id ≡ some x)
        × (x.connection_id ≡ c)
  pub fresh :
      (n : ℕ)
      → s.connection_id_counter ≤ n
      → HashMap.get (connection_id n) s.connection_to_device_id ≡ none

pub new-IsConsistent : IsConsistent new
unfolding new HashMap.get
new-IsConsistent = record {
  forward = λ d x h. absurd (ground arith);
  backward = λ c d h. absurd (ground arith);
  fresh = λ n h. refl;
}

pub connection_id-injective : (m n : ℕ) → connection_id m ≡ connection_id n → m ≡ n
unfolding connection_id
connection_id-injective m n h = to_string-injective m n (append-cancel (str "conn-") h)

module _ (s : RelayState) (d : Str) where
  pub remove_device_session-sessions :
      (k : Str)
      → HashMap.get k (remove_device_session s d).1.sessions_by_device_id
        ≡ (if d == k then none else HashMap.get k s.sessions_by_device_id)
  unfolding remove_device_session
  remove_device_session-sessions k =
      ground (arith, get-remove d k s.sessions_by_device_id, ==_iff d k)

  remove_forward :
      IsConsistent s
      → (x : DeviceSession) → HashMap.get d s.sessions_by_device_id ≡ some x
      → (k : Str) (y : DeviceSession)
      → HashMap.get k (HashMap.remove d s.sessions_by_device_id) ≡ some y
      → (y.device_id ≡ k)
        × (HashMap.get y.connection_id (HashMap.remove x.connection_id s.connection_to_device_id)
            ≡ some k)
  remove_forward v x e k y h = ground (
    arith,
    get-remove d k s.sessions_by_device_id,
    get-remove x.connection_id y.connection_id s.connection_to_device_id,
    ==_iff d k,
    ==_iff x.connection_id y.connection_id,
    v.forward k y,
    v.forward d x e,
  )

  remove_backward :
      IsConsistent s
      → (x : DeviceSession) → HashMap.get d s.sessions_by_device_id ≡ some x
      → (c k : Str)
      → HashMap.get c (HashMap.remove x.connection_id s.connection_to_device_id) ≡ some k
      → (y : DeviceSession) × (HashMap.get k (HashMap.remove d s.sessions_by_device_id) ≡ some y)
        × (y.connection_id ≡ c)
  remove_backward v x e c k h =
      let kept : HashMap.get c s.connection_to_device_id ≡ some k =
        ground (
          arith,
          get-remove x.connection_id c s.connection_to_device_id,
          ==_iff x.connection_id c,
        ) in
      let (y, found, same) = v.backward c k kept in
      (
        y,
        ground (
          arith,
          get-remove d k s.sessions_by_device_id,
          get-remove x.connection_id c s.connection_to_device_id,
          ==_iff d k,
          ==_iff x.connection_id c,
        ),
        same,
      )

  -- From session maps that agree, removing a device's session leads to session maps that agree.
  pub remove_device_session-IsConsistent :
      IsConsistent s → IsConsistent (remove_device_session s d).1
  unfolding remove_device_session
  remove_device_session-IsConsistent v =
      elim (Option-cases (HashMap.get d s.sessions_by_device_id)) [
        | inl e ↦ rw (e, remove_device_session) v
        | inr (x, e) ↦
            rw (e, remove_device_session)
              (record {
                forward = remove_forward v x e;
                backward = remove_backward v x e;
                fresh = λ n h. ground (
                  arith,
                  get-remove x.connection_id (connection_id n) s.connection_to_device_id,
                  v.fresh n h,
                );
              })
      ]
