-- ===== src/ControllerStream/Checks.antt =====
-- crates/relay/src/grpc_service.rs, `run_connect_to_device_stream`: the tables of the relay through
-- the checks that open a stream.
use g_rpc_relay.Base.{
  ℕ, ◌+◌, ◌<◌, ◌≡◌, refl, sym, ap, subst, ◌∙◌, inl, inr, arith, ok, err, ◌>>=◌, Bool-cases,
  Result-cases, list_eq, ℕ_eq,
}
use g_rpc_relay.Proto.{ControllerMessage}
use g_rpc_relay.State.{RelayState, increment_controller_connections}
use g_rpc_relay.Stream.{StreamRouter, usize_mod}
use g_rpc_relay.Auth.{
  Decode, ControllerPrincipal, DevicePrincipal, authenticate_controller, get_device_principal_by_id,
}
use g_rpc_relay.Rbac.{authorize_controller_to_device}
use g_rpc_relay.Service.{Relay, audited, emit}
use g_rpc_relay.DeviceStream.Frames.{shared}
use g_rpc_relay.DeviceStream.Invariant.{IsSound}
use g_rpc_relay.ControllerStream.{
  ControllerStream, Surroundings, Check, refuse, connect_controller, check_controller, check_device,
  check_permission, check_rate, establish, send_error_response,
}
use g_rpc_relay.ControllerStream.Admission.{within_rate}
use g_rpc_relay.ControllerStream.Invariant.{IsSoundCheck, with_connections, open_stream-IsSound}

module _ (decode : Decode) (n : ℕ) (r : Relay) (cs : ControllerStream) (msg : ControllerMessage)
    (env : Surroundings) (v : IsSound n (shared r)) (small : r.router.counter + 1 < usize_mod) where
  pub connect-IsSound :
      IsSound n (shared (connect_controller r cs msg.controller_id).0)
      × ((connect_controller r cs msg.controller_id).0.router ≡ r.router)
  unfolding connect_controller increment_controller_connections audited
  connect-IsSound = elim (Bool-cases cs.controller_connected) [
    | inl counted ↦ rw (counted, connect_controller) (v, refl)
    | inr first ↦ rw (first, connect_controller) (with_connections n r v _, refl)
  ]

  check_controller-IsSound :
      (p : ControllerPrincipal) (q : Relay) (qs : ControllerStream)
      → check_controller decode r cs msg ≡ ok (p, q, qs)
      → IsSound n (shared q) × (q.router ≡ r.router)
  unfolding check_controller refuse
  check_controller-IsSound p q qs h =
      elim (Result-cases (authenticate_controller decode r.auth msg.controller_id msg.token)) [
        | inr (e, bad) ↦ absurd (ground (arith, bad))
        | inl (x, good) ↦
            let same : (connect_controller r cs msg.controller_id).0 ≡ q = ground (arith, good) in
            let (w, kept) = connect-IsSound in
            (
              subst (λ (q : Relay). IsSound n (shared q)) same w,
              ap (λ (q : Relay). q.router) (sym same) ∙ kept,
            )
      ]

-- A refusal leaves the state and the router as they were.
abbrev Refused : Relay → Relay × ControllerStream → Type 0
Refused r p = (p.0.state ≡ r.state) × (p.0.router ≡ r.router)

module _ (r : Relay) (cs : ControllerStream) (msg : ControllerMessage)
    (p : Relay × ControllerStream) where
  check_controller-Refused :
      (decode : Decode) → check_controller decode r cs msg ≡ err p → Refused r p
  unfolding check_controller refuse send_error_response emit audited
  check_controller-Refused decode h =
      elim (Result-cases (authenticate_controller decode r.auth msg.controller_id msg.token)) [
        | inr (e, bad) ↦ ground (arith, bad)
        | inl (x, good) ↦ absurd (ground (arith, good))
      ]

  check_device-Refused : check_device r cs msg ≡ err p → Refused r p
  unfolding check_device refuse send_error_response emit
  check_device-Refused h =
      elim (Result-cases (get_device_principal_by_id r.auth msg.target_device_id)) [
        | inr (e, bad) ↦ ground (arith, bad)
        | inl (x, good) ↦ absurd (ground (arith, good))
      ]

  check_permission-Refused :
      (principal : ControllerPrincipal) (device : DevicePrincipal)
      → check_permission r cs msg principal device ≡ err p
      → Refused r p
  unfolding check_permission refuse send_error_response emit audited
  check_permission-Refused principal device h =
      elim (Result-cases (authorize_controller_to_device r.rbac principal device msg.method_name)) [
        | inr (e, bad) ↦ ground (arith, bad)
        | inl (x, good) ↦ absurd (ground (arith, good))
      ]

  check_rate-Refused : (env : Surroundings) → check_rate r cs msg env ≡ err p → Refused r p
  unfolding check_rate refuse send_error_response emit audited
  check_rate-Refused env h = ground (arith, Bool-cases (within_rate r msg env))

check_rate_kept :
    (r : Relay) (cs : ControllerStream) (msg : ControllerMessage) (env : Surroundings) (q : Relay)
    → check_rate r cs msg env ≡ ok q
    → (q.state ≡ r.state) × (q.router ≡ r.router)
unfolding check_rate refuse
check_rate_kept r cs msg env q h = ground (arith, Bool-cases (within_rate r msg env))

pub same_shared :
    (n : ℕ) (r q : Relay)
    → q.state ≡ r.state
    → q.router ≡ r.router
    → IsSound n (shared r)
    → IsSound n (shared q)
same_shared n r q state router v =
    subst (λ (s : RelayState). IsSound n (s, q.router)) (sym state)
      (subst (λ (ro : StreamRouter). IsSound n (r.state, ro)) (sym router) v)

bind-IsSoundCheck :
    {A : Type 0} (n : ℕ) (r : Relay) (c : Check A) (f : A → Check (Relay × ControllerStream))
    → IsSound n (shared r)
    → ((p : Relay × ControllerStream) → c ≡ err p → Refused r p)
    → ((x : A) → c ≡ ok x → IsSoundCheck n (f x))
    → IsSoundCheck n (c >>= f)
bind-IsSoundCheck n r (ok x) f v refused go = go x refl
bind-IsSoundCheck n r (err p) f v refused go =
    same_shared n r p.0 (refused p refl).0 (refused p refl).1 v

module _ (decode : Decode) (n : ℕ) (r : Relay) (cs : ControllerStream) (msg : ControllerMessage)
    (env : Surroundings) (v : IsSound n (shared r)) (small : r.router.counter + 1 < usize_mod) where
  pub establish-IsSound : IsSoundCheck n (establish decode r cs msg env)
  unfolding establish
  establish-IsSound =
      bind-IsSoundCheck n r (check_controller decode r cs msg) _ v
        (λ p e. check_controller-Refused r cs msg p decode e)
        (λ (principal, r1, cs1) e.
          let (v1, same) =
            check_controller-IsSound decode n r cs msg env v small principal r1 cs1 e in
          bind-IsSoundCheck n r1 (check_device r1 cs1 msg) _ v1 (check_device-Refused r1 cs1 msg)
            (λ device _.
              bind-IsSoundCheck n r1 (check_permission r1 cs1 msg principal device) _ v1
                (λ p e. check_permission-Refused r1 cs1 msg p principal device e)
                (λ _ _.
                  bind-IsSoundCheck n r1 (check_rate r1 cs1 msg env) _ v1
                    (λ p e. check_rate-Refused r1 cs1 msg p env e)
                    (λ r2 e.
                      let (state, router) = check_rate_kept r1 cs1 msg env r2 e in
                      open_stream-IsSound n r2 (same_shared n r1 r2 state router v1) cs1 msg env (
                        subst (λ (ro : StreamRouter). ro.counter + 1 < usize_mod)
                          (sym (router ∙ same)) small)))))
