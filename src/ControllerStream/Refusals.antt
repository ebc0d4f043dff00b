-- ===== src/ControllerStream/Refusals.antt =====
-- crates/relay/src/grpc_service.rs, `run_connect_to_device_stream`: the same account through
-- the checks of a message.
use g_rpc_relay.Base.{
  ℕ, ◌≡◌, refl, ◌∙◌, inl, inr, ok, err, ◌>>=◌, Bool-cases, Option-cases, Result-cases, list_eq,
  ℕ_eq, ℤ_eq, pair_eq,
}
use g_rpc_relay.Text.{is_blank}
use g_rpc_relay.Proto.{ControllerMessage}
use g_rpc_relay.State.{increment_controller_connections}
use g_rpc_relay.State.Waiters.{pending}
use g_rpc_relay.Stream
use g_rpc_relay.Stream.{create_mapping, remove_mapping}
use g_rpc_relay.Auth.{
  Decode, ControllerPrincipal, DevicePrincipal, authenticate_controller, get_device_principal_by_id,
}
use g_rpc_relay.Rbac.{authorize_controller_to_device}
use g_rpc_relay.Validator.{validate_controller_message}
use g_rpc_relay.Service.{
  AuditEvent, auth_success, controller_connect, record_auth_success, Relay, audited,
}
use g_rpc_relay.DeviceStream.Answers.{answered, account, account-audited, account-emit}
use g_rpc_relay.ControllerStream.{
  controller, ControllerStream, Surroundings, Check, refuse, connect_controller, check_message,
  check_controller, check_device, check_permission, check_rate, open_stream, refuse_stream,
  establish, check_binding, is_bound, send_error_response,
}
use g_rpc_relay.ControllerStream.Admission.{within_rate}
use g_rpc_relay.Stream.{usize_mod}

-- After a check, whether it goes on or not, a channel's account is a given number.
abbrev pub Keeps : {A : Type 0} → ℕ → ℕ → (A → Relay) → Check A → Type 0
Keeps k n f (ok x) = account k (f x) ≡ n
Keeps k n f (err p) = account k p.0 ≡ n

count_in :
    (k : ℕ) (e : AuditEvent) (q : Relay)
    → account k (record (audited e q) { state = increment_controller_connections q.state })
      ≡ account k q
unfolding audited increment_controller_connections pending
count_in k e q = account-audited k e (record q { state = increment_controller_connections q.state })

bind-Keeps :
    {A : Type 0} (k n : ℕ) (f : A → Relay) (c : Check A) (g : A → Check (Relay × ControllerStream))
    → Keeps k n f c
    → ((x : A) → account k (f x) ≡ n → Keeps k n (λ p. p.0) (g x))
    → Keeps k n (λ p. p.0) (c >>= g)
bind-Keeps k n f (ok x) g h go = go x h
bind-Keeps k n f (err p) g h go = h

module _ (k n : ℕ) (r : Relay) (cs : ControllerStream) (msg : ControllerMessage)
    (h : account k r ≡ n) where
  pub check_message-Keeps : Keeps k n (λ _. r) (check_message r cs msg)
  unfolding check_message refuse send_error_response answered
  check_message-Keeps =
      elim (Result-cases (
        validate_controller_message msg.controller_id msg.target_device_id msg.method_name
          msg.encrypted_payload msg.sequence_number)) [
            | inr (e, bad) ↦ rw (bad, check_message) (account-emit k _ _ refl ∙ h)
            | inl (u, good) ↦ elim (Bool-cases (is_blank msg.token)) [
              | inl blank ↦
                  rw (good, blank, check_message)
                    (account-emit k _ _ refl ∙ account-audited k _ _ ∙ h)
              | inr filled ↦ rw (good, filled, check_message) h
            ]
          ]

  connect-account : account k (connect_controller r cs msg.controller_id).0 ≡ n
  unfolding connect_controller audited
  connect-account =
      let q =
        audited (auth_success controller msg.controller_id)
          (record r { security_metrics = record_auth_success r.security_metrics }) in
      elim (Bool-cases cs.controller_connected) [
        | inl counted ↦ rw (counted, connect_controller) (account-audited k _ r ∙ h)
        | inr first ↦
            rw (first, connect_controller)
              (count_in k (controller_connect msg.controller_id) q ∙ account-audited k _ r ∙ h)
      ]

  check_controller-Keeps :
      (decode : Decode)
      → Keeps k n
          (λ (p : ControllerPrincipal × Relay × ControllerStream). p.1)
          (check_controller decode r cs msg)
  unfolding check_controller refuse send_error_response answered
  check_controller-Keeps decode =
      elim (Result-cases (authenticate_controller decode r.auth msg.controller_id msg.token)) [
        | inr (e, bad) ↦
            rw (bad, check_controller) (account-emit k _ _ refl ∙ account-audited k _ _ ∙ h)
        | inl (x, good) ↦ rw (good, check_controller) connect-account
      ]

  check_device-Keeps : Keeps k n (λ _. r) (check_device r cs msg)
  unfolding check_device refuse send_error_response answered
  check_device-Keeps =
      elim (Result-cases (get_device_principal_by_id r.auth msg.target_device_id)) [
        | inr (e, bad) ↦ rw (bad, check_device) (account-emit k _ _ refl ∙ h)
        | inl (x, good) ↦ rw (good, check_device) h
      ]

  check_permission-Keeps :
      (principal : ControllerPrincipal) (device : DevicePrincipal)
      → Keeps k n (λ _. r) (check_permission r cs msg principal device)
  unfolding check_permission refuse send_error_response answered
  check_permission-Keeps principal device =
      elim (Result-cases (authorize_controller_to_device r.rbac principal device msg.method_name)) [
        | inr (e, bad) ↦
            rw (bad, check_permission)
              (account-emit k _ _ refl ∙ account-emit k _ _ refl ∙ account-audited k _ _ ∙ h)
        | inl (x, good) ↦ rw (good, check_permission) h
      ]

  check_rate-Keeps : (env : Surroundings) → Keeps k n (λ q. q) (check_rate r cs msg env)
  unfolding check_rate refuse send_error_response answered
  check_rate-Keeps env = elim (Bool-cases (within_rate r msg env)) [
    | inl within ↦ rw (within, check_rate) h
    | inr over ↦
        rw (over, check_rate)
          (account-emit k _ _ refl ∙ account-emit k _ _ refl ∙ account-audited k _ _ ∙ h)
  ]

  refuse_stream-Keeps :
      (kind : Stream.StreamRouterErrorKind) → Keeps k n (λ p. p.0) (refuse_stream r cs msg kind)
  unfolding refuse_stream refuse send_error_response answered
  refuse_stream-Keeps Stream.max_streams_exceeded =
      account-emit k _ _ refl ∙ account-emit k _ _ refl ∙ h
  refuse_stream-Keeps Stream.device_offline =
      account-emit k _ _ refl ∙ account-emit k _ _ refl ∙ account-audited k _ _ ∙ h
  refuse_stream-Keeps Stream.internal =
      account-emit k _ _ refl ∙ account-emit k _ _ refl ∙ account-audited k _ _ ∙ h

open_stream-Keeps :
    (k n : ℕ) (r : Relay) (cs : ControllerStream) (msg : ControllerMessage) (env : Surroundings)
    → account k r ≡ n
    → Keeps k n (λ p. p.0) (open_stream r cs msg env)
unfolding open_stream answered
open_stream-Keeps k n r cs msg env h =
    let (created, router1) =
      create_mapping r.router msg.target_device_id msg.controller_id msg.method_name cs.out_tx
        env.created in
    elim (Result-cases created) [
      | inr (e, bad) ↦
          rw (bad, open_stream)
            (refuse_stream-Keeps k n (record r { router = router1 }) cs msg h e.kind)
      | inl (sid, good) ↦
          rw (good, open_stream) (account-emit k _ _ refl ∙ account-audited k _ _ ∙ h)
    ]

module _ (decode : Decode) (k n : ℕ) (r : Relay) (cs : ControllerStream) (msg : ControllerMessage)
    (env : Surroundings) (h : account k r ≡ n) where
  establish-Keeps : Keeps k n (λ p. p.0) (establish decode r cs msg env)
  unfolding establish
  establish-Keeps =
      bind-Keeps k n (λ (p : ControllerPrincipal × Relay × ControllerStream). p.1)
        (check_controller decode r cs msg) _ (check_controller-Keeps k n r cs msg h decode)
        (λ (principal, r1, cs1) h1.
          bind-Keeps k n (λ _. r1) (check_device r1 cs1 msg) _
            (check_device-Keeps k n r1 cs1 msg h1)
            (λ device _.
              bind-Keeps k n (λ _. r1) (check_permission r1 cs1 msg principal device) _
                (check_permission-Keeps k n r1 cs1 msg h1 principal device)
                (λ _ _.
                  bind-Keeps k n (λ q. q) (check_rate r1 cs1 msg env) _
                    (check_rate-Keeps k n r1 cs1 msg h1 env)
                    (λ r2 h2. open_stream-Keeps k n r2 cs1 msg env h2))))

  pub check_binding-Keeps : Keeps k n (λ p. p.0) (check_binding decode r cs msg env)
  unfolding check_binding refuse send_error_response answered
  check_binding-Keeps = elim (Option-cases cs.stream_id) [
    | inl closed ↦ rw (closed, check_binding) establish-Keeps
    | inr (sid, opened) ↦ elim (Option-cases cs.stream_binding) [
      | inl none_yet ↦ rw (opened, none_yet, check_binding) (account-emit k _ _ refl ∙ h)
      | inr (binding, bound) ↦ elim (Bool-cases (is_bound binding msg)) [
        | inl same ↦ rw (opened, bound, same, check_binding) h
        | inr other ↦ rw (opened, bound, other, check_binding) (account-emit k _ _ refl ∙ h)
      ]
    ]
  ]
