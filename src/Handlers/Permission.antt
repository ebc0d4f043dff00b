-- ===== src/Handlers/Permission.antt =====
-- crates/relay/src/grpc_service.rs: what the unary calls reveal and change, and for whom.
use g_rpc_relay.Base.{
  ℕ, pos, ◌≡◌, refl, sym, ap, subst, ◌∙◌, ◌⊎◌, inl, inr, Bool, true, not, ◌&&◌, ◌||◌, List, [], ◌∷◌,
  ◌++◌, arith, ok, err, all, filter, is_empty, ◌==◌, ==_iff, Bool-cases, Result-cases, list_eq,
  ℕ_eq, ℤ_eq,
}
use g_rpc_relay.Rbac.Access.{Listed, any_iff}
use g_rpc_relay.Text.{Str, str, is_blank}
use g_rpc_relay.Proto.{DeviceInfo}
use g_rpc_relay.Session
use g_rpc_relay.RateLimiter.Requests.{allow}
use g_rpc_relay.Auth.{
  AuthService, ControllerPrincipal, DevicePrincipal, Decode, admin, authenticate_controller,
  get_device_principal_by_id, revoke_controller_token, revoke_device_token,
}
use g_rpc_relay.Service.{Relay, audited}
use g_rpc_relay.Handlers.{
  ListOnlineDevicesRequest, RevokeTokenRequest, Status, Reply, fail_authentication, deny, identify,
  is_in_region, is_visible, limit_list, visible_devices, list_online_devices, revoke, revoke_as,
  revoke_token,
}

identify-auth :
    (decode : Decode) (r : Relay) (controller_id token : Str)
    → (principal : ControllerPrincipal) (q : Relay)
    → identify decode r controller_id token ≡ ok (principal, q)
    → (authenticate_controller decode r.auth controller_id token ≡ ok principal) × (q.auth ≡ r.auth)
unfolding identify fail_authentication audited
identify-auth decode r controller_id token principal q h =
    elim (Bool-cases (is_blank controller_id || is_blank token)) [
      | inl blank ↦ absurd (ground (arith, blank))
      | inr filled ↦
          elim (Result-cases (authenticate_controller decode r.auth controller_id token)) [
            | inr (e, bad) ↦ absurd (ground (arith, filled, bad))
            | inl (x, good) ↦ ground (arith, filled, good)
          ]
    ]

identify_refused :
    (decode : Decode) (r : Relay) (controller_id token : Str) (status : Status) (q : Relay)
    → identify decode r controller_id token ≡ err (status, q)
    → q.auth ≡ r.auth
unfolding identify fail_authentication audited
identify_refused decode r controller_id token status q h =
    elim (Bool-cases (is_blank controller_id || is_blank token)) [
      | inl blank ↦ ground (arith, blank)
      | inr filled ↦
          elim (Result-cases (authenticate_controller decode r.auth controller_id token)) [
            | inr (e, bad) ↦ ground (arith, filled, bad)
            | inl (x, good) ↦ absurd (ground (arith, filled, good))
          ]
    ]

-- What a revocation may do to the tokens.
abbrev pub IsRevocation : AuthService → AuthService → Str → Type 0
IsRevocation a b text = (b ≡ revoke_controller_token a text) ⊎ (b ≡ revoke_device_token a text)

revoke-IsRevocation :
    (r q : Relay) (req : RevokeTokenRequest) (u : Unit {0})
    → revoke r req ≡ ok (u, q)
    → IsRevocation r.auth q.auth req.target_token_hash_or_prefix
unfolding revoke
revoke-IsRevocation r q req u h = elim (Bool-cases (req.target_type == pos 1)) [
  | inl controllers ↦ inl (ground (arith, controllers))
  | inr other ↦ inr (ground (arith, other, Bool-cases (req.target_type == pos 2)))
]

-- If `revoke_token` succeeds, the caller's token authenticates an administrator, and the tokens
-- are those before with the text revoked among the tokens of controllers or among those of
-- devices.
pub revoke_token-IsRevocation :
    (decode : Decode) (r q : Relay) (req : RevokeTokenRequest) (u : Unit {0})
    → revoke_token decode r req ≡ ok (u, q)
    → (principal : ControllerPrincipal) × (authenticate_controller decode r.auth req.controller_id
          req.admin_token
        ≡ ok principal)
      × (principal.role ≡ admin)
      × IsRevocation r.auth q.auth req.target_token_hash_or_prefix
unfolding revoke_token revoke_as deny
revoke_token-IsRevocation decode r q req u h =
    elim (Result-cases (identify decode r req.controller_id req.admin_token)) [
      | inr (e, bad) ↦ absurd (ground (arith, bad))
      | inl ((principal, r1), good) ↦
          let (known, same) =
            identify-auth decode r req.controller_id req.admin_token principal r1 good in
          elim (Bool-cases (principal.role == admin)) [
            | inr other ↦ absurd (ground (arith, good, other))
            | inl is_admin ↦ (
              principal,
              known,
              (==_iff principal.role admin).0 is_admin,
              subst (λ (a : AuthService). IsRevocation a q.auth req.target_token_hash_or_prefix)
                  same (revoke-IsRevocation r1 q req u (ground (arith, good, is_admin))),
            )
          ]
    ]

-- If `revoke_token` fails, the configured and the revoked tokens are those before.
pub revoke_token_refused :
    (decode : Decode) (r q : Relay) (req : RevokeTokenRequest) (status : Status)
    → revoke_token decode r req ≡ err (status, q)
    → q.auth ≡ r.auth
unfolding revoke_token revoke_as revoke deny audited
revoke_token_refused decode r q req status h =
    elim (Result-cases (identify decode r req.controller_id req.admin_token)) [
      | inr ((status', q'), bad) ↦
          let same = identify_refused decode r req.controller_id req.admin_token status' q' bad in
          ground (arith, bad, same)
      | inl ((principal, r1), good) ↦
          let (known, same) =
            identify-auth decode r req.controller_id req.admin_token principal r1 good in
          ground (arith, good, same)
    ]

-- Why a controller may see a device.
abbrev pub MaySee : AuthService → ControllerPrincipal → DeviceInfo → Type 0
MaySee a principal info =
    (principal.role ≡ admin)
    ⊎ ((device : DevicePrincipal) × (get_device_principal_by_id a info.device_id ≡ ok device)
        × Listed device.project_id principal.allowed_project_ids)

is_visible-MaySee :
    (a : AuthService) (principal : ControllerPrincipal) (info : DeviceInfo)
    → is_visible a principal info ≡ true
    → MaySee a principal info
unfolding is_visible
is_visible-MaySee a principal info h = elim (Bool-cases (principal.role == admin)) [
  | inl is_admin ↦ inl ((==_iff principal.role admin).0 is_admin)
  | inr other ↦ elim (Result-cases (get_device_principal_by_id a info.device_id)) [
    | inr (e, bad) ↦ absurd (ground (arith, other, bad))
    | inl (device, known) ↦ inr (
      device,
      known,
      (any_iff device.project_id principal.allowed_project_ids).0 (ground (arith, other, known)),
    )
  ]
]

all-filter : {A : Type 0} (p : A → Bool) (xs : List A) → all p (filter p xs) ≡ true
all-filter p [] = refl
all-filter p (x ∷ xs) = elim (Bool-cases (p x)) [
  | inl yes_it ↦ rw yes_it (rw yes_it (all-filter p xs))
  | inr no_it ↦ rw no_it (all-filter p xs)
]

all-append :
    {A : Type 0} (p : A → Bool) (before : List A) (x : A) (after : List A)
    → all p (before ++ x ∷ after) ≡ true
    → p x ≡ true
all-append p [] x after h = ground arith
all-append p (y ∷ before) x after h = all-append p before x after (ground arith)

limit_list-auth :
    (r q : Relay) (controller_id : Str) (times : ℕ × ℕ × ℕ × ℕ) (u : Unit {0})
    → limit_list r controller_id times ≡ ok (u, q)
    → q.auth ≡ r.auth
unfolding limit_list
limit_list-auth r q controller_id (t0, t1, t2, t3) u h =
    ground (arith, Bool-cases (allow r.rate_limiter (str "*") controller_id t0 t1 t2 t3).1)

abbrev items : Reply (List DeviceInfo) → List DeviceInfo
items (ok (is, q)) = is
items (err e) = []

visible_devices-MaySee :
    (r q : Relay) (req : ListOnlineDevicesRequest) (principal : ControllerPrincipal)
    → (before : List DeviceInfo) (info : DeviceInfo) (after : List DeviceInfo)
    → visible_devices r req principal ≡ ok (before ++ info ∷ after, q)
    → MaySee r.auth principal info
unfolding visible_devices deny
visible_devices-MaySee r q req principal before info after h =
    let shown =
      λ (i : DeviceInfo). is_in_region req.region_filter i && is_visible r.auth principal i in
    let all_devices = Session.list_online_devices r.state r.relay_address in
    elim (Bool-cases (not (principal.role == admin) && is_empty principal.allowed_project_ids)) [
      | inl none_allowed ↦ absurd (ground (arith, none_allowed))
      | inr allowed ↦
          let answer : visible_devices r req principal ≡ ok (filter shown all_devices, r) =
            rw (allowed, visible_devices) refl in
          let listed = ap items (sym answer ∙ h) in
          let holds = all-append shown before info after (
            subst (λ (is : List DeviceInfo). all shown is ≡ true) listed
              (all-filter shown all_devices)) in
          is_visible-MaySee r.auth principal info (ground (arith, holds))
    ]

-- If `list_online_devices` succeeds, also with an empty list, the caller's token authenticates a
-- controller, and for each device of the answer this controller is an administrator or the
-- device's project is one of its own.
pub list_online_devices-MaySee :
    (decode : Decode) (r q : Relay) (req : ListOnlineDevicesRequest) (times : ℕ × ℕ × ℕ × ℕ)
    → (infos : List DeviceInfo) → list_online_devices decode r req times ≡ ok (infos, q)
    → (principal : ControllerPrincipal) × (authenticate_controller decode r.auth req.controller_id
          req.token
        ≡ ok principal)
      × ((before : List DeviceInfo) (info : DeviceInfo) (after : List DeviceInfo)
          → infos ≡ before ++ info ∷ after
          → MaySee r.auth principal info)
unfolding list_online_devices
list_online_devices-MaySee decode r q req times infos h =
    elim (Result-cases (identify decode r req.controller_id req.token)) [
      | inr (e, bad) ↦ absurd (ground (arith, bad))
      | inl ((principal, r1), good) ↦
          let (known, same) =
            identify-auth decode r req.controller_id req.token principal r1 good in
          elim (Result-cases (limit_list r1 req.controller_id times)) [
            | inr (e, bad) ↦ absurd (ground (arith, good, bad))
            | inl ((u, r2), within) ↦
                let kept = limit_list-auth r1 r2 req.controller_id times u within in
                let answer : visible_devices r2 req principal ≡ ok (infos, q) =
                  ground (arith, good, within) in
                (
                  principal,
                  known,
                  λ before info after parts.
                      subst (λ (a : AuthService). MaySee a principal info) (kept ∙ same)
                        (visible_devices-MaySee r2 q req principal before info after
                          (answer ∙ ap (λ (is : List DeviceInfo). ok (is, q)) parts)),
                )
          ]
    ]
