-- ===== src/Auth/Identity.antt =====
-- crates/relay/src/auth.rs: whom a successful authentication names, and on what ground.
use g_rpc_relay.Base.{
  ◌≡◌, ap, subst, ◌∙◌, ◌⊎◌, inl, inr, true, false, none, some, [], ◌∷◌, ◌++◌, arith, ok, is_empty,
  ◌==◌, ==_iff, Bool-cases, Option-cases, list_eq, ℕ_eq,
}
use g_rpc_relay.Collections.HashMap
use g_rpc_relay.Collections.HashMap.{HashMap, get-insert}
use g_rpc_relay.Text.{Str}
use g_rpc_relay.Auth.{
  AuthService, AuthConfig, ControllerPrincipal, DevicePrincipal, ControllerAuthEntry,
  DeviceAuthEntry, ControllerClaims, Decode, new, index_devices, validation, token_is_revoked,
  authenticate_controller, authenticate_controller_jwt, authenticate_controller_table,
  authenticate_device_by_token, get_device_principal_by_id,
}

-- The grounds on which a controller is let in while authentication is on: valid claims about this
-- controller, or the token's entry in the table.
pub data Vouched (decode : Decode) (a : AuthService) (token : Str) (p : ControllerPrincipal)
    : Type 0 where
  by_jwt :
      (claims : ControllerClaims)
      → a.jwt.enabled ≡ true
      → is_empty a.jwt.secret ≡ false
      → decode (validation a.jwt) a.jwt.secret token ≡ some claims
      → claims.sub ≡ p.controller_id
      → p ≡ record {
        controller_id = claims.controller_id;
        role = claims.role;
        allowed_project_ids = claims.allowed_project_ids;
      }
      → Vouched decode a token p
  by_table :
      (entry : ControllerAuthEntry)
      → a.jwt.enabled ≡ false
      → HashMap.get token a.controller_tokens ≡ some entry
      → p ≡ record {
        controller_id = entry.controller_id;
        role = entry.role;
        allowed_project_ids = entry.allowed_project_ids;
      }
      → Vouched decode a token p

module _ (decode : Decode) (a : AuthService) (controller_id token : Str)
    (p : ControllerPrincipal) where
  jwt_Vouched :
      a.jwt.enabled ≡ true
      → authenticate_controller_jwt decode a controller_id token ≡ ok p
      → (p.controller_id ≡ controller_id) × Vouched decode a token p
  unfolding authenticate_controller_jwt
  jwt_Vouched on h = elim (Option-cases (decode (validation a.jwt) a.jwt.secret token)) [
    | inl e ↦ absurd (ground (arith, e))
    | inr (claims, e) ↦ (
      ground (arith, e, ==_iff claims.controller_id controller_id),
      by_jwt claims on (ground arith) e
          (ground
            (arith, e, ==_iff claims.controller_id controller_id, ==_iff claims.sub controller_id))
          (ground (arith, e)),
    )
  ]

  table_Vouched :
      a.jwt.enabled ≡ false
      → authenticate_controller_table decode a controller_id token ≡ ok p
      → (p.controller_id ≡ controller_id) × Vouched decode a token p
  unfolding authenticate_controller_table
  table_Vouched off h = elim (Option-cases (HashMap.get token a.controller_tokens)) [
    | inl e ↦ absurd (ground (arith, e))
    | inr (entry, e) ↦ (
      ground (arith, e, ==_iff entry.controller_id controller_id),
      by_table entry off e (ground (arith, e)),
    )
  ]

  -- While authentication is on, a controller that is let in is the one it claims to be, its token
  -- is not revoked, and its role and projects are those of valid claims or of the token's entry.
  pub authenticate_controller_sound :
      a.enabled ≡ true
      → authenticate_controller decode a controller_id token ≡ ok p
      → (p.controller_id ≡ controller_id)
        × (token_is_revoked a.revoked_controller_tokens token ≡ false)
        × Vouched decode a token p
  unfolding authenticate_controller
  authenticate_controller_sound on h =
      let live : token_is_revoked a.revoked_controller_tokens token ≡ false = ground arith in
      elim (Bool-cases a.jwt.enabled) [
        | inl jwt ↦ let (same, why) = jwt_Vouched jwt (ground arith) in (same, live, why)
        | inr table ↦ let (same, why) = table_Vouched table (ground arith) in (same, live, why)
      ]

-- While authentication is on, a device that is let in is the one that its unrevoked token's entry
-- names, and it gets the project of that entry.
pub authenticate_device_by_token_sound :
    (a : AuthService) (device_id token : Str) (p : DevicePrincipal)
    → a.enabled ≡ true
    → authenticate_device_by_token a device_id token ≡ ok p
    → (p.device_id ≡ device_id)
      × (token_is_revoked a.revoked_device_tokens token ≡ false)
      × (HashMap.get token a.device_tokens
          ≡ some (record { device_id = device_id; project_id = p.project_id }))
unfolding authenticate_device_by_token
authenticate_device_by_token_sound a device_id token p on h =
    elim (Option-cases (HashMap.get token a.device_tokens)) [
      | inl e ↦ absurd (ground (arith, e))
      | inr (entry, e) ↦ (
        ground (arith, e, ==_iff entry.device_id device_id),
        ground arith,
        ground (arith, e, ==_iff entry.device_id device_id),
      )
    ]

-- An entry stands in a table of device tokens.
abbrev pub Configured : HashMap Str DeviceAuthEntry → DeviceAuthEntry → Type 0
Configured tokens entry =
    (before after : HashMap Str DeviceAuthEntry) × (token : Str) × (tokens
      ≡ before ++ (token, entry) ∷ after)

Configured-later :
    (first : Str × DeviceAuthEntry) (tokens : HashMap Str DeviceAuthEntry) (entry : DeviceAuthEntry)
    → Configured tokens entry
    → Configured (first ∷ tokens) entry
Configured-later first tokens entry (before, after, token, e) =
    (first ∷ before, after, token, ap (◌∷◌ first) e)

index_devices-get :
    (tokens by_id : HashMap Str DeviceAuthEntry) (d : Str) (entry : DeviceAuthEntry)
    → HashMap.get d (index_devices tokens by_id) ≡ some entry
    → (Configured tokens entry × (entry.device_id ≡ d)) ⊎ (HashMap.get d by_id ≡ some entry)
unfolding index_devices
index_devices-get [] by_id d entry h = inr h
index_devices-get ((t, e) ∷ tokens) by_id d entry h =
    found (index_devices-get tokens (HashMap.insert e.device_id e by_id) d entry h)
  where
    found :
        (Configured tokens entry × (entry.device_id ≡ d))
          ⊎ (HashMap.get d (HashMap.insert e.device_id e by_id) ≡ some entry)
        → (Configured ((t, e) ∷ tokens) entry × (entry.device_id ≡ d))
          ⊎ (HashMap.get d by_id ≡ some entry)
    found (inl (c, same)) = inl (Configured-later (t, e) tokens entry c, same)
    found (inr k) = elim (Bool-cases (e.device_id == d)) [
      | inl hit ↦
          let it : e ≡ entry = ground (arith, get-insert e.device_id d e by_id, hit) in
          inl (
            ([], tokens, t, ap (λ (x : DeviceAuthEntry). (t, x) ∷ tokens) it),
            ground (arith, it, ==_iff e.device_id d, hit),
          )
      | inr miss ↦ inr (ground (arith, get-insert e.device_id d e by_id, miss))
    ]

-- While authentication is on, the project that is found for a device is the project of a
-- configured entry of that device, and the principal names the device.
pub get_device_principal_by_id_sound :
    (config : AuthConfig) (device_id : Str) (p : DevicePrincipal)
    → config.enabled ≡ true
    → get_device_principal_by_id (new config) device_id ≡ ok p
    → Configured config.device_tokens (record { device_id = device_id; project_id = p.project_id })
      × (p.device_id ≡ device_id)
unfolding get_device_principal_by_id new HashMap.get
get_device_principal_by_id_sound config device_id p on h =
    elim (Option-cases (HashMap.get device_id (index_devices config.device_tokens []))) [
      | inl e ↦ absurd (ground (arith, e))
      | inr (entry, e) ↦
          found entry (ground (arith, e)) (ground (arith, e))
            (index_devices-get config.device_tokens [] device_id entry e)
    ]
  where
    found :
        (entry : DeviceAuthEntry)
        → p.device_id ≡ entry.device_id
        → p.project_id ≡ entry.project_id
        → (Configured config.device_tokens entry × (entry.device_id ≡ device_id))
          ⊎ (none ≡ some entry)
        → Configured config.device_tokens
            (record { device_id = device_id; project_id = p.project_id })
          × (p.device_id ≡ device_id)
    found entry same_id project (inl (c, same)) =
        (subst (Configured config.device_tokens) (ground (arith, project, same)) c, same_id ∙ same)
    found entry same_id project (inr k) = cc
