-- ===== src/Auth/Revocation.antt =====
-- crates/relay/src/auth.rs: what a revocation changes.
use g_rpc_relay.Base.{
  ◌≡◌, true, ◌||◌, [], ◌∷◌, arith, err, if◌then◌else◌, ◌==◌, ==_iff, inl, inr, Bool-cases, list_eq,
  ℕ_eq,
}
use g_rpc_relay.Collections.HashSet
use g_rpc_relay.Collections.HashSet.{HashSet}
use g_rpc_relay.Text.{Str, starts_with, starts_with_refl}
use g_rpc_relay.Auth.{
  AuthService, Decode, revoked_token, token_is_revoked, authenticate_controller,
  authenticate_device_by_token, authenticate_controller_jwt, authenticate_controller_table,
  revoke_controller_token, revoke_device_token, get_device_principal_by_id,
}

-- The test of a token against one entry: equality is a special case of the prefix test.
matches :
    (token revoked : Str)
    → (token == revoked || starts_with token revoked) ≡ starts_with token revoked
matches token revoked = elim (Bool-cases (token == revoked)) [
  | inr e ↦ rw e
  | inl e ↦ rw (e, ← (==_iff token revoked).0 e, starts_with_refl token)
]

member_revoked :
    (tokens : HashSet Str) (text token : Str)
    → HashSet.contains text tokens ≡ true
    → starts_with token text ≡ true
    → token_is_revoked tokens token ≡ true
unfolding token_is_revoked HashSet.contains
member_revoked [] text token h k = cc
member_revoked (x ∷ tokens) text token h k =
    ground (arith, matches token x, ==_iff x text, member_revoked tokens text token)

-- A revocation adds the tokens that begin with its text.
pub token_is_revoked-insert :
    (tokens : HashSet Str) (text token : Str)
    → token_is_revoked (HashSet.insert text tokens) token
      ≡ (starts_with token text || token_is_revoked tokens token)
unfolding token_is_revoked HashSet.insert
token_is_revoked-insert tokens text token =
    ground (arith, matches token text, member_revoked tokens text token)

-- While authentication is on, after the revocation of a text among controller tokens, a controller
-- token that begins with the text is refused as revoked and any other is judged as before; a
-- device token is judged as before.
pub authenticate_controller-revoke :
    (decode : Decode) (a : AuthService) (text controller_id token device_id : Str)
    → a.enabled ≡ true
    → let b = revoke_controller_token a text in
      (authenticate_controller decode b controller_id token ≡ (
        if starts_with token text
        then err revoked_token
        else authenticate_controller decode a controller_id token))
      × (authenticate_device_by_token b device_id token
          ≡ authenticate_device_by_token a device_id token)
unfolding authenticate_controller authenticate_device_by_token revoke_controller_token
    authenticate_controller_jwt authenticate_controller_table
authenticate_controller-revoke decode a text controller_id token device_id on =
    ground (arith, token_is_revoked-insert a.revoked_controller_tokens text token)

-- While authentication is on, after the revocation of a text among device tokens, a device token
-- that begins with the text is refused as revoked and any other is judged as before; the principal
-- that is found for a device's identifier is as before.
pub authenticate_device_by_token-revoke :
    (a : AuthService) (text device_id token : Str)
    → a.enabled ≡ true
    → let b = revoke_device_token a text in
      (authenticate_device_by_token b device_id token ≡ (
        if starts_with token text
        then err revoked_token
        else authenticate_device_by_token a device_id token))
      × (get_device_principal_by_id b device_id ≡ get_device_principal_by_id a device_id)
unfolding authenticate_device_by_token revoke_device_token get_device_principal_by_id
authenticate_device_by_token-revoke a text device_id token on =
    ground (arith, token_is_revoked-insert a.revoked_device_tokens text token)
