-- ===== src/Mqtt/AddressRoundTrip.antt =====
-- crates/relay/src/mqtt.rs, `parse_host_port`: addresses that are written as the parser reads them.
use g_rpc_relay.Base.{
  ℕ, ◌≤◌, ◌≡◌, refl, false, none, [], ◌∷◌, ◌++◌, arith, ok, is_empty, eqb, list_eq, ℕ_eq,
}
use g_rpc_relay.Text.{Str, str}
use g_rpc_relay.Text.Decimal.{to_string, strip_char, contains-to_string, parse_uint-to_string}
use g_rpc_relay.Text.Split.{
  contains, contains-append, before_absent, before-append, after_last_absent, after_last-append,
  rsplit_once-append, split_once_str_absent, split_once_str-append,
}
use g_rpc_relay.Mqtt.Address.{
  max_port, parse_port, authority_of, parse_plain, parse_authority, parse_host_port,
}

-- A host name or an IPv4 address.
pub record IsHost (host : Str) : Type 0 where
  pub filled : is_empty host ≡ false
  pub no_colon : contains b':' host ≡ false
  pub no_slash : contains b'/' host ≡ false
  pub no_at : contains b'@' host ≡ false
  pub no_bracket : contains b'[' host ≡ false

abbrev pub print : Str → ℕ → Str
print host port = host ++ (b':' ∷ to_string port)

parse_port-to_string :
    (host : Str) (port : ℕ) → port ≤ max_port → parse_port host (to_string port) ≡ ok (host, port)
unfolding parse_port
parse_port-to_string host port h = rw (parse_uint-to_string max_port port h, parse_port) refl

parse_plain-print :
    (host : Str) (port : ℕ)
    → IsHost host
    → port ≤ max_port
    → parse_plain (print host port) ≡ ok (host, port)
unfolding parse_plain
parse_plain-print host port v h =
    rw
      (
        rsplit_once-append b':' host (to_string port) (contains-to_string b':' refl port),
        parse_plain,
      )
      (rw (v.filled, v.no_colon) (parse_port-to_string host port h))

strip_char-print :
    (host : Str) (port : ℕ)
    → is_empty host ≡ false
    → contains b'[' host ≡ false
    → (strip_char b'[' (print host port) ≡ none) × (is_empty (print host port) ≡ false)
unfolding strip_char
strip_char-print [] port filled h = cc
strip_char-print (c ∷ host) port filled h = ground arith

parse_authority-print :
    (host : Str) (port : ℕ)
    → IsHost host
    → port ≤ max_port
    → parse_authority (print host port) ≡ ok (host, port)
unfolding parse_authority
parse_authority-print host port v h =
    let (plain, filled) = strip_char-print host port v.filled v.no_bracket in
    rw (filled, plain, parse_authority) (parse_plain-print host port v h)

contains-print :
    (c : ℕ) (host : Str) (port : ℕ)
    → contains c host ≡ false
    → eqb b':' c ≡ false
    → contains c (to_string port) ≡ false
    → contains c (print host port) ≡ false
contains-print c host port h apart digits =
    contains-append c host (b':' ∷ to_string port) h (ground arith)

-- A host and a port that are written `host:port` are read back.
pub parse_host_port-print :
    (host : Str) (port : ℕ)
    → IsHost host
    → port ≤ max_port
    → parse_host_port (print host port) ≡ ok (host, port)
unfolding parse_host_port authority_of
parse_host_port-print host port v h =
    let no_slash =
      contains-print b'/' host port v.no_slash refl (contains-to_string b'/' refl port) in
    let no_at = contains-print b'@' host port v.no_at refl (contains-to_string b'@' refl port) in
    rw (split_once_str_absent b':' b'/' (str "/") (print host port) no_slash, authority_of)
      (rw
        (
          before_absent b'/' (print host port) no_slash,
          after_last_absent b'@' (print host port) no_at,
        )
        (parse_authority-print host port v h))

-- An address of the form `scheme://user@host:port/path` is read as its host and port: if the scheme
-- has no colon, the user no slash, the host is not empty and has none of `:`, `/`, `@` and `[`, and
-- the port is at most 65535.
pub parse_host_port-url :
    (scheme user host path : Str) (port : ℕ)
    → contains b':' scheme ≡ false
    → contains b'/' user ≡ false
    → IsHost host
    → port ≤ max_port
    → parse_host_port
        (scheme ++ (str "://" ++ ((user ++ (b'@' ∷ print host port)) ++ (b'/' ∷ path))))
      ≡ ok (host, port)
unfolding parse_host_port authority_of
parse_host_port-url scheme user host path port sv uv v h =
    let authority = user ++ (b'@' ∷ print host port) in
    let no_slash =
      contains-print b'/' host port v.no_slash refl (contains-to_string b'/' refl port) in
    let no_at = contains-print b'@' host port v.no_at refl (contains-to_string b'@' refl port) in
    rw (split_once_str-append b':' (str "//") scheme (authority ++ (b'/' ∷ path)) sv, authority_of)
      (rw
        (
          before-append b'/' authority path
              (contains-append b'/' user (b'@' ∷ print host port) uv (ground (arith, no_slash))),
          after_last-append b'@' user (print host port) no_at,
        )
        (parse_authority-print host port v h))
