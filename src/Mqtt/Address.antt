-- ===== src/Mqtt/Address.antt =====
-- crates/relay/src/mqtt.rs, `parse_host_port`: the host and the port of a broker's address.
use g_rpc_relay.Base.{ℕ, none, some, Result, ok, err, if◌then◌else◌, is_empty, list_eq, ℕ_eq}
use g_rpc_relay.Text.{Str, str}
use g_rpc_relay.Text.Decimal.{strip_char, parse_uint}
use g_rpc_relay.Text.Split.{contains, before, after_last, rsplit_once, split_once, split_once_str}

pub data AddressError : Type 0 where
  missing_host missing_port bad_port invalid_ipv6 ipv6_without_brackets : AddressError

abbrev pub max_port : ℕ
max_port = 65_535

-- `port_str.parse::<u16>()`
unfoldable pub parse_port : Str → Str → Result (Str × ℕ) AddressError
parse_port host port_str = elim (parse_uint max_port port_str) [
  | none ↦ err bad_port
  | some port ↦ ok (host, port)
]

-- What is left of the address without its scheme, path and user.
unfoldable pub authority_of : Str → Str
authority_of address =
    let rest = elim (split_once_str (str "://") address) as (λ _. Str) [
      | none ↦ address
      | some (_, rest) ↦ rest
    ] in
    after_last b'@' (before b'/' rest)

-- `[host]:port`, after the bracket.
unfoldable pub parse_bracketed : Str → Result (Str × ℕ) AddressError
parse_bracketed rest = elim (split_once b']' rest) [
  | none ↦ err invalid_ipv6
  | some (host, suffix) ↦ elim (strip_char b':' suffix) [
    | none ↦ err missing_port
    | some port_str ↦ parse_port host port_str
  ]
]

unfoldable pub parse_plain : Str → Result (Str × ℕ) AddressError
parse_plain authority = elim (rsplit_once b':' authority) [
  | none ↦ err missing_port
  | some (host, port_str) ↦
      if is_empty host
      then err missing_host
      else if contains b':' host
      then err ipv6_without_brackets
      else parse_port host port_str
]

unfoldable pub parse_authority : Str → Result (Str × ℕ) AddressError
parse_authority authority =
    if is_empty authority then err missing_host else elim (strip_char b'[' authority) [
      | some rest ↦ parse_bracketed rest
      | none ↦ parse_plain authority
    ]

unfoldable pub parse_host_port : Str → Result (Str × ℕ) AddressError
parse_host_port address = parse_authority (authority_of address)
