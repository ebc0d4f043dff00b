-- ===== src/Validator.antt =====
-- crates/relay/src/validator.rs: the checks of a controller message, in their order.
pub mod Accepted
use g_rpc_relay.Base.{
  ℕ, ◌*◌, ℤ, pos, negsuc, Bool, false, not, ◌||◌, List, ◌++◌, Result, ok, err, if◌then◌else◌, ltb,
  eqb, all, length, list_eq, ℕ_eq, ℤ_eq, pair_eq, ◌>>=◌, ◌>>◌,
}
use g_rpc_relay.Text.{Str, str, is_blank, len, is_ascii_alphanumeric}
use g_rpc_relay.Text.Decimal.{to_string}
use g_rpc_relay.Proto.{ErrorCode, unauthorized, device_not_found, internal_error}

abbrev pub max_payload_bytes : ℕ
max_payload_bytes = 10 * 1024 * 1024

abbrev pub max_id_length : ℕ
max_id_length = 64

pub record ValidationError : Type 0 where
  pub code : ErrorCode
  pub message : Str

abbrev pub fail : ErrorCode → Str → Result (Unit {0}) ValidationError
fail code message = err (record { code = code; message = message })

unfoldable pub validate_controller_id : Str → Result (Unit {0}) ValidationError
validate_controller_id id =
    if is_blank id
    then fail unauthorized (str "controller_id must not be empty")
    else if ltb max_id_length (len id)
    then fail unauthorized
        (str "controller_id too long (max " ++ (to_string max_id_length ++ str " chars)"))
    else ok tt

unfoldable pub validate_device_id : Str → Result (Unit {0}) ValidationError
validate_device_id id =
    if is_blank id
    then fail device_not_found (str "target_device_id must not be empty")
    else if ltb max_id_length (len id)
    then fail device_not_found
        (str "target_device_id too long (max " ++ (to_string max_id_length ++ str " chars)"))
    else ok tt

unfoldable pub is_method_char : ℕ → Bool
is_method_char c = is_ascii_alphanumeric c || eqb c b'_' || eqb c b'.' || eqb c b'/'

unfoldable pub validate_method_name : Str → Result (Unit {0}) ValidationError
validate_method_name name =
    if is_blank name
    then fail internal_error (str "method_name must not be empty")
    else if not (all is_method_char name)
    then fail internal_error (str "method_name contains invalid characters")
    else ok tt

unfoldable pub validate_payload_size : ℕ → Result (Unit {0}) ValidationError
validate_payload_size size =
    if ltb max_payload_bytes size
    then fail internal_error
        (str "payload exceeds maximum size of " ++ (to_string max_payload_bytes ++ str " bytes"))
    else ok tt

-- `seq <= 0`
abbrev pub is_positive : ℤ → Bool
is_positive (pos n) = ltb 0 n
is_positive (negsuc n) = false

unfoldable pub validate_sequence_number : ℤ → Result (Unit {0}) ValidationError
validate_sequence_number seq =
    if not (is_positive seq)
    then fail internal_error (str "sequence_number must be positive")
    else ok tt

unfoldable pub validate_controller_message :
    Str → Str → Str → List ℕ → ℤ → Result (Unit {0}) ValidationError
validate_controller_message controller_id target_device_id method_name payload seq = do
  validate_controller_id controller_id
  validate_device_id target_device_id
  validate_method_name method_name
  validate_payload_size (length payload)
  validate_sequence_number seq
  ok tt
