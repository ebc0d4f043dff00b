-- ===== src/Validator/Accepted.antt =====
-- crates/relay/src/validator.rs: which messages pass, and which error a message gets.
use g_rpc_relay.Base.{
  ℕ, ◌≤◌, ◌≡◌, ◌⊎◌, ℤ, true, false, List, arith, err, all, length, list_eq, ℕ_eq, ℤ_eq, pair_eq,
}
use g_rpc_relay.Text.{Str, is_whitespace, is_blank-all, len}
use g_rpc_relay.Proto.{unauthorized, device_not_found, internal_error}
use g_rpc_relay.Validator.{
  ValidationError, max_payload_bytes, max_id_length, is_method_char, is_positive,
  validate_controller_id, validate_device_id, validate_method_name, validate_payload_size,
  validate_sequence_number, validate_controller_message,
}

-- An identifier that holds something but whitespace and has at most 64 bytes.
abbrev pub IsId : Str → Type 0
IsId id = (all is_whitespace id ≡ false) × (len id ≤ max_id_length)

abbrev pub IsMethodName : Str → Type 0
IsMethodName name = (all is_whitespace name ≡ false) × (all is_method_char name ≡ true)

abbrev pub IsAccepted : Str → Str → Str → List ℕ → ℤ → Type 0
IsAccepted controller device method payload seq =
    IsId controller
    × IsId device
    × IsMethodName method
    × (length payload ≤ max_payload_bytes)
    × (is_positive seq ≡ true)

-- A refused message gets the code `unauthorized` if its controller's identifier is bad, else
-- `device_not_found` if its device's identifier is bad, else `internal_error`.
pub validate_controller_message_code :
    (controller device method : Str) (payload : List ℕ) (seq : ℤ) (e : ValidationError)
    → validate_controller_message controller device method payload seq ≡ err e
    → ((e.code ≡ unauthorized) × ¬ IsId controller)
      ⊎ ((e.code ≡ device_not_found) × IsId controller × ¬ IsId device)
      ⊎ ((e.code ≡ internal_error) × IsId controller × IsId device)
unfolding validate_controller_message validate_controller_id validate_device_id validate_method_name
    validate_payload_size validate_sequence_number
validate_controller_message_code controller device method payload seq e h =
    ground (arith, is_blank-all controller, is_blank-all device, is_blank-all method)
