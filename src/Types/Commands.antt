-- ===== src/Types/Commands.antt =====
-- Commands, pairing states and the smaller enumerations of src/includes/cfstructs.h.
use dpd_chat_fabric.Prelude.{
  ℕ, ◌+◌, ◌-◌, ◌≡◌, refl, true, List, [], ◌∷◌, ◌==◌, get_or, get_or_past, arith, ap, ◌∙◌,
}

-- `enum chatPacketCommands`. `cmd` is a `uint32_t`: `cmd_other n` is the number n + 31, beyond the
-- last of the enumeration.
pub data Command : Type 0 where
  cmd_invaild_cmd cmd_hello cmd_hello_ack cmd_pair_request cmd_pair_request_ack : Command
  cmd_pair_request_reset cmd_nonce_request cmd_nonce_send cmd_nonce_ack cmd_nonce_reset : Command
  cmd_publickey_request cmd_publickey_send cmd_publickey_ack cmd_publickey_reset cmd_verify_syn :
      Command
  cmd_verify_synack cmd_verify_ack cmd_app_message cmd_app_message_ack cmd_app_register : Command
  cmd_app_list cmd_app_list_ack cmd_config_get cmd_config_set cmd_config_message : Command
  cmd_config_deligate cmd_config_pair cmd_send_reply_false cmd_send_reply_true : Command
  cmd_packet_decrypt_failed cmd_fail : Command
  cmd_other : ℕ → Command

abbrev commands : List Command
commands =
    cmd_invaild_cmd ∷ cmd_hello ∷ cmd_hello_ack ∷ cmd_pair_request ∷ cmd_pair_request_ack
    ∷ cmd_pair_request_reset ∷ cmd_nonce_request ∷ cmd_nonce_send ∷ cmd_nonce_ack ∷ cmd_nonce_reset
    ∷ cmd_publickey_request ∷ cmd_publickey_send ∷ cmd_publickey_ack ∷ cmd_publickey_reset
    ∷ cmd_verify_syn ∷ cmd_verify_synack ∷ cmd_verify_ack ∷ cmd_app_message ∷ cmd_app_message_ack
    ∷ cmd_app_register ∷ cmd_app_list ∷ cmd_app_list_ack ∷ cmd_config_get ∷ cmd_config_set
    ∷ cmd_config_message ∷ cmd_config_deligate ∷ cmd_config_pair ∷ cmd_send_reply_false
    ∷ cmd_send_reply_true ∷ cmd_packet_decrypt_failed ∷ cmd_fail ∷ []

unfoldable pub command : ℕ → Command
command n = get_or commands n (cmd_other (n - 31))

unfoldable pub command_number : Command → ℕ
command_number cmd_invaild_cmd = 0
command_number cmd_hello = 1
command_number cmd_hello_ack = 2
command_number cmd_pair_request = 3
command_number cmd_pair_request_ack = 4
command_number cmd_pair_request_reset = 5
command_number cmd_nonce_request = 6
command_number cmd_nonce_send = 7
command_number cmd_nonce_ack = 8
command_number cmd_nonce_reset = 9
command_number cmd_publickey_request = 10
command_number cmd_publickey_send = 11
command_number cmd_publickey_ack = 12
command_number cmd_publickey_reset = 13
command_number cmd_verify_syn = 14
command_number cmd_verify_synack = 15
command_number cmd_verify_ack = 16
command_number cmd_app_message = 17
command_number cmd_app_message_ack = 18
command_number cmd_app_register = 19
command_number cmd_app_list = 20
command_number cmd_app_list_ack = 21
command_number cmd_config_get = 22
command_number cmd_config_set = 23
command_number cmd_config_message = 24
command_number cmd_config_deligate = 25
command_number cmd_config_pair = 26
command_number cmd_send_reply_false = 27
command_number cmd_send_reply_true = 28
command_number cmd_packet_decrypt_failed = 29
command_number cmd_fail = 30
command_number (cmd_other n) = n + 31

-- `enum chatPacketStates`, and the values that are not in it but fit its storage: `state_other n` is
-- the number n + 8.
pub data PairState : Type 0 where
  state_unconfigured state_publickey_setup state_pairing_setup state_nonce_setup state_configured :
      PairState
  state_configured_syn state_configured_synack state_paired : PairState
  state_other : ℕ → PairState

abbrev pair_states : List PairState
pair_states =
    state_unconfigured ∷ state_publickey_setup ∷ state_pairing_setup ∷ state_nonce_setup
    ∷ state_configured ∷ state_configured_syn ∷ state_configured_synack ∷ state_paired ∷ []

unfoldable pub pair_state : ℕ → PairState
pair_state n = get_or pair_states n (state_other (n - 8))

unfoldable pub state_number : PairState → ℕ
state_number state_unconfigured = 0
state_number state_publickey_setup = 1
state_number state_pairing_setup = 2
state_number state_nonce_setup = 3
state_number state_configured = 4
state_number state_configured_syn = 5
state_number state_configured_synack = 6
state_number state_paired = 7
state_number (state_other n) = n + 8

-- Two states with one number are one.
pub state_number-injective : (s t : PairState) → (state_number s == state_number t) ≡ true → s ≡ t
unfolding state_number
state_number-injective s t h = ground arith

-- Every command is read back from its number.
pub command-command_number : (c : Command) → command (command_number c) ≡ c
unfolding command command_number
command-command_number (cmd_other n) = get_or_past commands n _ ∙ ap cmd_other (omega arith)
command-command_number cmd_hello = refl
command-command_number _ = refl

-- `enum chatPacketTagData`.
pub data TagData : Type 0 where
  cp_none cp_noop cp_int32 cp_int8 cp_data8 cp_uuid : TagData

-- `enum chatPacketPacketTypes`; COMMAND is `command_packet`, since `command` reads a number.
pub data PacketType : Type 0 where
  command_packet publickey_packet nonce_packet data_packet : PacketType

-- `enum chatFabricErrors`.
pub data FabricError : Type 0 where
  error_ok error_socket error_chatpacket_decoding error_invaild_dest : FabricError

-- `enum chatPacketActions` and `enum chatPacketActionsType`; the fields that hold them are numbers.
abbrev pub action_null : ℕ
action_null = 0

abbrev pub action_get : ℕ
action_get = 1

abbrev pub action_set : ℕ
action_set = 2

abbrev pub action_read : ℕ
action_read = 5

abbrev pub action_get_config : ℕ
action_get_config = 3

abbrev pub action_set_config : ℕ
action_set_config = 4

abbrev pub action_app_list : ℕ
action_app_list = 6

abbrev pub action_type_null : ℕ
action_type_null = 0

abbrev pub action_type_boolean : ℕ
action_type_boolean = 1

abbrev pub action_type_dimmer : ℕ
action_type_dimmer = 2

abbrev pub action_type_gauge : ℕ
action_type_gauge = 3

abbrev pub action_type_data : ℕ
action_type_data = 4
