-- ===== src/Packet/Names.antt =====
-- The names that src/dpdChatPacket/dpdChatPacket.c prints for its numbers, and `_data_type`, which says
-- how `cfTagPrinter` prints a field of a file.
pub mod Laws
use dpd_chat_fabric.Prelude.{ℕ, String, Option, none, some, List, [], ◌∷◌, get_or}
use dpd_chat_fabric.Types.Tags.{
  PacketTag, ConfigTag, cptag_noop, cptag_nonce_length, cptag_nonce, cptag_envelope_length,
  cptag_encrypted_envelope, cptag_envelope, cptag_envelope_random_padding_length,
  cptag_envelope_random_padding_high, cptag_envelope_random_padding_low, cptag_to0, cptag_to1,
  cptag_from0, cptag_from1, cptag_flags, cptag_payload_length, cptag_payload_random_padding_length,
  cptag_payload_random_padding_high, cptag_payload_random_padding_low, cptag_encrypted_payload,
  cptag_payload, cptag_publickey_id, cptag_publickey, cptag_mac, cptag_serial, cptag_cmd,
  cptag_action, cptag_action_type, cptag_action_value, cptag_action_length, cptag_action_data,
  cptag_action_control, cptag_app_controls, cptag_app_control_i, cptag_app_control_type,
  cptag_app_control_value, cptag_app_control_range_low, cptag_app_control_range_high,
  cptag_app_control_label_length, cptag_app_control_label, cptag_app_control_data, cptag_endtag,
  cftag_publickey, cftag_privatekey, cftag_nonce, cftag_mynonce, cftag_uuid0, cftag_uuid1,
  cftag_has_public_key, cftag_has_nonce, cftag_state, cftag_serial, cftag_has_pairs, cftag_debug,
  cftag_port, cftag_hostname, cftag_wifi_ap, cftag_wifi_ap_ssid, cftag_wifi_ap_passwd,
  cftag_wifi_ap_dhcps, cftag_dhcps_range_low, cftag_dhcps_range_high, cftag_wifi_sta,
  cftag_wifi_sta_ssid, cftag_wifi_sta_passwd, cftag_wifi_sta_dhcpc, cftag_ap_ipv4,
  cftag_ap_ipv4netmask, cftag_ap_ipv4gw, cftag_ap_ipv4ns1, cftag_ap_ipv4ns2, cftag_ap_ipv6,
  cftag_ap_ipv6netmask, cftag_ap_ipv6gw, cftag_ap_ipv6ns1, cftag_ap_ipv6ns2, cftag_sta_ipv4,
  cftag_sta_ipv4netmask, cftag_sta_ipv4gw, cftag_sta_ipv4ns1, cftag_sta_ipv4ns2, cftag_sta_ntpv4,
  cftag_sta_ipv6, cftag_sta_ipv6netmask, cftag_sta_ipv6gw, cftag_sta_ipv6ns1, cftag_sta_ipv6ns2,
  cftag_sta_ntpv6, cftag_mode, cftag_header, cftag_config_length, cftag_pair_length, cftag_pairs,
  cftag_eof,
}
use dpd_chat_fabric.Types.Commands.{
  Command, PairState, cmd_invaild_cmd, cmd_hello, cmd_pair_request, cmd_pair_request_ack,
  cmd_hello_ack, cmd_nonce_request, cmd_nonce_send, cmd_nonce_reset, cmd_publickey_request,
  cmd_publickey_send, cmd_publickey_reset, cmd_verify_syn, cmd_verify_synack, cmd_verify_ack,
  cmd_app_message, cmd_app_message_ack, cmd_app_register, cmd_app_list, cmd_config_get,
  cmd_config_set, cmd_config_message, cmd_config_deligate, cmd_config_pair, cmd_send_reply_false,
  cmd_send_reply_true, cmd_pair_request_reset, cmd_nonce_ack, cmd_publickey_ack, cmd_app_list_ack,
  cmd_packet_decrypt_failed, cmd_fail, state_unconfigured, state_publickey_setup,
  state_pairing_setup, state_nonce_setup, state_configured, state_configured_syn,
  state_configured_synack, state_paired,
}

-- The parameters are `enum`s that hold any number.
unfoldable pub action_type_lookup : ℕ → String
action_type_lookup n =
    get_or ("NULL" ∷ "BOOLEAN" ∷ "DIMMER" ∷ "GAUGE" ∷ "DATA_UTF8" ∷ "DATA_UTF8" ∷ "DATA_UTF8" ∷ [])
      n "UNKNWON"

unfoldable pub action_lookup : ℕ → String
action_lookup n =
    get_or ("NULL" ∷ "GET" ∷ "SET" ∷ "GET_CONFIG" ∷ "SET_CONFIG" ∷ "READ" ∷ "APP_LIST" ∷ []) n
      "UNKNWON"

unfoldable pub tag_lookup : Option PacketTag → String
tag_lookup (some cptag_noop) = "NOOP"
tag_lookup (some cptag_nonce_length) = "nonceLength"
tag_lookup (some cptag_nonce) = "nonce"
tag_lookup (some cptag_envelope_length) = "envelopeLength"
tag_lookup (some cptag_encrypted_envelope) = "encryptedEnvelope"
tag_lookup (some cptag_envelope) = "envelope"
tag_lookup (some cptag_envelope_random_padding_length) = "envelopeRandomPaddingLength"
tag_lookup (some cptag_envelope_random_padding_high) = "envelopeRandomPaddingHigh"
tag_lookup (some cptag_envelope_random_padding_low) = "envelopeRandomPaddingLow"
tag_lookup (some cptag_to0) = "uuid_to0"
tag_lookup (some cptag_to1) = "uuid_to1"
tag_lookup (some cptag_from0) = "uuid_from0"
tag_lookup (some cptag_from1) = "uuid_from1"
tag_lookup (some cptag_flags) = "flags"
tag_lookup (some cptag_payload_length) = "payloadLength"
tag_lookup (some cptag_payload_random_padding_length) = "payloadRandomPaddingLength"
tag_lookup (some cptag_payload_random_padding_high) = "payloadRandomPaddingHigh"
tag_lookup (some cptag_payload_random_padding_low) = "payloadRandomPaddingLow"
tag_lookup (some cptag_encrypted_payload) = "encryptedPayload"
tag_lookup (some cptag_payload) = "payload"
tag_lookup (some cptag_publickey_id) = "publickeyId"
tag_lookup (some cptag_publickey) = "publickey"
tag_lookup (some cptag_mac) = "mac"
tag_lookup (some cptag_serial) = "serial"
tag_lookup (some cptag_cmd) = "cmd"
tag_lookup (some cptag_action) = "action"
tag_lookup (some cptag_action_type) = "action_type"
tag_lookup (some cptag_action_value) = "action_value"
tag_lookup (some cptag_action_length) = "action_length"
tag_lookup (some cptag_action_data) = "action_data"
tag_lookup (some cptag_action_control) = "action_control"
tag_lookup (some cptag_app_controls) = "app_controls"
tag_lookup (some cptag_app_control_i) = "app_control_i"
tag_lookup (some cptag_app_control_type) = "app_control_type"
tag_lookup (some cptag_app_control_value) = "app_control_value"
tag_lookup (some cptag_app_control_range_low) = "app_control_rangeLow"
tag_lookup (some cptag_app_control_range_high) = "app_control_rangeHigh"
tag_lookup (some cptag_app_control_label_length) = "app_control_labelLength"
tag_lookup (some cptag_app_control_label) = "app_control_label"
tag_lookup (some cptag_app_control_data) = "app_control_data"
tag_lookup (some cptag_endtag) = "ENDTAG"
tag_lookup _ = "UNKNOWN"

unfoldable pub state_lookup : PairState → String
state_lookup state_unconfigured = "STATE_UNCONFIGURED"
state_lookup state_publickey_setup = "STATE_PUBLICKEY_SETUP"
state_lookup state_pairing_setup = "STATE_PAIRING_SETUP"
state_lookup state_nonce_setup = "STATE_NONCE_SETUP"
state_lookup state_configured = "STATE_CONFIGURED"
state_lookup state_configured_syn = "STATE_CONFIGURED_SYN"
state_lookup state_configured_synack = "STATE_CONFIGURED_SYNACK"
state_lookup state_paired = "STATE_PAIRED"
state_lookup _ = "UNKNWON"

unfoldable pub cmd_lookup : Command → String
cmd_lookup cmd_invaild_cmd = "CMD_INVAILD_CMD"
cmd_lookup cmd_hello = "CMD_HELLO"
cmd_lookup cmd_pair_request = "CMD_PAIR_REQUEST"
cmd_lookup cmd_pair_request_ack = "CMD_PAIR_REQUEST_ACK"
cmd_lookup cmd_hello_ack = "CMD_HELLO_ACK"
cmd_lookup cmd_nonce_request = "CMD_NONCE_REQUEST"
cmd_lookup cmd_nonce_send = "CMD_NONCE_SEND"
cmd_lookup cmd_nonce_reset = "CMD_NONCE_RESET"
cmd_lookup cmd_publickey_request = "CMD_PUBLICKEY_REQUEST"
cmd_lookup cmd_publickey_send = "CMD_PUBLICKEY_SEND"
cmd_lookup cmd_publickey_reset = "CMD_PUBLICKEY_RESET"
cmd_lookup cmd_verify_syn = "CMD_VERIFY_SYN"
cmd_lookup cmd_verify_synack = "CMD_CMD_VERIFY_SYNACK"
cmd_lookup cmd_verify_ack = "CMD_VERIFY_ACK"
cmd_lookup cmd_app_message = "CMD_APP_MESSAGE"
cmd_lookup cmd_app_message_ack = "CMD_APP_MESSAGE_ACK"
cmd_lookup cmd_app_register = "CMD_APP_REGISTER"
cmd_lookup cmd_app_list = "CMD_APP_LIST"
cmd_lookup cmd_config_get = "CMD_CONFIG_GET"
cmd_lookup cmd_config_set = "CMD_CONFIG_SET"
cmd_lookup cmd_config_message = "CMD_CONFIG_MESSAGE"
cmd_lookup cmd_config_deligate = "CMD_CONFIG_DELIGATE"
cmd_lookup cmd_config_pair = "CMD_CONFIG_PAIR"
cmd_lookup cmd_send_reply_false = "CMD_SEND_REPLY_FALSE"
cmd_lookup cmd_send_reply_true = "CMD_SEND_REPLY_TRUE"
cmd_lookup cmd_pair_request_reset = "CMD_PAIR_REQUEST_RESET"
cmd_lookup cmd_nonce_ack = "CMD_NONCE_ACK"
cmd_lookup cmd_publickey_ack = "CMD_PUBLICKEY_ACK"
cmd_lookup cmd_app_list_ack = "CMD_APP_LIST_ACK"
cmd_lookup cmd_packet_decrypt_failed = "CMD_PACKET_DECRYPT_FAILED"
cmd_lookup cmd_fail = "CMD_FAIL"
cmd_lookup _ = "UNKNOWN"

unfoldable pub cf_tag_lookup : Option ConfigTag → String
cf_tag_lookup (some cftag_publickey) = "publickey"
cf_tag_lookup (some cftag_privatekey) = "privatekey"
cf_tag_lookup (some cftag_nonce) = "nonce"
cf_tag_lookup (some cftag_mynonce) = "mynonce"
cf_tag_lookup (some cftag_uuid0) = "uuid0"
cf_tag_lookup (some cftag_uuid1) = "uuid1"
cf_tag_lookup (some cftag_has_public_key) = "hasPublicKey"
cf_tag_lookup (some cftag_has_nonce) = "hasNonce"
cf_tag_lookup (some cftag_state) = "state"
cf_tag_lookup (some cftag_serial) = "serial"
cf_tag_lookup (some cftag_has_pairs) = "hasPairs"
cf_tag_lookup (some cftag_debug) = "debug"
cf_tag_lookup (some cftag_port) = "port"
cf_tag_lookup (some cftag_hostname) = "hostname"
cf_tag_lookup (some cftag_wifi_ap) = "wifi_ap"
cf_tag_lookup (some cftag_wifi_ap_ssid) = "wifi_ap_ssid"
cf_tag_lookup (some cftag_wifi_ap_passwd) = "wifi_ap_passwd"
cf_tag_lookup (some cftag_wifi_ap_dhcps) = "wifi_ap_dhcps"
cf_tag_lookup (some cftag_dhcps_range_low) = "dhcps_range_low"
cf_tag_lookup (some cftag_dhcps_range_high) = "dhcps_range_high"
cf_tag_lookup (some cftag_wifi_sta) = "wifi_sta"
cf_tag_lookup (some cftag_wifi_sta_ssid) = "wifi_sta_ssid"
cf_tag_lookup (some cftag_wifi_sta_passwd) = "wifi_sta_passwd"
cf_tag_lookup (some cftag_wifi_sta_dhcpc) = "wifi_sta_dhcpc"
cf_tag_lookup (some cftag_ap_ipv4) = "ap_ipv4"
cf_tag_lookup (some cftag_ap_ipv4netmask) = "ap_ipv4netmask"
cf_tag_lookup (some cftag_ap_ipv4gw) = "ap_ipv4gw"
cf_tag_lookup (some cftag_ap_ipv4ns1) = "ap_ipv4ns1"
cf_tag_lookup (some cftag_ap_ipv4ns2) = "ap_ipv4ns2"
cf_tag_lookup (some cftag_ap_ipv6) = "ap_ipv6"
cf_tag_lookup (some cftag_ap_ipv6netmask) = "ap_ipv6netmask"
cf_tag_lookup (some cftag_ap_ipv6gw) = "ap_ipv6gw"
cf_tag_lookup (some cftag_ap_ipv6ns1) = "ap_ipv6ns1"
cf_tag_lookup (some cftag_ap_ipv6ns2) = "ap_ipv6ns2"
cf_tag_lookup (some cftag_sta_ipv4) = "sta_ipv4"
cf_tag_lookup (some cftag_sta_ipv4netmask) = "sta_ipv4netmask"
cf_tag_lookup (some cftag_sta_ipv4gw) = "sta_ipv4gw"
cf_tag_lookup (some cftag_sta_ipv4ns1) = "sta_ipv4ns1"
cf_tag_lookup (some cftag_sta_ipv4ns2) = "sta_ipv4ns2"
cf_tag_lookup (some cftag_sta_ntpv4) = "sta_ntpv4"
cf_tag_lookup (some cftag_sta_ipv6) = "sta_ipv6"
cf_tag_lookup (some cftag_sta_ipv6netmask) = "sta_ipv6netmask"
cf_tag_lookup (some cftag_sta_ipv6gw) = "sta_ipv6gw"
cf_tag_lookup (some cftag_sta_ipv6ns1) = "sta_ipv6ns1"
cf_tag_lookup (some cftag_sta_ipv6ns2) = "sta_ipv6ns2"
cf_tag_lookup (some cftag_sta_ntpv6) = "sta_ntpv6"
cf_tag_lookup (some cftag_mode) = "mode"
cf_tag_lookup (some cftag_header) = "header"
cf_tag_lookup (some cftag_config_length) = "configLength"
cf_tag_lookup (some cftag_pair_length) = "pairLength"
cf_tag_lookup (some cftag_pairs) = "pairs"
cf_tag_lookup (some cftag_eof) = "eof"
cf_tag_lookup _ = "unknown"

-- `_data_type` after the call: 1 for an IPv4 address, 2 for an IPv6 address, and 0 for the rest.
unfoldable pub data_type : Option ConfigTag → ℕ
data_type (some cftag_ap_ipv4) = 1
data_type (some cftag_ap_ipv4netmask) = 1
data_type (some cftag_ap_ipv4gw) = 1
data_type (some cftag_ap_ipv4ns1) = 1
data_type (some cftag_ap_ipv4ns2) = 1
data_type (some cftag_ap_ipv6) = 2
data_type (some cftag_ap_ipv6netmask) = 2
data_type (some cftag_ap_ipv6gw) = 2
data_type (some cftag_ap_ipv6ns1) = 2
data_type (some cftag_ap_ipv6ns2) = 2
data_type (some cftag_sta_ipv4) = 1
data_type (some cftag_sta_ipv4netmask) = 1
data_type (some cftag_sta_ipv4gw) = 1
data_type (some cftag_sta_ipv4ns1) = 1
data_type (some cftag_sta_ipv4ns2) = 1
data_type (some cftag_sta_ntpv4) = 1
data_type (some cftag_sta_ipv6) = 2
data_type (some cftag_sta_ipv6netmask) = 2
data_type (some cftag_sta_ipv6gw) = 2
data_type (some cftag_sta_ipv6ns1) = 2
data_type (some cftag_sta_ipv6ns2) = 2
data_type (some cftag_sta_ntpv6) = 2
data_type _ = 0
