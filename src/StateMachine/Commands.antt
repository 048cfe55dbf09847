-- ===== src/StateMachine/Commands.antt =====
-- The `switch` of `stateMachine` of src/dpdChatFabric/dpdChatFabric.c, one function for each group of
-- commands, each of which hands the commands below it to the next.
use dpd_chat_fabric.Prelude.{
  ◌^◌, Bool, not, ◌||◌, length, Outcome, ok, ◌>>=◌, ◌==◌, ltb, if◌then◌else◌,
}
use dpd_chat_fabric.Types.Commands.{
  Command, cmd_invaild_cmd, cmd_hello, cmd_hello_ack, cmd_pair_request, cmd_pair_request_ack,
  cmd_pair_request_reset, cmd_nonce_request, cmd_nonce_send, cmd_nonce_ack, cmd_nonce_reset,
  cmd_publickey_request, cmd_publickey_send, cmd_publickey_ack, cmd_publickey_reset, cmd_verify_syn,
  cmd_verify_synack, cmd_verify_ack, cmd_app_message, cmd_app_message_ack, cmd_app_register,
  cmd_app_list, cmd_app_list_ack, cmd_config_get, cmd_config_set, cmd_config_message,
  cmd_config_deligate, cmd_config_pair, cmd_send_reply_false, cmd_send_reply_true,
  cmd_packet_decrypt_failed, cmd_fail, command_number, state_unconfigured, state_publickey_setup,
  state_nonce_setup, state_configured, state_configured_syn, state_configured_synack, state_paired,
  state_number,
}
use dpd_chat_fabric.Types.Structs.{ChatPacket}
use dpd_chat_fabric.Crypto.{Crypto}
use dpd_chat_fabric.Config.{cf_config_read, create_config_string, cf_config_write}
use dpd_chat_fabric.StateMachine.State.{Machine, Turn, state_is, answer, silent, adopt}

-- The cases behind the pairing: applications, configuration, and `default`.
unfoldable pub handle_config : ChatPacket → Command → Machine → Outcome Turn
handle_config cp cmd_config_get m = do
  configstr ← create_config_string m.config
  ok (
      answer m m.pair (record (m.reply) {
        cmd = cmd_config_message;
        payload = configstr;
        payload_length = length configstr;
      }))
handle_config cp cmd_config_set m = do
  let size = if ltb cp.payload_length (2 ^ 31) then cp.payload_length else 0
  config ← cf_config_read m.config cp.payload size
  written ← cf_config_write config
  let files = m.files
  let kept = if files.config_opens then written else files.config_file
  ok (
      answer (record m { config = config; files = record files { config_file = kept } }) m.pair
        (record (m.reply) { cmd = cmd_app_message_ack }))
handle_config cp cmd_config_message m = ok (silent m)
handle_config cp cmd_config_deligate m = ok (silent m)
handle_config cp cmd_config_pair m = ok (silent m)
handle_config cp cmd_send_reply_false m = ok (silent m)
handle_config cp cmd_send_reply_true m = ok (silent m)
handle_config cp cmd_packet_decrypt_failed m =
    ok (silent (record m { reply = record (m.reply) { cmd = cmd_fail } }))
handle_config cp cmd_fail m = ok (silent m)
handle_config cp cmd_invaild_cmd m = ok (silent m)
handle_config cp _ m = ok (answer m m.pair (record (m.reply) { flags = 0; cmd = cmd_invaild_cmd }))

unfoldable pub handle_app : ChatPacket → Command → Machine → Outcome Turn
handle_app cp cmd_app_message m =
    if state_is m state_paired
    then ok (record {
      machine = record m { reply = record (m.reply) { cmd = cmd_app_message_ack } };
      retval =
          if cp.flags == command_number cmd_send_reply_true
          then cmd_send_reply_true
          else cmd_send_reply_false;
    })
    else ok (silent m)
handle_app cp cmd_app_message_ack m = ok (silent m)
handle_app cp cmd_app_register m = ok (silent m)
handle_app cp cmd_app_list m =
    if state_is m state_paired
    then ok (
        answer m m.pair (record (m.reply) {
          controlers = (m.config).controlers;
          num_of_controllers = (m.config).num_of_controllers;
          cmd = cmd_app_list_ack;
        }))
    else ok (silent m)
handle_app cp cmd_app_list_ack m = ok (silent m)
handle_app cp cmd m = handle_config cp cmd m

abbrev pub in_configured : Machine → Bool
in_configured m =
    state_is m state_configured
    || state_is m state_configured_syn
    || state_is m state_configured_synack

unfoldable pub handle_verify : ChatPacket → Command → Machine → Outcome Turn
handle_verify cp cmd_verify_syn m = ok (
    if in_configured m
    then answer m (record (m.pair) { state = state_configured_syn })
        (record (m.reply) { flags = 0; cmd = cmd_verify_synack })
    else silent m)
handle_verify cp cmd_verify_synack m = ok (
    if in_configured m
    then answer m (record (m.pair) { state = state_configured_synack })
        (record (m.reply) { flags = 0; cmd = cmd_verify_ack })
    else silent m)
handle_verify cp cmd_verify_ack m = ok (
    if in_configured m
    then answer m (record (m.pair) { state = state_paired })
        (record (m.reply) { flags = 0; cmd = cmd_verify_ack })
    else silent m)
handle_verify cp cmd m = handle_app cp cmd m

-- `CMD_PUBLICKEY_REQUEST`, which `CMD_PUBLICKEY_ACK` falls through to with the value of `RETVAL`.
unfoldable pub publickey_request : Turn → Turn
publickey_request t =
    let m = t.machine in
    if state_is m state_publickey_setup
    then answer m (record (m.pair) { state = state_publickey_setup })
        (record (m.reply) {
          flags = (m.pair).has_public_key;
          cmd = cmd_publickey_send;
          publickey = (m.config).publickey;
        })
    else t

unfoldable pub publickey_ack : Machine → Turn
publickey_ack m =
    if state_is m state_publickey_setup
    then answer m (record (m.pair) { state = state_nonce_setup })
        (record (m.reply) { flags = state_number state_nonce_setup; cmd = cmd_nonce_request })
    else silent m

unfoldable pub publickey_send : Crypto → ChatPacket → Machine → Turn
publickey_send c cp m =
    let learnt = record (m.pair) {
      publickey = cp.publickey;
      has_public_key = 1;
      sharedkey = c.curve25519_donna (m.config).privatekey cp.publickey;
    } in
    if state_is m state_publickey_setup
    then (if cp.flags == 1
        then answer m (record learnt { state = state_nonce_setup })
            (record (m.reply) { flags = 1; cmd = cmd_publickey_ack })
        else answer m learnt (record (m.reply) {
          flags = 1;
          cmd = cmd_publickey_send;
          publickey = (m.config).publickey;
        }))
    else silent m

unfoldable pub handle_publickey : Crypto → ChatPacket → Command → Machine → Outcome Turn
unfolding publickey_request publickey_ack publickey_send
handle_publickey c cp cmd_publickey_ack m = ok (publickey_request (publickey_ack m))
handle_publickey c cp cmd_publickey_request m = ok (publickey_request (silent m))
handle_publickey c cp cmd_publickey_send m = ok (publickey_send c cp m)
handle_publickey c cp cmd_publickey_reset m = ok (silent m)
handle_publickey c cp cmd m = handle_verify cp cmd m

unfoldable pub nonce_request : Machine → Turn
nonce_request m =
    if state_is m state_nonce_setup
    then (if (m.pair).has_public_key == 1
        then answer m (record (m.pair) { state = state_nonce_setup })
            (record (m.reply) {
              flags = (m.pair).has_nonce;
              nonce = (m.pair).mynonce;
              cmd = cmd_nonce_send;
            })
        else answer m (record (m.pair) { state = state_unconfigured })
            (record (m.reply) { flags = 0; cmd = cmd_pair_request_reset }))
    else silent m

unfoldable pub nonce_send : ChatPacket → Machine → Turn
nonce_send cp m =
    let learnt = record (m.pair) { nonce = cp.nonce; has_nonce = 1 } in
    if state_is m state_nonce_setup
    then (if cp.flags == 1
        then answer m (record learnt { state = state_paired })
            (record (m.reply) { flags = 0; cmd = cmd_nonce_ack })
        else answer m (record learnt { state = state_nonce_setup })
            (record (m.reply) { flags = 1; cmd = cmd_nonce_send; nonce = (m.pair).mynonce }))
    else silent m

unfoldable pub handle_nonce : Crypto → ChatPacket → Command → Machine → Outcome Turn
unfolding nonce_request nonce_send
handle_nonce c cp cmd_nonce_request m = ok (nonce_request m)
handle_nonce c cp cmd_nonce_ack m = ok (
    if state_is m state_nonce_setup
    then silent (record m { pair = record (m.pair) { state = state_paired } })
    else silent m)
handle_nonce c cp cmd_nonce_send m = ok (nonce_send cp m)
handle_nonce c cp cmd_nonce_reset m = ok (silent m)
handle_nonce c cp cmd m = handle_publickey c cp cmd m

unfoldable pub handle_pair : Crypto → ChatPacket → Command → Machine → Outcome Turn
handle_pair c cp cmd_pair_request_reset m = ok (
    if not (state_is m state_paired)
    then answer m (record (m.pair) { state = state_unconfigured })
        (record (m.reply) { flags = state_number state_unconfigured; cmd = cmd_pair_request })
    else answer m m.pair (record (m.reply) { flags = state_number (m.pair).state; cmd = cmd_fail }))
handle_pair c cp cmd_hello m = ok (
    answer m m.pair (record (m.reply) { flags = state_number (m.pair).state; cmd = cmd_hello_ack }))
handle_pair c cp cmd_hello_ack m = ok (
    silent (record m {
      reply = record (m.reply) { flags = state_number (m.pair).state; cmd = cmd_hello_ack };
    }))
handle_pair c cp cmd_pair_request m = ok (
    if state_is m state_unconfigured
    then answer m (record (adopt cp m.pair) { state = state_publickey_setup })
        (record (m.reply) { flags = 0; cmd = cmd_pair_request_ack })
    else answer m (adopt cp m.pair) (record (m.reply) { flags = 0; cmd = cmd_fail }))
handle_pair c cp cmd_pair_request_ack m = ok (
    if state_is m state_unconfigured
    then answer m (record (adopt cp m.pair) { state = state_publickey_setup })
        (record (m.reply) { flags = 0; cmd = cmd_publickey_request })
    else silent m)
handle_pair c cp cmd m = handle_nonce c cp cmd m
