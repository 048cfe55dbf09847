-- ===== src/StateMachine.antt =====
-- `stateMachine` of src/dpdChatFabric/dpdChatFabric.c: the answer to a packet, and how it moves the
-- pairing, in the build with HAVE_LOCAL_CRYPTO and without ESP8266. The `switch` is cut into one
-- function for each group of commands, each of which hands the commands below it to the next.
pub mod State
pub mod Commands
pub mod Addressed
pub mod Steps
pub mod Paired
pub mod Handshake
use dpd_chat_fabric.Prelude.{
  ℕ, zero, suc, ◌^◌, ◌≡◌, Bool, true, false, not, ◌&&◌, ◌||◌, Option, none, some, List, [], ◌∷◌,
  length, take, Outcome, ok, fault, no_fuel, ◌>>=◌, read, ◌==◌, ltb, if◌then◌else◌,
}
use dpd_chat_fabric.Types.Commands.{
  Command, cmd_invaild_cmd, cmd_hello, cmd_hello_ack, cmd_pair_request, cmd_pair_request_ack,
  cmd_pair_request_reset, cmd_nonce_request, cmd_nonce_send, cmd_nonce_ack, cmd_nonce_reset,
  cmd_publickey_request, cmd_publickey_send, cmd_publickey_ack, cmd_publickey_reset, cmd_verify_syn,
  cmd_verify_synack, cmd_verify_ack, cmd_app_message, cmd_app_message_ack, cmd_app_register,
  cmd_app_list, cmd_app_list_ack, cmd_config_get, cmd_config_set, cmd_config_message,
  cmd_config_deligate, cmd_config_pair, cmd_send_reply_false, cmd_send_reply_true,
  cmd_packet_decrypt_failed, cmd_fail, command_number, PairState, state_unconfigured,
  state_publickey_setup, state_nonce_setup, state_configured, state_configured_syn,
  state_configured_synack, state_paired, state_number, FabricError, error_ok, error_invaild_dest,
}
use dpd_chat_fabric.Types.Structs.{ChatPacket, Pairing, Config, Uuid, UuidTuple}
use dpd_chat_fabric.Crypto.{Crypto}
use dpd_chat_fabric.Config.{cf_config_read, create_config_string, cf_config_write}
use dpd_chat_fabric.PairFile.{cf_pair_write}
unfoldable pub use State.*
unfoldable pub use Commands.*

-- The commands that are answered whatever uuids they are sent to.
abbrev pub is_open : Command → Bool
is_open cmd_hello = true
is_open cmd_hello_ack = true
is_open cmd_pair_request = true
is_open _ = false

-- `u0` and `u1` of the function: both uuids are the machine's own.
unfoldable pub addressed : ChatPacket → Machine → Bool
addressed cp m = uuid_eq (cp.to).u0 ((m.config).uuid).u0 && uuid_eq (cp.to).u1 ((m.config).uuid).u1

-- The reply goes from this machine to the sender.
abbrev pub address_reply : ChatPacket → Machine → Machine
address_reply cp m = record m {
  reply = record (m.reply) {
    to = record {
      u0 = uuid_copy (cp.from).u0 ((m.reply).to).u0;
      u1 = uuid_copy (cp.from).u1 ((m.reply).to).u1;
    };
    from = record {
      u0 = uuid_copy ((m.config).uuid).u0 ((m.reply).from).u0;
      u1 = uuid_copy ((m.config).uuid).u1 ((m.reply).from).u1;
    };
  };
}

-- After the `switch`: a pairing that has just become paired is saved.
unfoldable pub save_pair : PairState → Machine → Outcome Machine
save_pair previous m =
    if state_number previous == state_number (m.pair).state
    then ok m
    else (if state_is m state_paired
        then (let files = m.files in
            let config = record (m.config) { has_pairs = 1 } in
            if files.pair_opens
            then (do
              written ← cf_pair_write m.pair
              ok (record m { config = config; files = record files { pair_file = written } }))
            else ok (record m { config = config }))
        else ok m)

unfoldable pub state_machine : Crypto → ChatPacket → Machine → Outcome Machine
state_machine c cp m =
    if not (addressed cp m) && not (is_open cp.cmd)
    then ok (record m { error = error_invaild_dest })
    else (do
      t ← handle_pair c cp cp.cmd (address_reply cp m)
      m' ← save_pair (m.pair).state t.machine
      ok (record m' { reply_cmd = t.retval; error = error_ok }))
