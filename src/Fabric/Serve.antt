-- ===== src/Fabric/Serve.antt =====
-- What `chatFabric_device` of src/dpdChatFabric/dpdChatFabric.c does with the bytes that it received:
-- from the decoding to the reply that it sends.
pub mod Rejected
use dpd_chat_fabric.Prelude.{
  ℕ, ◌≡◌, Bool, true, false, ◌&&◌, ◌||◌, Option, none, some, List, [], length, Outcome, ok, ◌>>=◌,
  read, write, calloc, ltb, ◌==◌, if◌then◌else◌, not,
}
use dpd_chat_fabric.Types.Commands.{
  Command, command_number, cmd_nonce_send, cmd_publickey_send, cmd_app_message, cmd_app_message_ack,
  cmd_app_register, cmd_app_list, cmd_app_list_ack, cmd_config_get, cmd_config_set,
  cmd_config_message, cmd_send_reply_true, cmd_packet_decrypt_failed, state_paired, PacketType,
  command_packet, publickey_packet, nonce_packet, data_packet, FabricError, action_null,
}
use dpd_chat_fabric.Types.Structs.{ChatPacket, Control, Pairing, Config}
use dpd_chat_fabric.Crypto.{Crypto}
use dpd_chat_fabric.Packet.Init.{Dice, chat_packet_init0}
use dpd_chat_fabric.Packet.Encode.{chat_packet_encode}
use dpd_chat_fabric.Packet.Decode.{Decoded, chat_packet_decode}
use dpd_chat_fabric.StateMachine.{Files, Machine, state_is, state_machine}
use dpd_chat_fabric.Fabric.Connection.{buffersize}

-- `msgbuffer`, less `action_data`, which the functions neither read nor write.
pub record MsgBuffer : Type 0 where
  pub length : ℕ
  pub msg : List ℕ
  pub action : ℕ
  pub action_control : ℕ
  pub action_type : ℕ
  pub action_value : ℕ
  pub action_length : ℕ

-- What a machine keeps from one datagram to the next.
pub record Node : Type 0 where
  pub config : Config
  pub pair : Pairing
  pub files : Files
  pub inbox : MsgBuffer

-- What the function finds: the cryptography, what fresh memory holds, the values of the variables
-- `replyCmd` and `e` before they are assigned, `config->callback`, and the rounds of the decoder.
pub record Host : Type 0 where
  pub crypto : Crypto
  pub fresh : Control
  pub stale_cmd : Command
  pub stale_error : FabricError
  pub callback : Option (ChatPacket → Machine → Machine)
  pub rounds : ℕ

-- What the function gives: the machine, the value it returns, and what it sends.
pub record Served : Type 0 where
  pub node : Node
  pub error : FabricError
  pub sent : Option (List ℕ)

-- The user's buffer, which the caller has emptied, after a packet that was decoded.
unfoldable pub fill_inbox : ChatPacket → MsgBuffer → Outcome MsgBuffer
fill_inbox cp b = do
  msg ←
      (if ltb 0 cp.payload_length
        then (do x ← read cp.payload 0 cp.payload_length; write (calloc cp.payload_length) 0 x)
        else ok b.msg)
  let b' = record b { length = cp.payload_length; msg = msg }
  ok (
      if cp.action == action_null then b' else record b' {
        action = cp.action;
        action_control = cp.action_control;
        action_type = cp.action_type;
        action_value = cp.action_value;
        action_length = cp.action_length;
      })

-- The commands that the callback is told of.
abbrev pub is_for_callback : Command → Bool
is_for_callback cmd_app_message = true
is_for_callback cmd_app_message_ack = true
is_for_callback cmd_app_list = true
is_for_callback cmd_app_list_ack = true
is_for_callback _ = false

unfoldable pub call_back : Host → ChatPacket → Machine → Machine
call_back host cp m =
    if is_for_callback cp.cmd && state_is m state_paired
    then elim host.callback [ none ↦ m | some f ↦ f cp m ]
    else m

-- The `switch (cp_reply->cmd)`.
abbrev pub reply_type : Command → PacketType
reply_type cmd_nonce_send = nonce_packet
reply_type cmd_publickey_send = publickey_packet
reply_type cmd_app_message = data_packet
reply_type cmd_app_message_ack = data_packet
reply_type cmd_app_register = data_packet
reply_type cmd_app_list = data_packet
reply_type cmd_app_list_ack = data_packet
reply_type cmd_config_get = data_packet
reply_type cmd_config_set = data_packet
reply_type cmd_config_message = data_packet
reply_type _ = command_packet

-- The machine that the packet is handed to, with a new reply.
abbrev pub to_machine : Host → Node → ChatPacket → Machine
to_machine host node reply = record {
  config = node.config;
  pair = node.pair;
  reply = reply;
  reply_cmd = host.stale_cmd;
  error = host.stale_error;
  files = node.files;
}

abbrev pub from_machine : Node → Machine → Node
from_machine node m = record node { config = m.config; pair = m.pair; files = m.files }

-- Encode the reply, if there is to be one.
unfoldable pub send_reply : Host → Node → Machine → Outcome Served
send_reply host node m =
    if command_number m.reply_cmd == command_number cmd_send_reply_true
    then (do
      out ← chat_packet_encode host.crypto m.reply m.pair true (reply_type (m.reply).cmd)
      ok (record {
        node = from_machine node (record m { pair = out.pair });
        error = m.error;
        sent = some out.msg;
      }))
    else ok (record { node = from_machine node m; error = m.error; sent = none })

-- From `cp_reply = chatPacket_init0 ()` on.
unfoldable pub respond : Host → Dice → ChatPacket → Node → Outcome Served
unfolding send_reply
respond host d cp node = do
  m ← state_machine host.crypto cp (to_machine host node (chat_packet_init0 d))
  send_reply host node (call_back host cp m)

-- After the decoding.
unfoldable pub handle : Host → Dice → Decoded → Node → Outcome Served
unfolding respond
handle host d got node = do
  if got.accepted
      then (do
        inbox ← fill_inbox got.cp node.inbox
        respond host d got.cp (record node { inbox = inbox }))
      else respond host d (record (got.cp) { cmd = cmd_packet_decrypt_failed }) node

-- What the decoder makes of the bytes of one datagram, in the buffer of the function.
unfoldable pub decoded : Host → Dice → List ℕ → Node → Outcome Decoded
decoded host d received node = do
  mesg ← write (calloc buffersize) 0 received
  chat_packet_decode (record { crypto = host.crypto; fresh = host.fresh; pair = node.pair })
      host.rounds (chat_packet_init0 d) mesg (length received)

-- The answer to the bytes, with the two sets of random numbers that it draws.
unfoldable pub serve : Host → Dice → Dice → List ℕ → Node → Outcome Served
unfolding handle decoded
serve host d d' received node = do got ← decoded host d received node; handle host d' got node
