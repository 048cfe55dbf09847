-- ===== src/Fabric/Serve/Rejected.antt =====
-- Datagrams that `chatFabric_device` cannot decode (src/dpdChatFabric/dpdChatFabric.c).
use dpd_chat_fabric.Prelude.{
  ℕ, ◌≡◌, refl, false, none, List, ok, ◌==◌, ==_refl, if◌then◌else◌, Bool-cases, inl, inr,
}
use dpd_chat_fabric.Types.Commands.{
  command_number, cmd_send_reply_true, cmd_packet_decrypt_failed, state_number, error_ok,
  error_invaild_dest,
}
use dpd_chat_fabric.Types.Structs.{ChatPacket}
use dpd_chat_fabric.Packet.Init.{Dice, chat_packet_init0}
use dpd_chat_fabric.Packet.Decode.{Decoded}
use dpd_chat_fabric.StateMachine.{
  handle_pair, handle_nonce, handle_publickey, handle_verify, handle_app, handle_config, save_pair,
  state_machine, addressed,
}
use dpd_chat_fabric.Fabric.Serve.{
  Host, Node, call_back, send_reply, decoded, respond, handle, serve, to_machine,
}

-- The error that is returned depends on the uuids in the packet alone.
failed_machine :
    (host : Host) (d : Dice) (cp : ChatPacket) (node : Node)
    → (command_number host.stale_cmd == command_number cmd_send_reply_true) ≡ false
    → respond host d (record cp { cmd = cmd_packet_decrypt_failed }) node
      ≡ ok (record {
        node = node;
        error =
            if addressed cp (to_machine host node (chat_packet_init0 d))
            then error_ok
            else error_invaild_dest;
        sent = none;
      })
unfolding respond state_machine handle_pair handle_nonce handle_publickey handle_verify handle_app
    handle_config save_pair call_back send_reply addressed command_number
failed_machine host d cp node stale =
    let m = to_machine host node (chat_packet_init0 d) in
    elim (Bool-cases (addressed cp m)) [
      | inl e ↦ rw e (unfold save_pair in rw (==_refl (state_number (node.pair).state)) refl)
      | inr e ↦ rw e (rw stale refl)
    ]

-- A datagram that the decoder rejects is not answered and changes nothing, unless the variable
-- `replyCmd`, which a packet for another machine leaves unassigned, happens to hold
-- CMD_SEND_REPLY_TRUE. The value returned is ERROR_OK or, where the packet as far as it was decoded
-- is for another machine, ERROR_INVAILD_DEST.
pub serve-rejected :
    (host : Host) (d d' : Dice) (received : List ℕ) (node : Node) (got : Decoded)
    → decoded host d received node ≡ ok got
    → got.accepted ≡ false
    → (command_number host.stale_cmd == command_number cmd_send_reply_true) ≡ false
    → serve host d d' received node
      ≡ ok (record {
        node = node;
        error =
            if addressed got.cp (to_machine host node (chat_packet_init0 d'))
            then error_ok
            else error_invaild_dest;
        sent = none;
      })
unfolding serve handle
serve-rejected host d d' received node got e rejected stale =
    rw (e, rejected) (failed_machine host d' got.cp node stale)
