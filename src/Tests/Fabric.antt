-- ===== src/Tests/Fabric.antt =====
-- Instances of the theorems about src/dpdChatFabric/dpdChatFabric.c at concrete packets and machines,
-- which exchange their datagrams over a socket.
use dpd_chat_fabric.Prelude.{
  Outcome, ℕ, ◌≡◌, refl, true, false, none, some, List, [], ◌∷◌, ◌>>=◌, length, replicate, ◌++◌, ok,
  arith,
}
use dpd_chat_fabric.Types.Commands.{
  cmd_pair_request, cmd_nonce_send, state_nonce_setup, state_number, command, state_paired,
  error_ok, error_invaild_dest, nonce_packet, command_number,
}
use dpd_chat_fabric.Types.Structs.{ChatPacket}
use dpd_chat_fabric.Packet.Init.{chat_packet_init0, chat_packet_init}
use dpd_chat_fabric.Packet.Encode.{
  chat_packet_encode, header_calls, content_calls, message_size, encode_part, encode_message,
}
use dpd_chat_fabric.Prelude.{read, write, calloc, be32, of_be32, read_word}
use dpd_chat_fabric.Types.Tags.{packet_tag, packet_tag_byte}
use dpd_chat_fabric.StateMachine.{
  addressed, uuid_eq, state_machine, handle_pair, handle_nonce, save_pair,
}
use dpd_chat_fabric.PairFile.{pair_calls, cf_pair_write}
use dpd_chat_fabric.TagEncoder.{perform_all, field_body}
use dpd_chat_fabric.TagEncoder.Fill.{bytes}
use dpd_chat_fabric.Packet.Decode.{
  chat_packet_decode, decode_loop, decode_header_tag, decode_payload_tag, decode_action_tag,
  decode_control_tag,
}
use dpd_chat_fabric.Packet.Decode.Header.{IsSendable, command_bytes, transmit}
use dpd_chat_fabric.Packet.Decode.Envelope.{IsEnvelope, decode-encode_nonce, with_nonce}
use dpd_chat_fabric.Packet.Init.Laws.{padding_length-HasPadding}
use dpd_chat_fabric.Fabric.Connection.{
  Connection, System, sock_dgram, consetup, send, receive, close_stream,
}
use dpd_chat_fabric.Fabric.Serve.{
  Node, serve, respond, decoded, handle, fill_inbox, call_back, send_reply,
}
use dpd_chat_fabric.Fabric.Serve.Rejected.{serve-rejected}
use dpd_chat_fabric.Fabric.Wire.{serve-encode, nonce_sent, carried, emptied}
use dpd_chat_fabric.Fabric.Converse.{converse}
use dpd_chat_fabric.Fabric.Converse.Flights.{IsMember, fresh, paired_nodes, saved_node}
use dpd_chat_fabric.Fabric.Converse.Paired.{CanPair, converse-paired}
use dpd_chat_fabric.Fabric.Loops.{
  Action, Ended, controller, request_packet, encode_request, device, device_loop, deliver,
}
use dpd_chat_fabric.Fabric.Loops.Logged.{logged}
use dpd_chat_fabric.Tests.Nodes.{dice, dice-IsDice, host, node}
use dpd_chat_fabric.Tests.Data.{
  open_crypto, add_keys, open_crypto-CryptoLaws, uuids, packet, pairing, decode_env,
}

member : (n : ℕ) → IsMember (node n)
member n = record {
  u0_size = refl;
  u1_size = refl;
  publickey_size = refl;
  mynonce_size = refl;
  serial_word = omega arith;
}

lamp_and_switch : CanPair host (λ k. (dice, dice)) (node 1) (node 2)
unfolding add_keys
lamp_and_switch = record {
  laws = open_crypto-CryptoLaws;
  rounds = omega arith;
  fair = λ k. (dice-IsDice, dice-IsDice);
  member_x = member 1;
  member_y = member 2;
  same_null = refl;
  same_key = refl;
}

abbrev pair_request : ChatPacket
pair_request = record packet { cmd = cmd_pair_request; from = uuids 1 }

packet-IsSendable : IsSendable pair_request
unfolding command_number
packet-IsSendable = record {
  uuids_fit = record { to0 = refl; to1 = refl; from0 = refl; from1 = refl };
  cmd_fits = omega arith;
  serial_fits = omega arith;
  flags_fit = omega arith;
}

converse-paired_example :
    converse host
      (λ k. (dice, dice))
      10
      (command_bytes pair_request)
      (fresh (node 2))
      (fresh (node 1))
    ≡ ok (
      saved_node (node 1) (paired_nodes open_crypto (node 1) (node 2)),
      saved_node (node 2) (paired_nodes open_crypto (node 2) (node 1)),
    )
converse-paired_example =
    converse-paired host (λ k. (dice, dice)) (node 1) (node 2) lamp_and_switch packet
      packet-IsSendable

-- A nonce for the second machine.
abbrev nonce_reply : ChatPacket
nonce_reply = record (chat_packet_init0 dice) {
  cmd = cmd_nonce_send;
  flags = 1;
  to = uuids 2;
  from = uuids 1;
}

nonce_reply-IsEnvelope : IsEnvelope nonce_reply pairing
unfolding command_number chat_packet_init0
nonce_reply-IsEnvelope = record {
  sendable = record {
    uuids_fit = record { to0 = refl; to1 = refl; from0 = refl; from1 = refl };
    cmd_fits = omega arith;
    serial_fits = omega arith;
    flags_fit = omega arith;
  };
  padding = padding_length-HasPadding 4 (replicate 16 7) (omega arith) refl;
  mynonce_size = refl;
}

serve-encode_example :
    (chat_packet_encode open_crypto nonce_reply pairing true nonce_packet >>= λ out.
    serve host dice dice out.msg (node 2))
    ≡ respond host dice
        (carried nonce_packet nonce_reply pairing (chat_packet_init0 dice))
        (emptied (node 2))
serve-encode_example =
    serve-encode host dice dice nonce_packet nonce_reply pairing (node 2) open_crypto-CryptoLaws
      dice-IsDice (omega arith) (nonce_sent nonce_reply-IsEnvelope) (refl, refl)

decode-encode_nonce_example :
    transmit decode_env open_crypto 14 nonce_reply pairing true nonce_packet packet
    ≡ ok (record { cp = with_nonce nonce_reply pairing packet; accepted = true })
decode-encode_nonce_example =
    decode-encode_nonce decode_env nonce_reply packet pairing 14 open_crypto-CryptoLaws
      nonce_reply-IsEnvelope refl refl refl (omega arith)

-- A tag that there is not.
no_tag :
    decoded host dice (254 ∷ []) (node 2)
    ≡ ok (record { cp = chat_packet_init0 dice; accepted = false })
unfolding decoded chat_packet_decode decode_loop decode_header_tag decode_payload_tag
    decode_action_tag decode_control_tag packet_tag read write calloc chat_packet_init0
no_tag = refl

serve-rejected_example :
    serve host dice dice (254 ∷ []) (node 2)
    ≡ ok (record { node = node 2; error = error_invaild_dest; sent = none })
unfolding command_number addressed uuid_eq chat_packet_init0
serve-rejected_example =
    serve-rejected host dice dice (254 ∷ []) (node 2)
      (record { cp = chat_packet_init0 dice; accepted = false }) no_tag refl refl

-- A socket on which a CMD_NONCE_ACK waits, for the first machine.
abbrev nonce_ack : List ℕ
nonce_ack = 255 ∷ 0 ∷ 0 ∷ 0 ∷ 8 ∷ 9 ∷ replicate 16 1 ++ (10 ∷ replicate 16 101)

abbrev socket_with_ack : System Unit
socket_with_ack = record {
  socket = λ w. (some 3, w);
  accept = λ s w. (none, w);
  setsockopt = λ s w. w;
  bind = λ s w. w;
  listen = λ s w. w;
  connect = λ s w. w;
  close = λ s w. w;
  read = λ s w. (some nonce_ack, w);
  write = λ s msg w. (some (length msg), w);
  arc4random = λ w. (dice, w);
}

abbrev closed_connection : Connection
closed_connection = record { socket = none; accepted_socket = none; type = sock_dgram; bind = 0 }

abbrev no_action : Action
no_action = record {
  action = 0;
  action_control = 0;
  action_type = 0;
  action_value = 0;
  action_length = 0;
}

-- The first machine, which has sent its nonce.
abbrev waiting : Node
waiting = record (node 1) { pair = record pairing { state = state_nonce_setup } }

abbrev ended : Ended Unit
ended = record {
  error = error_ok;
  node = saved_node waiting (record pairing { state = state_paired });
  connection = record closed_connection { socket = some 3 };
  world = tt;
}

acknowledged_call :
    controller socket_with_ack host 1 no_action [] waiting closed_connection tt ≡ ok ended
unfolding controller consetup request_packet chat_packet_init read write encode_request
    chat_packet_encode perform_all header_calls message_size field_body be32 content_calls send
    serve decoded calloc chat_packet_decode decode_loop decode_header_tag chat_packet_init0
    packet_tag packet_tag_byte state_number command_number handle fill_inbox respond state_machine
    addressed uuid_eq handle_pair handle_nonce save_pair device receive deliver call_back send_reply
    bytes pair_calls cf_pair_write command of_be32 read_word device_loop encode_part encode_message
    close_stream
acknowledged_call = refl

-- The same call with its messages logged.
abbrev logged_call : Outcome (Ended (Unit × List (List ℕ)))
logged_call =
    controller (logged socket_with_ack) host 1 no_action [] waiting closed_connection (tt, [])

abbrev messages_of : Outcome (Ended (Unit × List (List ℕ))) → List (List ℕ)
messages_of (ok r) = r.world.1
messages_of _ = []

abbrev messages : List (List ℕ)
messages = messages_of logged_call

abbrev logged_end : Ended (Unit × List (List ℕ))
logged_end = record {
  error = error_ok;
  node = ended.node;
  connection = ended.connection;
  world = (tt, messages);
}
