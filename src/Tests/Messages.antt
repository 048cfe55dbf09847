-- ===== src/Tests/Messages.antt =====
-- An encrypted DATA packet that arrives (src/dpdChatPacket/dpdChatPacket.c).
use dpd_chat_fabric.Prelude.{length, ◌>>=◌, ◌≤◌}
use dpd_chat_fabric.Prelude.{
  ℕ, ◌≡◌, refl, true, List, [], ◌∷◌, ok, arith, be32, of_be32, read, write,
}
use dpd_chat_fabric.Types.Commands.{data_packet, command_number}
use dpd_chat_fabric.Types.Structs.{ChatPacket, Control}
use dpd_chat_fabric.TagEncoder.Fill.{bytes}
use dpd_chat_fabric.Packet.Nonce.{calc_nonce}
use dpd_chat_fabric.Packet.Encode.{
  visited_controls, payload_calls, control_calls, controls_calls, action_calls,
}
use dpd_chat_fabric.Packet.Encode.Payload.{IsEncodable}
use dpd_chat_fabric.Packet.Decode.{DecodeEnv}
use dpd_chat_fabric.Packet.Decode.Header.{transmit, IsSendable}
use dpd_chat_fabric.Packet.Decode.Controls.{IsSendableControl}
use dpd_chat_fabric.Packet.Decode.Payload.{IsMessage}
use dpd_chat_fabric.Packet.Decode.Data.{IsData, numbered, with_data, decode-encode_data}
use dpd_chat_fabric.Packet.Init.{chat_packet_init0}
use dpd_chat_fabric.Packet.Encode.{chat_packet_encode, header_calls, content_calls}
use dpd_chat_fabric.Packet.Decode.Data.{data_message}
use dpd_chat_fabric.Fabric.Connection.{buffersize}
use dpd_chat_fabric.Fabric.Serve.{Host, Node, serve, respond}
use dpd_chat_fabric.Fabric.Message.{env_of, delivered, serve-encode_data}
use dpd_chat_fabric.Tests.Nodes.{dice, host, node}
use dpd_chat_fabric.Tests.Data.{
  open_crypto, open_crypto-CryptoLaws, packet, lamp, pairing, decode_env,
}

abbrev message : ChatPacket
message = record packet { action_length = 0 }

abbrev controls : List Control
controls = lamp ∷ []

abbrev empty_packet : ChatPacket
empty_packet = record packet { payload_length = 0; payload = [] }

abbrev receiver : DecodeEnv
receiver = record decode_env { pair = record pairing { mynonce = pairing.nonce } }

abbrev pub session : List ℕ
session = 1 ∷ 2 ∷ 3 ∷ 4 ∷ 0 ∷ 0 ∷ 2 ∷ 41 ∷ []

message-IsSendable : IsSendable (numbered message pairing)
unfolding command_number
message-IsSendable = record {
  uuids_fit = record { to0 = refl; to1 = refl; from0 = refl; from1 = refl };
  cmd_fits = omega arith;
  serial_fits = omega arith;
  flags_fit = omega arith;
}

pub lamp-IsSendableControl : IsSendableControl lamp
lamp-IsSendableControl = record {
  control_fits = omega arith;
  type_fits = omega arith;
  value_fits = omega arith;
  low_fits = omega arith;
  high_fits = omega arith;
  label_length_fits = omega arith;
  label_fits = omega arith;
  no_data = refl;
}

message-IsMessage : IsMessage message controls
unfolding visited_controls read
message-IsMessage = record {
  padding = record { high = omega arith; low = omega arith; split = refl; fits = refl };
  visited = refl;
  controls_fit = (lamp-IsSendableControl, tt);
  no_data = refl;
  action_fits = omega arith;
  control_fits = omega arith;
  type_fits = omega arith;
  value_fits = omega arith;
  length_fits = omega arith;
  payload_fits = omega arith;
}

message-IsEncodable : IsEncodable message controls
unfolding payload_calls controls_calls control_calls action_calls
message-IsEncodable = record {
  padding_split = refl;
  padding_fits = refl;
  action_fits = omega arith;
  payload_fits = omega arith;
  controls_fit = (record { label_fits = omega arith; data_fits = omega arith }, tt);
  small = omega arith;
}

message-IsData : IsData receiver message empty_packet controls pairing session
unfolding bytes payload_calls controls_calls control_calls action_calls be32 calc_nonce read write
    of_be32
message-IsData = record {
  sendable = message-IsSendable;
  message = message-IsMessage;
  encodable = message-IsEncodable;
  nonce = refl;
  same_key = refl;
  same_nonce = refl;
  small = omega arith;
  empty = refl;
  payload_padding = refl;
  envelope_padding = refl;
}

decode-encode_data_example :
    transmit receiver open_crypto 33 message pairing true data_packet empty_packet
    ≡ ok (record {
      cp = with_data receiver.fresh controls message pairing empty_packet;
      accepted = true;
    })
decode-encode_data_example =
    decode-encode_data receiver message empty_packet controls pairing session 33
      open_crypto-CryptoLaws message-IsData (omega arith)

abbrev patient : Host
patient = record host { rounds = 33 }

abbrev listener : Node
listener = record (node 2) { pair = record pairing { mynonce = pairing.nonce } }

fresh-IsData :
    IsData (env_of patient listener) message (chat_packet_init0 dice) controls pairing session
unfolding bytes payload_calls controls_calls control_calls action_calls be32 calc_nonce read write
    of_be32 chat_packet_init0
fresh-IsData = record {
  sendable = message-IsSendable;
  message = message-IsMessage;
  encodable = message-IsEncodable;
  nonce = refl;
  same_key = refl;
  same_nonce = refl;
  small = omega arith;
  empty = refl;
  payload_padding = refl;
  envelope_padding = refl;
}

message_fits : length (data_message open_crypto message controls pairing session) ≤ buffersize
unfolding bytes payload_calls controls_calls control_calls action_calls be32 header_calls
    content_calls
message_fits = omega arith

serve-encode_data_example :
    (chat_packet_encode open_crypto message pairing true data_packet >>= λ out.
    serve patient dice dice out.msg listener)
    ≡ respond patient dice
        (with_data patient.fresh controls message pairing (chat_packet_init0 dice))
        (record listener { inbox = delivered message listener.inbox })
serve-encode_data_example =
    serve-encode_data patient dice dice message controls pairing session listener
      open_crypto-CryptoLaws (omega arith) fresh-IsData message_fits
