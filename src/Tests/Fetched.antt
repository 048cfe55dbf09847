-- ===== src/Tests/Fetched.antt =====
-- A controller that fetches the controls of a device (src/bin/controller.c).
use dpd_chat_fabric.Prelude.{
  ◌≤◌, ◌≡◌, refl, none, some, [], ◌∷◌, length, map, ok, arith, be32, of_be32, read, write,
}
use dpd_chat_fabric.Types.Commands.{
  cmd_app_list, action_app_list, command_number, state_paired, state_number, error_ok,
}
use dpd_chat_fabric.Types.Structs.{ChatPacket}
use dpd_chat_fabric.TagEncoder.Fill.{bytes}
use dpd_chat_fabric.Packet.Nonce.{calc_nonce}
use dpd_chat_fabric.Packet.Init.{padding_length, chat_packet_init0}
use dpd_chat_fabric.Packet.Encode.{
  visited_controls, payload_calls, control_calls, controls_calls, action_calls, header_calls,
  content_calls,
}
use dpd_chat_fabric.Packet.Decode.Controls.{received}
use dpd_chat_fabric.Packet.Decode.Data.{IsData, data_message}
use dpd_chat_fabric.Fabric.Connection.{buffersize}
use dpd_chat_fabric.Fabric.Serve.{Host, Node}
use dpd_chat_fabric.Fabric.Message.{env_of, delivered}
use dpd_chat_fabric.StateMachine.{uuid_eq}
use dpd_chat_fabric.Programs.Device.{device_call_back}
use dpd_chat_fabric.Programs.Controller.{controller_call_back}
use dpd_chat_fabric.Programs.Controller.Listed.{listing}
use dpd_chat_fabric.Programs.Controller.Fetched.{fetch, AreProgrammed, fetch-listing}
use dpd_chat_fabric.Tests.Nodes.{dice, host, node}
use dpd_chat_fabric.Tests.Data.{open_crypto, open_crypto-CryptoLaws, packet, pairing, lamp, config}
use dpd_chat_fabric.Tests.Messages.{lamp-IsSendableControl, session}

abbrev device_host : Host
device_host = record host { callback = some device_call_back }

abbrev controller_host : Host
controller_host = record host { callback = some controller_call_back; rounds = 33 }

abbrev device_node : Node
device_node = record (node 2) {
  config = record (config 2) { controlers = lamp ∷ []; num_of_controllers = 1 };
  pair = record pairing { state = state_paired };
}

abbrev controller_node : Node
controller_node = record (node 3) {
  config = config 3;
  pair = record pairing { state = state_paired; mynonce = pairing.nonce };
}

-- The request.
abbrev list_request : ChatPacket
list_request = record packet {
  cmd = cmd_app_list;
  action = action_app_list;
  to = ((config 2).uuid);
  from = ((config 3).uuid);
}

abbrev list_reply : ChatPacket
list_reply = listing dice list_request device_node

programmed :
    AreProgrammed device_host controller_host list_request list_reply device_node controller_node
unfolding uuid_eq state_number
programmed = record {
  same_crypto = refl;
  device_callback = refl;
  controller_callback = refl;
  for_device = record { to0 = refl; to1 = refl; paired = refl };
  for_controller = record { to0 = refl; to1 = refl; paired = refl };
  no_get = refl;
  no_set = refl;
}

list_reply-IsData :
    IsData
      (env_of controller_host controller_node)
      list_reply
      (chat_packet_init0 dice)
      (lamp ∷ [])
      device_node.pair
      session
unfolding bytes payload_calls controls_calls control_calls action_calls be32 calc_nonce read write
    of_be32 chat_packet_init0 padding_length command_number visited_controls
list_reply-IsData = record {
  sendable = record {
    uuids_fit = record { to0 = refl; to1 = refl; from0 = refl; from1 = refl };
    cmd_fits = omega arith;
    serial_fits = omega arith;
    flags_fit = omega arith;
  };
  message = record {
    padding = record { high = omega arith; low = omega arith; split = refl; fits = refl };
    visited = refl;
    controls_fit = (lamp-IsSendableControl, tt);
    no_data = refl;
    action_fits = omega arith;
    control_fits = omega arith;
    type_fits = omega arith;
    value_fits = omega arith;
    length_fits = omega arith;
    payload_fits = omega arith;
  };
  encodable = record {
    padding_split = refl;
    padding_fits = refl;
    action_fits = omega arith;
    payload_fits = omega arith;
    controls_fit = (record { label_fits = omega arith; data_fits = omega arith }, tt);
    small = omega arith;
  };
  nonce = refl;
  same_key = refl;
  same_nonce = refl;
  small = omega arith;
  empty = refl;
  payload_padding = refl;
  envelope_padding = refl;
}

list_reply_fits :
    length (data_message open_crypto list_reply (lamp ∷ []) device_node.pair session) ≤ buffersize
unfolding bytes payload_calls controls_calls control_calls action_calls be32 header_calls
    content_calls chat_packet_init0 padding_length command_number
list_reply_fits = omega arith

fetch-listing_example :
    fetch device_host controller_host dice dice dice list_request device_node controller_node
    ≡ ok (record {
      node = record controller_node {
        inbox = delivered list_reply controller_node.inbox;
        config = record (controller_node.config) {
          controlers = map (received controller_host.fresh) (lamp ∷ []);
          num_of_controllers = 1;
        };
      };
      error = error_ok;
      sent = none;
    })
fetch-listing_example =
    fetch-listing device_host controller_host dice dice dice list_request device_node
      controller_node (lamp ∷ []) session open_crypto-CryptoLaws refl programmed list_reply-IsData
      refl (omega arith) list_reply_fits
