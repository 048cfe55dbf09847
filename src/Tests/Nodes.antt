-- ===== src/Tests/Nodes.antt =====
-- Sample random numbers, hosts and machines for src/dpdChatFabric/dpdChatFabric.c.
use dpd_chat_fabric.Prelude.{ℕ, refl, none, [], replicate, arith}
use dpd_chat_fabric.Types.Commands.{cmd_send_reply_false, error_ok}
use dpd_chat_fabric.Packet.Init.{Dice, IsDice}
use dpd_chat_fabric.Fabric.Serve.{MsgBuffer, Node, Host}
use dpd_chat_fabric.Tests.Data.{open_crypto, lamp, pairing, config, files}

abbrev pub dice : Dice
dice = record {
  envelope = 4;
  envelope_padding = replicate 16 7;
  payload = 9;
  payload_padding = replicate 16 8;
}

pub dice-IsDice : IsDice dice
dice-IsDice = record {
  envelope_below = omega arith;
  envelope_fits = refl;
  payload_below = omega arith;
  payload_fits = refl;
}

abbrev pub host : Host
host = record {
  crypto = open_crypto;
  fresh = lamp;
  stale_cmd = cmd_send_reply_false;
  stale_error = error_ok;
  callback = none;
  rounds = 14;
}

abbrev pub inbox : MsgBuffer
inbox = record {
  length = 0;
  msg = [];
  action = 0;
  action_control = 0;
  action_type = 0;
  action_value = 0;
  action_length = 0;
}

abbrev pub node : ℕ → Node
node n = record { config = config n; pair = pairing; files = files; inbox = inbox }
