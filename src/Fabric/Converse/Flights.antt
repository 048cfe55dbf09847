-- ===== src/Fabric/Converse/Flights.antt =====
-- The packets of a pairing on their way between two machines, one after the other
-- (src/dpdChatFabric/dpdChatFabric.c).
use dpd_chat_fabric.Prelude.{ℕ, ◌<◌, ◌^◌, ◌≡◌, length, if◌then◌else◌}
use dpd_chat_fabric.Types.Commands.{
  Command, cmd_pair_request, state_unconfigured, state_publickey_setup, state_nonce_setup,
  cmd_pair_request_ack, cmd_publickey_request, cmd_publickey_send, cmd_publickey_ack,
  cmd_nonce_request, cmd_nonce_send, cmd_nonce_ack, PairState, state_paired, command_packet,
  publickey_packet, nonce_packet,
}
use dpd_chat_fabric.Types.Structs.{ChatPacket, Pairing}
use dpd_chat_fabric.Crypto.{Crypto}
use dpd_chat_fabric.Packet.Init.{Dice, chat_packet_init0}
use dpd_chat_fabric.Fabric.Serve.{Node}
use dpd_chat_fabric.PairFile.{pair_calls}
use dpd_chat_fabric.TagEncoder.Fill.{bytes}
use dpd_chat_fabric.Fabric.Converse.{Flight}

-- A machine before its first pairing.
abbrev pub fresh : Node → Node
fresh x = record x {
  pair = record (x.pair) { state = state_unconfigured; has_public_key = 0; has_nonce = 0 };
}

-- What a machine brings along: uuids, a public key and a nonce of the right sizes, and a word.
pub record IsMember (x : Node) : Type 0 where
  pub u0_size : length ((x.config).uuid).u0 ≡ 16
  pub u1_size : length ((x.config).uuid).u1 ≡ 16
  pub publickey_size : length (x.config).publickey ≡ 32
  pub mynonce_size : length (x.pair).mynonce ≡ 8
  pub serial_word : (x.pair).serial < 2 ^ 32

-- The pairing of x with y after the requests, and after the keys.
abbrev pub met : Node → Node → Pairing
met x y = record (x.pair) {
  state = state_publickey_setup;
  has_public_key = 0;
  has_nonce = 0;
  uuid = (y.config).uuid;
}

abbrev pub keyed : Crypto → PairState → Node → Node → Pairing
keyed k s x y = record (met x y) {
  state = s;
  has_public_key = 1;
  publickey = (y.config).publickey;
  sharedkey = k.curve25519_donna (x.config).privatekey (y.config).publickey;
}

-- A machine with a pairing, and with nothing in its inbox.
abbrev pub holding : Node → Pairing → Node
holding x p = record x { pair = p; inbox = record (x.inbox) { length = 0 } }

-- A reply of x to y.
abbrev pub reply : Dice → Command → ℕ → Node → Node → ChatPacket
reply d c flags x y = record (chat_packet_init0 d) {
  cmd = c;
  flags = flags;
  to = (y.config).uuid;
  from = (x.config).uuid;
}

-- The pairing that knows the nonce of y, and the one that is done.
abbrev pub told : Crypto → PairState → Node → Node → Pairing
told k s x y = record (keyed k s x y) { has_nonce = 1; nonce = (y.pair).mynonce }

abbrev pub paired_nodes : Crypto → Node → Node → Pairing
paired_nodes k x y = told k state_paired x y

-- A machine that has saved its new pairing.
abbrev pub saved_node : Node → Pairing → Node
saved_node x p = record (holding x p) {
  config = record (x.config) { has_pairs = 1 };
  files = record (x.files) {
    pair_file = if (x.files).pair_opens then bytes (pair_calls p) else (x.files).pair_file;
  };
}

-- The packet that opens the pairing, with the contents of any packet besides.
unfoldable pub first : ChatPacket → Node → Node → Flight
first cp x y = record {
  type = command_packet;
  sent = record cp { cmd = cmd_pair_request; from = (x.config).uuid };
  pair = x.pair;
  receiver = fresh y;
  sender = fresh x;
}

module _ (k : Crypto) (d : Dice) (x y : Node) where
  unfoldable pub requested : Flight
  requested = record {
    type = command_packet;
    sent = reply d cmd_pair_request_ack 0 y x;
    pair = met y x;
    receiver = fresh x;
    sender = holding y (met y x);
  }

  unfoldable pub acknowledged : Flight
  acknowledged = record {
    type = command_packet;
    sent = reply d cmd_publickey_request 0 x y;
    pair = met x y;
    receiver = holding y (met y x);
    sender = holding x (met x y);
  }

  unfoldable pub key_of_y : Flight
  key_of_y = record {
    type = publickey_packet;
    sent = record (reply d cmd_publickey_send 0 y x) { publickey = (y.config).publickey };
    pair = met y x;
    receiver = holding x (met x y);
    sender = holding y (met y x);
  }

  unfoldable pub key_of_x : Flight
  key_of_x = record {
    type = publickey_packet;
    sent = record (reply d cmd_publickey_send 1 x y) { publickey = (x.config).publickey };
    pair = keyed k state_publickey_setup x y;
    receiver = holding y (met y x);
    sender = holding x (keyed k state_publickey_setup x y);
  }

  unfoldable pub keys_known : Flight
  keys_known = record {
    type = command_packet;
    sent = reply d cmd_publickey_ack 1 y x;
    pair = keyed k state_nonce_setup y x;
    receiver = holding x (keyed k state_publickey_setup x y);
    sender = holding y (keyed k state_nonce_setup y x);
  }

  unfoldable pub nonce_wanted : Flight
  nonce_wanted = record {
    type = command_packet;
    sent = reply d cmd_nonce_request 3 x y;
    pair = keyed k state_nonce_setup x y;
    receiver = holding y (keyed k state_nonce_setup y x);
    sender = holding x (keyed k state_nonce_setup x y);
  }

  unfoldable pub nonce_of_y : Flight
  nonce_of_y = record {
    type = nonce_packet;
    sent = record (reply d cmd_nonce_send 0 y x) { nonce = (y.pair).mynonce };
    pair = keyed k state_nonce_setup y x;
    receiver = holding x (keyed k state_nonce_setup x y);
    sender = holding y (keyed k state_nonce_setup y x);
  }

  unfoldable pub nonce_of_x : Flight
  nonce_of_x = record {
    type = nonce_packet;
    sent = record (reply d cmd_nonce_send 1 x y) { nonce = (x.pair).mynonce };
    pair = told k state_nonce_setup x y;
    receiver = holding y (keyed k state_nonce_setup y x);
    sender = holding x (told k state_nonce_setup x y);
  }

  unfoldable pub nonces_known : Flight
  nonces_known = record {
    type = command_packet;
    sent = reply d cmd_nonce_ack 0 y x;
    pair = paired_nodes k y x;
    receiver = holding x (told k state_nonce_setup x y);
    sender = saved_node y (paired_nodes k y x);
  }
