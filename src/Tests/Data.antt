-- ===== src/Tests/Data.antt =====
-- Sample packets, pairings, configurations and machines, and a stand-in for the cryptography.
use dpd_chat_fabric.Prelude.{
  ℕ, ◌+◌, ◌%◌, ◌≡◌, refl, true, some, none, List, [], ◌∷◌, replicate, arith,
}
use dpd_chat_fabric.Types.Commands.{
  cmd_pair_request, state_unconfigured, error_ok, cmd_send_reply_false,
}
use dpd_chat_fabric.Types.Structs.{UuidTuple, Control, ChatPacket, Pairing, Config}
use dpd_chat_fabric.Crypto.{Crypto, CryptoLaws}
use dpd_chat_fabric.Packet.Decode.{DecodeEnv}
use dpd_chat_fabric.StateMachine.{Files, Machine}

-- Keys that are added byte for byte.
unfoldable pub add_keys : List ℕ → List ℕ → List ℕ
add_keys (a ∷ s) (b ∷ t) = ((a + b) % 256) ∷ add_keys s t
add_keys _ _ = []

pub add_keys-add_keys : (s t u : List ℕ) → add_keys s (add_keys t u) ≡ add_keys t (add_keys s u)
unfolding add_keys
add_keys-add_keys [] [] u = refl
add_keys-add_keys [] (b ∷ t) [] = refl
add_keys-add_keys [] (b ∷ t) (c ∷ u) = refl
add_keys-add_keys (a ∷ s) [] [] = refl
add_keys-add_keys (a ∷ s) [] (c ∷ u) = refl
add_keys-add_keys (a ∷ s) (b ∷ t) [] = refl
add_keys-add_keys (a ∷ s) (b ∷ t) (c ∷ u) =
    let e : (a + (b + c) % 256) % 256 ≡ (b + (a + c) % 256) % 256 = omega arith in
    λ i. e i ∷ add_keys-add_keys s t u i

-- No secrets: the text is sent as it is, and every MAC is zero.
abbrev pub open_crypto : Crypto
open_crypto = record {
  s20_crypt = λ k n m. m;
  poly1305_auth = λ m k. replicate 16 0;
  poly1305_verify = λ a b. 1;
  curve25519_donna = add_keys;
}

pub open_crypto-CryptoLaws : CryptoLaws open_crypto
open_crypto-CryptoLaws = record {
  crypt_length = λ k n m. refl;
  crypt_twice = λ k n m. refl;
  auth_length = λ m k. refl;
  verify_same = λ m. refl;
}

abbrev pub uuids : ℕ → UuidTuple
uuids n = record { u0 = replicate 16 n; u1 = replicate 16 (n + 100) }

abbrev pub lamp : Control
lamp = record {
  control = 1;
  type = 1;
  value = 7;
  range_low = 0;
  range_high = 10;
  label_length = 4;
  label = some (108 ∷ 97 ∷ 109 ∷ 112 ∷ []);
  data_bytes = none;
}

abbrev pub packet : ChatPacket
packet = record {
  cmd = cmd_pair_request;
  flags = 5;
  payload_length = 3;
  serial = 9;
  was_encrypted = 0;
  controlers = lamp ∷ [];
  num_of_controllers = 1;
  nonce = replicate 8 0;
  envelope_length = 0;
  envelope_random_padding_length = 0;
  envelope_random_padding = replicate 16 0;
  to = uuids 1;
  from = uuids 2;
  publickey = replicate 32 6;
  payload_random_padding_length = 0x79;
  payload_random_padding = replicate 16 3;
  payload = 1 ∷ 2 ∷ 3 ∷ [];
  action = 1;
  action_control = 2;
  action_type = 3;
  action_value = 4;
  action_length = 2;
  action_data = 8 ∷ 9 ∷ [];
}

abbrev pub pairing : Pairing
pairing = record {
  has_public_key = 0;
  has_nonce = 0;
  serial = 41;
  state = state_unconfigured;
  uuid = uuids 0;
  publickey = replicate 32 0;
  sharedkey = replicate 32 0;
  nullnonce = replicate 8 0;
  nonce = 1 ∷ 2 ∷ 3 ∷ 4 ∷ 0 ∷ 0 ∷ 1 ∷ 255 ∷ [];
  mynonce = replicate 8 5;
}

abbrev pub config : ℕ → Config
config n = record {
  controlers = [];
  num_of_controllers = 0;
  has_pairs = 0;
  uuid = uuids n;
  debug = 1;
  mode = 2;
  hostname = replicate 33 104;
  sta_ipv4 = 3;
  sta_ipv4netmask = 4;
  sta_ipv4gw = 5;
  sta_ipv4ns1 = 6;
  sta_ipv4ns2 = 7;
  ntpv4 = 8;
  sta_ipv6 = replicate 16 1;
  sta_ipv6netmask = replicate 16 2;
  sta_ipv6gw = replicate 16 3;
  sta_ipv6ns1 = replicate 16 0;
  sta_ipv6ns2 = replicate 16 0;
  ntpv6 = replicate 16 0;
  ap_ipv4 = 9;
  ap_ipv4netmask = 10;
  ap_ipv4gw = 11;
  ap_ipv4ns1 = 12;
  ap_ipv4ns2 = 13;
  ap_ipv6 = replicate 16 0;
  ap_ipv6netmask = replicate 16 0;
  ap_ipv6gw = replicate 16 0;
  ap_ipv6ns1 = replicate 16 4;
  ap_ipv6ns2 = replicate 16 5;
  wifi_ap_switch = 1;
  wifi_ap_ssid = replicate 33 97;
  wifi_ap_passwd = replicate 65 98;
  wifi_ap_dhcps_switch = 0;
  dhcps_range_low = 100;
  dhcps_range_high = 200;
  wifi_sta_switch = 1;
  wifi_sta_ssid = replicate 33 99;
  wifi_sta_passwd = replicate 65 100;
  dhcp_client_switch = 1;
  publickey = replicate 32 (n + 9);
  privatekey = replicate 32 n;
}

abbrev pub files : Files
files = record { config_opens = true; pair_opens = true; config_file = []; pair_file = [] }

abbrev pub machine : ℕ → Machine
machine n = record {
  config = config n;
  pair = pairing;
  reply = packet;
  reply_cmd = cmd_send_reply_false;
  error = error_ok;
  files = files;
}

abbrev pub decode_env : DecodeEnv
decode_env = record { crypto = open_crypto; fresh = lamp; pair = pairing }
