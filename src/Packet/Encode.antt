-- ===== src/Packet/Encode.antt =====
-- `chatPacket_encode` of src/dpdChatPacket/dpdChatPacket.c, in the build with HAVE_LOCAL_CRYPTO and
-- without ESP8266. Allocation is taken to succeed. The lengths are `uint32_t` sums, whose wrap-around
-- is written once, on the whole sum.
pub mod Calls
pub mod Payload
pub mod Message
pub mod Sealed
use dpd_chat_fabric.Prelude.{
  ℕ, ◌+◌, ◌*◌, ◌/◌, ◌%◌, ◌≡◌, Bool, true, false, ◌&&◌, Option, none, some, List, [], ◌∷◌, ◌++◌,
  length, take, drop, replicate, Outcome, ok, fault, no_fuel, ◌>>=◌, read, write, u32, ltb,
  positive32, ◌==◌, if◌then◌else◌, not,
}
use dpd_chat_fabric.Types.Tags.{
  packet_tag_byte, cptag_payload_length, cptag_payload_random_padding_length,
  cptag_payload_random_padding_high, cptag_payload_random_padding_low, cptag_action,
  cptag_action_control, cptag_action_type, cptag_action_value, cptag_action_length,
  cptag_action_data, cptag_app_controls, cptag_app_control_i, cptag_app_control_type,
  cptag_app_control_value, cptag_app_control_range_low, cptag_app_control_range_high,
  cptag_app_control_label_length, cptag_app_control_label, cptag_app_control_data, cptag_payload,
  cptag_envelope_random_padding_length, cptag_envelope_random_padding_high,
  cptag_envelope_random_padding_low, cptag_nonce, cptag_cmd, cptag_serial, cptag_flags, cptag_to0,
  cptag_to1, cptag_from0, cptag_from1, cptag_publickey, cptag_envelope_length,
  cptag_encrypted_envelope, cptag_envelope, cptag_encrypted_payload,
}
use dpd_chat_fabric.Types.Commands.{
  command_number, PacketType, command_packet, publickey_packet, nonce_packet, data_packet,
  action_type_data,
}
use dpd_chat_fabric.Types.Structs.{
  ChatPacket, Control, Pairing, publickey_bytes, mac_bytes, nonce_bytes, seal_bytes,
}
use dpd_chat_fabric.Crypto.{Crypto}
use dpd_chat_fabric.TagEncoder.{Call, int32, data8, uuid, perform_all}
use dpd_chat_fabric.Packet.Nonce.{calc_nonce}
unfoldable pub use Calls.*

-- The controls that the loops visit: `controlers[0]` to `controlers[numOfControllers - 1]`.
unfoldable pub visited_controls : ChatPacket → Outcome (List Control)
visited_controls cp =
    if positive32 cp.num_of_controllers then read cp.controlers 0 cp.num_of_controllers else ok []

-- The buffer with the cipher text of `plain`, and behind it the MAC of the cipher text.
unfoldable pub seal : Crypto → List ℕ → List ℕ → List ℕ → Outcome (List ℕ)
seal c key nonce plain = do
  copied ← write (replicate (u32 (length plain + mac_bytes)) 0) 0 plain
  crypted ← write copied 0 (c.s20_crypt key nonce (take (length plain) copied))
  write crypted (length plain) (c.poly1305_auth (take (length plain) crypted) key)

-- What the first half of the function hands to the second: the packet and the pairing as they are
-- then, the payload or envelope, the length that is announced for it, and whether its warning was
-- printed.
pub record Part : Type 0 where
  pub cp : ChatPacket
  pub pair : Pairing
  pub content : List ℕ
  pub announced : ℕ
  pub warned : Bool

-- The payload of a DATA packet. With encryption the serial of the pairing moves on first.
unfoldable pub encode_payload : Crypto → ChatPacket → Pairing → Bool → Outcome Part
encode_payload c cp pair encrypted = do
  controls ← visited_controls cp
  (payload, i) ←
      perform_all (payload_calls cp controls encrypted) (replicate (payload_size cp controls) 0) 0
  let warned = not (i == payload_size cp controls)
  let pair' = record pair { serial = u32 (pair.serial + 1) }
  let cp' = record cp { serial = pair'.serial }
  if encrypted
      then (do
        session ← calc_nonce cp'.serial pair.nonce
        sealed ← seal c pair.sharedkey session payload
        ok (record {
          cp = cp';
          pair = pair';
          content = sealed;
          announced = u32 (length payload + mac_bytes);
          warned = warned;
        }))
      else ok (record {
        cp = cp;
        pair = pair;
        content = payload;
        announced = cp.payload_length;
        warned = warned;
      })

-- The calls and the length of the plain envelope of a NONCE packet.
unfoldable pub envelope_calls : ChatPacket → Pairing → List Call
unfolding packet_tag_byte
envelope_calls cp pair =
    let h = high_nibble cp.envelope_random_padding_length in
    data8 (packet_tag_byte cptag_envelope_random_padding_length)
      (cp.envelope_random_padding_length ∷ []) 1
    ∷ data8 (packet_tag_byte cptag_envelope_random_padding_high) cp.envelope_random_padding h
    ∷ data8 (packet_tag_byte cptag_nonce) pair.mynonce nonce_bytes
    ∷ data8 (packet_tag_byte cptag_envelope_random_padding_low) (drop h cp.envelope_random_padding)
        (low_nibble cp.envelope_random_padding_length)
    ∷ []

abbrev pub envelope_size : ℕ
envelope_size = 2 + 17 + (1 + nonce_bytes) + 1

unfoldable pub encode_envelope : Crypto → ChatPacket → Pairing → Bool → Outcome Part
encode_envelope c cp pair encrypted = do
  (envelope, i) ← perform_all (envelope_calls cp pair) (replicate envelope_size 0) 0
  content ← (if encrypted then seal c pair.sharedkey pair.nullnonce envelope else ok envelope)
  let size = if encrypted then envelope_size + seal_bytes else envelope_size
  ok (record {
    cp = record cp { envelope_length = size };
    pair = pair;
    content = content;
    announced = size;
    warned = false;
  })

-- The calls for the fields that every packet has.
unfoldable pub header_calls : ChatPacket → List Call
unfolding packet_tag_byte
header_calls cp =
    int32 (packet_tag_byte cptag_cmd) (command_number cp.cmd)
    ∷ int32 (packet_tag_byte cptag_serial) cp.serial
    ∷ int32 (packet_tag_byte cptag_flags) cp.flags
    ∷ uuid (packet_tag_byte cptag_to0) cp.to.u0
    ∷ uuid (packet_tag_byte cptag_to1) cp.to.u1
    ∷ uuid (packet_tag_byte cptag_from0) cp.from.u0
    ∷ uuid (packet_tag_byte cptag_from1) cp.from.u1
    ∷ []

-- The calls behind the header.
unfoldable pub content_calls : Part → PacketType → Bool → List Call
unfolding packet_tag_byte
content_calls p command_packet encrypted = []
content_calls p publickey_packet encrypted =
    data8 (packet_tag_byte cptag_publickey) p.cp.publickey publickey_bytes ∷ []
content_calls p nonce_packet encrypted =
    int32 (packet_tag_byte cptag_envelope_length) p.announced
    ∷ data8
        (if encrypted
          then packet_tag_byte cptag_encrypted_envelope
          else packet_tag_byte cptag_envelope)
        p.content (length p.content)
    ∷ []
content_calls p data_packet encrypted =
    int32 (packet_tag_byte cptag_payload_length) p.announced
    ∷ data8 (packet_tag_byte cptag_encrypted_payload) p.content (length p.content)
    ∷ []

-- `ob_length`: the header, and what each kind of packet adds.
unfoldable pub message_size : Part → PacketType → Bool → ℕ
message_size p command_packet encrypted = 83
message_size p publickey_packet encrypted = u32 (83 + publickey_bytes + 1)
message_size p nonce_packet encrypted =
    u32 (83 + (if encrypted then length p.content + 1 + 1 + 4 else length p.content + 1 + 4))
message_size p data_packet encrypted =
    u32 (83 + (if encrypted then length p.content + 1 + 4 + 1 else length p.content))

-- What a call of the function leaves behind.
pub record Encoded : Type 0 where
  pub cp : ChatPacket
  pub pair : Pairing
  pub msg : List ℕ
  pub payload_warned : Bool
  pub message_warned : Bool

unfoldable pub encode_message : Part → PacketType → Bool → Outcome Encoded
encode_message p type encrypted = do
  (msg, i) ←
      perform_all (header_calls p.cp ++ content_calls p type encrypted)
        (replicate (message_size p type encrypted) 0) 0
  ok (record {
    cp = p.cp;
    pair = p.pair;
    msg = msg;
    payload_warned = p.warned;
    message_warned = not (i == message_size p type encrypted);
  })

abbrev pub bare : ChatPacket → Pairing → Part
bare cp pair = record { cp = cp; pair = pair; content = []; announced = 0; warned = false }

-- The first half by the kind of packet.
unfoldable pub encode_part : Crypto → ChatPacket → Pairing → Bool → PacketType → Outcome Part
encode_part c cp pair encrypted data_packet = encode_payload c cp pair encrypted
encode_part c cp pair encrypted nonce_packet = encode_envelope c cp pair encrypted
encode_part c cp pair encrypted _ = ok (bare cp pair)

unfoldable pub chat_packet_encode :
    Crypto → ChatPacket → Pairing → Bool → PacketType → Outcome Encoded
unfolding encode_part encode_message
chat_packet_encode c cp pair encrypted type = do
  part ← encode_part c cp pair encrypted type
  encode_message part type encrypted
