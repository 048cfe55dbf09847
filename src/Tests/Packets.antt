-- ===== src/Tests/Packets.antt =====
-- The theorems on packets at a sample packet.
use dpd_chat_fabric.Prelude.{
  ℕ, ◌+◌, ◌≡◌, ◌≢◌, refl, ◌<◌, ◌^◌, ◌-◌, true, false, List, [], ◌∷◌, ◌++◌, length, replicate, ok,
  arith, u32, be32, of_be32, read, write,
}
use dpd_chat_fabric.Types.Commands.{
  nonce_packet, command_number, command_packet, publickey_packet, data_packet,
}
use dpd_chat_fabric.TagEncoder.{Call, int32, data8, perform_all}
use dpd_chat_fabric.TagEncoder.Fill.{bytes, calls_size, AllReadable, perform_all_fill}
use dpd_chat_fabric.Packet.Nonce.{calc_nonce}
use dpd_chat_fabric.Packet.Nonce.Laws.{calc_nonce-ne}
use dpd_chat_fabric.Packet.Encode.{
  payload_size, payload_calls, control_calls, controls_calls, action_calls, visited_controls,
  header_calls, content_calls, chat_packet_encode,
}
use dpd_chat_fabric.Packet.Encode.Payload.{IsEncodable, payload_size-payload_calls}
use dpd_chat_fabric.Packet.Encode.Message.{IsAddressed}
use dpd_chat_fabric.Packet.Encode.Sealed.{
  data_part, encode_data, HasEnvelope, nonce_part, encode_nonce,
}
use dpd_chat_fabric.Packet.Decode.Header.{
  transmit, with_header, IsSendable, decode-encode_command, decode-encode_publickey,
}
use dpd_chat_fabric.Tests.Data.{
  open_crypto, open_crypto-CryptoLaws, lamp, packet, pairing, decode_env,
}

abbrev two_calls : List Call
two_calls = int32 1 7 ∷ data8 2 (5 ∷ 6 ∷ []) 2 ∷ []

perform_all_fill_example :
    perform_all two_calls (replicate 10 0) 0
    ≡ ok (bytes two_calls ++ replicate (10 - length (bytes two_calls)) 0, length (bytes two_calls))
unfolding bytes be32
perform_all_fill_example = perform_all_fill two_calls 10 (omega arith) (tt, (omega arith, tt))

packet-IsAddressed : IsAddressed packet
packet-IsAddressed = record { to0 = refl; to1 = refl; from0 = refl; from1 = refl }

packet-IsSendable : IsSendable packet
unfolding command_number
packet-IsSendable = record {
  uuids_fit = packet-IsAddressed;
  cmd_fits = omega arith;
  serial_fits = omega arith;
  flags_fit = omega arith;
}

packet-IsEncodable : IsEncodable packet (lamp ∷ [])
unfolding payload_calls control_calls controls_calls action_calls
packet-IsEncodable = record {
  padding_split = refl;
  padding_fits = refl;
  action_fits = omega arith;
  payload_fits = omega arith;
  controls_fit = (record { label_fits = omega arith; data_fits = refl }, tt);
  small = omega arith;
}

payload_size-payload_calls_example :
    (calls_size (payload_calls packet (lamp ∷ []) true) ≡ payload_size packet (lamp ∷ []))
    × AllReadable (payload_calls packet (lamp ∷ []) true)
payload_size-payload_calls_example =
    payload_size-payload_calls packet (lamp ∷ []) packet-IsEncodable

decode-encode_command_example :
    transmit decode_env open_crypto 8 packet pairing true command_packet packet
    ≡ ok (record { cp = with_header packet packet; accepted = true })
decode-encode_command_example =
    decode-encode_command decode_env open_crypto packet packet pairing true 8 packet-IsSendable
      (omega arith)

decode-encode_publickey_example :
    transmit decode_env open_crypto 9 packet pairing false publickey_packet packet
    ≡ ok (record {
      cp = record (with_header packet packet) { publickey = packet.publickey };
      accepted = true;
    })
decode-encode_publickey_example =
    decode-encode_publickey decode_env open_crypto packet packet pairing false 9 packet-IsSendable
      refl (omega arith)

-- The nonce for the serial 42, from the four bytes 0x000001FF.
abbrev session : List ℕ
session = 1 ∷ 2 ∷ 3 ∷ 4 ∷ 0 ∷ 0 ∷ 2 ∷ 41 ∷ []

packet_session : calc_nonce (u32 (pairing.serial + 1)) pairing.nonce ≡ ok session
unfolding calc_nonce read write be32 of_be32
packet_session = refl

packet_controls : visited_controls packet ≡ ok (lamp ∷ [])
unfolding visited_controls read
packet_controls = refl

packet_small : length (bytes (payload_calls packet (lamp ∷ []) true)) + 105 < 2 ^ 32
unfolding bytes payload_calls control_calls controls_calls action_calls be32
packet_small = omega arith

encode_data_example :
    chat_packet_encode open_crypto packet pairing true data_packet
    ≡ ok (record {
      cp = record packet { serial = u32 (pairing.serial + 1) };
      pair = record pairing { serial = u32 (pairing.serial + 1) };
      msg = bytes (
          header_calls (record packet { serial = u32 (pairing.serial + 1) })
          ++ content_calls
              (data_part open_crypto packet pairing (lamp ∷ []) session)
              data_packet
              true);
      payload_warned = false;
      message_warned = false;
    })
encode_data_example =
    encode_data open_crypto packet pairing (lamp ∷ []) session open_crypto-CryptoLaws
      packet-IsAddressed packet-IsEncodable packet_controls packet_session packet_small

calc_nonce-ne_example :
    calc_nonce 7 (1 ∷ 2 ∷ 3 ∷ 4 ∷ 255 ∷ 255 ∷ 255 ∷ 255 ∷ [])
    ≢ calc_nonce 8 (1 ∷ 2 ∷ 3 ∷ 4 ∷ 255 ∷ 255 ∷ 255 ∷ 255 ∷ [])
calc_nonce-ne_example =
    calc_nonce-ne 7 8 1 2 3 4 255 255 255 255 (omega arith) (omega arith) (omega arith)
      (omega arith) (omega arith) (omega arith) (omega arith)

packet-HasEnvelope : HasEnvelope (record packet { envelope_random_padding_length = 0x88 }) pairing
packet-HasEnvelope = record {
  mynonce_size = refl;
  envelope_padding_fits = refl;
  envelope_padding_split = refl;
}

encode_nonce_example :
    chat_packet_encode open_crypto
      (record packet { envelope_random_padding_length = 0x88 })
      pairing
      true
      nonce_packet
    ≡ ok (record {
      cp = record packet { envelope_random_padding_length = 0x88; envelope_length = 45 };
      pair = pairing;
      msg = bytes (
          header_calls (record packet { envelope_random_padding_length = 0x88 })
          ++ content_calls
              (nonce_part open_crypto
                (record packet { envelope_random_padding_length = 0x88 })
                pairing)
              nonce_packet
              true);
      payload_warned = false;
      message_warned = false;
    })
encode_nonce_example =
    encode_nonce open_crypto (record packet { envelope_random_padding_length = 0x88 }) pairing
      open_crypto-CryptoLaws (record { to0 = refl; to1 = refl; from0 = refl; from1 = refl })
      packet-HasEnvelope
