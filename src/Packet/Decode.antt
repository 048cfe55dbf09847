-- ===== src/Packet/Decode.antt =====
-- `chatPacket_decode` of src/dpdChatPacket/dpdChatPacket.c, in the build with HAVE_LOCAL_CRYPTO and
-- without ESP8266. The buffer is the whole object that `b` points to, and `len` what the caller
-- passes, as the unsigned number that `i<len` compares with. Allocation is taken to succeed. An
-- object is smaller than 2^32 bytes, so the index wraps only where it moves by more than was read.
pub mod Locals
pub mod Cases
pub mod Fields
pub mod Header
pub mod Opened
pub mod Padding
pub mod Envelope
pub mod Stuck
pub mod Contents
pub mod Controls
pub mod Payload
pub mod Parts
pub mod Data
use dpd_chat_fabric.Prelude.{
  ℕ, zero, suc, ◌+◌, ◌-◌, ◌*◌, ◌/◌, ◌%◌, ◌^◌, ◌≡◌, Bool, true, false, ◌&&◌, Option, none, some,
  List, [], ◌∷◌, ◌++◌, length, replicate, get_elem?, get_or, set, Outcome, ok, fault, no_fuel,
  ◌>>=◌, read, write, calloc, read_word, u32, sub32, ltb, ◌==◌, if◌then◌else◌, bit_or,
}
use dpd_chat_fabric.Types.Tags.{
  PacketTag, packet_tag, cptag_payload_length, cptag_payload_random_padding_length,
  cptag_payload_random_padding_high, cptag_payload_random_padding_low, cptag_action,
  cptag_action_control, cptag_action_type, cptag_action_value, cptag_action_length,
  cptag_action_data, cptag_app_controls, cptag_app_control_i, cptag_app_control_type,
  cptag_app_control_value, cptag_app_control_range_low, cptag_app_control_range_high,
  cptag_app_control_label_length, cptag_app_control_label, cptag_app_control_data, cptag_payload,
  cptag_envelope_random_padding_length, cptag_envelope_random_padding_high,
  cptag_envelope_random_padding_low, cptag_nonce, cptag_cmd, cptag_serial, cptag_flags, cptag_to0,
  cptag_to1, cptag_from0, cptag_from1, cptag_publickey, cptag_envelope_length,
  cptag_encrypted_envelope, cptag_envelope, cptag_encrypted_payload,
}
use dpd_chat_fabric.Types.Commands.{command}
use dpd_chat_fabric.Types.Structs.{
  ChatPacket, Control, Pairing, publickey_bytes, mac_bytes, nonce_bytes, seal_bytes,
}
use dpd_chat_fabric.Crypto.{Crypto}
use dpd_chat_fabric.Packet.Nonce.{calc_nonce}
use dpd_chat_fabric.Packet.Encode.{high_nibble, low_nibble}
unfoldable pub use Locals.*
unfoldable pub use Cases.*

-- The loop `while (i<len)`. One number bounds the rounds and the depth of the nested calls.
unfoldable pub decode_loop : DecodeEnv → ℕ → List ℕ → ℕ → Cursor → Outcome Decoded
decode_loop env zero b len s = no_fuel
decode_loop env (suc fuel) b len s = elim (ltb s.i len) [
  | false ↦ ok (record { cp = s.cp; accepted = true })
  | true ↦ do
    c ← read b s.i 1
    r ←
        decode_header_tag env (λ d n cp. decode_loop env fuel d n (start cp)) b
          (packet_tag (get_or c 0 0)) (record s { i = s.i + 1 })
    elim r [ next s' ↦ decode_loop env fuel b len s' | return d ↦ ok d ]
]

unfoldable pub chat_packet_decode : DecodeEnv → ℕ → ChatPacket → List ℕ → ℕ → Outcome Decoded
unfolding decode_loop
chat_packet_decode env fuel cp b len = decode_loop env fuel b len (start cp)
