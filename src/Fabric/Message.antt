-- ===== src/Fabric/Message.antt =====
-- Encrypted DATA packets that a device serves (src/dpdChatPacket/dpdChatPacket.c,
-- src/dpdChatFabric/dpdChatFabric.c): the payload reaches the buffer of the user.
use dpd_chat_fabric.Prelude.{
  ℕ, ◌+◌, ◌*◌, ◌≤◌, ◌≡◌, refl, sym, ap, ◌∙◌, true, List, [], length, length-take, take, ok, ◌>>=◌,
  read_at, write, write_over, append-nil, calloc, length-calloc, arith, ltb, ◌==◌, if◌then◌else◌,
  Bool-cases, inl, inr,
}
use dpd_chat_fabric.Types.Commands.{data_packet}
use dpd_chat_fabric.Types.Structs.{ChatPacket, Control, Pairing}
use dpd_chat_fabric.Crypto.{CryptoLaws}
use dpd_chat_fabric.Packet.Init.{Dice, chat_packet_init0}
use dpd_chat_fabric.Packet.Encode.{chat_packet_encode}
use dpd_chat_fabric.Packet.Decode.{DecodeEnv}
use dpd_chat_fabric.Packet.Decode.Data.{IsData, data_message, with_data, decode_data, encode_sent}
use dpd_chat_fabric.Fabric.Connection.{buffersize}
use dpd_chat_fabric.Fabric.Serve.{
  MsgBuffer, Host, Node, fill_inbox, respond, handle, decoded, serve,
}
use dpd_chat_fabric.Fabric.Wire.{in_buffer}

-- The user's buffer with a payload and an action.
abbrev pub delivered : ChatPacket → MsgBuffer → MsgBuffer
delivered sent b =
    let k = sent.payload_length in
    let silent = sent.action == 0 in
    record b {
      length = k;
      msg = if ltb 0 k then take k sent.payload else b.msg;
      action = if silent then b.action else sent.action;
      action_control = if silent then b.action_control else sent.action_control;
      action_type = if silent then b.action_type else sent.action_type;
      action_value = if silent then b.action_value else sent.action_value;
      action_length = if silent then b.action_length else 0;
    }

write_whole : (x : List ℕ) (k : ℕ) → k ≡ length x → write (calloc k) 0 x ≡ ok x
write_whole x k e =
    ap (λ b. write b 0 x) (sym (append-nil (calloc k)))
    ∙ (write_over [] (calloc k) x [] 0 refl (omega (arith, length-calloc k)) ∙ ap ok (append-nil x))

fill_inbox-with_data :
    (d : Dice) (fresh : Control) (controls : List Control) (sent : ChatPacket) (pair : Pairing)
    (b : MsgBuffer)
    → sent.payload_length ≤ length sent.payload
    → fill_inbox (with_data fresh controls sent pair (chat_packet_init0 d)) b
      ≡ ok (delivered sent b)
unfolding fill_inbox chat_packet_init0
fill_inbox-with_data d fresh controls sent pair b fits =
    let k = sent.payload_length in
    let x : List ℕ = take k sent.payload in
    let size : k ≡ length x = sym (length-take k sent.payload fits) in
    elim (Bool-cases (ltb 0 k)) [
      | inl e ↦ elim (Bool-cases (sent.action == 0)) [
        | inl a ↦ rw (e, read_at [] x _ 0 k refl size, write_whole x k size, a) refl
        | inr a ↦ rw (e, read_at [] x _ 0 k refl size, write_whole x k size, a, a) refl
      ]
      | inr e ↦ elim (Bool-cases (sent.action == 0)) [
        | inl a ↦ rw (e, a) refl
        | inr a ↦ rw (e, a, a) refl
      ]
    ]

-- What a host decodes with.
abbrev pub env_of : Host → Node → DecodeEnv
env_of host node = record { crypto = host.crypto; fresh = host.fresh; pair = node.pair }

-- The bytes of an encrypted DATA packet that is not longer than the buffer of the device are served as
-- the machine answers the packet that they carry, and the user's buffer holds the payload and, if there
-- is one, the action. The packet has no data of its action or of its controls, the keys and the nonce
-- agree, and the decoder has twenty-four rounds, and nine for each control.
pub serve-encode_data :
    (host : Host) (d d' : Dice) (sent : ChatPacket) (controls : List Control) (pair : Pairing)
    (session : List ℕ) (node : Node)
    → CryptoLaws host.crypto
    → 24 + 9 * length controls ≤ host.rounds
    → IsData (env_of host node) sent (chat_packet_init0 d) controls pair session
    → length (data_message host.crypto sent controls pair session) ≤ buffersize
    → (chat_packet_encode host.crypto sent pair true data_packet >>= λ out.
        serve host d d' out.msg node)
      ≡ respond host d'
          (with_data host.fresh controls sent pair (chat_packet_init0 d))
          (record node { inbox = delivered sent node.inbox })
unfolding serve handle decoded
serve-encode_data host d d' sent controls pair session node laws rounds w fits =
    rw
      (
        encode_sent (env_of host node) sent (chat_packet_init0 d) controls pair session laws w,
        in_buffer (data_message host.crypto sent controls pair session) fits,
        decode_data (env_of host node) sent (chat_packet_init0 d) controls pair session _
            host.rounds laws w rounds,
        fill_inbox-with_data d host.fresh controls sent pair node.inbox (w.message).payload_fits,
      )
      refl
