-- ===== src/Fabric/Wire.antt =====
-- Packets that one machine encodes and another one serves (src/dpdChatPacket/dpdChatPacket.c,
-- src/dpdChatFabric/dpdChatFabric.c): the bytes between them carry the packet.
use dpd_chat_fabric.Prelude.{
  ℕ, ◌-◌, ◌≤◌, ◌≡◌, refl, true, List, [], ◌∷◌, ◌++◌, length, replicate, ok, ◌>>=◌, write, write_at,
  calloc, arith,
}
use dpd_chat_fabric.Types.Commands.{
  PacketType, command_packet, publickey_packet, nonce_packet, data_packet,
}
use dpd_chat_fabric.Types.Structs.{ChatPacket, Pairing, publickey_bytes}
use dpd_chat_fabric.Types.Tags.{packet_tag_byte, cptag_publickey}
use dpd_chat_fabric.Crypto.{Crypto, CryptoLaws}
use dpd_chat_fabric.Packet.Init.{Dice, IsDice, chat_packet_init0}
use dpd_chat_fabric.Packet.Encode.{Encoded, content_calls, chat_packet_encode}
use dpd_chat_fabric.Packet.Encode.Message.{
  encode_command, encode_publickey, length-header_bytes, IsAddressed,
}
use dpd_chat_fabric.Packet.Encode.Sealed.{encode_nonce, length-nonce_bytes}
use dpd_chat_fabric.Packet.Decode.Header.{
  IsSendable, with_header, with_publickey, command_bytes, publickey_bytes_of, decode_command,
  decode_publickey,
}
use dpd_chat_fabric.Packet.Decode.Envelope.{
  IsEnvelope, IsEnvelope-HasEnvelope, with_nonce, nonce_message, decode_nonce,
}
use dpd_chat_fabric.TagEncoder.{Call, data8}
use dpd_chat_fabric.TagEncoder.Fill.{AllReadable}
use dpd_chat_fabric.Fabric.Connection.{buffersize}
use dpd_chat_fabric.Fabric.Serve.{
  MsgBuffer, Host, Node, fill_inbox, respond, handle, decoded, serve,
}

-- The bytes of a packet of the three kinds that are sent while two machines are paired.
abbrev pub wire_bytes : Crypto → PacketType → ChatPacket → Pairing → List ℕ
wire_bytes c command_packet sent pair = command_bytes sent
wire_bytes c publickey_packet sent pair = publickey_bytes_of sent
wire_bytes c nonce_packet sent pair = nonce_message c sent pair
wire_bytes c data_packet sent pair = []

-- What the bytes put into the packet that they are decoded into.
abbrev pub carried : PacketType → ChatPacket → Pairing → ChatPacket → ChatPacket
carried command_packet sent pair cp = with_header sent cp
carried publickey_packet sent pair cp = with_publickey sent cp
carried nonce_packet sent pair cp = with_nonce sent pair cp
carried data_packet sent pair cp = cp

-- A packet that survives the wire, as one of the three kinds.
pub data IsSent (sent : ChatPacket) (pair : Pairing) : PacketType → Type 0 where
  command_sent : IsSendable sent → IsSent sent pair command_packet
  publickey_sent : IsSendable sent → length sent.publickey ≡ 32 → IsSent sent pair publickey_packet
  nonce_sent : IsEnvelope sent pair → IsSent sent pair nonce_packet

-- A nonce is read with the shared key and the null nonce that it was sealed with.
abbrev pub AgreesOn : PacketType → Pairing → Pairing → Type 0
AgreesOn nonce_packet p q = (p.sharedkey ≡ q.sharedkey) × (p.nullnonce ≡ q.nullnonce)
AgreesOn _ p q = Unit

pub encode_wire :
    (c : Crypto) (type : PacketType) (sent : ChatPacket) (pair : Pairing)
    → CryptoLaws c
    → IsSent sent pair type
    → (out : Encoded) × ((chat_packet_encode c sent pair true type ≡ ok out)
        × ((out.msg ≡ wire_bytes c type sent pair) × (out.pair ≡ pair)))
encode_wire c command_packet sent pair laws (command_sent w) =
    (_, (encode_command c sent pair true w.uuids_fit, (refl, refl)))
encode_wire c publickey_packet sent pair laws (publickey_sent w k) =
    (_, (encode_publickey c sent pair true w.uuids_fit k, (unfold content_calls in refl, refl)))
encode_wire c nonce_packet sent pair laws (nonce_sent w) = (
  _,
  (
    encode_nonce c sent pair laws (w.sendable).uuids_fit (IsEnvelope-HasEnvelope sent pair w),
    (refl, refl),
  ),
)
encode_wire c data_packet sent pair laws s = elim s [ ]

-- A message that fits the buffer stands at its front.
pub in_buffer :
    (x : List ℕ)
    → length x ≤ buffersize
    → write (calloc buffersize) 0 x ≡ ok (x ++ replicate (buffersize - length x) 0)
unfolding calloc
in_buffer x h = write_at [] x 0 0 buffersize refl h

length-publickey_bytes :
    (sent : ChatPacket)
    → length sent.publickey ≡ 32
    → IsAddressed sent
    → length (publickey_bytes_of sent) ≤ buffersize
length-publickey_bytes sent k a =
    let cs : List Call =
      data8 (packet_tag_byte cptag_publickey) sent.publickey publickey_bytes ∷ [] in
    let fits : AllReadable cs = (omega (arith, k), tt) in
    omega (arith, length-header_bytes sent cs a fits)

length-wire_bytes :
    (c : Crypto) (type : PacketType) (sent : ChatPacket) (pair : Pairing)
    → CryptoLaws c
    → IsSent sent pair type
    → length (wire_bytes c type sent pair) ≤ buffersize
unfolding content_calls
length-wire_bytes c command_packet sent pair laws (command_sent w) =
    omega (arith, length-header_bytes sent [] w.uuids_fit tt)
length-wire_bytes c publickey_packet sent pair laws (publickey_sent w k) =
    length-publickey_bytes sent k w.uuids_fit
length-wire_bytes c nonce_packet sent pair laws (nonce_sent w) = omega (
  arith,
  length-nonce_bytes c sent pair laws (w.sendable).uuids_fit (IsEnvelope-HasEnvelope sent pair w),
)
length-wire_bytes c data_packet sent pair laws s = elim s [ ]

-- The buffer of a device holds the packet that was sent.
decoded-wire_bytes :
    (host : Host) (d : Dice) (type : PacketType) (sent : ChatPacket) (pair : Pairing) (node : Node)
    → CryptoLaws host.crypto
    → IsDice d
    → 14 ≤ host.rounds
    → IsSent sent pair type
    → AgreesOn type node.pair pair
    → decoded host d (wire_bytes host.crypto type sent pair) node
      ≡ ok (record { cp = carried type sent pair (chat_packet_init0 d); accepted = true })
unfolding decoded chat_packet_init0
decoded-wire_bytes host d command_packet sent pair node laws dice enough (command_sent w) agrees =
    rw
      (in_buffer (command_bytes sent)
        (length-wire_bytes host.crypto _ sent pair laws (command_sent w)))
      (decode_command _ sent (chat_packet_init0 d) _ host.rounds w (omega arith))
decoded-wire_bytes host d publickey_packet sent pair node laws dice enough (publickey_sent w k)
      agrees =
    rw
      (in_buffer (publickey_bytes_of sent)
        (length-wire_bytes host.crypto _ sent pair laws (publickey_sent w k)))
      (decode_publickey _ sent (chat_packet_init0 d) _ host.rounds w k (omega arith))
decoded-wire_bytes host d nonce_packet sent pair node laws dice enough (nonce_sent w) agrees =
    rw
      (in_buffer (nonce_message host.crypto sent pair)
        (length-wire_bytes host.crypto _ sent pair laws (nonce_sent w)))
      (decode_nonce _ sent (chat_packet_init0 d) pair _ host.rounds laws w agrees.0 agrees.1
        dice.envelope_fits enough)
decoded-wire_bytes host d data_packet sent pair node laws dice enough s agrees = elim s [ ]

fill_inbox-carried :
    (d : Dice) (type : PacketType) (sent : ChatPacket) (pair : Pairing) (b : MsgBuffer)
    → IsSent sent pair type
    → fill_inbox (carried type sent pair (chat_packet_init0 d)) b ≡ ok (record b { length = 0 })
unfolding fill_inbox chat_packet_init0
fill_inbox-carried d command_packet sent pair b s = refl
fill_inbox-carried d publickey_packet sent pair b s = refl
fill_inbox-carried d nonce_packet sent pair b s = refl
fill_inbox-carried d data_packet sent pair b s = refl

-- The node with an empty inbox.
abbrev pub emptied : Node → Node
emptied node = record node { inbox = record (node.inbox) { length = 0 } }

pub serve-wire_bytes :
    (host : Host) (d d' : Dice) (type : PacketType) (sent : ChatPacket) (pair : Pairing)
    (node : Node)
    → CryptoLaws host.crypto
    → IsDice d
    → 14 ≤ host.rounds
    → IsSent sent pair type
    → AgreesOn type node.pair pair
    → serve host d d' (wire_bytes host.crypto type sent pair) node
      ≡ respond host d' (carried type sent pair (chat_packet_init0 d)) (emptied node)
unfolding serve handle
serve-wire_bytes host d d' type sent pair node laws dice enough s agrees =
    rw
      (
        decoded-wire_bytes host d type sent pair node laws dice enough s agrees,
        fill_inbox-carried d type sent pair node.inbox s,
      )
      refl

-- The bytes of a packet are served as the machine answers the packet itself: what is decoded is a
-- fresh packet with the contents that were sent, and the user's buffer is empty. The packet is of
-- one of the three kinds of a pairing and fits them, the keys agree where it is a nonce, and the
-- decoder has fourteen rounds.
pub serve-encode :
    (host : Host) (d d' : Dice) (type : PacketType) (sent : ChatPacket) (pair : Pairing)
    (node : Node)
    → CryptoLaws host.crypto
    → IsDice d
    → 14 ≤ host.rounds
    → IsSent sent pair type
    → AgreesOn type node.pair pair
    → (chat_packet_encode host.crypto sent pair true type >>= λ out. serve host d d' out.msg node)
      ≡ respond host d' (carried type sent pair (chat_packet_init0 d)) (emptied node)
serve-encode host d d' type sent pair node laws dice enough s agrees =
    let e = encode_wire host.crypto type sent pair laws s in
    rw ((e.1).0, ((e.1).1).0)
      (serve-wire_bytes host d d' type sent pair node laws dice enough s agrees)
