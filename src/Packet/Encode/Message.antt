-- ===== src/Packet/Encode/Message.antt =====
-- What `chatPacket_encode` writes for each kind of packet that goes out without a warning
-- (src/dpdChatPacket/dpdChatPacket.c).
use dpd_chat_fabric.Prelude.{
  ◌+◌, ◌≡◌, refl, sym, ◌∙◌, Bool, false, List, [], ◌++◌, length, ok, ==_refl, arith,
}
use dpd_chat_fabric.Types.Commands.{PacketType, command_packet, publickey_packet}
use dpd_chat_fabric.Types.Structs.{ChatPacket, Pairing}
use dpd_chat_fabric.Crypto.{Crypto}
use dpd_chat_fabric.TagEncoder.{Call}
use dpd_chat_fabric.TagEncoder.Fill.{
  AllReadable, calls_size, bytes, perform_all_exact, length-bytes,
}
use dpd_chat_fabric.Packet.Encode.{
  Part, header_calls, content_calls, message_size, encode_message, encode_part, chat_packet_encode,
  bare,
}

-- The four uuids of a packet have 16 bytes.
pub record IsAddressed (cp : ChatPacket) : Type 0 where
  pub to0 : length (cp.to).u0 ≡ 16
  pub to1 : length (cp.to).u1 ≡ 16
  pub from0 : length (cp.from).u0 ≡ 16
  pub from1 : length (cp.from).u1 ≡ 16

header_readable :
    (cp : ChatPacket) (ds : List Call)
    → IsAddressed cp
    → AllReadable ds
    → AllReadable (header_calls cp ++ ds)
      × (calls_size (header_calls cp ++ ds) ≡ 83 + calls_size ds)
unfolding header_calls
header_readable cp ds a r = (
  (
    tt,
    (
      tt,
      (
        tt,
        (
          omega (arith, a.to0),
          (omega (arith, a.to1), (omega (arith, a.from0), (omega (arith, a.from1), r))),
        ),
      ),
    ),
  ),
  omega arith,
)

-- A header and calls that fit are 83 bytes more than the calls.
pub length-header_bytes :
    (cp : ChatPacket) (ds : List Call)
    → IsAddressed cp
    → AllReadable ds
    → length (bytes (header_calls cp ++ ds)) ≡ 83 + calls_size ds
length-header_bytes cp ds a r =
    let h = header_readable cp ds a r in length-bytes (header_calls cp ++ ds) h.0 ∙ h.1

-- The fill of a message whose length is announced correctly.
pub encode_message_lem :
    (p : Part) (type : PacketType) (encrypted : Bool)
    → IsAddressed p.cp
    → AllReadable (content_calls p type encrypted)
    → message_size p type encrypted ≡ 83 + calls_size (content_calls p type encrypted)
    → encode_message p type encrypted
      ≡ ok (record {
        cp = p.cp;
        pair = p.pair;
        msg = bytes (header_calls p.cp ++ content_calls p type encrypted);
        payload_warned = p.warned;
        message_warned = false;
      })
unfolding encode_message
encode_message_lem p type encrypted a r e =
    let h = header_readable p.cp _ a r in
    rw
      (
        perform_all_exact (header_calls p.cp ++ content_calls p type encrypted)
            (message_size p type encrypted) (h.1 ∙ sym e) h.0,
        ==_refl (message_size p type encrypted),
      )
      refl

-- A COMMAND packet with four uuids is the header and nothing else, in a buffer that it fills, whether
-- or not encryption is asked for.
pub encode_command :
    (c : Crypto) (cp : ChatPacket) (pair : Pairing) (encrypted : Bool)
    → IsAddressed cp
    → chat_packet_encode c cp pair encrypted command_packet
      ≡ ok (record {
        cp = cp;
        pair = pair;
        msg = bytes (header_calls cp ++ []);
        payload_warned = false;
        message_warned = false;
      })
unfolding chat_packet_encode encode_part message_size content_calls
encode_command c cp pair encrypted a =
    encode_message_lem (bare cp pair) command_packet encrypted a tt refl

-- A PUBLICKEY packet with four uuids and a key of 32 bytes: the header, then the key under its tag,
-- in a buffer that it fills.
pub encode_publickey :
    (c : Crypto) (cp : ChatPacket) (pair : Pairing) (encrypted : Bool)
    → IsAddressed cp
    → length cp.publickey ≡ 32
    → chat_packet_encode c cp pair encrypted publickey_packet
      ≡ ok (record {
        cp = cp;
        pair = pair;
        msg = bytes (header_calls cp ++ content_calls (bare cp pair) publickey_packet encrypted);
        payload_warned = false;
        message_warned = false;
      })
unfolding chat_packet_encode encode_part message_size content_calls
encode_publickey c cp pair encrypted a k =
    encode_message_lem (bare cp pair) publickey_packet encrypted a (omega (arith, k), tt) refl
