-- ===== src/Packet/Encode/Sealed.antt =====
-- What `chatPacket_encode` writes for the encrypted DATA and NONCE packets
-- (src/dpdChatPacket/dpdChatPacket.c).
use dpd_chat_fabric.Prelude.{
  ℕ, ◌+◌, ◌^◌, ◌-◌, ◌<◌, ◌≡◌, refl, sym, ap, ◌∙◌, true, false, List, [], ◌++◌, length, take, drop,
  replicate, length-append, length-drop, ok, write, write_at, u32, le→leb, ==_refl, arith,
  append-nil, take-append, drop-append,
}
use dpd_chat_fabric.Types.Commands.{nonce_packet, data_packet}
use dpd_chat_fabric.Types.Structs.{ChatPacket, Control, Pairing}
use dpd_chat_fabric.Crypto.{Crypto, CryptoLaws}
use dpd_chat_fabric.TagEncoder.Fill.{
  length-bytes, AllReadable, calls_size, bytes, perform_all_exact,
}
use dpd_chat_fabric.Packet.Encode.Payload.{IsEncodable, payload_size-payload_calls}
use dpd_chat_fabric.Packet.Nonce.{calc_nonce}
use dpd_chat_fabric.Packet.Encode.{
  high_nibble, low_nibble, envelope_calls, envelope_size, encode_envelope, seal, Part,
  encode_payload, header_calls, content_calls, message_size, encode_part, chat_packet_encode,
  payload_calls, payload_size, visited_controls,
}
use dpd_chat_fabric.Packet.Encode.Message.{IsAddressed, encode_message_lem, length-header_bytes}

-- The cipher text of a plain text, and its MAC.
abbrev pub sealed : Crypto → List ℕ → List ℕ → List ℕ → List ℕ
sealed c key nonce plain =
    c.s20_crypt key nonce plain ++ c.poly1305_auth (c.s20_crypt key nonce plain) key

write_front : (p x z : List ℕ) → length x ≡ length p → write (p ++ z) 0 x ≡ ok (x ++ z)
unfolding write
write_front p x z e =
    rw (le→leb (0 + length x) (length (p ++ z)) (omega (arith, length-append p z))) (
      ap (λ r. ok (x ++ r))
        (ap (λ k. drop k (p ++ z)) {x = 0 + length x} {y = length p} (omega arith)
          ∙ drop-append p z))

seal_lem :
    (c : Crypto) (key nonce plain : List ℕ)
    → CryptoLaws c
    → length plain + 16 < 2 ^ 32
    → seal c key nonce plain ≡ ok (sealed c key nonce plain)
unfolding seal
seal_lem c key nonce plain laws h =
    let size : u32 (length plain + 16) ≡ length plain + 16 = omega arith in
    let text : List ℕ = c.s20_crypt key nonce plain in
    let mac : List ℕ = c.poly1305_auth text key in
    let same : length text ≡ length plain = laws.crypt_length key nonce plain in
    let sixteen : length mac ≡ 16 = laws.auth_length text key in
    let rest : List ℕ = replicate (u32 (length plain + 16) - length plain) 0 in
    rw (write_at [] plain 0 0 (u32 (length plain + 16)) refl (omega (arith, size))) (
      rw (take-append plain rest) (
        rw (write_front plain text rest same) (
          rw (ap (λ k. take k (text ++ rest)) (sym same) ∙ take-append text rest) (
            write_at text mac 0 (length plain) (u32 (length plain + 16) - length plain) (sym same)
              (omega (arith, size))
            ∙ ap ok (
                ap (λ k. (text ++ mac) ++ replicate k 0)
                  {x = u32 (length plain + 16) - length plain - length mac} {y = 0}
                  (omega (arith, size))
                ∙ append-nil (text ++ mac))))))

-- The first half for an encrypted DATA packet: the serial has moved on, and the content is the sealed
-- payload.
abbrev pub data_part : Crypto → ChatPacket → Pairing → List Control → List ℕ → Part
data_part c cp pair cs session =
    let plain = bytes (payload_calls cp cs true) in
    record {
      cp = record cp { serial = u32 (pair.serial + 1) };
      pair = record pair { serial = u32 (pair.serial + 1) };
      content = sealed c pair.sharedkey session plain;
      announced = length plain + 16;
      warned = false;
    }

encode_payload_lem :
    (c : Crypto) (cp : ChatPacket) (pair : Pairing) (cs : List Control) (session : List ℕ)
    → CryptoLaws c
    → IsEncodable cp cs
    → visited_controls cp ≡ ok cs
    → calc_nonce (u32 (pair.serial + 1)) pair.nonce ≡ ok session
    → length (bytes (payload_calls cp cs true)) + 16 < 2 ^ 32
    → encode_payload c cp pair true ≡ ok (data_part c cp pair cs session)
unfolding encode_payload
encode_payload_lem c cp pair cs session laws e v n h =
    let all = payload_size-payload_calls cp cs e in
    let plain : List ℕ = bytes (payload_calls cp cs true) in
    let size : u32 (length plain + 16) ≡ length plain + 16 = omega arith in
    rw
      (
        v,
        perform_all_exact (payload_calls cp cs true) (payload_size cp cs) all.0 all.1,
        ==_refl (payload_size cp cs),
        n,
        seal_lem c pair.sharedkey session plain laws h,
        size,
      )
      refl

-- An encodable DATA packet goes out encrypted under the next serial of the pairing: the header with
-- that serial, the length of the cipher text with its MAC, and both of them. Neither of the two
-- buffers is left with a gap or overrun. The packet has four uuids, its controls are read and the nonce
-- of the message is computed inside their objects, and the message is shorter than 2^32 bytes.
pub encode_data :
    (c : Crypto) (cp : ChatPacket) (pair : Pairing) (cs : List Control) (session : List ℕ)
    → CryptoLaws c
    → IsAddressed cp
    → IsEncodable cp cs
    → visited_controls cp ≡ ok cs
    → calc_nonce (u32 (pair.serial + 1)) pair.nonce ≡ ok session
    → length (bytes (payload_calls cp cs true)) + 105 < 2 ^ 32
    → chat_packet_encode c cp pair true data_packet
      ≡ ok (record {
        cp = record cp { serial = u32 (pair.serial + 1) };
        pair = record pair { serial = u32 (pair.serial + 1) };
        msg = bytes (
            header_calls (record cp { serial = u32 (pair.serial + 1) })
            ++ content_calls (data_part c cp pair cs session) data_packet true);
        payload_warned = false;
        message_warned = false;
      })
unfolding chat_packet_encode encode_part message_size content_calls
encode_data c cp pair cs session laws a e v n h =
    let plain : List ℕ = bytes (payload_calls cp cs true) in
    let text : List ℕ = c.s20_crypt pair.sharedkey session plain in
    let total : length (sealed c pair.sharedkey session plain) ≡ length plain + 16 = omega (
      arith,
      length-append text (c.poly1305_auth text pair.sharedkey),
      laws.crypt_length pair.sharedkey session plain,
      laws.auth_length text pair.sharedkey,
    ) in
    rw (encode_payload_lem c cp pair cs session laws e v n (omega arith)) (
      encode_message_lem (data_part c cp pair cs session) data_packet true
        (record { to0 = a.to0; to1 = a.to1; from0 = a.from0; from1 = a.from1 })
        (tt, (omega arith, tt)) (omega (arith, total)))

-- The first half for an encrypted NONCE packet.
abbrev pub nonce_part : Crypto → ChatPacket → Pairing → Part
nonce_part c cp pair =
    let plain = bytes (envelope_calls cp pair) in
    record {
      cp = record cp { envelope_length = envelope_size + 16 };
      pair = pair;
      content = sealed c pair.sharedkey pair.nullnonce plain;
      announced = envelope_size + 16;
      warned = false;
    }

-- A nonce of 8 bytes, and padding of 16 in two parts.
pub record HasEnvelope (cp : ChatPacket) (pair : Pairing) : Type 0 where
  pub mynonce_size : length pair.mynonce ≡ 8
  pub envelope_padding_fits : length cp.envelope_random_padding ≡ 16
  pub envelope_padding_split :
      high_nibble cp.envelope_random_padding_length + low_nibble cp.envelope_random_padding_length
      ≡ 16

pub envelope_calls_lem :
    (cp : ChatPacket) (pair : Pairing)
    → HasEnvelope cp pair
    → (calls_size (envelope_calls cp pair) ≡ envelope_size) × AllReadable (envelope_calls cp pair)
unfolding envelope_calls
envelope_calls_lem cp pair e =
    let h = high_nibble cp.envelope_random_padding_length in
    (
      omega (arith, e.envelope_padding_split),
      (
        omega arith,
        (
          omega (arith, e.envelope_padding_split, e.envelope_padding_fits),
          (
            omega (arith, e.mynonce_size),
            (
              omega (
                arith,
                e.envelope_padding_split,
                e.envelope_padding_fits,
                length-drop h cp.envelope_random_padding,
              ),
              tt,
            ),
          ),
        ),
      ),
    )

-- The sealed envelope, and the message around it.
length-nonce_content :
    (c : Crypto) (cp : ChatPacket) (pair : Pairing)
    → CryptoLaws c
    → HasEnvelope cp pair
    → length (nonce_part c cp pair).content ≡ 45
length-nonce_content c cp pair laws e =
    let fits = envelope_calls_lem cp pair e in
    let plain : List ℕ = bytes (envelope_calls cp pair) in
    let size : length plain ≡ 29 = length-bytes (envelope_calls cp pair) fits.1 ∙ fits.0 in
    let text : List ℕ = c.s20_crypt pair.sharedkey pair.nullnonce plain in
    omega (
      arith,
      length-append text (c.poly1305_auth text pair.sharedkey),
      laws.crypt_length pair.sharedkey pair.nullnonce plain,
      laws.auth_length text pair.sharedkey,
    )

pub length-nonce_bytes :
    (c : Crypto) (cp : ChatPacket) (pair : Pairing)
    → CryptoLaws c
    → IsAddressed cp
    → HasEnvelope cp pair
    → length (bytes (header_calls cp ++ content_calls (nonce_part c cp pair) nonce_packet true))
      ≡ 134
unfolding content_calls
length-nonce_bytes c cp pair laws a e =
    let total = length-nonce_content c cp pair laws e in
    length-header_bytes cp _ a (tt, (omega arith, tt)) ∙ omega (arith, total)

-- An encrypted NONCE packet with four uuids, a nonce of 8 bytes and 16 bytes of padding: the header, the
-- length of the cipher text with its MAC, and both of them, under the shared key and the null nonce.
-- It fills its buffers, and the packet keeps the length of its envelope.
pub encode_nonce :
    (c : Crypto) (cp : ChatPacket) (pair : Pairing)
    → CryptoLaws c
    → IsAddressed cp
    → HasEnvelope cp pair
    → chat_packet_encode c cp pair true nonce_packet
      ≡ ok (record {
        cp = record cp { envelope_length = 45 };
        pair = pair;
        msg = bytes (header_calls cp ++ content_calls (nonce_part c cp pair) nonce_packet true);
        payload_warned = false;
        message_warned = false;
      })
unfolding chat_packet_encode encode_part encode_envelope message_size content_calls header_calls
encode_nonce c cp pair laws a e =
    let fits = envelope_calls_lem cp pair e in
    let plain : List ℕ = bytes (envelope_calls cp pair) in
    let size : length plain ≡ 29 = length-bytes (envelope_calls cp pair) fits.1 ∙ fits.0 in
    let total = length-nonce_content c cp pair laws e in
    rw
      (
        perform_all_exact (envelope_calls cp pair) envelope_size fits.0 fits.1,
        seal_lem c pair.sharedkey pair.nullnonce plain laws (omega arith),
      )
      (encode_message_lem (nonce_part c cp pair) nonce_packet true
        (record { to0 = a.to0; to1 = a.to1; from0 = a.from0; from1 = a.from1 })
        (tt, (omega arith, tt)) (omega (arith, total)))
