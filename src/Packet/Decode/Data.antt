-- ===== src/Packet/Decode/Data.antt =====
-- `chatPacket_decode` of the encrypted DATA packets of `chatPacket_encode`
-- (src/dpdChatPacket/dpdChatPacket.c).
use dpd_chat_fabric.Prelude.{
  ℕ, suc, ◌+◌, ◌-◌, ◌*◌, ◌≤◌, ◌<◌, ◌^◌, ◌≡◌, refl, ap, ◌∙◌, true, false, List, [], ◌∷◌, ◌++◌,
  length, length-append, ok, ◌>>=◌, arith, calloc, length-calloc, u32, sub32,
}
use dpd_chat_fabric.Types.Tags.{packet_tag_byte, cptag_payload_length, cptag_encrypted_payload}
use dpd_chat_fabric.Types.Commands.{data_packet}
use dpd_chat_fabric.Types.Structs.{ChatPacket, Control, Pairing}
use dpd_chat_fabric.Crypto.{Crypto, CryptoLaws}
use dpd_chat_fabric.TagEncoder.{Call, int32}
use dpd_chat_fabric.TagEncoder.Fill.{bytes, length-bytes, calls_size}
use dpd_chat_fabric.Packet.Nonce.{calc_nonce}
use dpd_chat_fabric.Packet.Encode.{chat_packet_encode, payload_calls, header_calls, content_calls}
use dpd_chat_fabric.Packet.Encode.Payload.{IsEncodable, payload_size-payload_calls}
use dpd_chat_fabric.Packet.Encode.Sealed.{sealed, data_part, encode_data}
use dpd_chat_fabric.Packet.Decode.{DecodeEnv, Cursor, start, decode_loop, chat_packet_decode}
use dpd_chat_fabric.Packet.Decode.Fields.{at, none_left, one_more, decode_loop_end, continue}
use dpd_chat_fabric.Packet.Decode.Header.{
  on, with_header, IsSendable, header_AllRead, transmit, exact,
}
use dpd_chat_fabric.Packet.Decode.Opened.{
  open_sealed-sealed, decode_loop_last, length-message, length-sealed,
}
use dpd_chat_fabric.Packet.Decode.Contents.{grown_Reads}
use dpd_chat_fabric.Packet.Decode.Payload.{IsMessage, unsealed}
use dpd_chat_fabric.Packet.Decode.Parts.{room, payload_case, announced, nested_payload}

-- The message, and the packet that is sent: under the next serial of the pairing.
abbrev pub numbered : ChatPacket → Pairing → ChatPacket
numbered sent pair = record sent { serial = u32 (pair.serial + 1) }

abbrev pub data_message : Crypto → ChatPacket → List Control → Pairing → List ℕ → List ℕ
data_message c sent controls pair session = bytes (
    header_calls (numbered sent pair)
    ++ content_calls (data_part c sent pair controls session) data_packet true)

abbrev plain_size : ChatPacket → List Control → ℕ
plain_size sent controls = length (bytes (payload_calls sent controls true))

-- What a DATA packet is decoded to.
abbrev pub with_data : Control → List Control → ChatPacket → Pairing → ChatPacket → ChatPacket
with_data fresh controls sent pair cp =
    unsealed fresh controls sent (announced (plain_size sent controls + 16) (numbered sent pair) cp)

-- The packet, the pairing and the receiver fit each other.
pub record IsData (env : DecodeEnv) (sent cp : ChatPacket) (controls : List Control)
    (pair : Pairing) (session : List ℕ) : Type 0 where
  pub sendable : IsSendable (numbered sent pair)
  pub message : IsMessage sent controls
  pub encodable : IsEncodable sent controls
  pub nonce : calc_nonce (u32 (pair.serial + 1)) pair.nonce ≡ ok session
  pub same_key : (env.pair).sharedkey ≡ pair.sharedkey
  pub same_nonce : (env.pair).mynonce ≡ pair.nonce
  pub small : length (bytes (payload_calls sent controls true)) + 105 < 2 ^ 32
  pub empty : cp.payload_length ≡ 0
  pub payload_padding : length cp.payload_random_padding ≡ 16
  pub envelope_padding : length cp.envelope_random_padding ≡ 16

pub decode_data :
    (env : DecodeEnv) (sent cp : ChatPacket) (controls : List Control) (pair : Pairing)
    (session after : List ℕ) (fuel : ℕ)
    → CryptoLaws env.crypto
    → IsData env sent cp controls pair session
    → 24 + 9 * length controls ≤ fuel
    → chat_packet_decode env fuel cp
        (data_message env.crypto sent controls pair session ++ after)
        (length (data_message env.crypto sent controls pair session))
      ≡ ok (record { cp = with_data env.fresh controls sent pair cp; accepted = true })
unfolding chat_packet_decode header_calls content_calls
decode_data env sent cp controls pair session after fuel laws w enough =
    let c = env.crypto in
    let sent' : ChatPacket = numbered sent pair in
    let plain : List ℕ = bytes (payload_calls sent controls true) in
    let size : ℕ = length plain + 16 in
    let x : List ℕ = sealed c pair.sharedkey session plain in
    let cs : List Call =
      header_calls sent' ++ (int32 (packet_tag_byte cptag_payload_length) size ∷ []) in
    let tag : ℕ = packet_tag_byte cptag_encrypted_payload in
    let n : ℕ = length (data_message c sent controls pair session) in
    let s : Cursor = on (with_header sent') (start cp) in
    let s' : Cursor = on (λ q. record q { payload_length = size; payload = calloc size }) s in
    let i : ℕ = length (bytes cs) + 1 in
    let d : ChatPacket = with_data env.fresh controls sent pair cp in
    let all = payload_size-payload_calls sent controls w.encodable in
    let total : length plain ≡ calls_size (payload_calls sent controls true) =
      length-bytes (payload_calls sent controls true) all.1 in
    let fits = room sent controls in
    let b : List ℕ = (bytes cs ++ (tag ∷ [])) ++ (x ++ after) in
    let e : Cursor = record s' { i = i + size; dangling = true; cp = d } in
    let opens =
      open_sealed-sealed c pair.sharedkey session plain (bytes cs ++ (tag ∷ [])) after i size laws
        (omega (arith, length-append (bytes cs) (tag ∷ []))) (omega arith)
        (omega (arith, w.small)) in
    decode_loop_last env cs tag x after cp s' fuel (fuel - 9) n refl
      (header_AllRead env n sent' (start cp) w.sendable (
        one_more {s = s} {s' = s'} _
          (grown_Reads env n size (omega (arith, w.small)) s (omega (arith, w.empty))) none_left))
      (omega arith)
    ∙ ap (λ o. o >>= continue (decode_loop env (fuel - 9) b n))
        (payload_case env (λ q m p. decode_loop env (fuel - 9) q m (start p)) b plain session
          (at s' i) d (ap (calc_nonce (u32 (pair.serial + 1))) w.same_nonce ∙ w.nonce)
          (rw (w.same_key) opens)
          (nested_payload env sent (announced size sent' cp) controls (fuel - 9) (sub32 size 16)
            w.message (omega (arith, w.small)) (omega (arith, total, fits))
            (omega (arith, total, fits, length-calloc size)) w.payload_padding w.envelope_padding
            (omega arith)))
    ∙ (ap (λ k. decode_loop env k b n e) {x = fuel - 9} {y = suc (fuel - 10)} (omega arith)
        ∙ decode_loop_end env (fuel - 10) n b e (
            omega
              (arith, length-message cs tag x, length-sealed c pair.sharedkey session plain laws)))

pub encode_sent :
    (env : DecodeEnv) (sent cp : ChatPacket) (controls : List Control) (pair : Pairing)
    (session : List ℕ)
    → CryptoLaws env.crypto
    → IsData env sent cp controls pair session
    → chat_packet_encode env.crypto sent pair true data_packet
      ≡ ok (record {
        cp = numbered sent pair;
        pair = record pair { serial = u32 (pair.serial + 1) };
        msg = data_message env.crypto sent controls pair session;
        payload_warned = false;
        message_warned = false;
      })
encode_sent env sent cp controls pair session laws w =
    let u = (w.sendable).uuids_fit in
    encode_data env.crypto sent pair controls session laws
      (record { to0 = u.to0; to1 = u.to1; from0 = u.from0; from1 = u.from1 }) w.encodable
      (w.message).visited w.nonce w.small

-- An encrypted DATA packet arrives: twenty-four rounds, and nine for each of its controls, accept it on a
-- machine that holds the same shared key and, as its own, the nonce of the sender, and the packet has
-- the header under the next serial of the sender's pairing, the payload in a larger buffer with zeros
-- behind it, the action, and the controls, each with its label and a zero behind it. The low part of the
-- padding is put into the padding of the envelope. The packet has no data of its action or of its
-- controls, and the packet that it is decoded into has no payload.
pub decode-encode_data :
    (env : DecodeEnv) (sent cp : ChatPacket) (controls : List Control) (pair : Pairing)
    (session : List ℕ) (fuel : ℕ)
    → CryptoLaws env.crypto
    → IsData env sent cp controls pair session
    → 24 + 9 * length controls ≤ fuel
    → transmit env env.crypto fuel sent pair true data_packet cp
      ≡ ok (record { cp = with_data env.fresh controls sent pair cp; accepted = true })
decode-encode_data env sent cp controls pair session fuel laws w enough =
    rw (encode_sent env sent cp controls pair session laws w) (
      exact env fuel cp (data_message env.crypto sent controls pair session)
      ∙ decode_data env sent cp controls pair session [] fuel laws w enough)
