-- ===== src/Packet/Decode/Envelope.antt =====
-- `chatPacket_decode` of the encrypted NONCE packets of `chatPacket_encode`
-- (src/dpdChatPacket/dpdChatPacket.c).
use dpd_chat_fabric.Prelude.{
  ℕ, ◌+◌, ◌-◌, ◌≤◌, ◌≡◌, refl, sym, ap, ◌∙◌, true, List, [], ◌∷◌, ◌++◌, length, length-append,
  sub32, some, ok, ◌>>=◌, arith, length-drop, take, drop, bit_or, append-nil,
}
use dpd_chat_fabric.Types.Tags.{
  packet_tag, packet_tag_byte, cptag_envelope_length, cptag_encrypted_envelope,
}
use dpd_chat_fabric.Types.Commands.{nonce_packet}
use dpd_chat_fabric.Types.Structs.{ChatPacket, Pairing}
use dpd_chat_fabric.Crypto.{Crypto, CryptoLaws}
use dpd_chat_fabric.TagEncoder.{Call, int32}
use dpd_chat_fabric.TagEncoder.Fill.{bytes, length-bytes}
use dpd_chat_fabric.Packet.Encode.{header_calls, content_calls, envelope_calls, high_nibble}
use dpd_chat_fabric.Packet.Encode.Sealed.{
  sealed, nonce_part, HasEnvelope, encode_nonce, envelope_calls_lem,
}
use dpd_chat_fabric.Packet.Decode.{
  DecodeEnv, Cursor, Nested, open_sealed, start, return, decode_header_tag, decode_envelope,
  chat_packet_decode, decode_loop,
}
use dpd_chat_fabric.Packet.Decode.Fields.{
  at, AllRead, none_left, one_more, decode_loop_all, continue,
}
use dpd_chat_fabric.Packet.Decode.Header.{
  on, with_header, IsSendable, header_AllRead, transmit, exact,
}
use dpd_chat_fabric.Packet.Decode.Opened.{open_sealed-sealed, decode_loop_last}
use dpd_chat_fabric.Packet.Decode.Padding.{
  HasPadding, padding_high, padding_low, length_Reads, padded, padding_length_Reads,
  padding_high_Reads, nonce_Reads, padding_low_Reads,
}

-- What the nested call makes of a packet.
abbrev enveloped : ChatPacket → Pairing → ChatPacket → ChatPacket
enveloped sent pair cp = record cp {
  envelope_random_padding_length = sent.envelope_random_padding_length;
  envelope_random_padding = sent.envelope_random_padding;
  nonce = pair.mynonce;
}

-- A packet and a pairing whose nonce can be sent in an envelope.
pub record IsEnvelope (sent : ChatPacket) (pair : Pairing) : Type 0 where
  pub sendable : IsSendable sent
  pub padding : HasPadding sent.envelope_random_padding_length sent.envelope_random_padding
  pub mynonce_size : length pair.mynonce ≡ 8

pub IsEnvelope-HasEnvelope :
    (sent : ChatPacket) (pair : Pairing) → IsEnvelope sent pair → HasEnvelope sent pair
IsEnvelope-HasEnvelope sent pair w = record {
  mynonce_size = w.mynonce_size;
  envelope_padding_fits = (w.padding).fits;
  envelope_padding_split = (w.padding).split;
}

envelope_AllRead :
    (env : DecodeEnv) (n : ℕ) (sent : ChatPacket) (pair : Pairing) (s : Cursor)
    → IsEnvelope sent pair
    → length (s.cp).envelope_random_padding ≡ 16
    → AllRead env n
        (envelope_calls sent pair)
        s
        (on (enveloped sent pair) (padded env n sent.envelope_random_padding_length s))
unfolding envelope_calls
envelope_AllRead env n sent pair s w e =
    let v = sent.envelope_random_padding_length in
    let p = sent.envelope_random_padding in
    let h = high_nibble v in
    let q = (s.cp).envelope_random_padding in
    let half = take h p ++ drop h q in
    let s1 : Cursor = padded env n v s in
    let s2 : Cursor = on (λ cp. record cp { envelope_random_padding = half }) s1 in
    let s3 : Cursor = on (λ cp. record cp { nonce = pair.mynonce }) s2 in
    let s4 : Cursor = on (enveloped sent pair) s1 in
    let g = w.padding in
    one_more {s = s} {s' = s1} _ (padding_length_Reads env n v s) (
      one_more {s = s1} {s' = s2} _
        (padding_high_Reads env n p half s1 g.high (omega (arith, g.split, g.fits))
          (padding_high v p q g e))
        (one_more {s = s2} {s' = s3} _ (nonce_Reads env n pair.mynonce w.mynonce_size s2) (
          one_more {s = s3} {s' = s4} _
            (padding_low_Reads env n (drop h p) p s3 g.low
              (omega (arith, g.split, g.fits, length-drop h p)) (padding_low v p q g e))
            none_left)))

-- The message, and the packet that it is decoded into.
abbrev pub nonce_message : Crypto → ChatPacket → Pairing → List ℕ
nonce_message c sent pair =
    bytes (header_calls sent ++ content_calls (nonce_part c sent pair) nonce_packet true)

abbrev pub with_nonce : ChatPacket → Pairing → ChatPacket → ChatPacket
with_nonce sent pair cp = enveloped sent pair (record (with_header sent cp) {
  envelope_length = 45;
  was_encrypted = bit_or cp.was_encrypted 2;
})

envelope_case :
    (env : DecodeEnv) (nested : Nested) (b plain : List ℕ) (s : Cursor) (d : ChatPacket)
    → open_sealed env.crypto (env.pair).sharedkey (env.pair).nullnonce b s.i (s.cp).envelope_length
      ≡ ok (some plain)
    → nested plain
        (sub32 (s.cp).envelope_length 16)
        (record (s.cp) { was_encrypted = bit_or (s.cp).was_encrypted 2 })
      ≡ ok (record { cp = d; accepted = true })
    → decode_header_tag env nested b (packet_tag (packet_tag_byte cptag_encrypted_envelope)) s
      ≡ ok (return (record { cp = d; accepted = true }))
unfolding decode_header_tag decode_envelope packet_tag packet_tag_byte
envelope_case env nested b plain s d o n = rw (o, n) refl

-- The nested call on the plain text of the envelope.
nested_envelope :
    (env : DecodeEnv) (sent cp : ChatPacket) (pair : Pairing) (fuel : ℕ)
    → IsEnvelope sent pair
    → length cp.envelope_random_padding ≡ 16
    → 5 ≤ fuel
    → decode_loop env fuel (bytes (envelope_calls sent pair)) 29 (start cp)
      ≡ ok (record { cp = enveloped sent pair cp; accepted = true })
nested_envelope env sent cp pair fuel w e enough =
    let fits = envelope_calls_lem sent pair (IsEnvelope-HasEnvelope sent pair w) in
    let size : length (bytes (envelope_calls sent pair)) ≡ 29 =
      length-bytes (envelope_calls sent pair) fits.1 ∙ fits.0 in
    ap (λ b. decode_loop env fuel b 29 (start cp))
      (sym (append-nil (bytes (envelope_calls sent pair))))
    ∙ decode_loop_all env cp _ 29 (envelope_AllRead env 29 sent pair (start cp) w e) [] fuel
        (sym size) (unfold envelope_calls in omega arith)

-- An encrypted NONCE packet, with whatever stands behind it in the buffer, is accepted by a machine that
-- holds the same shared key and null nonce.
pub decode_nonce :
    (env : DecodeEnv) (sent cp : ChatPacket) (pair : Pairing) (after : List ℕ) (fuel : ℕ)
    → CryptoLaws env.crypto
    → IsEnvelope sent pair
    → (env.pair).sharedkey ≡ pair.sharedkey
    → (env.pair).nullnonce ≡ pair.nullnonce
    → length cp.envelope_random_padding ≡ 16
    → 14 ≤ fuel
    → chat_packet_decode env fuel cp
        (nonce_message env.crypto sent pair ++ after)
        (length (nonce_message env.crypto sent pair))
      ≡ ok (record { cp = with_nonce sent pair cp; accepted = true })
unfolding chat_packet_decode header_calls content_calls
decode_nonce env sent cp pair after fuel laws w ek en ep enough =
    let c = env.crypto in
    let plain : List ℕ = bytes (envelope_calls sent pair) in
    let x : List ℕ = sealed c pair.sharedkey pair.nullnonce plain in
    let cs : List Call =
      header_calls sent ++ (int32 (packet_tag_byte cptag_envelope_length) 45 ∷ []) in
    let tag : ℕ = packet_tag_byte cptag_encrypted_envelope in
    let n : ℕ = length (nonce_message c sent pair) in
    let s : Cursor = on (with_header sent) (start cp) in
    let s' : Cursor = on (λ q. record q { envelope_length = 45 }) s in
    let fits = envelope_calls_lem sent pair (IsEnvelope-HasEnvelope sent pair w) in
    let size : length plain ≡ 29 = length-bytes (envelope_calls sent pair) fits.1 ∙ fits.0 in
    let i : ℕ = length (bytes cs) + 1 in
    let opens =
      open_sealed-sealed c pair.sharedkey pair.nullnonce plain (bytes cs ++ (tag ∷ [])) after i 45
        laws (omega (arith, length-append (bytes cs) (tag ∷ []))) (omega (arith, size))
        (omega arith) in
    decode_loop_last env cs tag x after cp s' fuel (fuel - 9) n refl
      (header_AllRead env n sent (start cp) w.sendable
        (one_more {s = s} {s' = s'} _ (length_Reads env n 45 (omega arith) s) none_left))
      (omega arith)
    ∙ ap
        (λ o.
          o >>= continue (decode_loop env (fuel - 9) ((bytes cs ++ (tag ∷ [])) ++ (x ++ after)) n))
        (envelope_case env (λ d m q. decode_loop env (fuel - 9) d m (start q))
          ((bytes cs ++ (tag ∷ [])) ++ (x ++ after)) plain (at s' i) (with_nonce sent pair cp)
          (rw (ek, en) opens)
          (nested_envelope env sent
            (record (with_header sent cp) {
              envelope_length = 45;
              was_encrypted = bit_or cp.was_encrypted 2;
            })
            pair (fuel - 9) w ep (omega arith)))

-- An encrypted NONCE packet arrives: fourteen rounds or more accept it on a machine that holds the same
-- shared key and null nonce, and the packet has the header, the nonce of the sender's pairing and the
-- padding that were sent, with the length of the envelope and the mark of an encrypted envelope, and is
-- otherwise as it was. Both parts of the padding are sent, and its field has 16 bytes.
pub decode-encode_nonce :
    (env : DecodeEnv) (sent cp : ChatPacket) (pair : Pairing) (fuel : ℕ)
    → CryptoLaws env.crypto
    → IsEnvelope sent pair
    → (env.pair).sharedkey ≡ pair.sharedkey
    → (env.pair).nullnonce ≡ pair.nullnonce
    → length cp.envelope_random_padding ≡ 16
    → 14 ≤ fuel
    → transmit env env.crypto fuel sent pair true nonce_packet cp
      ≡ ok (record { cp = with_nonce sent pair cp; accepted = true })
decode-encode_nonce env sent cp pair fuel laws w ek en ep enough =
    rw
      (encode_nonce env.crypto sent pair laws (w.sendable).uuids_fit
        (IsEnvelope-HasEnvelope sent pair w))
      (exact env fuel cp (nonce_message env.crypto sent pair)
        ∙ decode_nonce env sent cp pair [] fuel laws w ek en ep enough)
