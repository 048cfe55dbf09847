-- ===== src/Packet/Decode/Padding.antt =====
-- The fields of an envelope, as `chatPacket_decode` reads them (src/dpdChatPacket/dpdChatPacket.c).
use dpd_chat_fabric.Prelude.{
  ℕ, ◌+◌, ◌≤◌, ◌<◌, ◌^◌, ◌≡◌, refl, sym, ap, ◌∙◌, false, List, [], ◌∷◌, ◌++◌, length, ok, write,
  read_at, read_word_at, write_over, arith, length-take, length-drop, take, drop, take_all,
  take-drop, be32, ◌==◌, append-nil,
}
use dpd_chat_fabric.Types.Tags.{
  packet_tag, packet_tag_byte, cptag_envelope_length, cptag_nonce,
  cptag_envelope_random_padding_length, cptag_envelope_random_padding_high,
  cptag_envelope_random_padding_low,
}
use dpd_chat_fabric.Types.Structs.{nonce_bytes}
use dpd_chat_fabric.TagEncoder.{int32, data8}
use dpd_chat_fabric.Packet.Encode.{high_nibble, low_nibble}
use dpd_chat_fabric.Packet.Decode.{DecodeEnv, Cursor, decode_header_tag}
use dpd_chat_fabric.Packet.Decode.Fields.{Reads}
use dpd_chat_fabric.Packet.Decode.Header.{on}

-- Both parts of a padding of 16 bytes are sent.
pub record HasPadding (n : ℕ) (padding : List ℕ) : Type 0 where
  pub high : 0 < high_nibble n
  pub low : 0 < low_nibble n
  pub split : high_nibble n + low_nibble n ≡ 16
  pub fits : length padding ≡ 16

pub nonzero : (n : ℕ) → 0 < n → (n == 0) ≡ false
nonzero n h = ground arith

-- The padding arrives in two parts over 16 bytes of any contents.
pub padding_high :
    (n : ℕ) (p q : List ℕ)
    → HasPadding n p
    → length q ≡ 16
    → write q 0 (take (high_nibble n) p) ≡ ok (take (high_nibble n) p ++ drop (high_nibble n) q)
padding_high n p q w e =
    let h = high_nibble n in
    ap (λ r. write r 0 (take h p)) (sym (take-drop h q))
    ∙ write_over [] (take h q) (take h p) (drop h q) 0 refl
        (omega (arith, w.split, w.fits, length-take h q, length-take h p))

pub padding_low :
    (n : ℕ) (p q : List ℕ)
    → HasPadding n p
    → length q ≡ 16
    → write
        (take (high_nibble n) p ++ drop (high_nibble n) q)
        (high_nibble n)
        (take (low_nibble n) (drop (high_nibble n) p))
      ≡ ok p
padding_low n p q w e =
    let h = high_nibble n in
    let l = low_nibble n in
    ap (λ r. write (take h p ++ r) h (take l (drop h p))) (sym (append-nil (drop h q)))
    ∙ (write_over (take h p) (drop h q) (take l (drop h p)) [] h
          (omega (arith, w.split, w.fits, length-take h p))
          (omega
            (arith, w.split, w.fits, length-take l (drop h p), length-drop h p, length-drop h q))
        ∙ ap ok (
            ap (λ r. take h p ++ r) (append-nil (take l (drop h p)))
            ∙ (ap (λ r. take h p ++ r)
                  (take_all l (drop h p) (omega (arith, w.split, w.fits, length-drop h p)))
                ∙ take-drop h p)))

module _ (env : DecodeEnv) (n : ℕ) where
  pub length_Reads :
      (v : ℕ)
      → v < 2 ^ 32
      → (s : Cursor)
      → Reads env n
          (int32 (packet_tag_byte cptag_envelope_length) v)
          s
          (on (λ cp. record cp { envelope_length = v }) s)
  unfolding decode_header_tag packet_tag_byte packet_tag be32
  length_Reads v h s nested before after i e = rw (read_word_at before after i v e h) refl

  abbrev pub padded : ℕ → Cursor → Cursor
  padded v s = record s {
    h = high_nibble v;
    l = low_nibble v;
    cp = record (s.cp) { envelope_random_padding_length = v };
  }

  pub padding_length_Reads :
      (v : ℕ) (s : Cursor)
      → Reads env n
          (data8 (packet_tag_byte cptag_envelope_random_padding_length) (v ∷ []) 1)
          s
          (padded v s)
  unfolding decode_header_tag packet_tag_byte packet_tag
  padding_length_Reads v s nested before after i e =
      rw (read_at before (v ∷ []) after i 1 e refl) refl

  pub padding_high_Reads :
      (p q : List ℕ) (s : Cursor)
      → 0 < s.h
      → s.h ≤ length p
      → write (s.cp).envelope_random_padding 0 (take s.h p) ≡ ok q
      → Reads env n
          (data8 (packet_tag_byte cptag_envelope_random_padding_high) p s.h)
          s
          (on (λ cp. record cp { envelope_random_padding = q }) s)
  unfolding decode_header_tag packet_tag_byte packet_tag
  padding_high_Reads p q s pos fits w nested before after i e =
      let k = length-take s.h p fits in
      rw (nonzero s.h pos, read_at before (take s.h p) after i s.h e (sym k), w, k) refl

  pub nonce_Reads :
      (x : List ℕ)
      → length x ≡ 8
      → (s : Cursor)
      → Reads env n
          (data8 (packet_tag_byte cptag_nonce) x nonce_bytes)
          s
          (on (λ cp. record cp { nonce = x }) s)
  unfolding decode_header_tag packet_tag_byte packet_tag
  nonce_Reads x h s nested before after i e =
      rw
        (
          read_at before (take 8 x) after i 8 e (omega (arith, length-take 8 x)),
          take_all 8 x (omega arith),
          h,
        )
        refl

  pub padding_low_Reads :
      (p q : List ℕ) (s : Cursor)
      → 0 < s.l
      → s.l ≤ length p
      → write (s.cp).envelope_random_padding s.h (take s.l p) ≡ ok q
      → Reads env n
          (data8 (packet_tag_byte cptag_envelope_random_padding_low) p s.l)
          s
          (on (λ cp. record cp { envelope_random_padding = q }) s)
  unfolding decode_header_tag packet_tag_byte packet_tag
  padding_low_Reads p q s pos fits w nested before after i e =
      let k = length-take s.l p fits in
      rw (nonzero s.l pos, read_at before (take s.l p) after i s.l e (sym k), w, k) refl
