-- ===== src/Packet/Decode/Contents.antt =====
-- The cases of `chatPacket_decode` for the fields of a payload (src/dpdChatPacket/dpdChatPacket.c).
use dpd_chat_fabric.Prelude.{
  ℕ, ◌≤◌, ◌<◌, ◌^◌, ◌≡◌, refl, sym, false, List, [], ◌∷◌, ◌++◌, length, ok, write, read_at,
  read_word_at, arith, calloc, length-take, take, be32, ◌==◌, ltb, lt→ltb, if◌then◌else◌,
}
use dpd_chat_fabric.Types.Tags.{
  packet_tag, packet_tag_byte, cptag_payload_length, cptag_payload, cptag_action,
  cptag_action_control, cptag_action_type, cptag_action_value, cptag_action_length,
  cptag_payload_random_padding_length, cptag_payload_random_padding_high,
  cptag_payload_random_padding_low,
}
use dpd_chat_fabric.TagEncoder.{Call, int32, data8}
use dpd_chat_fabric.Packet.Encode.{high_nibble, low_nibble}
use dpd_chat_fabric.Packet.Decode.{
  DecodeEnv, Cursor, decode_header_tag, decode_payload_tag, decode_action_tag,
}
use dpd_chat_fabric.Packet.Decode.Fields.{Reads, AllRead, none_left, one_more}
use dpd_chat_fabric.Packet.Decode.Header.{on}

pub nonzero : (n : ℕ) → 0 < n → (n == 0) ≡ false
nonzero n h = ground arith

module _ (env : DecodeEnv) (n : ℕ) where
  pub AllRead-append :
      {cs ds : List Call} {s s' s'' : Cursor}
      → AllRead env n cs s s'
      → AllRead env n ds s' s''
      → AllRead env n (cs ++ ds) s s''
  AllRead-append none_left more = more
  AllRead-append (one_more c r rest) more = one_more c r (AllRead-append rest more)

  -- A length that grows makes room for the payload.
  pub grown_Reads :
      (v : ℕ)
      → v < 2 ^ 32
      → (s : Cursor) → (s.cp).payload_length < v
      → Reads env n
          (int32 (packet_tag_byte cptag_payload_length) v)
          s
          (on (λ cp. record cp { payload_length = v; payload = calloc v }) s)
  unfolding decode_header_tag decode_payload_tag packet_tag_byte packet_tag be32
  grown_Reads v h s lt nested before after i e =
      rw (read_word_at before after i v e h, lt→ltb (s.cp).payload_length v lt) refl

  abbrev pub padded : ℕ → Cursor → Cursor
  padded v s = record s {
    hp = high_nibble v;
    lp = low_nibble v;
    cp = record (s.cp) { payload_random_padding_length = v };
  }

  pub padding_length_Reads :
      (v : ℕ) (s : Cursor)
      → Reads env n
          (data8 (packet_tag_byte cptag_payload_random_padding_length) (v ∷ []) 1)
          s
          (padded v s)
  unfolding decode_header_tag decode_payload_tag packet_tag_byte packet_tag
  padding_length_Reads v s nested before after i e =
      rw (read_at before (v ∷ []) after i 1 e refl) refl

  pub padding_high_Reads :
      (p q : List ℕ) (s : Cursor)
      → 0 < s.hp
      → s.hp ≤ length p
      → write (s.cp).payload_random_padding 0 (take s.hp p) ≡ ok q
      → Reads env n
          (data8 (packet_tag_byte cptag_payload_random_padding_high) p s.hp)
          s
          (on (λ cp. record cp { payload_random_padding = q }) s)
  unfolding decode_header_tag decode_payload_tag packet_tag_byte packet_tag
  padding_high_Reads p q s pos fits w nested before after i e =
      let k = length-take s.hp p fits in
      rw (nonzero s.hp pos, read_at before (take s.hp p) after i s.hp e (sym k), w, k) refl

  pub padding_low_Reads :
      (p q : List ℕ) (s : Cursor)
      → 0 < s.lp
      → s.lp ≤ length p
      → write (s.cp).envelope_random_padding s.hp (take s.lp p) ≡ ok q
      → Reads env n
          (data8 (packet_tag_byte cptag_payload_random_padding_low) p s.lp)
          s
          (on (λ cp. record cp { envelope_random_padding = q }) s)
  unfolding decode_header_tag decode_payload_tag packet_tag_byte packet_tag
  padding_low_Reads p q s pos fits w nested before after i e =
      let k = length-take s.lp p fits in
      rw (nonzero s.lp pos, read_at before (take s.lp p) after i s.lp e (sym k), w, k) refl

  pub payload_Reads :
      (k : ℕ) (p q : List ℕ) (s : Cursor)
      → (s.cp).payload_length ≡ k
      → k ≤ length p
      → write (s.cp).payload 0 (take k p) ≡ ok q
      → Reads env n
          (data8 (packet_tag_byte cptag_payload) p k)
          s
          (on (λ cp. record cp { payload = q }) s)
  unfolding decode_header_tag decode_payload_tag packet_tag_byte packet_tag
  payload_Reads k p q s same fits w nested before after i e =
      let m = length-take k p fits in
      rw (same, read_at before (take k p) after i k e (sym m), w, m) refl

  pub action_Reads :
      (v : ℕ)
      → v < 2 ^ 32
      → (s : Cursor)
      → Reads env n
          (int32 (packet_tag_byte cptag_action) v)
          s
          (on (λ cp. record cp { action = v }) s)
  unfolding decode_header_tag decode_payload_tag decode_action_tag packet_tag_byte packet_tag be32
  action_Reads v h s nested before after i e = rw (read_word_at before after i v e h) refl

  pub action_control_Reads :
      (v : ℕ)
      → v < 2 ^ 32
      → (s : Cursor)
      → Reads env n
          (int32 (packet_tag_byte cptag_action_control) v)
          s
          (on (λ cp. record cp { action_control = v }) s)
  unfolding decode_header_tag decode_payload_tag decode_action_tag packet_tag_byte packet_tag be32
  action_control_Reads v h s nested before after i e = rw (read_word_at before after i v e h) refl

  pub action_type_Reads :
      (v : ℕ)
      → v < 2 ^ 32
      → (s : Cursor)
      → Reads env n
          (int32 (packet_tag_byte cptag_action_type) v)
          s
          (on (λ cp. record cp { action_type = v }) s)
  unfolding decode_header_tag decode_payload_tag decode_action_tag packet_tag_byte packet_tag be32
  action_type_Reads v h s nested before after i e = rw (read_word_at before after i v e h) refl

  pub action_value_Reads :
      (v : ℕ)
      → v < 2 ^ 32
      → (s : Cursor)
      → Reads env n
          (int32 (packet_tag_byte cptag_action_value) v)
          s
          (on (λ cp. record cp { action_value = v }) s)
  unfolding decode_header_tag decode_payload_tag decode_action_tag packet_tag_byte packet_tag be32
  action_value_Reads v h s nested before after i e = rw (read_word_at before after i v e h) refl

  pub action_length_Reads :
      (v : ℕ)
      → v < 2 ^ 32
      → (s : Cursor)
      → Reads env n (int32 (packet_tag_byte cptag_action_length) v) s (
          on
            (λ cp. record cp {
              action_length = v;
              action_data = if ltb 0 v then calloc v else cp.action_data;
            })
            s)
  unfolding decode_header_tag decode_payload_tag decode_action_tag packet_tag_byte packet_tag be32
  action_length_Reads v h s nested before after i e = rw (read_word_at before after i v e h) refl
