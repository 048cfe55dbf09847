-- ===== src/Packet/Decode/Payload.antt =====
-- `chatPacket_decode` of the plain payload of an encrypted DATA packet (src/dpdChatPacket/dpdChatPacket.c),
-- for a packet without data of its action and of its controls.
use dpd_chat_fabric.Prelude.{
  ℕ, ◌≤◌, ◌<◌, ◌^◌, ◌≡◌, refl, sym, ap, ◌∙◌, true, List, [], ◌∷◌, map, length-read, ◌++◌, length,
  ok, write, read_word_at, write_front, write_over, arith, length-take, length-drop, take, drop,
  take_all, take-drop, be32, ◌==◌, append-nil, ltb, le→ltb, if◌then◌else◌, Bool-cases, inl, inr,
  positive32,
}
use dpd_chat_fabric.Types.Tags.{packet_tag, packet_tag_byte, cptag_payload_length, cptag_payload}
use dpd_chat_fabric.Types.Structs.{ChatPacket, Control}
use dpd_chat_fabric.TagEncoder.{int32, data8}
use dpd_chat_fabric.Packet.Encode.{
  visited_controls, payload_calls, action_calls, when, high_nibble, low_nibble,
}
use dpd_chat_fabric.Packet.Decode.{DecodeEnv, Cursor, decode_header_tag, decode_payload_tag}
use dpd_chat_fabric.Packet.Decode.Fields.{Reads, AllRead, none_left, one_more}
use dpd_chat_fabric.Packet.Decode.Header.{on}
use dpd_chat_fabric.Packet.Decode.Padding.{HasPadding, padding_high}
use dpd_chat_fabric.Packet.Decode.Controls.{
  AllSendable, received, with_controls, all_controls_AllRead,
}
use dpd_chat_fabric.Packet.Decode.Contents.{
  AllRead-append, padded, padding_length_Reads, padding_high_Reads, padding_low_Reads,
  payload_Reads, action_Reads, action_control_Reads, action_type_Reads, action_value_Reads,
  action_length_Reads,
}

-- A packet with these controls and without data of its action, whose other fields can be sent.
pub record IsMessage (sent : ChatPacket) (controls : List Control) : Type 0 where
  pub padding : HasPadding sent.payload_random_padding_length sent.payload_random_padding
  pub visited : visited_controls sent ≡ ok controls
  pub controls_fit : AllSendable controls
  pub no_data : sent.action_length ≡ 0
  pub action_fits : sent.action < 2 ^ 32
  pub control_fits : sent.action_control < 2 ^ 32
  pub type_fits : sent.action_type < 2 ^ 32
  pub value_fits : sent.action_value < 2 ^ 32
  pub length_fits : sent.payload_length < 2 ^ 32
  pub payload_fits : sent.payload_length ≤ length sent.payload

-- What the action of a packet, if it has one, is decoded to.
abbrev pub acted : ChatPacket → ChatPacket → ChatPacket
acted sent cp =
    let silent = sent.action == 0 in
    record cp {
      action = if silent then cp.action else sent.action;
      action_control = if silent then cp.action_control else sent.action_control;
      action_type = if silent then cp.action_type else sent.action_type;
      action_value = if silent then cp.action_value else sent.action_value;
      action_length = if silent then cp.action_length else 0;
    }

module _ (env : DecodeEnv) (n : ℕ) where
  kept_Reads :
      (v : ℕ)
      → v < 2 ^ 32
      → (s : Cursor) → v ≤ (s.cp).payload_length
      → Reads env n
          (int32 (packet_tag_byte cptag_payload_length) v)
          s
          (on (λ cp. record cp { payload_length = v }) s)
  unfolding decode_header_tag decode_payload_tag packet_tag_byte packet_tag be32
  kept_Reads v h s le nested before after i e =
      rw (read_word_at before after i v e h, le→ltb (s.cp).payload_length v le) refl

  actions_AllRead :
      (sent : ChatPacket) {controls : List Control} (s : Cursor)
      → IsMessage sent controls
      → AllRead env n (action_calls sent) s (on (acted sent) s)
  unfolding action_calls
  actions_AllRead sent s w = elim (Bool-cases (sent.action == 0)) [
    | inl e ↦ rw e none_left
    | inr e ↦
        let s1 : Cursor = on (λ cp. record cp { action = sent.action }) s in
        let s2 : Cursor = on (λ cp. record cp { action_control = sent.action_control }) s1 in
        let s3 : Cursor = on (λ cp. record cp { action_type = sent.action_type }) s2 in
        let s4 : Cursor = on (λ cp. record cp { action_value = sent.action_value }) s3 in
        let s5 : Cursor = on (λ cp. record cp { action_length = 0 }) s4 in
        rw (e, w.no_data)
          (one_more {s = s} {s' = s1} _ (action_Reads env n sent.action w.action_fits s) (
            one_more {s = s1} {s' = s2} _
              (action_control_Reads env n sent.action_control w.control_fits s1)
              (one_more {s = s2} {s' = s3} _
                (action_type_Reads env n sent.action_type w.type_fits s2)
                (one_more {s = s3} {s' = s4} _
                  (action_value_Reads env n sent.action_value w.value_fits s3)
                  (one_more {s = s4} {s' = s5} _ (action_length_Reads env n 0 (omega arith) s4)
                    none_left)))))
  ]

-- What the plain payload is decoded to, in a packet with a larger buffer for it and in fresh memory for
-- the controls. The low part of the padding goes to the padding of the envelope.
abbrev pub unsealed : Control → List Control → ChatPacket → ChatPacket → ChatPacket
unsealed fresh controls sent cp =
    let h = high_nibble sent.payload_random_padding_length in
    let k = sent.payload_length in
    let some_controls = positive32 sent.num_of_controllers in
    record (acted sent cp) {
      controlers = if some_controls then map (received fresh) controls else cp.controlers;
      num_of_controllers = if some_controls then sent.num_of_controllers else cp.num_of_controllers;
      payload_length = k;
      payload = take k sent.payload ++ drop k cp.payload;
      payload_random_padding_length = sent.payload_random_padding_length;
      payload_random_padding =
          take h sent.payload_random_padding ++ drop h cp.payload_random_padding;
      envelope_random_padding =
          take h cp.envelope_random_padding ++ drop h sent.payload_random_padding;
    }

-- As many controls are visited as the packet says.
pub length-visited_controls :
    (sent : ChatPacket) (controls : List Control)
    → visited_controls sent ≡ ok controls
    → positive32 sent.num_of_controllers ≡ true
    → length controls ≡ sent.num_of_controllers
unfolding visited_controls
length-visited_controls sent controls v some_controls =
    (length-read sent.controlers 0 sent.num_of_controllers (rw some_controls at v)).0

low_half :
    (n : ℕ) (p q : List ℕ)
    → HasPadding n p
    → length q ≡ 16
    → write q (high_nibble n) (take (low_nibble n) (drop (high_nibble n) p))
      ≡ ok (take (high_nibble n) q ++ drop (high_nibble n) p)
low_half n p q w e =
    let h = high_nibble n in
    let l = low_nibble n in
    let x : List ℕ = take l (drop h p) in
    let whole : x ≡ drop h p =
      take_all l (drop h p) (omega (arith, w.split, w.fits, length-drop h p)) in
    ap (λ r. write r h x) (sym (ap (λ r. take h q ++ r) (append-nil (drop h q)) ∙ take-drop h q))
    ∙ (write_over (take h q) (drop h q) x [] h (omega (arith, w.split, length-take h q)) (
          omega
            (arith, w.split, w.fits, length-take l (drop h p), length-drop h p, length-drop h q))
        ∙ ap (λ r. ok (take h q ++ r)) (append-nil x ∙ whole))

module _ (env : DecodeEnv) (n : ℕ) where
  -- The payload itself, which is left out when it is empty.
  content_AllRead :
      (sent : ChatPacket) (s : Cursor)
      → sent.payload_length ≤ length sent.payload
      → (s.cp).payload_length ≡ sent.payload_length
      → sent.payload_length ≤ length (s.cp).payload
      → AllRead env n
          (when
            (ltb 0 sent.payload_length)
            (data8 (packet_tag_byte cptag_payload) sent.payload sent.payload_length ∷ []))
          s
          (on
            (λ cp. record cp {
              payload =
                  take sent.payload_length sent.payload ++ drop sent.payload_length cp.payload;
            })
            s)
  content_AllRead sent s fits e room = elim (Bool-cases (ltb 0 sent.payload_length)) [
    | inl some_bytes ↦ rw some_bytes (
        one_more _
          (payload_Reads env n sent.payload_length sent.payload _ s e fits (
            write_front (s.cp).payload (take sent.payload_length sent.payload)
              (omega (arith, length-take sent.payload_length sent.payload fits))
            ∙ ap (λ k. ok (take sent.payload_length sent.payload ++ drop k (s.cp).payload))
                (length-take sent.payload_length sent.payload fits)))
          none_left)
    | inr none_there ↦
        let zero_bytes : sent.payload_length ≡ 0 = ground arith in rw zero_bytes none_left
  ]

  -- The cursor behind the payload.
  abbrev pub behind : ChatPacket → List Control → Cursor → Cursor
  behind sent controls s =
      let s' : Cursor =
        with_controls env.fresh sent.num_of_controllers controls
          (padded env n sent.payload_random_padding_length s) in
      record s' { cp = unsealed env.fresh controls sent s.cp }

  pub payload_AllRead :
      (sent : ChatPacket) (controls : List Control) (s : Cursor)
      → IsMessage sent controls
      → sent.payload_length ≤ (s.cp).payload_length
      → sent.payload_length ≤ length (s.cp).payload
      → length (s.cp).payload_random_padding ≡ 16
      → length (s.cp).envelope_random_padding ≡ 16
      → AllRead env n (payload_calls sent controls true) s (behind sent controls s)
  unfolding payload_calls
  payload_AllRead sent controls s w le room high low =
      let v = sent.payload_random_padding_length in
      let p = sent.payload_random_padding in
      let h = high_nibble v in
      let q = (s.cp).payload_random_padding in
      let k = sent.payload_length in
      let num = sent.num_of_controllers in
      let s1 : Cursor = on (λ cp. record cp { payload_length = k }) s in
      let s2 : Cursor = padded env n v s1 in
      let s3 : Cursor = on (λ cp. record cp { payload_random_padding = take h p ++ drop h q }) s2 in
      let s4 : Cursor = on (acted sent) s3 in
      let s5 : Cursor = with_controls env.fresh num controls s4 in
      let s6 : Cursor =
        on (λ cp. record cp { payload = take k sent.payload ++ drop k cp.payload }) s5 in
      let g = w.padding in
      one_more {s = s} {s' = s1} _ (kept_Reads env n k w.length_fits s le) (
        one_more {s = s1} {s' = s2} _ (padding_length_Reads env n v s1) (
          one_more {s = s2} {s' = s3} _
            (padding_high_Reads env n p _ s2 g.high (omega (arith, g.split, g.fits))
              (padding_high v p q g high))
            (AllRead-append env n (actions_AllRead env n sent s3 w) (
              AllRead-append env n
                (all_controls_AllRead env n num controls s4 w.controls_fit
                  (length-visited_controls sent controls w.visited))
                (AllRead-append env n (content_AllRead sent s5 w.payload_fits refl room) (
                  one_more {s = s6} {s' = behind sent controls s} _
                    (padding_low_Reads env n (drop h p) _ s6 g.low
                      (omega (arith, g.split, g.fits, length-drop h p))
                      (low_half v p (s.cp).envelope_random_padding g low))
                    none_left))))))
