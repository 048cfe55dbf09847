-- ===== src/Packet/Decode/Parts.antt =====
-- The parts of an encrypted DATA packet (src/dpdChatPacket/dpdChatPacket.c): the calls for its plain
-- payload, and the case that opens it.
use dpd_chat_fabric.Prelude.{
  ℕ, ◌+◌, ◌≤◌, ◌≡◌, refl, sym, ap, ◌∙◌, true, false, Bool, List, [], ◌∷◌, ◌++◌, length,
  length-append, ◌*◌, ◌&&◌, Option, none, some, ok, arith, calloc, drop, sub32, ◌==◌, append-nil,
  ltb, Bool-cases, inl, inr, positive32, bit_or,
}
use dpd_chat_fabric.Types.Tags.{
  packet_tag, packet_tag_byte, cptag_payload_length, cptag_encrypted_payload, cptag_payload,
  cptag_action_data, cptag_app_controls, cptag_app_control_label_length, cptag_app_control_label,
  cptag_app_control_data, cptag_payload_random_padding_length, cptag_payload_random_padding_high,
  cptag_payload_random_padding_low,
}
use dpd_chat_fabric.Types.Commands.{action_type_data}
use dpd_chat_fabric.Types.Structs.{ChatPacket, Control}
use dpd_chat_fabric.TagEncoder.{Call, int32, data8}
use dpd_chat_fabric.TagEncoder.Fill.{bytes, calls_size, calls_size-append}
use dpd_chat_fabric.Packet.Nonce.{calc_nonce}
use dpd_chat_fabric.Packet.Encode.{
  visited_controls, payload_calls, action_calls, control_calls, controls_calls, when, when_some,
  high_nibble, low_nibble,
}
use dpd_chat_fabric.Packet.Decode.{
  DecodeEnv, Cursor, Nested, start, next, open_sealed, decode_header_tag, decode_payload_tag,
  decode_encrypted_payload, decode_loop,
}
use dpd_chat_fabric.Packet.Decode.Fields.{decode_loop_all}
use dpd_chat_fabric.Packet.Decode.Header.{with_header}
use dpd_chat_fabric.Packet.Decode.Payload.{
  IsMessage, unsealed, length-visited_controls, payload_AllRead,
}

pub length-when : (b : Bool) (cs : List Call) → length (when b cs) ≤ length cs
length-when true cs = omega arith
length-when false cs = omega arith

pub length-action_calls : (sent : ChatPacket) → length (action_calls sent) ≤ 6
unfolding action_calls packet_tag_byte
length-action_calls sent = elim (Bool-cases (sent.action == 0)) [
  | inl e ↦ rw e (omega arith)
  | inr e ↦
      let w =
        length-when (ltb 0 sent.action_length)
          (data8 (packet_tag_byte cptag_action_data) sent.action_data sent.action_length ∷ []) in
      rw e (omega (arith, w))
]

-- The calls for the payload of a packet, in five parts.
abbrev pub first_part : ChatPacket → List Call
first_part sent =
    int32 (packet_tag_byte cptag_payload_length) sent.payload_length
    ∷ data8 (packet_tag_byte cptag_payload_random_padding_length)
        (sent.payload_random_padding_length ∷ []) 1
    ∷ data8 (packet_tag_byte cptag_payload_random_padding_high) sent.payload_random_padding
        (high_nibble sent.payload_random_padding_length)
    ∷ []

abbrev pub payload_part : ChatPacket → List Call
payload_part sent =
    when (ltb 0 sent.payload_length)
      (data8 (packet_tag_byte cptag_payload) sent.payload sent.payload_length ∷ [])

abbrev pub last_part : ChatPacket → List Call
last_part sent =
    data8 (packet_tag_byte cptag_payload_random_padding_low)
      (drop (high_nibble sent.payload_random_padding_length) sent.payload_random_padding)
      (low_nibble sent.payload_random_padding_length)
    ∷ []

abbrev pub controls_part : ChatPacket → List Control → List Call
controls_part sent controls =
    when (positive32 sent.num_of_controllers)
      (int32 (packet_tag_byte cptag_app_controls) sent.num_of_controllers ∷ controls_calls controls)

five_parts :
    (sent : ChatPacket) (controls : List Control)
    → payload_calls sent controls true
      ≡ first_part sent
        ++ (action_calls sent
            ++ (controls_part sent controls ++ (payload_part sent ++ last_part sent)))
unfolding payload_calls
five_parts sent controls = refl

length-when_some :
    (o : Option (List ℕ)) (calls : List ℕ → List Call) (k : ℕ)
    → ((x : List ℕ) → length (calls x) ≤ k)
    → length (when_some o calls) ≤ k
length-when_some none calls k h = omega arith
length-when_some (some x) calls k h = h x

-- A control takes eight calls at most.
length-control_calls : (c : Control) → length (control_calls c) ≤ 8
unfolding control_calls packet_tag_byte
length-control_calls c =
    let label : List Call = when_some c.label (λ s.
      int32 (packet_tag_byte cptag_app_control_label_length) c.label_length
      ∷ data8 (packet_tag_byte cptag_app_control_label) s c.label_length
      ∷ []) in
    let contents : List Call =
      when_some c.data_bytes (λ s. data8 (packet_tag_byte cptag_app_control_data) s c.value ∷ []) in
    let two : length label ≤ 2 = length-when_some c.label _ 2 (λ x. omega arith) in
    let one : length contents ≤ 1 = length-when_some c.data_bytes _ 1 (λ x. omega arith) in
    let has_label = ltb 0 c.label_length in
    let has_data = c.type == action_type_data && positive32 c.value in
    omega (
      arith,
      two,
      one,
      length-append (when has_label label) (when has_data contents),
      length-when has_label label,
      length-when has_data contents,
    )

length-controls_calls : (cs : List Control) → length (controls_calls cs) ≤ 8 * length cs
unfolding controls_calls
length-controls_calls [] = omega arith
length-controls_calls (c ∷ cs) = omega (
  arith,
  length-append (control_calls c) (controls_calls cs),
  length-control_calls c,
  length-controls_calls cs,
)

length-controls_part :
    (sent : ChatPacket) (controls : List Control)
    → visited_controls sent ≡ ok controls
    → length (controls_part sent controls) ≤ 9 * length controls
length-controls_part sent controls v = elim (Bool-cases (positive32 sent.num_of_controllers)) [
  | inl e ↦
      let count = length-visited_controls sent controls v e in
      let at_least_one : 1 ≤ sent.num_of_controllers = ground arith in
      rw e (omega (arith, length-controls_calls controls))
  | inr e ↦ rw e (omega arith)
]

pub few_calls :
    (sent : ChatPacket) (controls : List Control)
    → visited_controls sent ≡ ok controls
    → length (payload_calls sent controls true) ≤ 11 + 9 * length controls
few_calls sent controls v = rw (five_parts sent controls) (
    omega (
      arith,
      length-append (action_calls sent)
          (controls_part sent controls ++ (payload_part sent ++ last_part sent)),
      length-append (controls_part sent controls) (payload_part sent ++ last_part sent),
      length-append (payload_part sent) (last_part sent),
      length-action_calls sent,
      length-controls_part sent controls v,
      length-when (ltb 0 sent.payload_length)
          (data8 (packet_tag_byte cptag_payload) sent.payload sent.payload_length ∷ []),
    ))

-- The payload is shorter than what it is packed into.
pub room :
    (sent : ChatPacket) (controls : List Control)
    → sent.payload_length ≤ calls_size (payload_calls sent controls true)
room sent controls = rw (five_parts sent controls) (
    omega (
      arith,
      calls_size-append (action_calls sent)
          (controls_part sent controls ++ (payload_part sent ++ last_part sent)),
      calls_size-append (controls_part sent controls) (payload_part sent ++ last_part sent),
      calls_size-append (payload_part sent) (last_part sent),
      payload_part_size,
    ))
  where
    payload_part_size : sent.payload_length ≤ calls_size (payload_part sent)
    payload_part_size = elim (Bool-cases (ltb 0 sent.payload_length)) [
      | inl e ↦ rw e (omega arith)
      | inr e ↦ rw e (ground arith)
    ]

pub payload_case :
    (env : DecodeEnv) (nested : Nested) (b plain session : List ℕ) (s : Cursor) (d : ChatPacket)
    → calc_nonce (s.cp).serial (env.pair).mynonce ≡ ok session
    → open_sealed env.crypto (env.pair).sharedkey session b s.i (s.cp).payload_length
      ≡ ok (some plain)
    → nested plain
        (sub32 (s.cp).payload_length 16)
        (record (s.cp) { was_encrypted = bit_or (s.cp).was_encrypted 1 })
      ≡ ok (record { cp = d; accepted = true })
    → decode_header_tag env nested b (packet_tag (packet_tag_byte cptag_encrypted_payload)) s
      ≡ ok (next (record s { i = s.i + (s.cp).payload_length; dangling = true; cp = d }))
unfolding decode_header_tag decode_payload_tag decode_encrypted_payload packet_tag packet_tag_byte
payload_case env nested b plain session s d c o n = rw (c, o, n) refl

-- The packet that is decoded before the payload is opened.
abbrev pub announced : ℕ → ChatPacket → ChatPacket → ChatPacket
announced n sent cp = record (with_header sent cp) {
  payload_length = n;
  payload = calloc n;
  was_encrypted = bit_or cp.was_encrypted 1;
}

-- The nested call on the plain text of the payload.
pub nested_payload :
    (env : DecodeEnv) (sent cp : ChatPacket) (controls : List Control) (fuel n : ℕ)
    → IsMessage sent controls
    → n ≡ length (bytes (payload_calls sent controls true))
    → sent.payload_length ≤ cp.payload_length
    → sent.payload_length ≤ length cp.payload
    → length cp.payload_random_padding ≡ 16
    → length cp.envelope_random_padding ≡ 16
    → 12 + 9 * length controls ≤ fuel
    → decode_loop env fuel (bytes (payload_calls sent controls true)) n (start cp)
      ≡ ok (record { cp = unsealed env.fresh controls sent cp; accepted = true })
nested_payload env sent cp controls fuel n w e le fits high low enough =
    ap (λ b. decode_loop env fuel b n (start cp))
      (sym (append-nil (bytes (payload_calls sent controls true))))
    ∙ decode_loop_all env cp _ n (payload_AllRead env n sent controls (start cp) w le fits high low)
        [] fuel e (omega (arith, few_calls sent controls w.visited))
