-- ===== src/Packet/Decode/Cases.antt =====
-- The other cases of the `switch` of `chatPacket_decode` of src/dpdChatPacket/dpdChatPacket.c, in
-- groups of which each hands the tags that it has no case for to the one above it.
use dpd_chat_fabric.Prelude.{
  ℕ, ◌+◌, ◌-◌, ◌^◌, Option, none, some, List, [], ◌∷◌, ◌++◌, replicate, get_elem?, get_or, set,
  Outcome, ok, fault, ◌>>=◌, read, write, calloc, read_word, u32, ltb, ◌==◌, if◌then◌else◌,
}
use dpd_chat_fabric.Types.Tags.{
  PacketTag, cptag_payload_length, cptag_payload_random_padding_length,
  cptag_payload_random_padding_high, cptag_payload_random_padding_low, cptag_action,
  cptag_action_control, cptag_action_type, cptag_action_value, cptag_action_length,
  cptag_action_data, cptag_app_controls, cptag_app_control_i, cptag_app_control_type,
  cptag_app_control_value, cptag_app_control_range_low, cptag_app_control_range_high,
  cptag_app_control_label_length, cptag_app_control_label, cptag_app_control_data, cptag_payload,
  cptag_envelope_random_padding_length, cptag_envelope_random_padding_high,
  cptag_envelope_random_padding_low, cptag_nonce, cptag_cmd, cptag_serial, cptag_flags, cptag_to0,
  cptag_to1, cptag_from0, cptag_from1, cptag_publickey, cptag_envelope_length,
  cptag_encrypted_envelope, cptag_envelope, cptag_encrypted_payload,
}
use dpd_chat_fabric.Types.Commands.{command}
use dpd_chat_fabric.Types.Structs.{Control, publickey_bytes, nonce_bytes}
use dpd_chat_fabric.Packet.Encode.{high_nibble, low_nibble}
use dpd_chat_fabric.Packet.Decode.Locals.{
  DecodeEnv, Cursor, Round, give_up, advance, Nested, decode_envelope, decode_encrypted_payload,
  next,
}

-- `cp->controlers[curControler]` with one field written.
unfoldable pub update_control : Cursor → ℕ → ℕ → (Control → Control) → Outcome Round
update_control s cur moved f = elim (get_elem? (s.cp).controlers cur) [
  | none ↦ fault
  | some c ↦ ok (
      next (record s {
        i = s.i + moved;
        cur_controler = cur;
        cp = record (s.cp) { controlers = set (s.cp).controlers cur (f c) };
      }))
]

unfoldable pub malloc_controls : ℕ → Control → List Control
malloc_controls n fresh = if ltb n (2 ^ 31) then replicate n fresh else []

-- The last cases of the `switch`, and `default`.
unfoldable pub decode_control_tag : DecodeEnv → List ℕ → Option PacketTag → Cursor → Outcome Round
decode_control_tag env b (some cptag_app_controls) s = do
  n ← read_word b s.i
  ok (
      next (record s {
        i = s.i + 4;
        cur_controler = 2 ^ 32 - 1;
        cp = record (s.cp) { controlers = malloc_controls n env.fresh; num_of_controllers = n };
      }))
decode_control_tag env b (some cptag_app_control_i) s = do
  n ← read_word b s.i
  update_control s (u32 (s.cur_controler + 1)) 4 (λ c. record c { control = n })
decode_control_tag env b (some cptag_app_control_type) s = do
  n ← read_word b s.i
  update_control s s.cur_controler 4 (λ c. record c { type = n })
decode_control_tag env b (some cptag_app_control_value) s = do
  n ← read_word b s.i
  update_control s s.cur_controler 4 (λ c. record c { value = n })
decode_control_tag env b (some cptag_app_control_range_low) s = do
  n ← read_word b s.i
  update_control s s.cur_controler 4 (λ c. record c { range_low = n })
decode_control_tag env b (some cptag_app_control_range_high) s = do
  n ← read_word b s.i
  update_control s s.cur_controler 4 (λ c. record c { range_high = n })
decode_control_tag env b (some cptag_app_control_label_length) s = do
  n ← read_word b s.i
  update_control s s.cur_controler 4 (λ c. record c { label_length = n })
decode_control_tag env b (some cptag_app_control_label) s =
    elim (get_elem? (s.cp).controlers s.cur_controler) [
      | none ↦ fault
      | some c ↦ do
        x ← read b s.i c.label_length
        update_control s s.cur_controler c.label_length
            (λ c. record c { label = some (x ++ (0 ∷ [])) })
    ]
decode_control_tag env b (some cptag_app_control_data) s =
    elim (get_elem? (s.cp).controlers s.cur_controler) [
      | none ↦ fault
      | some c ↦ if ltb 4 c.value then fault else (do
        x ← read b s.i c.value
        update_control s s.cur_controler c.value
            (λ c. record c { data_bytes = some (calloc c.value) }))
    ]
decode_control_tag env b _ s = ok (give_up (record s { i = s.i + 1 }))

-- `cptag_action` to `cptag_action_data`. The data moves the index by the length of the payload.
unfoldable pub decode_action_tag : DecodeEnv → List ℕ → Option PacketTag → Cursor → Outcome Round
decode_action_tag env b (some cptag_action) s = do
  n ← read_word b s.i
  ok (advance s 4 (record (s.cp) { action = n }))
decode_action_tag env b (some cptag_action_control) s = do
  n ← read_word b s.i
  ok (advance s 4 (record (s.cp) { action_control = n }))
decode_action_tag env b (some cptag_action_type) s = do
  n ← read_word b s.i
  ok (advance s 4 (record (s.cp) { action_type = n }))
decode_action_tag env b (some cptag_action_value) s = do
  n ← read_word b s.i
  ok (advance s 4 (record (s.cp) { action_value = n }))
decode_action_tag env b (some cptag_action_length) s = do
  n ← read_word b s.i
  ok (
      advance s 4 (record (s.cp) {
        action_length = n;
        action_data = if ltb 0 n then calloc n else (s.cp).action_data;
      }))
decode_action_tag env b (some cptag_action_data) s = do
  x ← read b s.i (s.cp).action_length
  copied ← write (s.cp).action_data 0 x
  ok (
      next (record s {
        i = u32 (s.i + (s.cp).payload_length);
        cp = record (s.cp) { action_data = copied };
      }))
decode_action_tag env b tag s = decode_control_tag env b tag s

-- `cptag_payloadLength` to `cptag_envelope`. The low half of the payload's padding is stored in the
-- padding of the envelope.
unfoldable pub decode_payload_tag :
    DecodeEnv → Nested → List ℕ → Option PacketTag → Cursor → Outcome Round
decode_payload_tag env nested b (some cptag_payload_length) s = do
  n ← read_word b s.i
  ok (
      advance s 4 (record (s.cp) {
        payload_length = n;
        payload = if ltb (s.cp).payload_length n then calloc n else (s.cp).payload;
      }))
decode_payload_tag env nested b (some cptag_payload_random_padding_length) s = do
  x ← read b s.i 1
  let n = get_or x 0 0
  ok (
      next (record s {
        i = s.i + 1;
        hp = high_nibble n;
        lp = low_nibble n;
        cp = record (s.cp) { payload_random_padding_length = n };
      }))
decode_payload_tag env nested b (some cptag_payload_random_padding_high) s =
    if s.hp == 0 then ok (give_up s) else (do
      x ← read b s.i s.hp
      padding ← write (s.cp).payload_random_padding 0 x
      ok (advance s s.hp (record (s.cp) { payload_random_padding = padding })))
decode_payload_tag env nested b (some cptag_payload_random_padding_low) s =
    if s.lp == 0 then ok (give_up s) else (do
      x ← read b s.i s.lp
      padding ← write (s.cp).envelope_random_padding s.hp x
      ok (advance s s.lp (record (s.cp) { envelope_random_padding = padding })))
decode_payload_tag env nested b (some cptag_encrypted_payload) s =
    decode_encrypted_payload env nested b s
decode_payload_tag env nested b (some cptag_payload) s = do
  x ← read b s.i (s.cp).payload_length
  copied ← write (s.cp).payload 0 x
  ok (advance s (s.cp).payload_length (record (s.cp) { payload = copied }))
decode_payload_tag env nested b (some cptag_publickey) s = do
  x ← read b s.i publickey_bytes
  ok (advance s publickey_bytes (record (s.cp) { publickey = x }))
decode_payload_tag env nested b (some cptag_envelope) s = ok (next s)
decode_payload_tag env nested b tag s = decode_action_tag env b tag s

-- `cptag_cmd` to `cptag_flags`.
unfoldable pub decode_header_tag :
    DecodeEnv → Nested → List ℕ → Option PacketTag → Cursor → Outcome Round
decode_header_tag env nested b (some cptag_cmd) s = do
  n ← read_word b s.i
  ok (advance s 4 (record (s.cp) { cmd = command n }))
decode_header_tag env nested b (some cptag_serial) s = do
  n ← read_word b s.i
  ok (advance s 4 (record (s.cp) { serial = n }))
decode_header_tag env nested b (some cptag_nonce) s = do
  x ← read b s.i nonce_bytes
  ok (advance s nonce_bytes (record (s.cp) { nonce = x }))
decode_header_tag env nested b (some cptag_envelope_length) s = do
  n ← read_word b s.i
  ok (advance s 4 (record (s.cp) { envelope_length = n }))
decode_header_tag env nested b (some cptag_encrypted_envelope) s = decode_envelope env nested b s
decode_header_tag env nested b (some cptag_envelope_random_padding_length) s = do
  x ← read b s.i 1
  let n = get_or x 0 0
  ok (
      next (record s {
        i = s.i + 1;
        h = high_nibble n;
        l = low_nibble n;
        cp = record (s.cp) { envelope_random_padding_length = n };
      }))
decode_header_tag env nested b (some cptag_envelope_random_padding_high) s =
    if s.h == 0 then ok (give_up s) else (do
      x ← read b s.i s.h
      padding ← write (s.cp).envelope_random_padding 0 x
      ok (advance s s.h (record (s.cp) { envelope_random_padding = padding })))
decode_header_tag env nested b (some cptag_envelope_random_padding_low) s =
    if s.l == 0 then ok (give_up s) else (do
      x ← read b s.i s.l
      padding ← write (s.cp).envelope_random_padding s.h x
      ok (advance s s.l (record (s.cp) { envelope_random_padding = padding })))
decode_header_tag env nested b (some cptag_to0) s = do
  x ← read b s.i 16
  ok (advance s 16 (record (s.cp) { to = record ((s.cp).to) { u0 = x } }))
decode_header_tag env nested b (some cptag_to1) s = do
  x ← read b s.i 16
  ok (advance s 16 (record (s.cp) { to = record ((s.cp).to) { u1 = x } }))
decode_header_tag env nested b (some cptag_from0) s = do
  x ← read b s.i 16
  ok (advance s 16 (record (s.cp) { from = record ((s.cp).from) { u0 = x } }))
decode_header_tag env nested b (some cptag_from1) s = do
  x ← read b s.i 16
  ok (advance s 16 (record (s.cp) { from = record ((s.cp).from) { u1 = x } }))
decode_header_tag env nested b (some cptag_flags) s = do
  n ← read_word b s.i
  ok (advance s 4 (record (s.cp) { flags = n }))
decode_header_tag env nested b tag s = decode_payload_tag env nested b tag s
