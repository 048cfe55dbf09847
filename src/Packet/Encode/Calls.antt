-- ===== src/Packet/Encode/Calls.antt =====
-- The length and the fields of the payload of a DATA packet, as `chatPacket_encode` of
-- src/dpdChatPacket/dpdChatPacket.c computes and writes them.
use dpd_chat_fabric.Prelude.{
  ℕ, ◌+◌, ◌/◌, ◌%◌, Bool, ◌&&◌, Option, none, some, List, [], ◌∷◌, ◌++◌, drop, u32, ltb, positive32,
  ◌==◌, if◌then◌else◌, not,
}
use dpd_chat_fabric.Types.Tags.{
  packet_tag_byte, cptag_payload_length, cptag_payload_random_padding_length,
  cptag_payload_random_padding_high, cptag_payload_random_padding_low, cptag_action,
  cptag_action_control, cptag_action_type, cptag_action_value, cptag_action_length,
  cptag_action_data, cptag_app_controls, cptag_app_control_i, cptag_app_control_type,
  cptag_app_control_value, cptag_app_control_range_low, cptag_app_control_range_high,
  cptag_app_control_label_length, cptag_app_control_label, cptag_app_control_data, cptag_payload,
}
use dpd_chat_fabric.Types.Commands.{action_type_data}
use dpd_chat_fabric.Types.Structs.{ChatPacket, Control}
use dpd_chat_fabric.TagEncoder.{Call, int32, data8}

-- The two lengths in a padding byte: `(x & 0xF0) >> 4` and `x & 0x0F` of an `unsigned char`.
abbrev pub high_nibble : ℕ → ℕ
high_nibble x = x / 16 % 16

abbrev pub low_nibble : ℕ → ℕ
low_nibble x = x % 16

-- What one control adds to the length of the payload.
abbrev pub control_size : Control → ℕ
control_size c =
    25
    + (if c.type == action_type_data && positive32 c.value then c.value + 1 else 0)
    + (if ltb 0 c.label_length then c.label_length + 1 + 5 else 0)

abbrev pub controls_size : List Control → ℕ
controls_size [] = 0
controls_size (c ∷ cs) = control_size c + controls_size cs

-- `p_length`, for the controls that the loop visits.
unfoldable pub payload_size : ChatPacket → List Control → ℕ
payload_size cp controls = u32 (
    (if ltb 0 cp.payload_length then 1 + cp.payload_length else 0)
    + (2 + 17 + 5 + 1)
    + (if cp.action == 0
        then 0
        else 25 + (if ltb 0 cp.action_length then 1 + cp.action_length else 0))
    + (if positive32 cp.num_of_controllers then 5 + controls_size controls else 0))

abbrev pub when : Bool → List Call → List Call
when test calls = if test then calls else []

-- A call for the object behind a pointer, unless the pointer is null.
abbrev pub when_some : Option (List ℕ) → (List ℕ → List Call) → List Call
when_some none calls = []
when_some (some s) calls = calls s

-- The calls for one control.
unfoldable pub control_calls : Control → List Call
unfolding packet_tag_byte
control_calls c =
    int32 (packet_tag_byte cptag_app_control_i) c.control
    ∷ int32 (packet_tag_byte cptag_app_control_type) c.type
    ∷ int32 (packet_tag_byte cptag_app_control_value) c.value
    ∷ int32 (packet_tag_byte cptag_app_control_range_low) c.range_low
    ∷ int32 (packet_tag_byte cptag_app_control_range_high) c.range_high
    ∷ (when (ltb 0 c.label_length) (
          when_some c.label (λ s.
            int32 (packet_tag_byte cptag_app_control_label_length) c.label_length
            ∷ data8 (packet_tag_byte cptag_app_control_label) s c.label_length
            ∷ []))
        ++ when (c.type == action_type_data && positive32 c.value) (
            when_some c.data_bytes
              (λ s. data8 (packet_tag_byte cptag_app_control_data) s c.value ∷ [])))

unfoldable pub controls_calls : List Control → List Call
controls_calls [] = []
controls_calls (c ∷ cs) = control_calls c ++ controls_calls cs

-- The calls for the action of a packet.
unfoldable pub action_calls : ChatPacket → List Call
unfolding packet_tag_byte
action_calls cp = when (not (cp.action == 0)) (
    int32 (packet_tag_byte cptag_action) cp.action
    ∷ int32 (packet_tag_byte cptag_action_control) cp.action_control
    ∷ int32 (packet_tag_byte cptag_action_type) cp.action_type
    ∷ int32 (packet_tag_byte cptag_action_value) cp.action_value
    ∷ int32 (packet_tag_byte cptag_action_length) cp.action_length
    ∷ when (ltb 0 cp.action_length)
        (data8 (packet_tag_byte cptag_action_data) cp.action_data cp.action_length ∷ []))

-- All calls that fill the plain payload of a DATA packet.
unfoldable pub payload_calls : ChatPacket → List Control → Bool → List Call
unfolding packet_tag_byte
payload_calls cp controls encrypted =
    let h = high_nibble cp.payload_random_padding_length in
    when encrypted (int32 (packet_tag_byte cptag_payload_length) cp.payload_length ∷ [])
    ++ (data8 (packet_tag_byte cptag_payload_random_padding_length)
          (cp.payload_random_padding_length ∷ []) 1
        ∷ data8 (packet_tag_byte cptag_payload_random_padding_high) cp.payload_random_padding h
        ∷ (action_calls cp
            ++ (when (positive32 cp.num_of_controllers) (
                  int32 (packet_tag_byte cptag_app_controls) cp.num_of_controllers
                  ∷ controls_calls controls)
                ++ (when (ltb 0 cp.payload_length)
                      (data8 (packet_tag_byte cptag_payload) cp.payload cp.payload_length ∷ [])
                    ++ (data8 (packet_tag_byte cptag_payload_random_padding_low)
                          (drop h cp.payload_random_padding)
                          (low_nibble cp.payload_random_padding_length)
                        ∷ [])))))
