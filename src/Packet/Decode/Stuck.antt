-- ===== src/Packet/Decode/Stuck.antt =====
-- Datagrams on which `chatPacket_decode` does not return (src/dpdChatPacket/dpdChatPacket.c): the index
-- of `cptag_action_data` moves by the length of the payload, as a `uint32_t`, and so to its own tag.
use dpd_chat_fabric.Prelude.{
  ℕ, zero, suc, ◌+◌, ◌-◌, ◌≤◌, ◌<◌, ◌^◌, ◌≡◌, refl, sym, ap, ◌∙◌, List, [], ◌∷◌, ◌++◌, length, ok,
  no_fuel, read, write, read_at, write_over, append_assoc, arith, length-append, be32, u32,
  read_word_at, calloc, ltb, if◌then◌else◌,
}
use dpd_chat_fabric.Types.Tags.{
  packet_tag, packet_tag_byte, cptag_action_data, cptag_payload_length,
}
use dpd_chat_fabric.Types.Structs.{ChatPacket}
use dpd_chat_fabric.Packet.Decode.{
  DecodeEnv, Cursor, Nested, next, start, decode_header_tag, decode_payload_tag, decode_action_tag,
  decode_loop, chat_packet_decode,
}
use dpd_chat_fabric.Packet.Decode.Fields.{at, open_round}

write_nothing : (x : List ℕ) → write x 0 [] ≡ ok x
write_nothing x = write_over [] [] [] x 0 refl refl

-- The case goes back to its tag.
goes_back :
    (env : DecodeEnv) (nested : Nested) (before after : List ℕ) (s : Cursor)
    → length before < 2 ^ 32
    → (s.cp).payload_length ≡ 2 ^ 32 - 1
    → (s.cp).action_length ≡ 0
    → decode_header_tag env nested
        (before ++ (31 ∷ after))
        (packet_tag 31)
        (at s (length before + 1))
      ≡ ok (next (at s (length before)))
unfolding decode_header_tag decode_payload_tag decode_action_tag packet_tag
goes_back env nested before after s h p a =
    let e : u32 (length before + 1 + (2 ^ 32 - 1)) ≡ length before = omega arith in
    rw (a, p, nothing_read, write_nothing (s.cp).action_data, e) refl
  where
    nothing_read : read (before ++ (31 ∷ after)) (length before + 1) 0 ≡ ok []
    nothing_read =
        ap (λ b. read b (length before + 1) 0) (sym (append_assoc before (31 ∷ []) after))
        ∙ read_at (before ++ (31 ∷ [])) [] after (length before + 1) 0
            (omega (arith, length-append before (31 ∷ []))) refl

stuck :
    (env : DecodeEnv) (fuel n : ℕ) (before after : List ℕ) (s : Cursor)
    → length before < n
    → length before < 2 ^ 32
    → (s.cp).payload_length ≡ 2 ^ 32 - 1
    → (s.cp).action_length ≡ 0
    → decode_loop env fuel (before ++ (31 ∷ after)) n (at s (length before)) ≡ no_fuel
unfolding decode_loop
stuck env zero n before after s lt h p a = refl
stuck env (suc fuel) n before after s lt h p a =
    open_round env fuel n 31 (length before) before after s refl lt
    ∙ rw (goes_back env _ before after s h p a) (stuck env fuel n before after s lt h p a)

-- The packet after the first field.
abbrev endless : ChatPacket → ChatPacket
endless cp = record cp {
  payload_length = 2 ^ 32 - 1;
  payload = if ltb cp.payload_length (2 ^ 32 - 1) then calloc (2 ^ 32 - 1) else cp.payload;
}

length_read :
    (env : DecodeEnv) (nested : Nested) (after : List ℕ) (cp : ChatPacket)
    → decode_header_tag env nested
        (14 ∷ (be32 (2 ^ 32 - 1) ++ (31 ∷ after)))
        (packet_tag 14)
        (at (start cp) 1)
      ≡ ok (next (at (start (endless cp)) 5))
unfolding decode_header_tag decode_payload_tag packet_tag
length_read env nested after cp =
    rw (read_word_at (14 ∷ []) (31 ∷ after) 1 (2 ^ 32 - 1) refl (omega arith)) refl

-- The loop never ends on a message that begins with the length -1 of a payload and the tag of the
-- action's data, whatever stands behind it: no number of rounds is enough, for a packet without action
-- data.
pub chat_packet_decode-stuck :
    (env : DecodeEnv) (fuel n : ℕ) (after : List ℕ) (cp : ChatPacket)
    → 6 ≤ n
    → cp.action_length ≡ 0
    → chat_packet_decode env fuel cp
        (packet_tag_byte cptag_payload_length
          ∷ (be32 (2 ^ 32 - 1) ++ (packet_tag_byte cptag_action_data ∷ after)))
        n
      ≡ no_fuel
unfolding chat_packet_decode decode_loop packet_tag_byte
chat_packet_decode-stuck env zero n after cp h a = refl
chat_packet_decode-stuck env (suc fuel) n after cp h a =
    open_round env fuel n 14 0 [] (be32 (2 ^ 32 - 1) ++ (31 ∷ after)) (start cp) refl (omega arith)
    ∙ rw (length_read env _ after cp) (
        unfold be32 in
        stuck env fuel n (14 ∷ be32 (2 ^ 32 - 1)) after (start (endless cp)) (omega arith)
          (omega arith) refl a)
