-- ===== src/Packet/Decode/Header.antt =====
-- `chatPacket_decode` of the COMMAND and PUBLICKEY packets of `chatPacket_encode`
-- (src/dpdChatPacket/dpdChatPacket.c).
use dpd_chat_fabric.Prelude.{
  ℕ, ◌≤◌, ◌<◌, ◌^◌, ◌≡◌, refl, ap, ◌∙◌, Bool, true, List, ◌++◌, length, Outcome, ok, ◌>>=◌,
  append-nil, sym, [], ◌∷◌, read, read_at, read_word_at, arith, length-take, take, take_all, be32,
}
use dpd_chat_fabric.Types.Tags.{
  packet_tag, packet_tag_byte, cptag_cmd, cptag_serial, cptag_flags, cptag_to0, cptag_to1,
  cptag_from0, cptag_from1, cptag_publickey,
}
use dpd_chat_fabric.Types.Commands.{
  Command, PacketType, command_number, command-command_number, command_packet, publickey_packet,
}
use dpd_chat_fabric.Types.Structs.{ChatPacket, Pairing, publickey_bytes}
use dpd_chat_fabric.Crypto.{Crypto}
use dpd_chat_fabric.TagEncoder.{Call, int32, data8, uuid}
use dpd_chat_fabric.TagEncoder.Fill.{bytes}
use dpd_chat_fabric.Packet.Encode.{header_calls, content_calls, chat_packet_encode}
use dpd_chat_fabric.Packet.Encode.Message.{IsAddressed, encode_command, encode_publickey}
use dpd_chat_fabric.Packet.Decode.{
  DecodeEnv, Cursor, start, Decoded, decode_header_tag, decode_payload_tag, chat_packet_decode,
}
use dpd_chat_fabric.Packet.Decode.Fields.{Reads, AllRead, none_left, one_more, decode_loop_all}

-- A change of the packet alone.
abbrev pub on : (ChatPacket → ChatPacket) → Cursor → Cursor
on f s = record s { cp = f s.cp }

module _ (env : DecodeEnv) (n : ℕ) where
  cmd_Reads :
      (c : Command)
      → command_number c < 2 ^ 32
      → (s : Cursor)
      → Reads env n
          (int32 (packet_tag_byte cptag_cmd) (command_number c))
          s
          (on (λ cp. record cp { cmd = c }) s)
  unfolding decode_header_tag packet_tag_byte packet_tag be32
  cmd_Reads c h s nested before after i e =
      rw (read_word_at before after i (command_number c) e h, command-command_number c) refl

  serial_Reads :
      (v : ℕ)
      → v < 2 ^ 32
      → (s : Cursor)
      → Reads env n
          (int32 (packet_tag_byte cptag_serial) v)
          s
          (on (λ cp. record cp { serial = v }) s)
  unfolding decode_header_tag packet_tag_byte packet_tag be32
  serial_Reads v h s nested before after i e = rw (read_word_at before after i v e h) refl

  flags_Reads :
      (v : ℕ)
      → v < 2 ^ 32
      → (s : Cursor)
      → Reads env n (int32 (packet_tag_byte cptag_flags) v) s (on (λ cp. record cp { flags = v }) s)
  unfolding decode_header_tag packet_tag_byte packet_tag be32
  flags_Reads v h s nested before after i e = rw (read_word_at before after i v e h) refl

  read_uuid :
      (u : List ℕ) (before after : List ℕ) (i : ℕ)
      → length u ≡ 16
      → i ≡ length before
      → read (before ++ (take 16 u ++ after)) i 16 ≡ ok u
  read_uuid u before after i h e =
      read_at before (take 16 u) after i 16 e (omega (arith, length-take 16 u))
      ∙ ap ok (take_all 16 u (omega arith))

  to0_Reads :
      (u : List ℕ)
      → length u ≡ 16
      → (s : Cursor)
      → Reads env n
          (uuid (packet_tag_byte cptag_to0) u)
          s
          (on (λ cp. record cp { to = record (cp.to) { u0 = u } }) s)
  unfolding decode_header_tag packet_tag_byte packet_tag
  to0_Reads u h s nested before after i e =
      rw (read_uuid u before after i h e, length-take 16 u (omega arith)) refl

  to1_Reads :
      (u : List ℕ)
      → length u ≡ 16
      → (s : Cursor)
      → Reads env n
          (uuid (packet_tag_byte cptag_to1) u)
          s
          (on (λ cp. record cp { to = record (cp.to) { u1 = u } }) s)
  unfolding decode_header_tag packet_tag_byte packet_tag
  to1_Reads u h s nested before after i e =
      rw (read_uuid u before after i h e, length-take 16 u (omega arith)) refl

  from0_Reads :
      (u : List ℕ)
      → length u ≡ 16
      → (s : Cursor)
      → Reads env n
          (uuid (packet_tag_byte cptag_from0) u)
          s
          (on (λ cp. record cp { from = record (cp.from) { u0 = u } }) s)
  unfolding decode_header_tag packet_tag_byte packet_tag
  from0_Reads u h s nested before after i e =
      rw (read_uuid u before after i h e, length-take 16 u (omega arith)) refl

  from1_Reads :
      (u : List ℕ)
      → length u ≡ 16
      → (s : Cursor)
      → Reads env n
          (uuid (packet_tag_byte cptag_from1) u)
          s
          (on (λ cp. record cp { from = record (cp.from) { u1 = u } }) s)
  unfolding decode_header_tag packet_tag_byte packet_tag
  from1_Reads u h s nested before after i e =
      rw (read_uuid u before after i h e, length-take 16 u (omega arith)) refl

  publickey_Reads :
      (k : List ℕ)
      → length k ≡ 32
      → (s : Cursor)
      → Reads env n
          (data8 (packet_tag_byte cptag_publickey) k publickey_bytes)
          s
          (on (λ cp. record cp { publickey = k }) s)
  unfolding decode_header_tag decode_payload_tag packet_tag_byte packet_tag
  publickey_Reads k h s nested before after i e =
      rw
        (
          read_at before (take 32 k) after i 32 e (omega (arith, length-take 32 k)),
          take_all 32 k (omega arith),
          h,
        )
        refl

-- What the header of a packet carries: the command, the two words and the four uuids.
abbrev pub with_header : ChatPacket → ChatPacket → ChatPacket
with_header sent cp = record cp {
  cmd = sent.cmd;
  serial = sent.serial;
  flags = sent.flags;
  to = sent.to;
  from = sent.from;
}

-- A packet whose header survives the wire: uuids of 16 bytes and words of 32 bits.
pub record IsSendable (cp : ChatPacket) : Type 0 where
  pub uuids_fit : IsAddressed cp
  pub cmd_fits : command_number cp.cmd < 2 ^ 32
  pub serial_fits : cp.serial < 2 ^ 32
  pub flags_fit : cp.flags < 2 ^ 32

pub header_AllRead :
    (env : DecodeEnv) (n : ℕ) (sent : ChatPacket) (s : Cursor) {s' : Cursor} {ds : List Call}
    → IsSendable sent
    → AllRead env n ds (on (with_header sent) s) s'
    → AllRead env n (header_calls sent ++ ds) s s'
unfolding header_calls
header_AllRead env n sent s w more =
    let a = w.uuids_fit in
    let cmd : Cursor = on (λ cp. record cp { cmd = sent.cmd }) s in
    let serial : Cursor = on (λ cp. record cp { serial = sent.serial }) cmd in
    let flags : Cursor = on (λ cp. record cp { flags = sent.flags }) serial in
    let to0 : Cursor = on (λ cp. record cp { to = record (cp.to) { u0 = (sent.to).u0 } }) flags in
    let to1 : Cursor = on (λ cp. record cp { to = record (cp.to) { u1 = (sent.to).u1 } }) to0 in
    let from0 : Cursor =
      on (λ cp. record cp { from = record (cp.from) { u0 = (sent.from).u0 } }) to1 in
    let from1 : Cursor =
      on (λ cp. record cp { from = record (cp.from) { u1 = (sent.from).u1 } }) from0 in
    (one_more {s = s} {s' = cmd} _ (cmd_Reads env n sent.cmd w.cmd_fits s) (
      one_more {s = cmd} {s' = serial} _ (serial_Reads env n sent.serial w.serial_fits cmd) (
        one_more {s = serial} {s' = flags} _ (flags_Reads env n sent.flags w.flags_fit serial) (
          one_more {s = flags} {s' = to0} _ (to0_Reads env n (sent.to).u0 a.to0 flags) (
            one_more {s = to0} {s' = to1} _ (to1_Reads env n (sent.to).u1 a.to1 to0) (
              one_more {s = to1} {s' = from0} _ (from0_Reads env n (sent.from).u0 a.from0 to1) (
                one_more {s = from0} {s' = from1} _ (from1_Reads env n (sent.from).u1 a.from1 from0)
                  more)))))))

-- Encode a packet and decode the message into another packet, with a number of rounds.
abbrev pub transmit :
    DecodeEnv → Crypto → ℕ → ChatPacket → Pairing → Bool → PacketType → ChatPacket → Outcome Decoded
transmit env c fuel sent pair encrypted type cp = do
  out ← chat_packet_encode c sent pair encrypted type
  chat_packet_decode env fuel cp out.msg (length out.msg)

-- The messages of the two kinds, with whatever stands behind them in the buffer.
abbrev pub command_bytes : ChatPacket → List ℕ
command_bytes sent = bytes (header_calls sent ++ [])

abbrev pub publickey_bytes_of : ChatPacket → List ℕ
publickey_bytes_of sent = bytes (
    header_calls sent
    ++ data8 (packet_tag_byte cptag_publickey) sent.publickey publickey_bytes ∷ [])

abbrev pub with_publickey : ChatPacket → ChatPacket → ChatPacket
with_publickey sent cp = record (with_header sent cp) { publickey = sent.publickey }

pub decode_command :
    (env : DecodeEnv) (sent cp : ChatPacket) (after : List ℕ) (fuel : ℕ)
    → IsSendable sent
    → 8 ≤ fuel
    → chat_packet_decode env fuel cp (command_bytes sent ++ after) (length (command_bytes sent))
      ≡ ok (record { cp = with_header sent cp; accepted = true })
unfolding chat_packet_decode header_calls
decode_command env sent cp after fuel w enough =
    decode_loop_all env cp (on (with_header sent) (start cp)) _
      (header_AllRead env _ sent (start cp) w none_left) after fuel refl enough

pub decode_publickey :
    (env : DecodeEnv) (sent cp : ChatPacket) (after : List ℕ) (fuel : ℕ)
    → IsSendable sent
    → length sent.publickey ≡ 32
    → 9 ≤ fuel
    → chat_packet_decode env fuel cp
        (publickey_bytes_of sent ++ after)
        (length (publickey_bytes_of sent))
      ≡ ok (record { cp = with_publickey sent cp; accepted = true })
unfolding chat_packet_decode header_calls
decode_publickey env sent cp after fuel w k enough =
    decode_loop_all env cp (on (with_publickey sent) (start cp)) _
      (header_AllRead env _ sent (start cp) w (
        one_more {s = on (with_header sent) (start cp)} {s' = on (with_publickey sent) (start cp)}
          (data8 (packet_tag_byte cptag_publickey) sent.publickey publickey_bytes)
          (publickey_Reads env 0 sent.publickey k (on (with_header sent) (start cp))) none_left))
      after fuel refl enough

-- A buffer with nothing behind the message.
pub exact :
    (env : DecodeEnv) (fuel : ℕ) (cp : ChatPacket) (b : List ℕ)
    → chat_packet_decode env fuel cp b (length b)
      ≡ chat_packet_decode env fuel cp (b ++ []) (length b)
exact env fuel cp b = ap (λ x. chat_packet_decode env fuel cp x (length b)) (sym (append-nil b))

-- A COMMAND packet arrives: eight rounds or more of the loop accept it, and the packet that it is
-- decoded into has the command, the serial, the flags and the uuids that were sent, and is otherwise
-- as it was.
pub decode-encode_command :
    (env : DecodeEnv) (c : Crypto) (sent cp : ChatPacket) (pair : Pairing) (encrypted : Bool)
    (fuel : ℕ)
    → IsSendable sent
    → 8 ≤ fuel
    → transmit env c fuel sent pair encrypted command_packet cp
      ≡ ok (record { cp = with_header sent cp; accepted = true })
decode-encode_command env c sent cp pair encrypted fuel w enough =
    rw (encode_command c sent pair encrypted w.uuids_fit)
      (exact env fuel cp (command_bytes sent) ∙ decode_command env sent cp [] fuel w enough)

-- A PUBLICKEY packet with a key of 32 bytes arrives: nine rounds or more of the loop accept it, and
-- besides the header the packet has the key that was sent.
pub decode-encode_publickey :
    (env : DecodeEnv) (c : Crypto) (sent cp : ChatPacket) (pair : Pairing) (encrypted : Bool)
    (fuel : ℕ)
    → IsSendable sent
    → length sent.publickey ≡ 32
    → 9 ≤ fuel
    → transmit env c fuel sent pair encrypted publickey_packet cp
      ≡ ok (record {
        cp = record (with_header sent cp) { publickey = sent.publickey };
        accepted = true;
      })
unfolding content_calls
decode-encode_publickey env c sent cp pair encrypted fuel w k enough =
    rw (encode_publickey c sent pair encrypted w.uuids_fit k) (
      exact env fuel cp (publickey_bytes_of sent) ∙ decode_publickey env sent cp [] fuel w k enough)
