-- ===== src/Packet/Init.antt =====
-- `chatPacket_init0` and `chatPacket_init` of src/dpdChatPacket/dpdChatPacket.c, in the build without
-- ESP8266. Allocation is taken to succeed. The four random numbers are a parameter.
pub mod Laws
use dpd_chat_fabric.Prelude.{
  ℕ, ◌+◌, ◌-◌, ◌*◌, ◌^◌, ◌<◌, ◌≡◌, Bool, true, false, not, ◌&&◌, List, [], ◌∷◌, length, replicate,
  Outcome, ok, ◌>>=◌, read, write, calloc, ltb, if◌then◌else◌, bit_or,
}
use dpd_chat_fabric.Types.Commands.{Command, cmd_invaild_cmd, action_null, action_type_null}
use dpd_chat_fabric.Types.Structs.{ChatPacket, Pairing, Config, Uuid, publickey_bytes, nonce_bytes}

-- What one call draws: `arc4random_uniform (15)` and `arc4random_buf` of 16 bytes, for the envelope
-- and then for the payload.
pub record Dice : Type 0 where
  pub envelope : ℕ
  pub envelope_padding : List ℕ
  pub payload : ℕ
  pub payload_padding : List ℕ

-- What the two functions of the system give: a number below their argument, and the bytes asked for.
pub record IsDice (d : Dice) : Type 0 where
  pub envelope_below : d.envelope < 15
  pub envelope_fits : length d.envelope_padding ≡ 16
  pub payload_below : d.payload < 15
  pub payload_fits : length d.payload_padding ≡ 16

-- `h` and `l` of the functions, in one byte: the high part of the padding and the rest of 16.
unfoldable pub padding_length : ℕ → ℕ
padding_length drawn = let h = drawn + 1 in bit_or (h * 2 ^ 4) (16 - h)

-- A uuid in memory from `calloc`, which `uuuid2_gen_nil` leaves as it is.
abbrev pub nil_uuid : Uuid
nil_uuid = replicate 16 0

unfoldable pub chat_packet_init0 : Dice → ChatPacket
chat_packet_init0 d = record {
  cmd = cmd_invaild_cmd;
  flags = 0;
  payload_length = 0;
  serial = 0;
  was_encrypted = 2 ^ 32 - 1;
  controlers = [];
  num_of_controllers = 0;
  nonce = replicate nonce_bytes 0;
  envelope_length = 0;
  envelope_random_padding_length = padding_length d.envelope;
  envelope_random_padding = d.envelope_padding;
  to = record { u0 = nil_uuid; u1 = nil_uuid };
  from = record { u0 = nil_uuid; u1 = nil_uuid };
  publickey = replicate publickey_bytes 0;
  payload_random_padding_length = padding_length d.payload;
  payload_random_padding = d.payload_padding;
  payload = [];
  action = action_null;
  action_control = 0;
  action_type = action_type_null;
  action_value = 0;
  action_length = 0;
  action_data = [];
}

-- A pointer that is not null.
abbrev pub is_object : List ℕ → Bool
is_object [] = false
is_object (x ∷ xs) = true

-- The payload is copied; the length is kept also where there is nothing to copy.
unfoldable pub chat_packet_init :
    Dice → Config → Pairing → Command → List ℕ → ℕ → ℕ → Outcome ChatPacket
chat_packet_init d config pair cmd payload len flags = do
  x ← read payload 0 len
  copied ← write (if is_object payload && ltb 0 len then calloc len else []) 0 x
  ok (record {
    cmd = cmd;
    flags = flags;
    payload_length = len;
    serial = 0;
    was_encrypted = 2 ^ 32 - 1;
    controlers = [];
    num_of_controllers = 0;
    nonce = replicate nonce_bytes 0;
    envelope_length = 0;
    envelope_random_padding_length = padding_length d.envelope;
    envelope_random_padding = d.envelope_padding;
    to = pair.uuid;
    from = config.uuid;
    publickey = replicate publickey_bytes 0;
    payload_random_padding_length = padding_length d.payload;
    payload_random_padding = d.payload_padding;
    payload = copied;
    action = action_null;
    action_control = 0;
    action_type = action_type_null;
    action_value = 0;
    action_length = 0;
    action_data = [];
  })
