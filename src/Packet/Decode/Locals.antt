-- ===== src/Packet/Decode/Locals.antt =====
-- The variables of `chatPacket_decode` of src/dpdChatPacket/dpdChatPacket.c, and its two tags with
-- encrypted contents.
use dpd_chat_fabric.Prelude.{
  ℕ, ◌+◌, ◌-◌, Bool, true, false, Option, none, some, List, Outcome, ok, fault, ◌>>=◌, read, sub32,
  ◌==◌, if◌then◌else◌, bit_or,
}
use dpd_chat_fabric.Types.Structs.{ChatPacket, Control, Pairing, mac_bytes, seal_bytes}
use dpd_chat_fabric.Crypto.{Crypto}
use dpd_chat_fabric.Packet.Nonce.{calc_nonce}

-- What the function reads besides the buffer. `fresh` is what fresh memory from `malloc` holds.
pub record DecodeEnv : Type 0 where
  pub crypto : Crypto
  pub fresh : Control
  pub pair : Pairing

-- The local variables that outlive a round of the loop, and the packet. `dangling` says that
-- `decrypted` points to memory that was freed.
pub record Cursor : Type 0 where
  pub i : ℕ
  pub h : ℕ
  pub l : ℕ
  pub hp : ℕ
  pub lp : ℕ
  pub cur_controler : ℕ
  pub dangling : Bool
  pub cp : ChatPacket

-- The packet as it is on return, and whether the function returned 0.
pub record Decoded : Type 0 where
  pub cp : ChatPacket
  pub accepted : Bool

-- The end of a round: the loop goes on, or the function returns.
pub data Round : Type 0 where
  next : Cursor → Round
  return : Decoded → Round

abbrev pub start : ChatPacket → Cursor
start cp = record {
  i = 0;
  h = 0;
  l = 0;
  hp = 0;
  lp = 0;
  cur_controler = 0;
  dangling = false;
  cp = cp;
}

abbrev pub give_up : Cursor → Round
give_up s = return (record { cp = s.cp; accepted = false })

-- Move the index, with a new packet.
abbrev pub advance : Cursor → ℕ → ChatPacket → Round
advance s n cp = next (record s { i = s.i + n; cp = cp })

-- The nested call on decrypted bytes.
abbrev pub Nested : Type 0
Nested = List ℕ → ℕ → ChatPacket → Outcome Decoded

-- Verify the MAC behind n - 16 bytes of cipher text at index i, and decrypt them.
unfoldable pub open_sealed : Crypto → List ℕ → List ℕ → List ℕ → ℕ → ℕ → Outcome (Option (List ℕ))
open_sealed c key nonce b i n = do
  text ← read b i (sub32 n mac_bytes)
  mac ← read b (i + n - mac_bytes) mac_bytes
  ok (
      if c.poly1305_verify (c.poly1305_auth text key) mac == 1
      then some (c.s20_crypt key nonce text)
      else none)

-- After the nested call on an envelope: 0 is returned at once, and -1 is passed over.
abbrev pub after_envelope : Cursor → Decoded → Round
after_envelope s d = if d.accepted then return d else next (record s { cp = d.cp })

unfoldable pub decode_envelope : DecodeEnv → Nested → List ℕ → Cursor → Outcome Round
decode_envelope env nested b s = do
  let cp = record (s.cp) { was_encrypted = bit_or (s.cp).was_encrypted 2 }
  let n = cp.envelope_length
  opened ← open_sealed env.crypto (env.pair).sharedkey (env.pair).nullnonce b s.i n
  elim opened [
    | none ↦ ok (give_up (record s { cp = cp }))
    | some decrypted ↦ do
      d ← nested decrypted (sub32 n seal_bytes) cp
      ok (after_envelope (record s { i = s.i + n; dangling = false }) d)
  ]

-- After the nested call on a payload: 0 goes on behind it, and -1 is returned.
abbrev pub after_payload : Cursor → Decoded → Round
after_payload s d = if d.accepted then next (record s { cp = d.cp; dangling = true }) else return d

-- A MAC that does not verify frees `decrypted`, a second time if it is dangling.
unfoldable pub decode_encrypted_payload : DecodeEnv → Nested → List ℕ → Cursor → Outcome Round
decode_encrypted_payload env nested b s = do
  let cp = record (s.cp) { was_encrypted = bit_or (s.cp).was_encrypted 1 }
  let n = cp.payload_length
  session ← calc_nonce cp.serial (env.pair).mynonce
  opened ← open_sealed env.crypto (env.pair).sharedkey session b s.i n
  elim opened [
    | none ↦ if s.dangling then fault else ok (give_up (record s { cp = cp }))
    | some decrypted ↦ do
      d ← nested decrypted (sub32 n mac_bytes) cp
      ok (after_payload (record s { i = s.i + n }) d)
  ]
