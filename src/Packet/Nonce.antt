-- ===== src/Packet/Nonce.antt =====
-- `chatPacket_calcNonce` of src/dpdChatPacket/dpdChatPacket.c: the nonce of one message.
pub mod Laws
use dpd_chat_fabric.Prelude.{
  ℕ, suc, ◌+◌, ◌-◌, ◌*◌, ◌/◌, ◌%◌, ◌^◌, ◌<◌, ◌≡◌, refl, sym, ap, ◌∙◌, List, [], ◌∷◌, ◌++◌, length,
  take, drop, Outcome, ok, fault, no_fuel, ◌>>=◌, read, write, be32, of_be32, of_be32-be32, u32,
  arith,
}
use dpd_chat_fabric.Types.Structs.{nonce_bytes}

-- The first and the last four bytes of the copy are read as words, the serial is added to the last
-- with wrap-around, and both are written back.
unfoldable pub calc_nonce : ℕ → List ℕ → Outcome (List ℕ)
calc_nonce serial nonce = do
  session ← read nonce 0 nonce_bytes
  ninc ← read session 0 4
  ninc2 ← read session (nonce_bytes - 4) 4
  session' ← write session 0 (be32 (of_be32 ninc))
  write session' (nonce_bytes - 4) (be32 (u32 (of_be32 ninc2 + serial)))
