-- ===== src/Packet.antt =====
-- src/dpdChatPacket/dpdChatPacket.c: packets, their nonces, encoding and decoding.
pub mod Nonce
pub mod Names
pub mod Init
pub mod Encode
pub mod Decode
