-- ===== src/Crypto.antt =====
-- The cryptography that the packets rest on: the copies of salsa20, poly1305-donna and
-- curve25519-donna under src/crypto, which are other projects' code, as a parameter of the model.
use dpd_chat_fabric.Prelude.{ℕ, ◌≡◌, List, length}

-- `s20_crypt (key, S20_KEYLEN_256, nonce, 0, buf, len)` as the buffer afterwards, `poly1305_auth` as
-- the MAC of a message under a key, `poly1305_verify` of two MACs, and `curve25519_donna (out, secret,
-- base)` as its output.
pub record Crypto : Type 0 where
  pub s20_crypt : List ℕ → List ℕ → List ℕ → List ℕ
  pub poly1305_auth : List ℕ → List ℕ → List ℕ
  pub poly1305_verify : List ℕ → List ℕ → ℕ
  pub curve25519_donna : List ℕ → List ℕ → List ℕ

-- What the code relies on: a stream cipher keeps the length and undoes itself, a MAC has 16 bytes,
-- equal MACs verify, and a shared key has 32 bytes.
pub record CryptoLaws (c : Crypto) : Type 0 where
  pub crypt_length : (k n m : List ℕ) → length (c.s20_crypt k n m) ≡ length m
  pub crypt_twice : (k n m : List ℕ) → c.s20_crypt k n (c.s20_crypt k n m) ≡ m
  pub auth_length : (m k : List ℕ) → length (c.poly1305_auth m k) ≡ 16
  pub verify_same : (m : List ℕ) → c.poly1305_verify m m ≡ 1
