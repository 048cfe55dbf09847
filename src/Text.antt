-- ===== src/Text.antt =====
-- Bytes as hexadecimal text: `%02x` of the C library, which src/uuid/uuuid2.c and src/util/util.c print
-- and scan with.
pub mod Dump
pub mod Uuids
use dpd_chat_fabric.Prelude.{ℕ, ◌<◌, ◌≡◌, Option, some, List, [], ◌∷◌, ◌++◌, length}

-- What `%02x` prints for a byte, and what it scans: the number, and what stands behind it.
pub record Stdio : Type 0 where
  pub print_hex : ℕ → List ℕ
  pub scan_hex : List ℕ → Option (ℕ × List ℕ)

-- A byte is printed as two digits, and two digits are scanned whatever follows them.
pub record StdioLaws (io : Stdio) : Type 0 where
  pub two_digits : (b : ℕ) → b < 256 → length (io.print_hex b) ≡ 2
  pub scanned :
      (b : ℕ) (rest : List ℕ) → b < 256 → io.scan_hex (io.print_hex b ++ rest) ≡ some (b, rest)

pub data AreBytes : List ℕ → Type 0 where
  none_left : AreBytes []
  one_more : {b : ℕ} {bs : List ℕ} → b < 256 → AreBytes bs → AreBytes (b ∷ bs)
